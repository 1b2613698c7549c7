-- ===== src/Clint/Registers.antt =====
-- The register file that software sees: five words, each read back as written and independent of
-- the others.
use dae_pipeline_cpu.Prelude.{
  ℕ, ◌+◌, ◌*◌, ◌/◌, ◌%◌, ◌^◌, ◌<◌, ◌≡◌, refl, ◌⊎◌, inl, inr, arith, ◌∙◌, ap, ◌≢◌,
}
use dae_pipeline_cpu.Prelude.{Bool, true, false, if◌then◌else◌}
use dae_pipeline_cpu.Bits.{bit_and_mask}
use dae_pipeline_cpu.Bus.{okay, slverr}
use dae_pipeline_cpu.Clint.{Clint, read, write}
use dae_pipeline_cpu.Clint.{clint_offset_msip, clint_offset_mtimecmp_lo, clint_offset_mtimecmp_hi}
use dae_pipeline_cpu.Clint.{clint_offset_mtime_lo, clint_offset_mtime_hi}
use dae_pipeline_cpu.Clint.Halves.{low_half_lem, high_half_lem, with_low_lem, with_high_lem}

-- The values that the fields can hold.
pub record IsValid (c : Clint) : Type 0 where
  pub msip_bit : c.msip < 2
  pub mtime_word : c.mtime < 2 ^ 64
  pub mtimecmp_word : c.mtimecmp < 2 ^ 64

pub data Reg : Type 0 where
  msip mtimecmp_lo mtimecmp_hi mtime_lo mtime_hi : Reg

abbrev pub offset_of : Reg → ℕ
offset_of msip = clint_offset_msip
offset_of mtimecmp_lo = clint_offset_mtimecmp_lo
offset_of mtimecmp_hi = clint_offset_mtimecmp_hi
offset_of mtime_lo = clint_offset_mtime_lo
offset_of mtime_hi = clint_offset_mtime_hi

-- The word in a register.
abbrev pub value_of : Clint → Reg → ℕ
value_of c msip = c.msip
value_of c mtimecmp_lo = c.mtimecmp % 2 ^ 32
value_of c mtimecmp_hi = c.mtimecmp / 2 ^ 32
value_of c mtime_lo = c.mtime % 2 ^ 32
value_of c mtime_hi = c.mtime / 2 ^ 32

-- What a register keeps of a word that is written: only bit 0 of msip is there.
abbrev pub kept : Reg → ℕ → ℕ
kept msip v = v % 2
kept _ v = v

abbrev pub same_reg : Reg → Reg → Bool
same_reg msip msip = true
same_reg mtimecmp_lo mtimecmp_lo = true
same_reg mtimecmp_hi mtimecmp_hi = true
same_reg mtime_lo mtime_lo = true
same_reg mtime_hi mtime_hi = true
same_reg _ _ = false

-- A word read of a register gives its value.
pub read_reg : (c : Clint) (r : Reg) → IsValid c → read c (offset_of r) 4 ≡ (okay, value_of c r)
unfolding read
read_reg c msip v = ground (arith, bit_and_mask 1 c.msip)
read_reg c mtimecmp_lo v = rw (low_half_lem c.mtimecmp)
read_reg c mtimecmp_hi v = rw (high_half_lem c.mtimecmp v.mtimecmp_word)
read_reg c mtime_lo v = rw (low_half_lem c.mtime)
read_reg c mtime_hi v = rw (high_half_lem c.mtime v.mtime_word)

-- What a write of a whole word to a register does.
abbrev pub put : Clint → Reg → ℕ → Clint
put c msip v = record c { msip = v % 2 }
put c mtimecmp_lo v = record c { mtimecmp = c.mtimecmp / 2 ^ 32 * 2 ^ 32 + v }
put c mtimecmp_hi v = record c { mtimecmp = v * 2 ^ 32 + c.mtimecmp % 2 ^ 32 }
put c mtime_lo v = record c { mtime = c.mtime / 2 ^ 32 * 2 ^ 32 + v }
put c mtime_hi v = record c { mtime = v * 2 ^ 32 + c.mtime % 2 ^ 32 }

pub write-put :
    (c : Clint) (r : Reg) (v : ℕ)
    → IsValid c
    → v < 2 ^ 32
    → write c (offset_of r) 4 v 0xf ≡ (okay, put c r v)
unfolding write
write-put c msip v h lt = rw (bit_and_mask 1 v)
write-put c mtimecmp_lo v h lt = rw (with_low_lem c.mtimecmp v h.mtimecmp_word lt)
write-put c mtimecmp_hi v h lt = rw (with_high_lem c.mtimecmp v lt)
write-put c mtime_lo v h lt = rw (with_low_lem c.mtime v h.mtime_word lt)
write-put c mtime_hi v h lt = rw (with_high_lem c.mtime v lt)

pub put-IsValid : (c : Clint) (r : Reg) (v : ℕ) → IsValid c → v < 2 ^ 32 → IsValid (put c r v)
put-IsValid c r v h lt = ground arith

value_of-put :
    (c : Clint) (r q : Reg) (v : ℕ)
    → IsValid c
    → v < 2 ^ 32
    → value_of (put c r v) q ≡ (if same_reg r q then kept r v else value_of c q)
value_of-put c r q v h lt = ground arith

-- A word written to a register is answered OKAY and read back, msip keeping its bit 0 alone; the
-- four other registers read as before, and the device stays valid.
registers_lem :
    (c : Clint) (r q : Reg) (v : ℕ)
    → IsValid c
    → v < 2 ^ 32
    → let (resp, c') = write c (offset_of r) 4 v 0xf in
      (resp ≡ okay)
      × IsValid c'
      × (read c' (offset_of q) 4 ≡ (okay, if same_reg r q then kept r v else value_of c q))
registers_lem c r q v h lt =
    let valid = put-IsValid c r v h lt in
    rw (write-put c r v h lt) (
      refl,
      valid,
      read_reg (put c r v) q valid ∙ ap (λ (x : ℕ). (okay, x)) (value_of-put c r q v h lt),
    )

-- The offset is that of a register.
abbrev pub IsLive : ℕ → Type 0
IsLive offset = (r : Reg) × (offset ≡ offset_of r)

no_reg : (offset : ℕ) → ¬ (IsLive offset) → (r : Reg) → ¬ (offset ≡ offset_of r)
no_reg offset n r e = n (r, e)

read_dead : (c : Clint) (offset width : ℕ) → ¬ (IsLive offset) → read c offset width ≡ (slverr, 0)
unfolding read
read_dead c offset width n =
    let away = no_reg offset n in
    ground (arith, away msip, away mtimecmp_lo, away mtimecmp_hi, away mtime_lo, away mtime_hi)

write_dead :
    (c : Clint) (offset width value strb : ℕ)
    → ¬ (IsLive offset)
    → write c offset width value strb ≡ (slverr, c)
unfolding write
write_dead c offset width value strb n =
    let away = no_reg offset n in
    ground (arith, away msip, away mtimecmp_lo, away mtimecmp_hi, away mtime_lo, away mtime_hi)

-- A read of another width than the word, or at an offset of no register, is a subordinate error
-- and gives 0.
pub read_refused :
    (c : Clint) (offset width : ℕ)
    → (width ≢ 4) ⊎ (¬ (IsLive offset))
    → read c offset width ≡ (slverr, 0)
unfolding read
read_refused c offset width (inl ne) = ground arith
read_refused c offset width (inr n) = read_dead c offset width n

-- A write of another width, with another strobe than 0xf, or at an offset of no register, is a
-- subordinate error and changes nothing.
pub write_refused :
    (c : Clint) (offset width value strb : ℕ)
    → (width ≢ 4) ⊎ (strb ≢ 0xf) ⊎ (¬ (IsLive offset))
    → write c offset width value strb ≡ (slverr, c)
unfolding write
write_refused c offset width value strb (inl ne) = ground arith
write_refused c offset width value strb (inr (inl ne)) = ground arith
write_refused c offset width value strb (inr (inr n)) = write_dead c offset width value strb n

-- Every write of a 32-bit value, answered or refused, keeps the device valid.
pub write-IsValid :
    (c : Clint) (offset width value strb : ℕ)
    → IsValid c
    → value < 2 ^ 32
    → IsValid (write c offset width value strb).1
unfolding write
write-IsValid c offset width value strb v lt = ground (
  arith,
  bit_and_mask 1 value,
  with_low_lem c.mtimecmp value,
  with_high_lem c.mtimecmp value,
  with_low_lem c.mtime value,
  with_high_lem c.mtime value,
)
