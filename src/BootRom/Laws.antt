-- ===== src/BootRom/Laws.antt =====
-- What a read of the boot ROM returns.
use dae_pipeline_cpu.Prelude.{ℕ, ◌+◌, ◌%◌, ◌≤◌, ◌≡◌, inl, inr, arith, ◌==◌, if◌then◌else◌}
use dae_pipeline_cpu.Prelude.{false, refl, ltb, Bool-cases, ◌∙◌, ap}
use dae_pipeline_cpu.Bus.{okay, slverr, bad_width}
use dae_pipeline_cpu.Bytes.{IsBytes}
use dae_pipeline_cpu.Bytes.Load.{le_value, IsWidth, load_lem, bad_width_iff}
use dae_pipeline_cpu.BootRom.{
  BootRom, boot_rom_size, boot_rom_stub_w0, boot_rom_stub_w1, read, ctor,
}

-- The accesses that the ROM answers.
pub record Accepts (offset width : ℕ) : Type 0 where
  pub lanes : IsWidth width
  pub inside : offset + width ≤ boot_rom_size

-- A read of 1, 2 or 4 bytes inside the ROM, aligned or not, gives their little-endian value.
pub read_ok :
    (r : BootRom) (offset width : ℕ)
    → IsBytes r.rom
    → Accepts offset width
    → read r offset width ≡ (okay, le_value width r.rom offset)
unfolding read
read_ok r offset width h a =
    let good = (bad_width_iff width).1 a.lanes in
    let within : ltb boot_rom_size (offset + width) ≡ false = ground arith in
    rw (good, within, load_lem r.rom offset width h a.lanes)

-- Any other read is a subordinate error and gives 0.
pub read_refused :
    (r : BootRom) (offset width : ℕ) → ¬ (Accepts offset width) → read r offset width ≡ (slverr, 0)
unfolding read
read_refused r offset width n = elim (Bool-cases (bad_width width)) [
  | inl bad ↦ rw bad
  | inr good ↦ elim (Bool-cases (ltb boot_rom_size (offset + width))) [
    | inl beyond ↦ rw (good, beyond)
    | inr within ↦
        absurd (n (record { lanes = (bad_width_iff width).0 good; inside = ground arith }))
  ]
]

pub ctor-IsBytes : IsBytes ctor.rom
unfolding ctor
ctor-IsBytes i = ground arith

ctor_zero : (i : ℕ) → 8 ≤ i → ctor.rom i ≡ 0
unfolding ctor
ctor_zero i h = ground arith

ctor_word :
    (offset : ℕ)
    → offset % 4 ≡ 0
    → le_value 4 ctor.rom offset
      ≡ (if offset == 0 then boot_rom_stub_w0 else if offset == 4 then boot_rom_stub_w1 else 0)
unfolding ctor
ctor_word offset aligned = elim (Bool-cases (ltb offset 8)) [
  | inl low ↦ elim (Bool-cases (offset == 0)) [
    | inl e ↦ let e' : offset ≡ 0 = ground arith in rw e'
    | inr ne ↦ let e' : offset ≡ 4 = ground arith in rw e'
  ]
  | inr high ↦ ground (
    arith,
    ctor_zero offset,
    ctor_zero (offset + 1),
    ctor_zero (offset + 1 + 1),
    ctor_zero (offset + 1 + 1 + 1),
  )
]

-- The words of a fresh ROM: the stub jumps to the base of DRAM, and all else is 0.
pub ctor_words :
    (offset : ℕ)
    → offset % 4 ≡ 0
    → offset + 4 ≤ boot_rom_size
    → read ctor offset 4 ≡ (
      okay,
      if offset == 0 then boot_rom_stub_w0 else if offset == 4 then boot_rom_stub_w1 else 0,
    )
unfolding ctor
ctor_words offset aligned inside =
    let word =
      read_ok ctor offset 4 ctor-IsBytes (record { lanes = inr (inr refl); inside = inside }) in
    word ∙ ap (λ (v : ℕ). (okay, v)) (ctor_word offset aligned)
