-- ===== src/Cpu/CsrFile/Traps.antt =====
-- A trap, the handler and the MRET that ends it.
use dae_pipeline_cpu.Prelude.{
  ℕ, ◌*◌, ◌/◌, ◌%◌, ◌^◌, ◌≡◌, refl, arith, bit_and, bit_or, ◌==◌, ◌∙◌, ap, Bool, true, false, List,
  [], ◌∷◌, ◌≢◌, All, ◌&&◌, not, if◌then◌else◌,
}
use dae_pipeline_cpu.Cpu.CsrFile.{
  CsrFile, CsrIn, mstatus_mie, mstatus_mpie, word_mask, mstatus_o, mepc_o, csr_mstatus, csr_mepc,
  step, put, csr_illegal, csr_new, read_csr,
}
use dae_pipeline_cpu.Cpu.CsrFile.Masks.{bit_and-mie, bit_and-mpie, bit_and-word, mstatus_o_lem}

-- What a handler may do up to its MRET: any CSR instruction but one that addresses `mstatus` or
-- `mepc`, and any cycle without one.
pub record Quiet (i : ℕ × CsrIn) : Type 0 where
  pub no_trap : i.1.trap_entry ≡ false
  pub no_mret : i.1.mret ≡ false
  pub addresses : (i.1.csr_addr ≢ csr_mstatus) × (i.1.csr_addr ≢ csr_mepc)

abbrev pub run : CsrFile → List (ℕ × CsrIn) → CsrFile
run c [] = c
run c ((mip, i) ∷ is) = run (step c mip i) is

-- The two registers on which a return depends.
abbrev Kept : CsrFile → CsrFile → Type 0
Kept c c' = (c'.mstatus_q ≡ c.mstatus_q) × (c'.mepc_q ≡ c.mepc_q)

put-Kept :
    (c : CsrFile) (addr new : ℕ) → addr ≢ csr_mstatus → addr ≢ csr_mepc → Kept c (put c addr new)
unfolding put
put-Kept c addr new n m = ground arith

Kept-if :
    (b : Bool) (c : CsrFile) (addr new : ℕ)
    → (addr ≢ csr_mstatus) × (addr ≢ csr_mepc)
    → Kept c (if b then put c addr new else c)
Kept-if true c addr new q = put-Kept c addr new q.0 q.1
Kept-if false c addr new q = (refl, refl)

step-Kept : (c : CsrFile) (i : ℕ × CsrIn) → Quiet i → Kept c (step c i.0 i.1)
unfolding step
step-Kept c (mip, i) q =
    rw (q.no_trap, q.no_mret)
      (Kept-if
        (i.csr_valid && i.csr_writes && not (csr_illegal i.csr_valid i.csr_addr i.csr_writes)) c
        i.csr_addr (csr_new i.csr_op (read_csr c mip i.csr_addr) i.csr_source) q.addresses)

run-Kept : (c : CsrFile) (is : List (ℕ × CsrIn)) → All Quiet is → Kept c (run c is)
run-Kept c [] q = (refl, refl)
run-Kept c (i ∷ is) q =
    let (a, b) = run-Kept (step c i.0 i.1) is q.1 in
    let (a', b') = step-Kept c i q.0 in (a ∙ a', b ∙ b')

pub interrupts_of :
    (c : CsrFile) → bit_and (mstatus_o c) mstatus_mie ≡ bit_and c.mstatus_q mstatus_mie
interrupts_of c = omega (arith, bit_and-mie (mstatus_o c), mstatus_o_lem c, bit_and-mie c.mstatus_q)

saved_off : (b : Bool) → bit_and (if b then 0 else mstatus_mpie) mstatus_mie ≡ 0
saved_off true = refl
saved_off false = refl

restored :
    (b : Bool)
    → bit_and (bit_or mstatus_mpie (if b then 0 else mstatus_mie)) mstatus_mie
      ≡ (if b then 0 else mstatus_mie)
restored true = refl
restored false = refl

pub enter_lem :
    (c : CsrFile) (mip : ℕ) (t : CsrIn)
    → t.trap_entry ≡ true
    → let c1 = step c mip t in
      (bit_and c1.mstatus_q mstatus_mie ≡ 0)
      × (c1.mstatus_q / 128 % 2 ≡ c.mstatus_q / 8 % 2)
      × (mepc_o c1 ≡ t.trap_epc / 4 % 2 ^ 30 * 4)
unfolding step mepc_o
enter_lem c mip t e = rw e (
  saved_off (bit_and c.mstatus_q mstatus_mie == 0),
  ground (arith, bit_and-mie c.mstatus_q),
  omega (arith, bit_and-word t.trap_epc, bit_and-word (bit_and t.trap_epc word_mask)),
)

mret_lem :
    (c : CsrFile) (mip : ℕ) (r : CsrIn)
    → r.trap_entry ≡ false
    → r.csr_valid ≡ false
    → r.mret ≡ true
    → bit_and (step c mip r).mstatus_q mstatus_mie ≡ c.mstatus_q / 128 % 2 * 8
unfolding step
mret_lem c mip r e f g =
    rw (e, f, g, restored (bit_and c.mstatus_q mstatus_mpie == 0))
      (ground (arith, bit_and-mpie c.mstatus_q))

-- A trap switches the interrupts off, its handler may read, write, set and clear every CSR but
-- mstatus and mepc, and the MRET that follows goes to the address of the instruction that trapped,
-- on a word boundary, with the interrupts as they were before the trap.
pub trap_return :
    (c : CsrFile) (mip : ℕ) (t : CsrIn) (handler : List (ℕ × CsrIn)) (mip' : ℕ) (r : CsrIn)
    → t.trap_entry ≡ true
    → All Quiet handler
    → r.trap_entry ≡ false
    → r.csr_valid ≡ false
    → r.mret ≡ true
    → let c1 = run (step c mip t) handler in
      let c2 = step c1 mip' r in
      (bit_and (mstatus_o c1) mstatus_mie ≡ 0)
      × (mepc_o c1 ≡ t.trap_epc / 4 % 2 ^ 30 * 4)
      × (bit_and (mstatus_o c2) mstatus_mie ≡ bit_and (mstatus_o c) mstatus_mie)
unfolding mepc_o
trap_return c mip t handler mip' r enter quiet e f g =
    let (off, saved, epc) = enter_lem c mip t enter in
    let (same, pc) = run-Kept (step c mip t) handler quiet in
    let c1 = run (step c mip t) handler in
    (
      interrupts_of c1 ∙ ap (λ (m : ℕ). bit_and m mstatus_mie) same ∙ off,
      ap (λ (m : ℕ). bit_and m word_mask) pc ∙ epc,
      omega (
        arith,
        interrupts_of (step c1 mip' r),
        mret_lem c1 mip' r e f g,
        interrupts_of c,
        bit_and-mie c.mstatus_q,
        saved,
        same,
      ),
    )

-- A trap leaves the other registers, whatever instruction shares its cycle.
pub enter_kept :
    (c : CsrFile) (mip : ℕ) (t : CsrIn)
    → t.trap_entry ≡ true
    → let c1 = step c mip t in
      (c1.mie_q ≡ c.mie_q)
      × (c1.mtvec_q ≡ c.mtvec_q)
      × (c1.mscratch_q ≡ c.mscratch_q)
      × (c1.mcause_q ≡ t.trap_cause)
      × (c1.mtval_q ≡ t.trap_tval)
unfolding step
enter_kept c mip t e = rw e (refl, refl, refl, refl, refl)

-- The whole effect of an MRET.
pub mret_step :
    (c : CsrFile) (mip : ℕ) (r : CsrIn)
    → r.trap_entry ≡ false
    → r.csr_valid ≡ false
    → r.mret ≡ true
    → step c mip r ≡ record c {
      mstatus_q =
          bit_or mstatus_mpie (if bit_and c.mstatus_q mstatus_mpie == 0 then 0 else mstatus_mie);
    }
unfolding step
mret_step c mip r e f g = rw (e, f, g) refl
