-- ===== src/Cpu/CsrFile/Access.antt =====
-- A CSR instruction as a read and a write of the registers that the addresses name.
use dae_pipeline_cpu.Prelude.{
  ℕ, ◌+◌, ◌-◌, ◌*◌, ◌/◌, ◌%◌, ◌^◌, ◌≡◌, refl, ◌∙◌, ap, arith, bit_and, bit_or, Bool, true, false,
  not, ◌&&◌, ◌||◌, ◌==◌, if◌then◌else◌,
}
use dae_pipeline_cpu.Bits.{bit_or_above}
use dae_pipeline_cpu.Cpu.Types.{
  SystemKind, sys_not, sys_ecall, sys_ebreak, sys_mret, sys_wfi, sys_csr_rw, sys_csr_rs, sys_csr_rc,
}
use dae_pipeline_cpu.Cpu.CsrFile.{
  CsrFile, CsrIn, mstatus_mask, mstatus_mpp_m, mie_mask, word_mask, csr_mstatus, csr_mie, csr_mtvec,
  csr_mepc, mstatus_o, mie_o, mtvec_o, mepc_o, step, put, csr_illegal, csr_new, read_csr,
  mask_write, recognised, writable,
}
use dae_pipeline_cpu.Cpu.CsrFile.Masks.{bit_and-mask, bit_and-word, bit_and-mie_mask}

-- mstatus, mie, mtvec, mscratch, mepc, mcause and mtval, the addresses that hold what is written; a
-- write of another writable one is ignored.
abbrev pub is_stored : ℕ → Bool
is_stored addr =
    addr == 0x300
    || addr == 0x304
    || addr == 0x305
    || addr == 0x340
    || addr == 0x341
    || addr == 0x342
    || addr == 0x343

-- What the instructions make of the register and the source, by the manual: CSRRW, CSRRS, CSRRC.
abbrev pub modified : SystemKind → ℕ → ℕ → ℕ
modified sys_csr_rw old source = source
modified sys_csr_rs old source = bit_or old source
modified sys_csr_rc old source = bit_and old (2 ^ 32 - 1 - source)
modified _ old source = old

-- What a read gives after a write of `value`, by the fields of the manual that the processor has:
-- MIE, MPIE and the machine mode in MPP; MSIE, MTIE and MEIE; a word address.
abbrev pub legal : ℕ → ℕ → ℕ
legal addr value =
    if addr == 0x300
    then value / 2 ^ 3 % 2 * 2 ^ 3 + value / 2 ^ 7 % 2 * 2 ^ 7 + 3 * 2 ^ 11
    else if addr == 0x304
    then value / 2 ^ 3 % 2 * 2 ^ 3 + value / 2 ^ 7 % 2 * 2 ^ 7 + value / 2 ^ 11 % 2 * 2 ^ 11
    else if addr == 0x305 || addr == 0x341
    then value / 4 % 2 ^ 30 * 4
    else value

modified_lem : (op : SystemKind) (old source : ℕ) → csr_new op old source ≡ modified op old source
unfolding csr_new
modified_lem sys_csr_rw old source = refl
modified_lem sys_csr_rs old source = refl
modified_lem sys_csr_rc old source = refl
modified_lem sys_not old source = refl
modified_lem sys_ecall old source = refl
modified_lem sys_ebreak old source = refl
modified_lem sys_mret old source = refl
modified_lem sys_wfi old source = refl

-- The same by the masks of the code.
abbrev by_masks : ℕ → ℕ → ℕ
by_masks addr value =
    if addr == csr_mstatus
    then bit_or (bit_and value mstatus_mask) mstatus_mpp_m
    else if addr == csr_mie
    then bit_and value mie_mask
    else if addr == csr_mtvec || addr == csr_mepc
    then bit_and value word_mask
    else value

mode :
    (a : ℕ)
    → bit_or (bit_and a mstatus_mask) mstatus_mpp_m
      ≡ a / 2 ^ 3 % 2 * 2 ^ 3 + a / 2 ^ 7 % 2 * 2 ^ 7 + 3 * 2 ^ 11
mode a = omega (
  arith,
  bit_and-mask a,
  bit_or_above 11 3 (bit_and a mstatus_mask) (omega (arith, bit_and-mask a)),
)

by_masks_lem : (addr value : ℕ) → by_masks addr value ≡ legal addr value
by_masks_lem addr value = rw (mode value, bit_and-mie_mask value, bit_and-word value) refl

mask_twice : (a : ℕ) → bit_and (bit_and a mstatus_mask) mstatus_mask ≡ bit_and a mstatus_mask
mask_twice a = omega (arith, bit_and-mask a, bit_and-mask (bit_and a mstatus_mask))

word_twice : (a : ℕ) → bit_and (bit_and a word_mask) word_mask ≡ bit_and a word_mask
word_twice a = omega (arith, bit_and-word a, bit_and-word (bit_and a word_mask))

mie_twice : (a : ℕ) → bit_and (bit_and a mie_mask) mie_mask ≡ bit_and a mie_mask
mie_twice a = omega (arith, bit_and-mie_mask a, bit_and-mie_mask (bit_and a mie_mask))

put_masks :
    (c : CsrFile) (mip addr new other : ℕ)
    → read_csr (put c addr new) mip other
      ≡ (if other == addr && is_stored addr then by_masks addr new else read_csr c mip other)
unfolding put read_csr mask_write mstatus_o mie_o mtvec_o mepc_o
put_masks c mip addr new other = ground (arith, mask_twice new, word_twice new, mie_twice new)

put_lem :
    (c : CsrFile) (mip addr new other : ℕ)
    → read_csr (put c addr new) mip other
      ≡ (if other == addr && is_stored addr then legal addr new else read_csr c mip other)
put_lem c mip addr new other =
    put_masks c mip addr new other
    ∙ ap (λ (x : ℕ). if other == addr && is_stored addr then x else read_csr c mip other)
        (by_masks_lem addr new)

-- Each register that holds what is written may be written.
stored_writable :
    (addr : ℕ) (v w o : Bool)
    → (v && w && writable addr && (o && is_stored addr)) ≡ (v && w && (o && is_stored addr))
unfolding writable recognised
stored_writable addr v w o = ground arith

gate_lem :
    (valid writes known write_ok : Bool)
    → (write_ok ≡ true → known ≡ true)
    → (valid && writes && not (valid && (not known || writes && not write_ok)))
      ≡ (valid && writes && write_ok)
gate_lem valid writes known write_ok h = ground arith

writable-recognised : (addr : ℕ) → writable addr ≡ true → recognised addr ≡ true
unfolding writable
writable-recognised addr h = ground arith

-- In a cycle without a trap and an MRET, every address of a CSR reads after the edge what it read
-- before, but the one of a CSR instruction that commits and writes, where that is mstatus, mie,
-- mtvec, mscratch, mepc, mcause or mtval: there the fields that the register has take the value that
-- CSRRW, CSRRS or CSRRC gives for what was read and the source.
pub access_lem :
    (c : CsrFile) (mip : ℕ) (i : CsrIn) (mip' other : ℕ)
    → i.trap_entry ≡ false
    → i.mret ≡ false
    → read_csr (step c mip i) mip' other ≡ (
        if i.csr_valid && i.csr_writes && (other == i.csr_addr && is_stored i.csr_addr)
        then legal i.csr_addr (modified i.csr_op (read_csr c mip i.csr_addr) i.csr_source)
        else read_csr c mip' other)
unfolding step csr_illegal
access_lem c mip i mip' other e f =
    rw
      (
        e,
        f,
        gate_lem i.csr_valid i.csr_writes (recognised i.csr_addr) (writable i.csr_addr)
            (writable-recognised i.csr_addr),
        modified_lem i.csr_op (read_csr c mip i.csr_addr) i.csr_source,
        ← stored_writable i.csr_addr i.csr_valid i.csr_writes (other == i.csr_addr),
      )
      (written (i.csr_valid && i.csr_writes && writable i.csr_addr)
        (modified i.csr_op (read_csr c mip i.csr_addr) i.csr_source))
  where
    written :
        (b : Bool) (new : ℕ)
        → read_csr (if b then put c i.csr_addr new else c) mip' other ≡ (
            if b && (other == i.csr_addr && is_stored i.csr_addr)
            then legal i.csr_addr new
            else read_csr c mip' other)
    written true new = put_lem c mip' i.csr_addr new other
    written false new = refl
