-- ===== src/Cpu/CsrFile.antt =====
-- src/CSRFile.sv, with the constants of include/riscv.svh.
pub mod Masks
pub mod Traps
pub mod Access
use dae_pipeline_cpu.Prelude.{ℕ, Bool, not, ◌&&◌, ◌||◌, ◌==◌, if◌then◌else◌, bit_and, bit_or}
use dae_pipeline_cpu.Cpu.Word.{slice, not32}
use dae_pipeline_cpu.Cpu.Types.{SystemKind, sys_csr_rw, sys_csr_rs, sys_csr_rc}

abbrev pub csr_mstatus : ℕ
csr_mstatus = 0x300

abbrev pub csr_misa : ℕ
csr_misa = 0x301

abbrev pub csr_mie : ℕ
csr_mie = 0x304

abbrev pub csr_mtvec : ℕ
csr_mtvec = 0x305

abbrev pub csr_mscratch : ℕ
csr_mscratch = 0x340

abbrev pub csr_mepc : ℕ
csr_mepc = 0x341

abbrev pub csr_mcause : ℕ
csr_mcause = 0x342

abbrev pub csr_mtval : ℕ
csr_mtval = 0x343

abbrev pub csr_mip : ℕ
csr_mip = 0x344

abbrev pub csr_mvendorid : ℕ
csr_mvendorid = 0xf11

abbrev pub csr_marchid : ℕ
csr_marchid = 0xf12

abbrev pub csr_mimpid : ℕ
csr_mimpid = 0xf13

abbrev pub csr_mhartid : ℕ
csr_mhartid = 0xf14

abbrev pub misa_value : ℕ
misa_value = 0x40000100

abbrev pub mstatus_mie : ℕ
mstatus_mie = 0x8

abbrev pub mstatus_mpie : ℕ
mstatus_mpie = 0x80

abbrev pub mstatus_mpp_m : ℕ
mstatus_mpp_m = 0x1800

abbrev pub mstatus_mask : ℕ
mstatus_mask = bit_or mstatus_mie mstatus_mpie

abbrev pub mie_mask : ℕ
mie_mask = bit_or (bit_or 0x8 0x80) 0x800

-- MTVEC_MASK and MEPC_MASK
abbrev pub word_mask : ℕ
word_mask = 0xfffffffc

abbrev pub mip_msip : ℕ
mip_msip = 0x8

abbrev pub mip_mtip : ℕ
mip_mtip = 0x80

abbrev pub mip_meip : ℕ
mip_meip = 0x800

pub record CsrFile : Type 0 where
  pub mstatus_q : ℕ
  pub mie_q : ℕ
  pub mtvec_q : ℕ
  pub mscratch_q : ℕ
  pub mepc_q : ℕ
  pub mcause_q : ℕ
  pub mtval_q : ℕ

abbrev pub reset : CsrFile
reset = record {
  mstatus_q = 0;
  mie_q = 0;
  mtvec_q = 0;
  mscratch_q = 0;
  mepc_q = 0;
  mcause_q = 0;
  mtval_q = 0;
}

-- The outputs `mip_o`, `mstatus_o`, `mie_o`, `mtvec_o`, which `mtvec_base_o` is too, and `mepc_o`.
unfoldable pub mip_o : Bool → Bool → Bool → ℕ
mip_o msip_i mtip_i meip_i =
    bit_or (bit_or (if msip_i then mip_msip else 0) (if mtip_i then mip_mtip else 0))
      (if meip_i then mip_meip else 0)

unfoldable pub mstatus_o : CsrFile → ℕ
mstatus_o c = bit_or (bit_and c.mstatus_q mstatus_mask) mstatus_mpp_m

unfoldable pub mie_o : CsrFile → ℕ
mie_o c = bit_and c.mie_q mie_mask

unfoldable pub mtvec_o : CsrFile → ℕ
mtvec_o c = bit_and c.mtvec_q word_mask

unfoldable pub mepc_o : CsrFile → ℕ
mepc_o c = bit_and c.mepc_q word_mask

unfoldable pub recognised : ℕ → Bool
recognised addr =
    addr == csr_mstatus
    || addr == csr_misa
    || addr == csr_mie
    || addr == csr_mtvec
    || addr == csr_mscratch
    || addr == csr_mepc
    || addr == csr_mcause
    || addr == csr_mtval
    || addr == csr_mip
    || addr == csr_mvendorid
    || addr == csr_marchid
    || addr == csr_mimpid
    || addr == csr_mhartid

unfoldable pub writable : ℕ → Bool
writable addr = recognised addr && not (slice addr 11 10 == 3)

pub read_csr : CsrFile → ℕ → ℕ → ℕ
read_csr c mip addr =
    if addr == csr_mstatus
    then mstatus_o c
    else if addr == csr_misa
    then misa_value
    else if addr == csr_mie
    then mie_o c
    else if addr == csr_mtvec
    then mtvec_o c
    else if addr == csr_mscratch
    then c.mscratch_q
    else if addr == csr_mepc
    then mepc_o c
    else if addr == csr_mcause
    then c.mcause_q
    else if addr == csr_mtval
    then c.mtval_q
    else if addr == csr_mip
    then mip
    else 0

pub mask_write : ℕ → ℕ → ℕ
mask_write addr value =
    if addr == csr_mstatus
    then bit_and value mstatus_mask
    else if addr == csr_mie
    then bit_and value mie_mask
    else if addr == csr_mtvec || addr == csr_mepc
    then bit_and value word_mask
    else value

-- `csr_new_o`
unfoldable pub csr_new : SystemKind → ℕ → ℕ → ℕ
csr_new sys_csr_rw old source = source
csr_new sys_csr_rs old source = bit_or old source
csr_new sys_csr_rc old source = bit_and old (not32 source)
csr_new _ old source = old

-- `csr_illegal_o`
pub csr_illegal : Bool → ℕ → Bool → Bool
csr_illegal csr_valid addr csr_writes =
    csr_valid && (not (recognised addr) || csr_writes && not (writable addr))

-- The inputs that change the registers.
pub record CsrIn : Type 0 where
  pub csr_valid : Bool
  pub csr_op : SystemKind
  pub csr_addr : ℕ
  pub csr_source : ℕ
  pub csr_writes : Bool
  pub trap_entry : Bool
  pub trap_cause : ℕ
  pub trap_epc : ℕ
  pub trap_tval : ℕ
  pub mret : Bool

-- The case on the address of a write.
unfoldable pub put : CsrFile → ℕ → ℕ → CsrFile
put c addr new =
    if addr == csr_mstatus
    then record c { mstatus_q = mask_write addr new }
    else if addr == csr_mie
    then record c { mie_q = mask_write addr new }
    else if addr == csr_mtvec
    then record c { mtvec_q = mask_write addr new }
    else if addr == csr_mscratch
    then record c { mscratch_q = new }
    else if addr == csr_mepc
    then record c { mepc_q = mask_write addr new }
    else if addr == csr_mcause
    then record c { mcause_q = new }
    else if addr == csr_mtval
    then record c { mtval_q = new }
    else c

-- The registers after an edge without a reset.
unfoldable pub step : CsrFile → ℕ → CsrIn → CsrFile
step c mip i =
    let new = csr_new i.csr_op (read_csr c mip i.csr_addr) i.csr_source in
    let written =
      if i.csr_valid && i.csr_writes && not (csr_illegal i.csr_valid i.csr_addr i.csr_writes)
      then put c i.csr_addr new
      else c in
    if i.trap_entry
    then record c {
      mepc_q = bit_and i.trap_epc word_mask;
      mcause_q = i.trap_cause;
      mtval_q = i.trap_tval;
      mstatus_q = if bit_and c.mstatus_q mstatus_mie == 0 then 0 else mstatus_mpie;
    }
    else if i.mret
    then record written {
      mstatus_q =
          bit_or mstatus_mpie (if bit_and c.mstatus_q mstatus_mpie == 0 then 0 else mstatus_mie);
    }
    else written
