-- ===== src/Cpu/MemStage.antt =====
-- src/mem_stage.sv: one function for each output, and the register `req_sent_q`.
pub mod Requests
use dae_pipeline_cpu.Prelude.{ℕ, Bool, true, false, not, ◌&&◌, ◌||◌, ◌==◌, if◌then◌else◌, bit_and}
use dae_pipeline_cpu.Cpu.Types.{
  InstToken, MemReq, MemResp, HaltKind, halt_none, halt_voluntary, halt_illegal, halt_bus_error_if,
  halt_bus_error_ld, halt_bus_error_st, halt_misalign_ld, halt_misalign_st, halt_double_trap,
  is_load, is_store, is_mem, is_ebreak, is_ecall, token_alive,
}
use dae_pipeline_cpu.Cpu.Lsu.{be, wdata, misaligned, load_data_filter}
use dae_pipeline_cpu.Cpu.CsrFile.{mstatus_mie, mip_meip, mip_msip, mip_mtip}

-- The inputs that decide on a trap.
pub record TrapIn : Type 0 where
  pub csr_mstatus : ℕ
  pub csr_mie : ℕ
  pub csr_mip : ℕ
  pub csr_mtvec_base : ℕ
  pub last_step_entered_trap : Bool

unfoldable pub async_cause : TrapIn → ℕ
async_cause c =
    let pending = bit_and c.csr_mie c.csr_mip in
    if not (bit_and c.csr_mstatus mstatus_mie == 0)
    then (if not (bit_and pending mip_meip == 0)
        then 0x8000000b
        else if not (bit_and pending mip_msip == 0)
        then 0x80000003
        else if not (bit_and pending mip_mtip == 0)
        then 0x80000007
        else 0)
    else 0

abbrev pub is_misaligned : InstToken → Bool
is_misaligned mem = misaligned mem.mem_addr mem.ir.mem_len

abbrev pub is_memory : InstToken → Bool
is_memory mem = token_alive mem && is_mem mem.ir

abbrev pub is_store_inst : InstToken → Bool
is_store_inst mem = token_alive mem && is_store mem.ir

unfoldable pub pre_halt : InstToken → Bool
pre_halt mem =
    token_alive mem
    && (mem.halt_observed
        || mem.ir.if_bus_error
        || mem.ir.illegal
        || is_ebreak mem.ir
        || is_memory mem && is_misaligned mem)

abbrev pub trap_wanted : TrapIn → InstToken → Bool
trap_wanted c mem = token_alive mem && (not (async_cause c == 0) || is_ecall mem.ir)

-- A trap on the first instruction of the handler.
unfoldable pub double_trap : TrapIn → InstToken → Bool
double_trap c mem =
    c.last_step_entered_trap
    && mem.ir.pc == c.csr_mtvec_base
    && trap_wanted c mem
    && not (pre_halt mem)

unfoldable pub take_halt : TrapIn → InstToken → Bool
take_halt c mem = pre_halt mem || double_trap c mem

unfoldable pub take_trap : TrapIn → InstToken → Bool
take_trap c mem = trap_wanted c mem && not (pre_halt mem) && not (double_trap c mem)

unfoldable pub trap_cause_o : TrapIn → InstToken → ℕ
trap_cause_o c mem =
    if not (token_alive mem) || pre_halt mem
    then 0
    else if not (async_cause c == 0)
    then async_cause c
    else if is_ecall mem.ir
    then 11
    else 0

-- Whether the request may be made.
abbrev pub allowed : TrapIn → InstToken → Bool
allowed c mem = not (take_trap c mem) && not (take_halt c mem) && not (is_misaligned mem)

-- `stall_o`, which `waiting` is too since it implies `token_alive`
unfoldable pub stall : TrapIn → InstToken → Bool → MemResp → Bool
stall c mem req_sent resp = is_memory mem && allowed c mem && not (req_sent && resp.resp_valid)

pub mem_rd_ready : InstToken → Bool → MemResp → Bool
mem_rd_ready mem req_sent resp =
    token_alive mem && (not (is_load mem.ir) || req_sent && resp.resp_valid)

unfoldable pub dmem_req : TrapIn → InstToken → Bool → MemReq
dmem_req c mem req_sent = record {
  req_valid = is_memory mem && not req_sent && allowed c mem;
  addr = mem.mem_addr;
  we = is_store_inst mem && allowed c mem;
  be = be mem.mem_addr mem.ir.mem_len;
  wdata = wdata mem.mem_addr mem.rs2_val mem.ir.mem_len;
}

-- The kind of a halt that is taken.
pub halt_kind_of : TrapIn → InstToken → HaltKind
halt_kind_of c mem =
    if double_trap c mem
    then halt_double_trap
    else if mem.halt_observed
    then mem.halt_kind
    else if mem.ir.if_bus_error
    then halt_bus_error_if
    else if mem.ir.illegal
    then halt_illegal
    else if is_ebreak mem.ir
    then halt_voluntary
    else if is_memory mem && is_misaligned mem
    then (if is_store_inst mem then halt_misalign_st else halt_misalign_ld)
    else halt_none

-- A response with an error has arrived.
abbrev pub bus_error : InstToken → Bool → MemResp → Bool
bus_error mem req_sent resp = is_memory mem && req_sent && resp.resp_valid && resp.error

-- `mem_o`
unfoldable pub mem_out : TrapIn → InstToken → Bool → MemResp → InstToken
mem_out c mem req_sent resp =
    let trap = take_trap c mem in
    let halt = take_halt c mem in
    record mem {
      store_strb = be mem.mem_addr mem.ir.mem_len;
      store_data = mem.rs2_val;
      store_addr = mem.mem_addr;
      rd_value =
          if token_alive mem && is_load mem.ir && resp.resp_valid
          then load_data_filter mem.mem_addr resp.rdata mem.ir.mem_len mem.ir.load_signext
          else mem.rd_value;
      trap_pending = if trap then true else mem.trap_pending;
      trap_cause = if trap then trap_cause_o c mem else mem.trap_cause;
      trap_tval = if trap then 0 else mem.trap_tval;
      halt_observed = if bus_error mem req_sent resp || halt then true else mem.halt_observed;
      halt_kind =
          if bus_error mem req_sent resp
          then (if is_store_inst mem then halt_bus_error_st else halt_bus_error_ld)
          else if halt
          then halt_kind_of c mem
          else mem.halt_kind;
    }

-- `req_sent_q` after an edge: clear, advance, dmem_req_ready.
pub req_sent_next : TrapIn → InstToken → Bool → Bool → Bool → Bool → Bool
req_sent_next c mem req_sent clear advance dmem_req_ready =
    if clear || advance
    then false
    else if (dmem_req c mem req_sent).req_valid && dmem_req_ready
    then true
    else req_sent
