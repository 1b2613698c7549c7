-- ===== src/Cpu/Backend.antt =====
-- src/backend.sv.
pub mod Rows
pub mod Operands
pub mod Interrupts
pub mod Mret
use dae_pipeline_cpu.Prelude.{ℕ, Bool, true, false, not, ◌&&◌, if◌then◌else◌}
use dae_pipeline_cpu.Cpu.Types.{
  DecodedIr, InstToken, zero_token, KillEvent, zero_kill, MemReq, MemResp, CommitPacket,
  kill_token_if_younger,
}
use dae_pipeline_cpu.Cpu.Regfile
use dae_pipeline_cpu.Cpu.Regfile.{Regs, zero_regs}
use dae_pipeline_cpu.Cpu.Scoreboard
use dae_pipeline_cpu.Cpu.Scoreboard.{Scoreboard, zero_scoreboard, source, issue_valid, operand}
use dae_pipeline_cpu.Cpu.CsrFile
use dae_pipeline_cpu.Cpu.CsrFile.{
  CsrFile, CsrIn, mstatus_o, mie_o, mip_o, mtvec_o, mepc_o, read_csr, csr_new, csr_illegal,
}
use dae_pipeline_cpu.Cpu.ExeStage.{
  csr_source, csr_commit, mret_commit, exe_rd_ready, exe_redirect_valid, exe_redirect_pc, exe_out,
}
use dae_pipeline_cpu.Cpu.MemStage.{
  TrapIn, take_trap, trap_cause_o, stall, mem_rd_ready, dmem_req, mem_out, req_sent_next,
}
use dae_pipeline_cpu.Cpu.WbStage.{rf_we, commit_valid, commit}

pub record Backend : Type 0 where
  pub exe_q : InstToken
  pub mem_q : InstToken
  pub wb_q : InstToken
  pub last_step_entered_trap_q : Bool
  pub regs_q : Regs
  pub sb : Scoreboard
  pub csr : CsrFile
  pub req_sent_q : Bool

abbrev pub backend_reset : Backend
backend_reset = record {
  exe_q = zero_token;
  mem_q = zero_token;
  wb_q = zero_token;
  last_step_entered_trap_q = false;
  regs_q = zero_regs;
  sb = zero_scoreboard;
  csr = CsrFile.reset;
  req_sent_q = false;
}

-- The inputs but for the instruction: the response of the memory and the three interrupt lines.
pub record BackendIn : Type 0 where
  pub dmem_req_ready : Bool
  pub dmem_resp : MemResp
  pub msip : Bool
  pub mtip : Bool
  pub meip : Bool

abbrev pub csr_mip : BackendIn → ℕ
csr_mip i = mip_o i.msip i.mtip i.meip

abbrev pub trap_in : Backend → BackendIn → TrapIn
trap_in b i = record {
  csr_mstatus = mstatus_o b.csr;
  csr_mie = mie_o b.csr;
  csr_mip = csr_mip i;
  csr_mtvec_base = mtvec_o b.csr;
  last_step_entered_trap = b.last_step_entered_trap_q;
}

abbrev pub mem_stall : Backend → BackendIn → Bool
mem_stall b i = stall (trap_in b i) b.mem_q b.req_sent_q i.dmem_resp

abbrev pub mem_take_trap : Backend → BackendIn → Bool
mem_take_trap b i = take_trap (trap_in b i) b.mem_q

unfoldable pub backend_flush : Backend → BackendIn → Bool
backend_flush b i = mem_take_trap b i && not (mem_stall b i)

abbrev pub redirect_from_exe : Backend → BackendIn → Bool
redirect_from_exe b i = exe_redirect_valid b.exe_q (mem_stall b i) (mem_take_trap b i)

unfoldable pub kill_event : Backend → BackendIn → KillEvent
kill_event b i =
    if backend_flush b i
    then record { valid = true; epoch = b.mem_q.epoch; seq_id = b.mem_q.seq_id }
    else if redirect_from_exe b i
    then record { valid = true; epoch = b.exe_q.epoch; seq_id = b.exe_q.seq_id }
    else zero_kill

-- `redirect_valid_o` and `redirect_pc_o`
unfoldable pub redirect_valid : Backend → BackendIn → Bool
redirect_valid b i = (kill_event b i).valid

unfoldable pub redirect_pc : Backend → BackendIn → ℕ
redirect_pc b i =
    if backend_flush b i then mtvec_o b.csr else exe_redirect_pc b.exe_q (mepc_o b.csr)

-- The connections of the CSR file.
unfoldable pub csr_in : Backend → BackendIn → CsrIn
csr_in b i = record {
  csr_valid = csr_commit b.exe_q (mem_stall b i) (mem_take_trap b i);
  csr_op = b.exe_q.ir.sys_kind;
  csr_addr = b.exe_q.ir.csr_addr;
  csr_source = csr_source b.exe_q;
  csr_writes = b.exe_q.ir.csr_writes;
  trap_entry = backend_flush b i;
  trap_cause = trap_cause_o (trap_in b i) b.mem_q;
  trap_epc = b.mem_q.ir.pc;
  trap_tval = 0;
  mret = mret_commit b.exe_q (mem_stall b i) (mem_take_trap b i);
}

unfoldable pub exe_calc : Backend → BackendIn → InstToken
exe_calc b i =
    let c = csr_in b i in
    let old = read_csr b.csr (csr_mip i) c.csr_addr in
    exe_out b.exe_q old (csr_new c.csr_op old c.csr_source)
      (csr_illegal c.csr_valid c.csr_addr c.csr_writes)

abbrev pub mem_calc : Backend → BackendIn → InstToken
mem_calc b i = mem_out (trap_in b i) b.mem_q b.req_sent_q i.dmem_resp

-- MEM_FORWARDING and WB_FORWARDING
module _ (mem_forwarding wb_forwarding : Bool) where
  -- `issue_valid`, which `ir_ready_o` is too
  unfoldable pub ir_ready : Backend → BackendIn → DecodedIr → Bool → Bool
  ir_ready b i ir ir_valid =
      issue_valid mem_forwarding wb_forwarding b.sb (mem_stall b i) ir ir_valid

  -- `issue_rs1_val` and `issue_rs2_val`
  unfoldable pub issue_val : Backend → Bool → ℕ → ℕ
  issue_val b src_use idx =
      operand (source mem_forwarding wb_forwarding b.sb src_use idx) b.mem_q.rd_value
        b.wb_q.rd_value (Regfile.read b.regs_q idx)

  unfoldable pub issue_pkt : Backend → BackendIn → DecodedIr → Bool → InstToken
  issue_pkt b i ir ir_valid = record zero_token {
    valid = ir_ready b i ir ir_valid;
    epoch = ir.epoch;
    seq_id = ir.seq_id;
    ir = ir;
    rs1_val = issue_val b ir.rs1_use ir.rs1_idx;
    rs2_val = issue_val b ir.rs2_use ir.rs2_idx;
  }

  -- The registers after an edge.
  unfoldable pub backend_step : Backend → BackendIn → DecodedIr → Bool → Backend
  backend_step b i ir ir_valid =
      let kill = kill_event b i in
      let stalled = mem_stall b i in
      record {
        exe_q = if stalled then b.exe_q else kill_token_if_younger (issue_pkt b i ir ir_valid) kill;
        mem_q =
            if stalled
            then b.mem_q
            else record (kill_token_if_younger (exe_calc b i) kill) { valid = b.exe_q.valid };
        wb_q =
            if stalled
            then zero_token
            else record (kill_token_if_younger (mem_calc b i) kill) { valid = b.mem_q.valid };
        last_step_entered_trap_q =
            if commit_valid b.wb_q then b.wb_q.trap_pending else b.last_step_entered_trap_q;
        regs_q = Regfile.write b.regs_q (rf_we b.wb_q) b.wb_q.ir.rd_idx b.wb_q.rd_value;
        sb =
            Scoreboard.step b.sb kill stalled ir (ir_ready b i ir ir_valid) (exe_rd_ready b.exe_q)
              (mem_rd_ready b.mem_q b.req_sent_q i.dmem_resp);
        csr = CsrFile.step b.csr (csr_mip i) (csr_in b i);
        req_sent_q =
            req_sent_next (trap_in b i) b.mem_q b.req_sent_q (backend_flush b i) (not stalled)
              i.dmem_req_ready;
      }

-- `dmem_req_o`, `commit_valid_o` and `commit_o`
abbrev pub backend_dmem_req : Backend → BackendIn → MemReq
backend_dmem_req b i = dmem_req (trap_in b i) b.mem_q b.req_sent_q

abbrev pub backend_commit : Backend → CommitPacket
backend_commit b = commit b.wb_q (b.regs_q 10) b.csr
