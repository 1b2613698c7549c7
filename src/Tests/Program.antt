-- ===== src/Tests/Program.antt =====
-- A program of three instructions that depend on one another, on the whole core.
use dae_pipeline_cpu.Prelude.{ℕ, zero, suc, ◌≡◌, refl, true, false, ◌==◌, if◌then◌else◌}
use dae_pipeline_cpu.Cpu.Types.{MemResp, alu_add}
use dae_pipeline_cpu.Cpu.Frontend
use dae_pipeline_cpu.Cpu.Backend
use dae_pipeline_cpu.Cpu.Scoreboard
use dae_pipeline_cpu.Cpu.ExeStage
use dae_pipeline_cpu.Cpu.MemStage
use dae_pipeline_cpu.Cpu.WbStage
use dae_pipeline_cpu.Cpu.Decoder
use dae_pipeline_cpu.Cpu.Alu
use dae_pipeline_cpu.Cpu.Types
use dae_pipeline_cpu.Cpu.CsrFile
use dae_pipeline_cpu.Cpu.Fifo
use dae_pipeline_cpu.Cpu.Regfile
use dae_pipeline_cpu.Cpu.Top
use dae_pipeline_cpu.Cpu.Top.{Top, TopIn, top_imem_req}
use dae_pipeline_cpu.Cpu.Isa.{encode, op, op_imm}

-- addi x1, x0, 5; addi x2, x1, 7; add x3, x1, x2; and then words of zeros, which are illegal
abbrev program : ℕ → ℕ
program addr =
    if addr == 0
    then encode (op_imm alu_add 1 0 5)
    else if addr == 4
    then encode (op_imm alu_add 2 1 7)
    else if addr == 8
    then encode (op alu_add 3 1 2)
    else 0

abbrev no_resp : MemResp
no_resp = record { resp_valid = false; rdata = 0; error = false }

abbrev top_in : MemResp → TopIn
top_in resp = record {
  imem_req_ready = true;
  imem_resp = resp;
  back = record {
    dmem_req_ready = true;
    dmem_resp = no_resp;
    msip = false;
    mtip = false;
    meip = false;
  };
}

-- Cycles with a memory of instructions that answers in the next one.
abbrev cycles : ℕ → Top → MemResp → Top
cycles zero t resp = t
cycles (suc n) t resp =
    let req = top_imem_req true true 4 t (top_in resp) in
    cycles n (Top.step true true 4 t (top_in resp))
      (record { resp_valid = req.req_valid; rdata = program req.addr; error = false })

abbrev result : ℕ
result = Regfile.read (cycles 16 (Top.reset 0) no_resp).backend.regs_q 3

result_is : result ≡ 17
unfolding Frontend.if_reset Frontend.imem_req Frontend.if_request Frontend.if_response
    Frontend.if_step Frontend.id_out Frontend.frontend_reset Frontend.queue_ir Frontend.queue_stale
    Frontend.ir_valid Frontend.fetch_ready Frontend.frontend_step Backend.backend_flush
    Backend.kill_event Backend.redirect_valid Backend.csr_in Backend.exe_calc Backend.ir_ready
    Backend.issue_val Backend.issue_pkt Backend.backend_step Scoreboard.rd_match
    Scoreboard.row_from_ir Scoreboard.source Scoreboard.issue_valid Scoreboard.operand
    Scoreboard.step ExeStage.alu_lhs ExeStage.alu_rhs ExeStage.alu_result ExeStage.csr_commit
    ExeStage.mret_commit ExeStage.exe_rd_ready ExeStage.exe_redirect_valid ExeStage.exe_rd_value
    ExeStage.exe_out MemStage.async_cause MemStage.pre_halt MemStage.double_trap MemStage.take_halt
    MemStage.take_trap MemStage.stall MemStage.mem_out WbStage.commit_valid WbStage.rf_we
    Decoder.decode_op Decoder.decode_op_imm Decoder.decode_base Decoder.decode_case Decoder.decoder
    Alu.alu Types.killed_by_event Types.kill_token_if_younger Types.kill_scoreboard_row_if_younger
    CsrFile.mstatus_o CsrFile.step Regfile.read Regfile.write Top.top_imem_req Top.step
    Fifo.ptr_next Fifo.in_ready Fifo.out_valid Fifo.out_data Fifo.step
result_is = refl
