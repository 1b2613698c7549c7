-- ===== src/Cpu/WbStage.antt =====
-- src/wb_stage.sv.
use dae_pipeline_cpu.Prelude.{ℕ, Bool, false, not, ◌&&◌, ◌==◌, if◌then◌else◌}
use dae_pipeline_cpu.Cpu.Types.{InstToken, CommitPacket, is_store, token_alive, halt_exit_code}
use dae_pipeline_cpu.Cpu.CsrFile.{CsrFile, mstatus_o, mie_o, mtvec_o, mepc_o}

unfoldable pub commit_valid : InstToken → Bool
commit_valid wb = token_alive wb

unfoldable pub rf_we : InstToken → Bool
rf_we wb =
    commit_valid wb
    && not wb.trap_pending
    && not wb.halt_observed
    && wb.ir.rd_to_write
    && not (wb.ir.rd_idx == 0)

-- `commit_o`, given `x10_i` and the CSR file whose outputs it copies
unfoldable pub commit : InstToken → ℕ → CsrFile → CommitPacket
commit wb x10 csr = record {
  pc = wb.ir.pc;
  rd = if rf_we wb then wb.ir.rd_idx else 0;
  rd_value = if rf_we wb then wb.rd_value else 0;
  rd_to_write = false;
  store_valid =
      commit_valid wb && not wb.trap_pending && not wb.halt_observed && wb.valid && is_store wb.ir;
  store_addr = wb.store_addr;
  store_data = wb.store_data;
  store_strb = wb.store_strb;
  halt_observed = wb.halt_observed;
  halt_kind = wb.halt_kind;
  halt_exit_code = halt_exit_code wb.halt_kind x10;
  trap_taken = wb.trap_pending;
  trap_cause = wb.trap_cause;
  trap_mepc = wb.ir.pc;
  trap_mtval = wb.trap_tval;
  csr_mstatus = mstatus_o csr;
  csr_mtvec = mtvec_o csr;
  csr_mepc = mepc_o csr;
  csr_mcause = csr.mcause_q;
  csr_mtval = csr.mtval_q;
  csr_mscratch = csr.mscratch_q;
  csr_mie = mie_o csr;
}
