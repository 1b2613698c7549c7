-- ===== src/Cpu/Backend/Interrupts.antt =====
-- Traps as the pipeline takes them.
use dae_pipeline_cpu.Prelude.{
  ℕ, ◌+◌, ◌*◌, ◌/◌, ◌%◌, ◌^◌, ◌<◌, ◌≡◌, refl, arith, Bool, true, false, not, ◌&&◌, ◌||◌, ◌∙◌,
  bit_and,
}
use dae_pipeline_cpu.Cpu.Types.{DecodedIr, InstToken, KillEvent, token_alive, killed_by_event}
use dae_pipeline_cpu.Cpu.Types.Kill.{kill_token_lem, seq_after_lem}
use dae_pipeline_cpu.Cpu.CsrFile
use dae_pipeline_cpu.Cpu.CsrFile.{
  CsrFile, mstatus_mie, mstatus_mpie, mip_mtip, mstatus_o, mie_o, mtvec_o, mepc_o,
}
use dae_pipeline_cpu.Cpu.CsrFile.Traps.{enter_lem, enter_kept, interrupts_of}
use dae_pipeline_cpu.Cpu.Scoreboard.{issue_valid}
use dae_pipeline_cpu.Cpu.ExeStage.{exe_out}
use dae_pipeline_cpu.Cpu.MemStage.{trap_cause_o, dmem_req, mem_out}
use dae_pipeline_cpu.Cpu.WbStage.{rf_we, commit_valid}
use dae_pipeline_cpu.Cpu.Backend.{
  Backend, BackendIn, trap_in, mem_stall, mem_take_trap, backend_flush, kill_event, csr_in, csr_mip,
  exe_calc, mem_calc, ir_ready, issue_pkt, backend_step, backend_dmem_req,
}

-- A request is not made by what traps.
quiet_bus : (a b c d e : Bool) → d ≡ true → (a && not b && (not d && c && e)) ≡ false
quiet_bus a b c d e h = ground arith

abbrev trap_event : Backend → KillEvent
trap_event b = record { valid = true; epoch = b.mem_q.epoch; seq_id = b.mem_q.seq_id }

younger_hit :
    (b : Backend) (k : ℕ)
    → b.mem_q.seq_id < 256
    → b.exe_q.epoch ≡ b.mem_q.epoch
    → b.exe_q.seq_id ≡ (b.mem_q.seq_id + k) % 256
    → 0 < k
    → k < 128
    → killed_by_event b.exe_q.valid b.exe_q.epoch b.exe_q.seq_id (trap_event b) ≡ b.exe_q.valid
unfolding killed_by_event
younger_hit b k small same_epoch same_seq pos near =
    rw (same_epoch, same_seq, seq_after_lem b.mem_q.seq_id k small (omega arith)) (ground arith)

trapped_unwritten : (t : InstToken) → t.trap_pending ≡ true → rf_we t ≡ false
unfolding rf_we commit_valid
trapped_unwritten t e = rw e (ground arith)

dead : (v k : Bool) → (v && not (k || v)) ≡ false
dead v k = ground arith

-- What a trap is: the effects on the CSRs and on the memory.
module _ (mem_forwarding wb_forwarding : Bool) where
  abbrev pub next : Backend → BackendIn → DecodedIr → Bool → Backend
  next b i ir valid = backend_step mem_forwarding wb_forwarding b i ir valid

  pub trap_csr :
      (b : Backend) (i : BackendIn) (ir : DecodedIr) (valid : Bool)
      → backend_flush b i ≡ true
      → let b' = next b i ir valid in
        (mepc_o b'.csr ≡ b.mem_q.ir.pc / 4 % 2 ^ 30 * 4)
        × (b'.csr.mcause_q ≡ trap_cause_o (trap_in b i) b.mem_q)
        × (b'.csr.mtval_q ≡ 0)
        × (bit_and (mstatus_o b'.csr) mstatus_mie ≡ 0)
        × (b'.csr.mie_q ≡ b.csr.mie_q)
        × (b'.csr.mtvec_q ≡ b.csr.mtvec_q)
        × (b'.csr.mscratch_q ≡ b.csr.mscratch_q)
  unfolding backend_step csr_in
  trap_csr b i ir valid e =
      let (off, saved, epc) = enter_lem b.csr (csr_mip i) (csr_in b i) e in
      let (mie, mtvec, mscratch, cause, tval) = enter_kept b.csr (csr_mip i) (csr_in b i) e in
      (
        epc,
        cause,
        tval,
        interrupts_of (CsrFile.step b.csr (csr_mip i) (csr_in b i)) ∙ off,
        mie,
        mtvec,
        mscratch,
      )

  pub flush_parts :
      (b : Backend) (i : BackendIn)
      → backend_flush b i ≡ true
      → (mem_take_trap b i ≡ true) × (mem_stall b i ≡ false)
  unfolding backend_flush
  flush_parts b i e = parts (mem_take_trap b i) (mem_stall b i) e
    where
      parts : (t s : Bool) → (t && not s) ≡ true → (t ≡ true) × (s ≡ false)
      parts t s e = ground arith

  kill_of_trap :
      (b : Backend) (i : BackendIn) → backend_flush b i ≡ true → kill_event b i ≡ trap_event b
  unfolding kill_event
  kill_of_trap b i e = rw e refl

  -- Nothing is issued from an empty queue.
  no_issue :
      (b : Backend) (i : BackendIn) (ir : DecodedIr)
      → (issue_pkt mem_forwarding wb_forwarding b i ir false).valid ≡ false
  unfolding issue_pkt ir_ready issue_valid
  no_issue b i ir = ground arith

  pub trap_tokens :
      (b : Backend) (i : BackendIn) (ir : DecodedIr) (k : ℕ)
      → backend_flush b i ≡ true
      → b.mem_q.seq_id < 256
      → b.exe_q.epoch ≡ b.mem_q.epoch
      → b.exe_q.seq_id ≡ (b.mem_q.seq_id + k) % 256
      → 0 < k
      → k < 128
      → let b' = next b i ir false in
        (b'.exe_q.valid ≡ false)
        × (token_alive b'.mem_q ≡ false)
        × (b'.wb_q.trap_pending ≡ true)
        × (rf_we b'.wb_q ≡ false)
        × ((backend_dmem_req b i).req_valid ≡ false)
  unfolding backend_step exe_calc exe_out mem_out rf_we commit_valid dmem_req
  trap_tokens b i ir k e small same_epoch same_seq pos near =
      let (trap, go) = flush_parts b i e in
      let last : (next b i ir false).wb_q.trap_pending ≡ true =
        rw (go, kill_token_lem (mem_calc b i) (kill_event b i), trap) refl in
      (
        rw
            (
              go,
              kill_token_lem (issue_pkt mem_forwarding wb_forwarding b i ir false) (kill_event b i),
            )
            (no_issue b i ir),
        rw
            (
              go,
              kill_of_trap b i e,
              kill_token_lem (exe_calc b i) (trap_event b),
              younger_hit b k small same_epoch same_seq pos near,
            )
            (dead b.exe_q.valid b.exe_q.killed),
        last,
        trapped_unwritten (next b i ir false).wb_q last,
        rw trap (ground arith),
      )
