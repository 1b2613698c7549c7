-- ===== src/Cpu/Backend/Mret.antt =====
-- An interrupt that becomes possible by an MRET.
use dae_pipeline_cpu.Prelude.{
  ℕ, zero, suc, ◌*◌, ◌/◌, ◌%◌, ◌^◌, ◌≡◌, ◌≢◌, refl, arith, Bool, true, false, not, ◌&&◌, ◌||◌, ◌==◌,
  if◌then◌else◌, ap, ◌∙◌, bit_and, bit_or, List, All,
}
use dae_pipeline_cpu.Cpu.Types.{
  MemResp, DecodedIr, InstToken, KillEvent, fu_system, sys_mret, token_alive, killed_by_event,
}
use dae_pipeline_cpu.Cpu.Types.Kill.{kill_token_lem, self_spared}
use dae_pipeline_cpu.Cpu.CsrFile
use dae_pipeline_cpu.Cpu.CsrFile.{
  CsrFile, CsrIn, mstatus_mie, mstatus_mpie, mip_mtip, mstatus_o, mie_o, mtvec_o, mepc_o,
}
use dae_pipeline_cpu.Cpu.CsrFile.Traps.{Quiet, run, trap_return, mret_step, interrupts_of}
use dae_pipeline_cpu.Cpu.ExeStage.{
  mret_commit, csr_commit, exe_redirect_valid, exe_redirect_pc, exe_out,
}
use dae_pipeline_cpu.Cpu.MemStage.{TrapIn, async_cause, take_trap, pre_halt, double_trap, stall}
use dae_pipeline_cpu.Cpu.Backend.{
  Backend, BackendIn, trap_in, mem_stall, mem_take_trap, backend_flush, redirect_from_exe,
  kill_event, redirect_valid, redirect_pc, csr_in, csr_mip, exe_calc, backend_step,
}
use dae_pipeline_cpu.Cpu.Backend.Interrupts.{trap_csr, next}

-- A well-formed MRET.
pub record IsMret (t : InstToken) : Type 0 where
  pub alive : token_alive t ≡ true
  pub unit : t.ir.fu_type ≡ fu_system
  pub kind : t.ir.sys_kind ≡ sys_mret
  pub legal : t.ir.illegal ≡ false
  pub fetched : t.ir.if_bus_error ≡ false
  pub no_halt : t.halt_observed ≡ false

-- In MEM an MRET is trapped when an interrupt is pending, and it does not wait.
taken :
    (c : TrapIn) (t : InstToken)
    → IsMret t
    → (async_cause c == 0) ≡ false
    → (t.ir.pc == c.csr_mtvec_base) ≡ false
    → take_trap c t ≡ true
unfolding take_trap double_trap pre_halt
taken c t m cause first =
    rw (m.alive, m.unit, m.kind, m.legal, m.fetched, m.no_halt, cause, first) (ground arith)

no_wait :
    (c : TrapIn) (t : InstToken) (sent : Bool) (resp : MemResp)
    → IsMret t
    → stall c t sent resp ≡ false
unfolding stall
no_wait c t sent resp m = rw (m.alive, m.unit) refl

pending :
    (c : TrapIn)
    → bit_and c.csr_mstatus mstatus_mie ≢ 0
    → bit_and (bit_and c.csr_mie c.csr_mip) mip_mtip ≢ 0
    → (async_cause c == 0) ≡ false
unfolding async_cause
pending c on timer = ground arith

or_false : (a : Bool) → (a || false) ≡ a
or_false a = ground arith

quiet_csr : (a s t : Bool) → (a && false && not s && not t) ≡ false
quiet_csr a s t = ground arith

no_branch : (a : Bool) → (a && false) ≡ false
no_branch a = ground arith

flushes :
    (b : Backend) (i : BackendIn)
    → mem_take_trap b i ≡ true
    → mem_stall b i ≡ false
    → backend_flush b i ≡ true
unfolding backend_flush
flushes b i trap go = rw (trap, go) refl

-- What MRET does in EXE.
pub record Commits (b : Backend) (i : BackendIn) : Type 0 where
  pub mret : IsMret b.exe_q
  pub goes : mem_stall b i ≡ false
  pub no_trap : mem_take_trap b i ≡ false

module _ (mem_forwarding wb_forwarding : Bool) (b : Backend) (i : BackendIn) (r : Commits b i)
    (ir : DecodedIr) (valid : Bool) where
  abbrev b1 : Backend
  b1 = next mem_forwarding wb_forwarding b i ir valid

  no_flush : backend_flush b i ≡ false
  unfolding backend_flush
  no_flush = rw r.no_trap refl

  returns : redirect_from_exe b i ≡ true
  unfolding exe_redirect_valid
  returns = rw (r.mret.alive, r.goes, r.no_trap, r.mret.kind) (ground arith)

  csr_next : b1.csr ≡ record (b.csr) {
    mstatus_q =
        bit_or mstatus_mpie (if bit_and b.csr.mstatus_q mstatus_mpie == 0 then 0 else mstatus_mie);
  }
  unfolding backend_step csr_in csr_commit mret_commit
  csr_next =
      mret_step b.csr (csr_mip i) (csr_in b i) no_flush
        (rw r.mret.unit (quiet_csr (token_alive b.exe_q) (mem_stall b i) (mem_take_trap b i)))
        (rw (r.mret.alive, r.mret.kind, r.goes, r.no_trap) refl)

  abbrev own_event : KillEvent
  own_event = record { valid = true; epoch = b.exe_q.epoch; seq_id = b.exe_q.seq_id }

  kill_is : kill_event b i ≡ own_event
  unfolding kill_event
  kill_is = rw (no_flush, returns) refl

  self_hit :
      killed_by_event (exe_calc b i).valid (exe_calc b i).epoch (exe_calc b i).seq_id own_event
      ≡ false
  unfolding exe_calc exe_out
  self_hit = self_spared b.exe_q

  mem_is :
      b1.mem_q
      ≡ record (exe_calc b i) { valid = b.exe_q.valid; killed = (exe_calc b i).killed || false }
  unfolding backend_step
  mem_is = rw (r.goes, kill_token_lem (exe_calc b i) (kill_event b i), kill_is, self_hit) refl

  mem_next : IsMret b1.mem_q × (b1.mem_q.ir.pc ≡ b.exe_q.ir.pc)
  unfolding exe_calc exe_out
  mem_next = rw mem_is (
    record {
      alive = rw (or_false b.exe_q.killed) r.mret.alive;
      unit = r.mret.unit;
      kind = r.mret.kind;
      legal = rw r.mret.unit r.mret.legal;
      fetched = r.mret.fetched;
      no_halt = rw r.mret.unit (rw (no_branch (token_alive b.exe_q)) r.mret.no_halt);
    },
    refl,
  )

  -- After it the interrupts are on, if they were on before the trap from which it returns.
  on_again : bit_and b.csr.mstatus_q mstatus_mpie ≢ 0 → bit_and (mstatus_o b1.csr) mstatus_mie ≢ 0
  on_again saved =
      rw (interrupts_of b1.csr, csr_next) (restored (bit_and b.csr.mstatus_q mstatus_mpie) saved)
    where
      restored :
          (n : ℕ)
          → n ≢ 0
          → bit_and (bit_or mstatus_mpie (if n == 0 then 0 else mstatus_mie)) mstatus_mie ≢ 0
      restored zero h = absurd (h refl)
      restored (suc n) h =
          let pos : (suc n == 0) ≡ false = ground arith in rw pos (λ e. ground arith)

  same_mie : mie_o b1.csr ≡ mie_o b.csr
  unfolding mie_o
  same_mie = rw csr_next refl

  same_mtvec : mtvec_o b1.csr ≡ mtvec_o b.csr
  unfolding mtvec_o
  same_mtvec = rw csr_next refl

  -- An MRET that does not stand at the vector and that returns with the interrupts on to be, while
  -- the timer interrupt is enabled and pending in the next cycle, has jumped to the saved address and
  -- is then itself trapped: the saved address becomes that of the MRET, and what it was before is
  -- lost.
  pub mret_trapped :
      (i' : BackendIn) (ir' : DecodedIr) (valid' : Bool)
      → bit_and b.csr.mstatus_q mstatus_mpie ≢ 0
      → bit_and (bit_and (mie_o b.csr) (csr_mip i')) mip_mtip ≢ 0
      → (b.exe_q.ir.pc == mtvec_o b.csr) ≡ false
      → let b2 = next mem_forwarding wb_forwarding b1 i' ir' valid' in
        (redirect_valid b i ≡ true)
        × (redirect_pc b i ≡ mepc_o b.csr)
        × (redirect_pc b1 i' ≡ mtvec_o b.csr)
        × (mepc_o b2.csr ≡ b.exe_q.ir.pc / 4 % 2 ^ 30 * 4)
  unfolding redirect_valid redirect_pc exe_redirect_pc
  mret_trapped i' ir' valid' saved timer first =
      let (m, pc) = mem_next in
      let c = trap_in b1 i' in
      let cause : (async_cause c == 0) ≡ false = pending c (on_again saved) (rw same_mie timer) in
      let trap : mem_take_trap b1 i' ≡ true =
        taken c b1.mem_q m cause (rw (pc, same_mtvec) first) in
      let flush : backend_flush b1 i' ≡ true =
        flushes b1 i' trap (no_wait c b1.mem_q b1.req_sent_q i'.dmem_resp m) in
      (
        rw (redirect_valid, kill_is) refl,
        rw (redirect_pc, no_flush, exe_redirect_pc, r.mret.kind) refl,
        rw (redirect_pc, flush, same_mtvec) refl,
        (trap_csr mem_forwarding wb_forwarding b1 i' ir' valid' flush).0
            ∙ ap (λ (a : ℕ). a / 4 % 2 ^ 30 * 4) pc,
      )

  -- A trap is taken in some cycle; between it and the MRET the CSRs see a handler that may read,
  -- write, set and clear every CSR but mstatus and mepc; then the MRET in EXE, in a cycle in which
  -- MEM neither waits nor traps, redirects the fetch to the address of the instruction that was
  -- trapped, on a word boundary, and leaves the interrupts as they were before the trap.
  pub handler_returns :
      (b0 : Backend) (i0 : BackendIn) (ir0 : DecodedIr) (valid0 : Bool)
      → (handler : List (ℕ × CsrIn)) → backend_flush b0 i0 ≡ true
      → All Quiet handler
      → b.csr ≡ run (next mem_forwarding wb_forwarding b0 i0 ir0 valid0).csr handler
      → (redirect_valid b i ≡ true)
        × (redirect_pc b i ≡ b0.mem_q.ir.pc / 4 % 2 ^ 30 * 4)
        × (bit_and (mstatus_o b1.csr) mstatus_mie ≡ bit_and (mstatus_o b0.csr) mstatus_mie)
  unfolding backend_step csr_in csr_commit mret_commit redirect_valid redirect_pc exe_redirect_pc
  handler_returns b0 i0 ir0 valid0 handler flush quiet same =
      let (off, epc, on) =
        trap_return b0.csr (csr_mip i0) (csr_in b0 i0) handler (csr_mip i) (csr_in b i) flush quiet
          no_flush
          (rw r.mret.unit (quiet_csr (token_alive b.exe_q) (mem_stall b i) (mem_take_trap b i)))
          (rw (r.mret.alive, r.mret.kind, r.goes, r.no_trap) refl) in
      (
        rw (redirect_valid, kill_is) refl,
        rw (redirect_pc, no_flush, exe_redirect_pc, r.mret.kind)
            (ap (λ (c : CsrFile). mepc_o c) same ∙ epc),
        ap
              (λ (c : CsrFile).
                bit_and (mstatus_o (CsrFile.step c (csr_mip i) (csr_in b i))) mstatus_mie)
              same
            ∙ on,
      )
