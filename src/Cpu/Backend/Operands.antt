-- ===== src/Cpu/Backend/Operands.antt =====
-- The operands of an issued instruction, where the results of three others are still on their way.
use dae_pipeline_cpu.Prelude.{
  ℕ, zero, suc, ◌≡◌, ◌≢◌, refl, arith, Bool, true, false, not, ◌&&◌, ◌==◌, if◌then◌else◌, inl, inr,
  ap, ◌∙◌, sym, Bool-cases,
}
use dae_pipeline_cpu.Cpu.Types.{DecodedIr, InstToken, ScoreboardRow, token_alive}
use dae_pipeline_cpu.Cpu.Regfile
use dae_pipeline_cpu.Cpu.Regfile.{Regs}
use dae_pipeline_cpu.Cpu.Scoreboard.{
  Source, hazard, fwd_mem, fwd_wb, gpr, is_hazard, rd_match, source, issue_valid, operand,
}
use dae_pipeline_cpu.Cpu.ExeStage.{exe_out}
use dae_pipeline_cpu.Cpu.MemStage.{mem_out}
use dae_pipeline_cpu.Cpu.WbStage.{rf_we, commit_valid}
use dae_pipeline_cpu.Cpu.Backend.{
  Backend, BackendIn, mem_stall, exe_calc, mem_calc, ir_ready, issue_val, issue_pkt,
}
use dae_pipeline_cpu.Cpu.Backend.Rows.{Describes, IsTracked}

-- The register file after the write-back of a token.
abbrev pub retire : Regs → InstToken → Regs
retire regs t = Regfile.write regs (rf_we t) t.ir.rd_idx t.rd_value

-- The instruction in WB, that in MEM and that in EXE, one after the other.
abbrev pub all_retired : Backend → BackendIn → Regs
all_retired b i = retire (retire (retire b.regs_q b.wb_q) (mem_calc b i)) (exe_calc b i)

-- The two operands of an instruction: whether it uses one, its register, and its value in a token.
pub data Nth : Type 0 where
  first second : Nth

abbrev pub is_used : Nth → DecodedIr → Bool
is_used first ir = ir.rs1_use
is_used second ir = ir.rs2_use

abbrev pub index_of : Nth → DecodedIr → ℕ
index_of first ir = ir.rs1_idx
index_of second ir = ir.rs2_idx

abbrev pub operand_of : Nth → InstToken → ℕ
operand_of first t = t.rs1_val
operand_of second t = t.rs2_val

-- The instruction neither traps nor halts, if it is there.
abbrev pub IsPlain : InstToken → Type 0
IsPlain t = token_alive t ≡ true → (t.trap_pending ≡ false) × (t.halt_observed ≡ false)

abbrev writes : InstToken → ℕ → Bool
writes t idx = token_alive t && t.ir.rd_to_write && t.ir.rd_idx == idx

read-retire :
    (regs : Regs) (t : InstToken) (idx : ℕ)
    → idx ≢ 0
    → IsPlain t
    → Regfile.read (retire regs t) idx
      ≡ (if writes t idx then t.rd_value else Regfile.read regs idx)
unfolding Regfile.read Regfile.write rf_we commit_valid
read-retire regs t idx n plain = elim (Bool-cases (token_alive t)) [
  | inl e ↦ (let (no_trap, no_halt) = plain e in rw (e, no_trap, no_halt) (ground arith))
  | inr e ↦ rw e (ground arith)
]

match_lem :
    (row : ScoreboardRow) (t : InstToken) (idx : ℕ)
    → idx ≢ 0
    → Describes row t
    → rd_match row true idx ≡ writes t idx
unfolding rd_match
match_lem row t idx n d = elim (Bool-cases t.valid) [
  | inl e ↦ rw (d.same_valid, d.same_killed e, d.same_write e, d.same_rd e, e) (ground arith)
  | inr e ↦ rw (d.same_valid, e) refl
]

abbrev chosen : Bool → Bool → Bool → Bool → Bool → Source
chosen e m w forward_mem forward_wb =
    if e
    then hazard
    else if m
    then (if forward_mem then fwd_mem else hazard)
    else if w
    then (if forward_wb then fwd_wb else hazard)
    else gpr

-- What is not a hazard is the youngest of the results.
chosen_lem :
    (e m w forward_mem forward_wb : Bool) (on_mem on_wb in_file from_exe from_mem : ℕ)
    → not (is_hazard (chosen e m w forward_mem forward_wb)) ≡ true
    → (forward_mem ≡ true → on_mem ≡ from_mem)
    → operand (chosen e m w forward_mem forward_wb) on_mem on_wb in_file
      ≡ (if e then from_exe else if m then from_mem else if w then on_wb else in_file)
unfolding operand
chosen_lem true m w fm fw on_mem on_wb in_file from_exe from_mem free same = ground arith
chosen_lem false true w true fw on_mem on_wb in_file from_exe from_mem free same = same refl
chosen_lem false true w false fw on_mem on_wb in_file from_exe from_mem free same = ground arith
chosen_lem false false true fm true on_mem on_wb in_file from_exe from_mem free same = refl
chosen_lem false false true fm false on_mem on_wb in_file from_exe from_mem free same = ground arith
chosen_lem false false false fm fw on_mem on_wb in_file from_exe from_mem free same = refl

no_load : (a b : Bool) → (a && false && b) ≡ false
no_load a b = ground arith

no_match : (row : ScoreboardRow) (src_use : Bool) → rd_match row src_use 0 ≡ false
unfolding rd_match
no_match row src_use = never row.valid row.killed row.rd_to_write src_use (row.rd_idx == 0)
  where
    never : (a b c d e : Bool) → (a && not b && c && d && false && e) ≡ false
    never a b c d e = ground arith

zero_operand :
    (b : Backend) (mf wf src_use : Bool) (regs : Regs)
    → issue_val mf wf b src_use 0 ≡ Regfile.read regs 0
unfolding issue_val source rd_match operand Regfile.read
zero_operand b mf wf src_use regs =
    rw
      (
        no_match b.sb.exe_row_q src_use,
        no_match b.sb.mem_row_q src_use,
        no_match b.sb.wb_row_q src_use,
      )
      refl

forwarded_mem :
    (b : Backend) (i : BackendIn) (forwarding : Bool)
    → IsTracked b
    → (forwarding && b.sb.mem_row_q.rd_ready) ≡ true
    → b.mem_q.rd_value ≡ (mem_calc b i).rd_value
unfolding mem_out
forwarded_mem b i forwarding r h =
    rw (r.mem_ready (ground arith), no_load (token_alive b.mem_q) i.dmem_resp.resp_valid) refl

written :
    (b : Backend) (i : BackendIn) (idx : ℕ)
    → idx ≢ 0
    → IsPlain b.wb_q
    → IsPlain (mem_calc b i)
    → IsPlain (exe_calc b i)
    → Regfile.read (all_retired b i) idx ≡ (
        if writes b.exe_q idx
        then (exe_calc b i).rd_value
        else if writes b.mem_q idx
        then (mem_calc b i).rd_value
        else if writes b.wb_q idx
        then b.wb_q.rd_value
        else Regfile.read b.regs_q idx)
unfolding exe_calc exe_out mem_out
written b i idx n pw pm pe =
    rw
      (
        read-retire (retire (retire b.regs_q b.wb_q) (mem_calc b i)) (exe_calc b i) idx n pe,
        read-retire (retire b.regs_q b.wb_q) (mem_calc b i) idx n pm,
        read-retire b.regs_q b.wb_q idx n pw,
      )
      refl

both_free :
    (valid stall a b : Bool)
    → (valid && not stall && not a && not b) ≡ true
    → (not a ≡ true) × (not b ≡ true)
both_free valid stall a b e = ground arith

module _ (mem_forwarding wb_forwarding : Bool) where
  source_lem :
      (b : Backend) (idx : ℕ)
      → IsTracked b
      → idx ≢ 0
      → source mem_forwarding wb_forwarding b.sb true idx
        ≡ chosen
            (writes b.exe_q idx)
            (writes b.mem_q idx)
            (writes b.wb_q idx)
            (mem_forwarding && b.sb.mem_row_q.rd_ready)
            (wb_forwarding && b.sb.wb_row_q.rd_ready)
  unfolding source
  source_lem b idx r n =
      rw
        (
          match_lem b.sb.exe_row_q b.exe_q idx n r.exe,
          match_lem b.sb.mem_row_q b.mem_q idx n r.mem,
          match_lem b.sb.wb_row_q b.wb_q idx n r.wb,
        )
        refl

  operand_at :
      (b : Backend) (i : BackendIn) (idx : ℕ)
      → IsTracked b
      → idx ≢ 0
      → not (is_hazard (source mem_forwarding wb_forwarding b.sb true idx)) ≡ true
      → IsPlain b.wb_q
      → IsPlain (mem_calc b i)
      → IsPlain (exe_calc b i)
      → issue_val mem_forwarding wb_forwarding b true idx ≡ Regfile.read (all_retired b i) idx
  unfolding issue_val
  operand_at b i idx r n free pw pm pe =
      ap (λ (s : Source). operand s b.mem_q.rd_value b.wb_q.rd_value (Regfile.read b.regs_q idx))
        (source_lem b idx r n)
      ∙ chosen_lem (writes b.exe_q idx) (writes b.mem_q idx) (writes b.wb_q idx)
          (mem_forwarding && b.sb.mem_row_q.rd_ready) (wb_forwarding && b.sb.wb_row_q.rd_ready)
          b.mem_q.rd_value b.wb_q.rd_value (Regfile.read b.regs_q idx) (exe_calc b i).rd_value
          (mem_calc b i).rd_value (rw (← source_lem b idx r n) free)
          (forwarded_mem b i mem_forwarding r)
      ∙ sym (written b i idx n pw pm pe)

  used :
      (b : Backend) (i : BackendIn) (src_use : Bool) (idx : ℕ)
      → IsTracked b
      → src_use ≡ true
      → not (is_hazard (source mem_forwarding wb_forwarding b.sb src_use idx)) ≡ true
      → IsPlain b.wb_q
      → IsPlain (mem_calc b i)
      → IsPlain (exe_calc b i)
      → issue_val mem_forwarding wb_forwarding b src_use idx ≡ Regfile.read (all_retired b i) idx
  used b i src_use zero r u free pw pm pe =
      zero_operand b mem_forwarding wb_forwarding src_use (all_retired b i)
  used b i src_use (suc idx) r u free pw pm pe =
      rw u (operand_at b i (suc idx) r (λ e. ground arith) (rw u at free) pw pm pe)

  free_sources :
      (b : Backend) (i : BackendIn) (ir : DecodedIr) (valid : Bool)
      → ir_ready mem_forwarding wb_forwarding b i ir valid ≡ true
      → (not (is_hazard (source mem_forwarding wb_forwarding b.sb ir.rs1_use ir.rs1_idx)) ≡ true)
        × (not (is_hazard (source mem_forwarding wb_forwarding b.sb ir.rs2_use ir.rs2_idx)) ≡ true)
  unfolding ir_ready issue_valid
  free_sources b i ir valid issued =
      both_free valid (mem_stall b i)
        (is_hazard (source mem_forwarding wb_forwarding b.sb ir.rs1_use ir.rs1_idx))
        (is_hazard (source mem_forwarding wb_forwarding b.sb ir.rs2_use ir.rs2_idx)) issued

  -- An instruction that is issued has as its operands, the first and the second where it uses them,
  -- what the registers will hold once the three instructions ahead of it, in EXE, MEM and WB, have
  -- been written back in program order, if none of them traps or halts: it waits for, or is
  -- forwarded, the youngest result on its way, with either forwarding path present or not.
  pub operand_lem :
      (b : Backend) (i : BackendIn) (ir : DecodedIr) (valid : Bool) (n : Nth)
      → IsTracked b
      → ir_ready mem_forwarding wb_forwarding b i ir valid ≡ true
      → IsPlain b.wb_q
      → IsPlain (mem_calc b i)
      → IsPlain (exe_calc b i)
      → is_used n ir ≡ true
      → operand_of n (issue_pkt mem_forwarding wb_forwarding b i ir valid)
        ≡ Regfile.read (all_retired b i) (index_of n ir)
  unfolding issue_pkt
  operand_lem b i ir valid first r issued pw pm pe u =
      used b i ir.rs1_use ir.rs1_idx r u (free_sources b i ir valid issued).0 pw pm pe
  operand_lem b i ir valid second r issued pw pm pe u =
      used b i ir.rs2_use ir.rs2_idx r u (free_sources b i ir valid issued).1 pw pm pe
