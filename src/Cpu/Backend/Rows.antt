-- ===== src/Cpu/Backend/Rows.antt =====
-- The rows of the scoreboard describe the tokens of the pipeline.
use dae_pipeline_cpu.Prelude.{
  ◌≡◌, refl, arith, Bool, true, false, not, ◌&&◌, ◌||◌, ◌==◌, if◌then◌else◌, inl, inr, ap, ◌∙◌, sym,
  Bool-cases, List, [], ◌∷◌,
}
use dae_pipeline_cpu.Cpu.Types.{
  DecodedIr, InstToken, zero_token, KillEvent, zero_kill, ScoreboardRow, zero_row, is_load,
  token_alive, kill_token_if_younger, kill_scoreboard_row_if_younger,
}
use dae_pipeline_cpu.Cpu.Types.Kill.{kill_row_lem, kill_token_lem, no_kill}
use dae_pipeline_cpu.Cpu.Scoreboard
use dae_pipeline_cpu.Cpu.Scoreboard.{Scoreboard, row_from_ir}
use dae_pipeline_cpu.Cpu.ExeStage.{exe_rd_ready, exe_redirect_valid, exe_out}
use dae_pipeline_cpu.Cpu.MemStage.{mem_rd_ready, mem_out}
use dae_pipeline_cpu.Cpu.Backend.{
  Backend, BackendIn, mem_stall, backend_flush, kill_event, exe_calc, mem_calc, ir_ready, issue_pkt,
  backend_step, backend_reset, mem_take_trap,
}

-- A row and the token of its stage: of an instruction that is there, the row has the order, the
-- register that it writes and whether it was killed.
pub record Describes (row : ScoreboardRow) (t : InstToken) : Type 0 where
  pub same_valid : row.valid ≡ t.valid
  pub same_epoch : t.valid ≡ true → row.epoch ≡ t.epoch
  pub same_seq_id : t.valid ≡ true → row.seq_id ≡ t.seq_id
  pub same_killed : t.valid ≡ true → row.killed ≡ t.killed
  pub same_write : t.valid ≡ true → row.rd_to_write ≡ (t.ir.rd_to_write && not (t.ir.rd_idx == 0))
  pub same_rd : t.valid ≡ true → row.rd_idx ≡ t.ir.rd_idx

-- What holds between two edges. A result in the memory stage that counts as ready is not that of a
-- load, which has still to arrive.
pub record IsTracked (b : Backend) : Type 0 where
  pub exe : Describes b.sb.exe_row_q b.exe_q
  pub mem : Describes b.sb.mem_row_q b.mem_q
  pub wb : Describes b.sb.wb_row_q b.wb_q
  pub exe_not_ready : b.sb.exe_row_q.rd_ready ≡ false
  pub mem_ready : b.sb.mem_row_q.rd_ready ≡ true → is_load b.mem_q.ir ≡ false

-- A step along the pipeline keeps a row and its token together, whatever becomes of their other
-- fields.
moved :
    (row : ScoreboardRow) (t t' : InstToken) (kill : KillEvent) (ready written valid : Bool)
    → Describes row t
    → valid ≡ t.valid
    → t'.epoch ≡ t.epoch
    → t'.seq_id ≡ t.seq_id
    → t'.valid ≡ t.valid
    → t'.killed ≡ t.killed
    → (t'.ir.rd_to_write ≡ t.ir.rd_to_write) × (t'.ir.rd_idx ≡ t.ir.rd_idx)
    → Describes
        (record (kill_scoreboard_row_if_younger row kill) {
          rd_ready = ready;
          rd_written_back = written;
        })
        (record (kill_token_if_younger t' kill) { valid = valid })
moved row t t' kill ready written valid d v e s w k ir =
    rw (kill_row_lem row kill, kill_token_lem t' kill, v)
      record {
        same_valid = d.same_valid;
        same_epoch = λ h. rw e (d.same_epoch h);
        same_seq_id = λ h. rw s (d.same_seq_id h);
        same_killed = λ h.
            rw (d.same_killed h, d.same_valid, d.same_epoch h, d.same_seq_id h, k, w, e, s) refl;
        same_write = λ h. rw (ir.0, ir.1) (d.same_write h);
        same_rd = λ h. rw ir.1 (d.same_rd h);
      }

and_false : (a : Bool) → (a && false) ≡ false
and_false a = ground arith

or_false : (a : Bool) → (a || false) ≡ a
or_false a = ground arith

abbrev with_killed : ScoreboardRow → Bool → ScoreboardRow
with_killed row k = record row { killed = k }

unkilled_row : (row : ScoreboardRow) → kill_scoreboard_row_if_younger row zero_kill ≡ row
unkilled_row row =
    kill_row_lem row zero_kill
    ∙ ap (with_killed row) (
        ap (λ (k : Bool). row.killed || k) (no_kill row.valid row.epoch row.seq_id)
        ∙ or_false row.killed)

-- While the memory stage waits nothing is killed.
pub stalled_quiet :
    (b : Backend) (i : BackendIn) → mem_stall b i ≡ true → kill_event b i ≡ zero_kill
unfolding kill_event backend_flush exe_redirect_valid
stalled_quiet b i e = rw (e, and_false (mem_take_trap b i), and_false (token_alive b.exe_q)) refl

fresh :
    (ir : DecodedIr) (t : InstToken) (kill : KillEvent) (issued : Bool)
    → t.valid ≡ issued
    → t.epoch ≡ ir.epoch
    → t.seq_id ≡ ir.seq_id
    → t.killed ≡ false
    → t.ir ≡ ir
    → let row = if issued then kill_scoreboard_row_if_younger (row_from_ir ir) kill else zero_row in
      Describes row (kill_token_if_younger t kill) × (row.rd_ready ≡ false)
unfolding row_from_ir
fresh ir t kill true v e s k r = (
  rw (kill_row_lem (row_from_ir ir) kill, kill_token_lem t kill, v)
      record {
        same_valid = refl;
        same_epoch = λ h. sym e;
        same_seq_id = λ h. sym s;
        same_killed = λ h. rw (k, e, s) refl;
        same_write = λ h. rw r refl;
        same_rd = λ h. rw r refl;
      },
  rw (kill_row_lem (row_from_ir ir) kill) refl,
)
fresh ir t kill false v e s k r = (
  rw (kill_token_lem t kill, v)
      record {
        same_valid = refl;
        same_epoch = λ h. ground arith;
        same_seq_id = λ h. ground arith;
        same_killed = λ h. ground arith;
        same_write = λ h. ground arith;
        same_rd = λ h. ground arith;
      },
  refl,
)

nothing : Describes zero_row zero_token
nothing = record {
  same_valid = refl;
  same_epoch = λ h. refl;
  same_seq_id = λ h. refl;
  same_killed = λ h. refl;
  same_write = λ h. refl;
  same_rd = λ h. refl;
}

pub reset-IsTracked : IsTracked backend_reset
reset-IsTracked = record {
  exe = nothing;
  mem = nothing;
  wb = nothing;
  exe_not_ready = refl;
  mem_ready = λ h. refl;
}

not_load : (t : InstToken) → exe_rd_ready t ≡ true → is_load t.ir ≡ false
unfolding exe_rd_ready
not_load t e = by_parts (token_alive t) t.ir.rd_to_write (is_load t.ir) e
  where
    by_parts : (a w l : Bool) → (a && w && not l) ≡ true → l ≡ false
    by_parts a w l e = ground arith

ready_not_load :
    (t t' : InstToken) (kill : KillEvent) (early : Bool)
    → early ≡ false
    → t'.ir.fu_type ≡ t.ir.fu_type
    → (early || exe_rd_ready t) ≡ true
    → is_load (kill_token_if_younger t' kill).ir ≡ false
ready_not_load t t' kill early e f h = rw (kill_token_lem t' kill, f) (not_load t (rw e at h))

module _ (mem_forwarding wb_forwarding : Bool) where
  -- What the edge makes of the rows and tokens when the memory stage does not wait.
  advance-IsTracked :
      (b : Backend) (i : BackendIn) (ir : DecodedIr) (valid : Bool)
      → IsTracked b
      → mem_stall b i ≡ false
      → IsTracked (backend_step mem_forwarding wb_forwarding b i ir valid)
  unfolding backend_step Scoreboard.step issue_pkt exe_calc exe_out mem_out
  advance-IsTracked b i ir valid r e =
      let kill = kill_event b i in
      let issued = ir_ready mem_forwarding wb_forwarding b i ir valid in
      let t = issue_pkt mem_forwarding wb_forwarding b i ir valid in
      let (first, waits) = fresh ir t kill issued refl refl refl refl refl in
      let ready = b.sb.exe_row_q.rd_ready || exe_rd_ready b.exe_q in
      let ready' = b.sb.mem_row_q.rd_ready || mem_rd_ready b.mem_q b.req_sent_q i.dmem_resp in
      rw e record {
        exe = first;
        mem =
            moved b.sb.exe_row_q b.exe_q (exe_calc b i) kill ready false b.exe_q.valid r.exe refl
              refl refl refl refl (refl, refl);
        wb =
            moved b.sb.mem_row_q b.mem_q (mem_calc b i) kill ready' false b.mem_q.valid r.mem refl
              refl refl refl refl (refl, refl);
        exe_not_ready = waits;
        mem_ready =
            ready_not_load b.exe_q (exe_calc b i) kill b.sb.exe_row_q.rd_ready r.exe_not_ready refl;
      }

  -- The rows describe the tokens after every edge, whatever the inputs, issues, stalls and kills.
  pub step-IsTracked :
      (b : Backend) (i : BackendIn) (ir : DecodedIr) (valid : Bool)
      → IsTracked b
      → IsTracked (backend_step mem_forwarding wb_forwarding b i ir valid)
  unfolding backend_step Scoreboard.step
  step-IsTracked b i ir valid r = elim (Bool-cases (mem_stall b i)) [
    | inl e ↦
        rw (e, stalled_quiet b i e, unkilled_row b.sb.exe_row_q, unkilled_row b.sb.mem_row_q)
          record {
            exe = r.exe;
            mem = r.mem;
            wb = nothing;
            exe_not_ready = r.exe_not_ready;
            mem_ready = r.mem_ready;
          }
    | inr e ↦ advance-IsTracked b i ir valid r e
  ]

  -- The inputs of one cycle: the instruction that the front end offers, and the rest.
  abbrev pub Cycle : Type 0
  Cycle = BackendIn × (DecodedIr × Bool)

  abbrev pub run : Backend → List Cycle → Backend
  run b [] = b
  run b ((i, (ir, valid)) ∷ is) = run (backend_step mem_forwarding wb_forwarding b i ir valid) is

  -- After any number of cycles the rows of the scoreboard describe the tokens of their stages: the
  -- same instruction, killed or not, with the register that it writes; and the result of a load
  -- does not count as ready while it is in the memory stage.
  pub run-IsTracked : (is : List Cycle) (b : Backend) → IsTracked b → IsTracked (run b is)
  run-IsTracked [] b r = r
  run-IsTracked ((i, (ir, valid)) ∷ is) b r =
      run-IsTracked is (backend_step mem_forwarding wb_forwarding b i ir valid)
        (step-IsTracked b i ir valid r)
