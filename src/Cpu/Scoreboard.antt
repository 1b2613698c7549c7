-- ===== src/Cpu/Scoreboard.antt =====
-- src/scoreboard.sv.
use dae_pipeline_cpu.Prelude.{ℕ, Bool, true, false, not, ◌&&◌, ◌||◌, ◌==◌, if◌then◌else◌}
use dae_pipeline_cpu.Cpu.Types.{
  DecodedIr, ScoreboardRow, zero_row, KillEvent, kill_scoreboard_row_if_younger,
}

-- The three rows.
pub record Scoreboard : Type 0 where
  pub exe_row_q : ScoreboardRow
  pub mem_row_q : ScoreboardRow
  pub wb_row_q : ScoreboardRow

abbrev pub zero_scoreboard : Scoreboard
zero_scoreboard = record { exe_row_q = zero_row; mem_row_q = zero_row; wb_row_q = zero_row }

unfoldable pub rd_match : ScoreboardRow → Bool → ℕ → Bool
rd_match row src_use idx =
    row.valid && not row.killed && row.rd_to_write && src_use && not (idx == 0) && row.rd_idx == idx

-- Where a source operand comes from: a hazard, one of the two buses, or the register file.
pub data Source : Type 0 where
  hazard fwd_mem fwd_wb gpr : Source

abbrev pub is_hazard : Source → Bool
is_hazard hazard = true
is_hazard _ = false

unfoldable pub row_from_ir : DecodedIr → ScoreboardRow
row_from_ir ir = record zero_row {
  valid = true;
  epoch = ir.epoch;
  seq_id = ir.seq_id;
  rs1_use = ir.rs1_use;
  rs1_idx = ir.rs1_idx;
  rs2_use = ir.rs2_use;
  rs2_idx = ir.rs2_idx;
  rd_to_write = ir.rd_to_write && not (ir.rd_idx == 0);
  rd_idx = ir.rd_idx;
}

module _ (mem_forwarding wb_forwarding : Bool) where
  unfoldable pub source : Scoreboard → Bool → ℕ → Source
  source sb src_use idx =
      if rd_match sb.exe_row_q src_use idx
      then hazard
      else if rd_match sb.mem_row_q src_use idx
      then (if mem_forwarding && sb.mem_row_q.rd_ready then fwd_mem else hazard)
      else if rd_match sb.wb_row_q src_use idx
      then (if wb_forwarding && sb.wb_row_q.rd_ready then fwd_wb else hazard)
      else gpr

  unfoldable pub issue_valid : Scoreboard → Bool → DecodedIr → Bool → Bool
  issue_valid sb stall candidate candidate_valid =
      candidate_valid
      && not stall
      && not (is_hazard (source sb candidate.rs1_use candidate.rs1_idx))
      && not (is_hazard (source sb candidate.rs2_use candidate.rs2_idx))

-- `issue_rs1_val` and `issue_rs2_val`
unfoldable pub operand : Source → ℕ → ℕ → ℕ → ℕ
operand fwd_mem mem_result_bus wb_result_bus gpr_val = mem_result_bus
operand fwd_wb mem_result_bus wb_result_bus gpr_val = wb_result_bus
operand _ mem_result_bus wb_result_bus gpr_val = gpr_val

-- The rows after an edge: kill_i, stall, the candidate and whether it is issued, and the two
-- `rd_ready`.
unfoldable pub step : Scoreboard → KillEvent → Bool → DecodedIr → Bool → Bool → Bool → Scoreboard
step sb kill_i stall candidate issued exe_rd_ready mem_rd_ready =
    if stall
    then record {
      exe_row_q = kill_scoreboard_row_if_younger sb.exe_row_q kill_i;
      mem_row_q = kill_scoreboard_row_if_younger sb.mem_row_q kill_i;
      wb_row_q = zero_row;
    }
    else record {
      wb_row_q = record (kill_scoreboard_row_if_younger sb.mem_row_q kill_i) {
        rd_ready = sb.mem_row_q.rd_ready || mem_rd_ready;
        rd_written_back = false;
      };
      mem_row_q = record (kill_scoreboard_row_if_younger sb.exe_row_q kill_i) {
        rd_ready = sb.exe_row_q.rd_ready || exe_rd_ready;
        rd_written_back = false;
      };
      exe_row_q =
          if issued
          then kill_scoreboard_row_if_younger (row_from_ir candidate) kill_i
          else zero_row;
    }
