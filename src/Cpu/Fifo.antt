-- ===== src/Cpu/Fifo.antt =====
-- src/fifo.sv. The content of `mem_q` after a reset is any; its widths hold `DEPTH`.
pub mod Bounded
pub mod Refine
use dae_pipeline_cpu.Prelude.{ℕ, ◌+◌, ◌-◌, Bool, true, false, not, ◌&&◌, ◌==◌, if◌then◌else◌}

pub record Fifo (T : Type 0) : Type 0 where
  pub mem_q : ℕ → T
  pub rd_ptr_q : ℕ
  pub wr_ptr_q : ℕ
  pub count_q : ℕ

unfoldable pub ptr_next : ℕ → ℕ → ℕ
ptr_next depth ptr = if depth == 1 then 0 else if ptr == depth - 1 then 0 else ptr + 1

module _ {T : Type 0} (depth : ℕ) where
  unfoldable pub in_ready : Fifo T → Bool
  in_ready f = not (f.count_q == depth)

  unfoldable pub out_valid : Fifo T → Bool → Bool
  out_valid f flush = not (f.count_q == 0) && not flush

  unfoldable pub out_data : Fifo T → T
  out_data f = f.mem_q f.rd_ptr_q

  abbrev pub push : Fifo T → Bool → Bool → Bool
  push f flush in_valid = in_valid && in_ready f && not flush

  abbrev pub pop : Fifo T → Bool → Bool → Bool
  pop f flush out_ready = out_valid f flush && out_ready

  -- the registers after a reset or a flush
  pub reset : Fifo T → Fifo T
  reset f = record f { rd_ptr_q = 0; wr_ptr_q = 0; count_q = 0 }

  -- The registers after an edge: flush, in_data, in_valid, out_ready.
  unfoldable pub step : Fifo T → Bool → T → Bool → Bool → Fifo T
  step f flush in_data in_valid out_ready =
      let push_i = push f flush in_valid in
      let pop_i = pop f flush out_ready in
      if flush then reset f else record {
        mem_q = λ i. if push_i && i == f.wr_ptr_q then in_data else f.mem_q i;
        wr_ptr_q = if push_i then ptr_next depth f.wr_ptr_q else f.wr_ptr_q;
        rd_ptr_q = if pop_i then ptr_next depth f.rd_ptr_q else f.rd_ptr_q;
        count_q =
            if push_i && not pop_i
            then f.count_q + 1
            else if not push_i && pop_i
            then f.count_q - 1
            else f.count_q;
      }
