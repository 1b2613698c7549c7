-- ===== src/Cpu/Frontend.antt =====
-- src/if_stage.sv, src/id_stage.sv and src/frontend.sv.
use dae_pipeline_cpu.Prelude.{
  ℕ, ◌+◌, ◌%◌, ◌^◌, Bool, true, false, not, ◌&&◌, ◌||◌, ◌==◌, if◌then◌else◌, u32,
}
use dae_pipeline_cpu.Cpu.Types.{
  FetchPkt, zero_fetch, DecodedIr, zero_ir, MemReq, MemResp, epoch_w, seq_id_w,
}
use dae_pipeline_cpu.Cpu.Decoder.{decoder}
use dae_pipeline_cpu.Cpu.Fifo
use dae_pipeline_cpu.Cpu.Fifo.{Fifo}

-- The registers of the fetch stage.
pub record IfStage : Type 0 where
  pub pc_q : ℕ
  pub req_pc_q : ℕ
  pub req_epoch_q : ℕ
  pub req_seq_id_q : ℕ
  pub outstanding_q : Bool
  pub drop_q : Bool
  pub out_q : FetchPkt

unfoldable pub if_reset : ℕ → IfStage
if_reset reset_pc = record {
  pc_q = reset_pc;
  req_pc_q = reset_pc;
  req_epoch_q = 0;
  req_seq_id_q = 0;
  outstanding_q = false;
  drop_q = false;
  out_q = zero_fetch;
}

-- `imem_req_o`: flush, out_ready.
unfoldable pub imem_req : IfStage → Bool → Bool → MemReq
imem_req s flush out_ready = record {
  req_valid = not flush && not s.outstanding_q && not s.out_q.valid && out_ready;
  addr = s.pc_q;
  we = false;
  be = 0;
  wdata = 0;
}

-- The first part of the edge, a redirect or a request: redirect_valid, redirect_pc, current_epoch,
-- next_seq_id, whether the request is accepted, out_ready.
unfoldable pub if_request : IfStage → Bool → ℕ → ℕ → ℕ → Bool → Bool → IfStage
if_request s redirect_valid redirect_pc epoch seq_id accepted out_ready =
    if redirect_valid
    then record s { pc_q = redirect_pc; out_q = zero_fetch; drop_q = s.outstanding_q }
    else record s {
      req_pc_q = if accepted then s.pc_q else s.req_pc_q;
      req_epoch_q = if accepted then epoch else s.req_epoch_q;
      req_seq_id_q = if accepted then seq_id else s.req_seq_id_q;
      pc_q = if accepted then u32 (s.pc_q + 4) else s.pc_q;
      outstanding_q = if accepted then true else s.outstanding_q;
      out_q = if s.out_q.valid && out_ready then zero_fetch else s.out_q;
    }

-- The second part, the response, whose assignments follow those of the first, `next`. What it reads
-- are the registers before the edge.
unfoldable pub if_response : IfStage → IfStage → Bool → Bool → ℕ → MemResp → IfStage
if_response s next flush redirect_valid epoch resp =
    if s.outstanding_q && resp.resp_valid
    then (if s.drop_q || redirect_valid || flush || not (s.req_epoch_q == epoch)
        then record next { outstanding_q = false; drop_q = false }
        else record next {
          outstanding_q = false;
          out_q = record {
            valid = true;
            epoch = s.req_epoch_q;
            seq_id = s.req_seq_id_q;
            pc = s.req_pc_q;
            inst = resp.rdata;
            error = resp.error;
          };
        })
    else next

unfoldable pub if_step : IfStage → Bool → Bool → ℕ → ℕ → ℕ → Bool → Bool → MemResp → IfStage
if_step s flush redirect_valid redirect_pc epoch seq_id imem_req_ready out_ready resp =
    let accepted = (imem_req s flush out_ready).req_valid && imem_req_ready in
    if_response s (if_request s redirect_valid redirect_pc epoch seq_id accepted out_ready) flush
      redirect_valid epoch resp

-- The decode stage, which has no register.
unfoldable pub id_out : FetchPkt → DecodedIr
id_out pkt = record (decoder pkt.pc pkt.inst pkt.error) { epoch = pkt.epoch; seq_id = pkt.seq_id }

pub record Frontend : Type 0 where
  pub fetch : IfStage
  pub queue : Fifo DecodedIr
  pub current_epoch_q : ℕ
  pub next_seq_id_q : ℕ

unfoldable pub frontend_reset : ℕ → Frontend
frontend_reset reset_pc = record {
  fetch = if_reset reset_pc;
  queue = record { mem_q = λ i. zero_ir; rd_ptr_q = 0; wr_ptr_q = 0; count_q = 0 };
  current_epoch_q = 0;
  next_seq_id_q = 0;
}

-- `depth` is IR_QUEUE_DEPTH, `flush` is flush_i and redirect_valid_i, which Top joins.
module _ (depth : ℕ) where
  abbrev pub queue_valid : Frontend → Bool
  queue_valid f = Fifo.out_valid depth f.queue false

  unfoldable pub queue_ir : Frontend → DecodedIr
  queue_ir f = Fifo.out_data depth f.queue

  unfoldable pub queue_stale : Frontend → Bool
  queue_stale f = queue_valid f && not ((queue_ir f).epoch == f.current_epoch_q)

  -- `ir_valid_o`
  unfoldable pub ir_valid : Frontend → Bool → Bool
  ir_valid f flush = queue_valid f && not flush && not (queue_stale f)

  -- `fetch_ready`, the output `in_ready_o` of the decode stage
  unfoldable pub fetch_ready : Frontend → Bool → Bool
  fetch_ready f flush = Fifo.in_ready depth f.queue || flush

  unfoldable pub frontend_step : Frontend → Bool → ℕ → Bool → Bool → MemResp → Frontend
  frontend_step f flush redirect_pc imem_req_ready ir_ready resp =
      let out_ready = fetch_ready f flush in
      let accepted = (imem_req f.fetch flush out_ready).req_valid && imem_req_ready in
      let decoded_valid = f.fetch.out_q.valid && not flush in
      record {
        fetch =
            if_step f.fetch flush flush redirect_pc f.current_epoch_q f.next_seq_id_q imem_req_ready
              out_ready resp;
        queue =
            Fifo.step depth f.queue false (id_out f.fetch.out_q) (decoded_valid && not flush)
              (ir_ready && ir_valid f flush || queue_stale f);
        current_epoch_q =
            if flush then (f.current_epoch_q + 1) % 2 ^ epoch_w else f.current_epoch_q;
        next_seq_id_q = if accepted then (f.next_seq_id_q + 1) % 2 ^ seq_id_w else f.next_seq_id_q;
      }
