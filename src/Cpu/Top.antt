-- ===== src/Cpu/Top.antt =====
-- src/Top.sv.
pub mod Traps
use dae_pipeline_cpu.Prelude.{ℕ, Bool}
use dae_pipeline_cpu.Cpu.Types.{MemReq, MemResp}
use dae_pipeline_cpu.Cpu.Frontend.{
  Frontend, frontend_reset, frontend_step, imem_req, fetch_ready, ir_valid, queue_ir,
}
use dae_pipeline_cpu.Cpu.Backend.{
  Backend, BackendIn, backend_reset, backend_step, redirect_valid, redirect_pc, ir_ready,
}

pub record Top : Type 0 where
  pub frontend : Frontend
  pub backend : Backend

pub record TopIn : Type 0 where
  pub imem_req_ready : Bool
  pub imem_resp : MemResp
  pub back : BackendIn

abbrev pub reset : ℕ → Top
reset reset_pc = record { frontend = frontend_reset reset_pc; backend = backend_reset }

module _ (mem_forwarding wb_forwarding : Bool) (depth : ℕ) where
  unfoldable pub top_imem_req : Top → TopIn → MemReq
  top_imem_req t i =
      let flush = redirect_valid t.backend i.back in
      imem_req t.frontend.fetch flush (fetch_ready depth t.frontend flush)

  unfoldable pub step : Top → TopIn → Top
  step t i =
      let flush = redirect_valid t.backend i.back in
      let ir = queue_ir depth t.frontend in
      let valid = ir_valid depth t.frontend flush in
      record {
        frontend =
            frontend_step depth t.frontend flush (redirect_pc t.backend i.back) i.imem_req_ready
              (ir_ready mem_forwarding wb_forwarding t.backend i.back ir valid) i.imem_resp;
        backend = backend_step mem_forwarding wb_forwarding t.backend i.back ir valid;
      }
