-- ===== src/Cpu/TbTop.antt =====
-- tb/tb_top.sv with an ELF file: the processor on the SoC of the DPI bridge. The plusargs, the clock
-- and what it prints are not modelled.
pub mod Memory
pub mod StoreLoad
use dae_pipeline_cpu.Prelude.{
  ℕ, zero, suc, ◌-◌, ◌%◌, Bool, true, false, not, ◌&&◌, ◌==◌, Option, none, some, if◌then◌else◌,
  ◌>>>◌,
}
use dae_pipeline_cpu.Bus.{AxiResp, okay, Exec, ret, ◌>>=◌}
use dae_pipeline_cpu.Soc.{Soc}
use dae_pipeline_cpu.Dpi
use dae_pipeline_cpu.Cpu.Types.{MemReq, MemResp, CommitPacket}
use dae_pipeline_cpu.Cpu.WbStage.{commit_valid}
use dae_pipeline_cpu.Cpu.Backend.{backend_dmem_req, backend_commit}
use dae_pipeline_cpu.Cpu.Top
use dae_pipeline_cpu.Cpu.Top.{Top, TopIn, top_imem_req}

-- `dpi_resp != 0`
abbrev pub is_error : AxiResp → Bool
is_error okay = false
is_error _ = true

-- `dpi_width`, `dpi_wdata` and `dpi_strb`, by the byte enables
pub dpi_access : MemReq → ℕ × ℕ × ℕ
dpi_access req =
    if req.be == 1
    then (1, req.wdata, 1)
    else if req.be == 2
    then (1, req.wdata >>> 8, 1)
    else if req.be == 4
    then (1, req.wdata >>> 16, 1)
    else if req.be == 8
    then (1, req.wdata >>> 24, 1)
    else if req.be == 3
    then (2, req.wdata, 3)
    else if req.be == 12
    then (2, req.wdata >>> 16, 3)
    else (4, req.wdata, 0xf)

abbrev pub answer : Bool → ℕ → AxiResp → MemResp
answer valid value resp = record { resp_valid = valid; rdata = value; error = is_error resp }

module _ {W : Type 0} where
  pub fetch : Option (Soc W) → MemReq → Exec (MemResp × Option (Soc W))
  fetch g_soc req =
      if req.req_valid
      then (Dpi.read true g_soc req.addr 4 >>= λ r. ret (answer true r.1 r.0, r.2))
      else ret (answer false 0 okay, g_soc)

  pub data_access : Option (Soc W) → MemReq → Exec (MemResp × Option (Soc W))
  data_access g_soc req =
      if req.req_valid && req.we
      then (let (width, value, strb) = dpi_access req in
          Dpi.write g_soc req.addr width value strb >>= λ r. ret (answer true 0 r.0, r.1))
      else if req.req_valid
      then (Dpi.read true g_soc (req.addr - req.addr % 4) 4 >>= λ r. ret (answer true r.1 r.0, r.2))
      else ret (answer false 0 okay, g_soc)

  pub tick_on : Bool → Option (Soc W) → Exec (Option (Soc W))
  tick_on committed g_soc = if committed then Dpi.tick g_soc else ret g_soc

-- The registers of the test bench, with the processor and the SoC of the bridge.
pub record Tb (W : Type 0) : Type 0 where
  pub dut : Top
  pub imem_resp : MemResp
  pub dmem_resp : MemResp
  pub msip : Bool
  pub mtip : Bool
  pub meip : Bool
  pub g_soc : Option (Soc W)

module _ {W : Type 0} (mem_forwarding wb_forwarding : Bool) (depth : ℕ) where
  abbrev pub top_in : Tb W → TopIn
  top_in t = record {
    imem_req_ready = true;
    imem_resp = t.imem_resp;
    back = record {
      dmem_req_ready = true;
      dmem_resp = t.dmem_resp;
      msip = t.msip;
      mtip = t.mtip;
      meip = t.meip;
    };
  }

  -- One edge of the clock without a reset.
  pub cycle : Tb W → Exec (Tb W)
  cycle t =
      let i = top_in t in
      tick_on (commit_valid t.dut.backend.wb_q) t.g_soc >>= λ ticked.
      fetch ticked (top_imem_req mem_forwarding wb_forwarding depth t.dut i) >>= λ f.
      data_access f.1 (backend_dmem_req t.dut.backend i.back) >>= λ d. ret record {
        dut = Top.step mem_forwarding wb_forwarding depth t.dut i;
        imem_resp = f.0;
        dmem_resp = d.0;
        msip = not (Dpi.msip ticked == 0);
        mtip = not (Dpi.mtip ticked == 0);
        meip = not (Dpi.meip ticked == 0);
        g_soc = d.1;
      }

  -- The loop of the bench, up to the first halt or for max_cycles: the packet of the halt.
  pub run : ℕ → Tb W → Exec (Option CommitPacket × Tb W)
  run zero t = ret (none, t)
  run (suc max_cycles) t = cycle t >>= λ next.
      elim (commit_valid t.dut.backend.wb_q && (backend_commit t.dut.backend).halt_observed) [
        | true ↦ ret (some (backend_commit t.dut.backend), next)
        | false ↦ run max_cycles next
      ]
