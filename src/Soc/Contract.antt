-- ===== src/Soc/Contract.antt =====
-- The contract that devices/common/include/mmio_device.h writes down for the read and the write of a
-- device, and the five devices of the SoC against it; for what the strobes select see Strobes.
use dae_pipeline_cpu.Prelude.{ℕ, ◌*◌, ◌^◌, ◌<◌, ◌≡◌, ◌≢◌, ◌⊎◌}
use dae_pipeline_cpu.Bus.{AxiResp, okay, slverr}
use dae_pipeline_cpu.Bytes.{Bytes}
use dae_pipeline_cpu.Bytes.Load.{IsWidth}
use dae_pipeline_cpu.Host.{Host}
use dae_pipeline_cpu.BootRom
use dae_pipeline_cpu.Clint
use dae_pipeline_cpu.IrqAgg
use dae_pipeline_cpu.Uart
use dae_pipeline_cpu.Dram
use dae_pipeline_cpu.Dram.{misaligned}

-- A read that is answered OKAY has a legal width and a zero-extended value; one that is refused is
-- answered SLVERR with the value 0.
abbrev pub ReadMeets : ℕ → AxiResp × ℕ → Type 0
ReadMeets width (resp, value) =
    (resp ≡ okay) × IsWidth width × (value < 2 ^ (8 * width)) ⊎ (resp ≡ slverr) × (value ≡ 0)

-- A legal width, and every strobe of a word.
abbrev pub IsProper : ℕ → ℕ → Type 0
IsProper width strb = IsWidth width × ((width ≢ 4) ⊎ (strb ≡ 0xf))

-- A write is answered OKAY or SLVERR, and OKAY only where it is proper; one that is not proper
-- changes nothing.
abbrev pub WriteMeets : {S : Type 0} → ℕ → ℕ → S → AxiResp × S → Type 0
WriteMeets width strb s (resp, s') =
    ((resp ≡ okay) ⊎ (resp ≡ slverr)) × IsProper width strb ⊎ (resp ≡ slverr) × (s' ≡ s)
