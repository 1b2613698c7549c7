-- ===== src/Soc/Strobes.antt =====
-- The strobes of a write, of which the trait says that bit `i` enables byte `i`.
use dae_pipeline_cpu.Bytes.{Bytes}
use dae_pipeline_cpu.Host.{Host}
use dae_pipeline_cpu.BootRom
use dae_pipeline_cpu.Clint
use dae_pipeline_cpu.IrqAgg
use dae_pipeline_cpu.Uart
use dae_pipeline_cpu.Dram
