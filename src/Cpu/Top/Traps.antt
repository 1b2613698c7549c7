-- ===== src/Cpu/Top/Traps.antt =====
-- A trap in the whole processor.
use dae_pipeline_cpu.Cpu.Frontend.{Frontend}
use dae_pipeline_cpu.Cpu.Backend.{Backend}
use dae_pipeline_cpu.Cpu.Top.{Top}
