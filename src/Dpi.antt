-- ===== src/Dpi.antt =====
-- dpi/snake_soc_dpi.c: the bridge that the simulation of the processor calls. `g_soc` is none while
-- it is NULL.
pub mod Session
pub mod Program
use dae_pipeline_cpu.Prelude.{ℕ, Bool, true, false, Option, none, some, if◌then◌else◌}
use dae_pipeline_cpu.Bus.{AxiResp, slverr, decerr, Exec, ret, ◌>>=◌}
use dae_pipeline_cpu.Alloc.{Alloc, Status, done}
use dae_pipeline_cpu.Host.{Host, stdout}
use dae_pipeline_cpu.Soc
use dae_pipeline_cpu.Soc.{Soc}
use dae_pipeline_cpu.ElfLoader.{FileImage}
use dae_pipeline_cpu.ElfLoader.Headers.{soc_load_elf}

module _ {W : Type 0} (host : Host W) where
  -- The part of dpi_snake_soc_init that loads the program; no path is NULL or the empty string.
  pub load_program : Alloc → Option (Option FileImage) → Soc W → Exec (Status × Option (Soc W))
  load_program al none soc = ret (done, some soc)
  load_program al (some file) soc = soc_load_elf al file soc >>= λ r. elim r.0 [
    | done ↦ ret (done, some r.2)
    | st ↦ ret (st, Soc.dtor (some r.2))
  ]

  -- dpi_snake_soc_init; the old SoC is destroyed first.
  pub init : Alloc → Option (Option FileImage) → W → Option (Soc W) → Exec (Status × Option (Soc W))
  init al path w g_soc = Soc.ctor host al (some stdout) w >>= λ r. elim r.1 [
    | none ↦ ret (r.0, Soc.dtor g_soc)
    | some soc ↦ load_program r.2 path soc
  ]

module _ {W : Type 0} where
  pub fini : Option (Soc W) → Option (Soc W)
  fini g_soc = Soc.dtor g_soc

  pub tick : Option (Soc W) → Exec (Option (Soc W))
  tick none = ret none
  tick (some soc) = Soc.tick_all soc >>= λ soc'. ret (some soc')

  -- `wanted` is `value_out != NULL`.
  unfoldable pub read : Bool → Option (Soc W) → ℕ → ℕ → Exec (AxiResp × ℕ × Option (Soc W))
  read false g_soc addr width = ret (slverr, 0, g_soc)
  read true none addr width = ret (decerr, 0, none)
  read true (some soc) addr width = Soc.read soc addr width >>= λ r. ret (r.0, r.1, some r.2)

  unfoldable pub write : Option (Soc W) → ℕ → ℕ → ℕ → ℕ → Exec (AxiResp × Option (Soc W))
  write none addr width value strb = ret (decerr, none)
  write (some soc) addr width value strb =
      Soc.write soc addr width value strb >>= λ r. ret (r.0, some r.1)

  abbrev pub wire : (Soc W → Bool) → Option (Soc W) → ℕ
  wire w none = 0
  wire w (some soc) = if w soc then 1 else 0

  pub msip : Option (Soc W) → ℕ
  msip g_soc = wire Soc.msip_wire g_soc

  pub mtip : Option (Soc W) → ℕ
  mtip g_soc = wire Soc.mtip_wire g_soc

  pub meip : Option (Soc W) → ℕ
  meip g_soc = wire Soc.meip_wire g_soc
