-- ===== src/FreertosDemo/Session.antt =====
-- From SnakeSoC_ctor through main to the running demo.
use mathlib.Core.Path.{subst}
use dae_pipeline_cpu.Prelude.{ℕ, ◌≡◌, ◌∙◌, true, Option, none, some, List, [], ◌++◌}
use dae_pipeline_cpu.Bus.{ret}
use dae_pipeline_cpu.Alloc.{done}
use dae_pipeline_cpu.Host.{Host, File}
use dae_pipeline_cpu.IrqAgg
use dae_pipeline_cpu.Uart
use dae_pipeline_cpu.Uart.Stream.{InputLaws, held}
use dae_pipeline_cpu.Soc.{Soc, ctor}
use dae_pipeline_cpu.Soc.Run.{fresh-IsRunning}
use dae_pipeline_cpu.FreertosDemo.Tasks.{Demo, Turn, run}
use dae_pipeline_cpu.FreertosDemo.Tasks.Delivery.{run_delivers}
use dae_pipeline_cpu.FreertosDemo.Boot.{Kernel, scheduled, fresh, main}
use dae_pipeline_cpu.FreertosDemo.Boot.Outcome.{Outcome, verdict, main_lem}

module _ {W : Type 0} (host : Host W) (input : W → List ℕ) (laws : InputLaws host input) where
  -- With a terminal that gives the bytes that are to come in their order (InputLaws), on a SoC that
  -- the constructor has built with no allocation refused, and with a kernel whose handler is aligned,
  -- that refuses nothing and that keeps the processor: main reaches the scheduler however often the
  -- clock ticks before each of its accesses, and however the tasks, the handler and the clock then
  -- take their turns, the bytes that uart_rx_task has taken, the byte in the buffer and those still
  -- to come are together, in order, the bytes that were to come before the SoC was built.
  pub session_delivers :
      (out : Option File) (w : W) (clock : List ℕ) (k : Kernel) (file : List ℕ)
      → (ts : List Turn) → verdict k ≡ none
      → k.scheduler ≡ true
      → (soc : Soc W) × (s : Demo W) × (s' : Demo W) × (ctor host [] out w
          ≡ ret (done, some soc, []))
        × (main file (soc, clock) k ≡ ret (scheduled s))
        × (run s ts ≡ ret s')
        × (s'.taken ++ (held s'.soc.devices.uart ++ input s'.soc.devices.world) ≡ input w)
  unfolding Uart.ctor Uart.set_irq_agg IrqAgg.ctor
  session_delivers out w clock k file ts goes stays =
      let (soc, built, reset, r) = fresh-IsRunning host out w in
      let (b, boots, o) = main_lem host input laws soc clock k file r (rw reset) in
      let o' = subst (λ v. Outcome host input laws soc v k.scheduler b) goes o in
      let (soc', ready, v, kept) = subst (λ x. Outcome host input laws soc none x b) stays o' in
      let (s', runs, v', same) = run_delivers host input laws ts (fresh soc') v in
      (soc, fresh soc', s', built, boots ∙ rw ready, runs, same ∙ kept ∙ rw reset)
