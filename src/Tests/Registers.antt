-- ===== src/Tests/Registers.antt =====
-- The registers of the CLINT, the aggregator and the UART.
use dae_pipeline_cpu.Prelude.{◌≡◌, refl, arith}
use dae_pipeline_cpu.Prelude.{true, false, List, [], ◌∷◌, ◌&&◌}
use dae_pipeline_cpu.Clint.{Clint}
use dae_pipeline_cpu.Clint.Registers.{IsValid}
use dae_pipeline_cpu.Clint.Timer.{ticks, ticks_lem}
use dae_pipeline_cpu.IrqAgg
use dae_pipeline_cpu.IrqAgg.Registers
use dae_pipeline_cpu.IrqAgg.Latch.{Op, run, spec_run, view, run_refines, event_kept}

-- A timer that is due in three ticks.
abbrev timer : Clint
timer = record { msip = 0; mtime = 5; mtimecmp = 8 }

timer-IsValid : IsValid timer
timer-IsValid = omega arith

ticks_lem_example : ticks 3 timer ≡ record { msip = 0; mtime = 8; mtimecmp = 8 }
ticks_lem_example = ticks_lem 3 timer timer-IsValid

abbrev idle : IrqAgg.IrqAgg
idle = record { pending = 0; enable = 1; uart_rx_edge = false }

idle-IsValid : IrqAgg.Registers.IsValid idle
idle-IsValid = omega arith

-- A pulse, a tick, a write that does not acknowledge, and one that does.
abbrev served : List Op
served = Op.edge true ∷ Op.pulse ∷ Op.bus 0 4 2 0xf ∷ Op.bus 0 4 1 0xf ∷ []

run_refines_example :
    (view (run idle served) ≡ spec_run (view idle) served)
    × (IrqAgg.meip_wire (run idle served)
        ≡ (spec_run (view idle) served).pending && (spec_run (view idle) served).enabled)
    × IrqAgg.Registers.IsValid (run idle served)
run_refines_example = run_refines served idle idle-IsValid

event_kept_example :
    (run idle (Op.edge true ∷ Op.pulse ∷ Op.pulse ∷ Op.bus 0 4 2 0xf ∷ [])).pending ≡ 1
event_kept_example =
    event_kept (Op.pulse ∷ Op.bus 0 4 2 0xf ∷ []) idle idle-IsValid (refl, (refl, tt))
