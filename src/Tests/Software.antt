-- ===== src/Tests/Software.antt =====
-- Software on the SoC of the system tests.
use dae_pipeline_cpu.Prelude.{suc, ◌≤◌}
use dae_pipeline_cpu.Uart
use dae_pipeline_cpu.Soc.{tick_all}
use dae_pipeline_cpu.Soc.Sound.{ticked}
use dae_pipeline_cpu.Hal.{load, store, getc}
use dae_pipeline_cpu.Hal.Polling.{later, getc_lem}
use dae_pipeline_cpu.Tests.System.{listening, listening-IsRunning}
use dae_pipeline_cpu.Prelude.{ℕ, ◌≡◌, refl, arith, true, false, some, none}
use dae_pipeline_cpu.Bus.{ret}
use dae_pipeline_cpu.Uart.Registers.{buffer}
use dae_pipeline_cpu.Soc.{Soc, mtip_wire, meip_wire}
use dae_pipeline_cpu.Hal.Driver.{without_byte}
use dae_pipeline_cpu.FreertosDemo.Handler.{Cause, Outcome, handled_lem}
use dae_pipeline_cpu.FreertosDemo.{Handled, interrupt_handler, enable_uart_rx_irq}
use dae_pipeline_cpu.FreertosDemo.Irq.{ticks, enable_strands_byte}
use dae_pipeline_cpu.FreertosDemo.Timer.{period_lem}
use dae_pipeline_cpu.Tests.World.{World, test_host}
use dae_pipeline_cpu.Tests.System.{interrupted, arrived, interrupted-IsRunning}

enable_strands_byte_example :
    (soc1 : Soc World) × (enable_uart_rx_irq interrupted ≡ ret soc1)
    × (soc1.devices.irq_agg.enable ≡ 1)
    × ((n : ℕ)
        → (soc2 : Soc World) × (ticks n soc1 ≡ ret soc2)
          × (meip_wire soc2 ≡ false)
          × (soc2.devices.uart ≡ arrived.uart))
enable_strands_byte_example =
    enable_strands_byte test_host interrupted interrupted-IsRunning refl refl

arrives_later : buffer (later test_host 1 listening).devices.uart ≡ some 0x41
unfolding ticked Uart.tick
arrives_later = refl

getc_lem_example :
    (k : ℕ) × (c : ℕ) × (k ≤ 1)
    × ((j : ℕ) → suc j ≤ k → buffer (later test_host j listening).devices.uart ≡ none)
    × (buffer (later test_host k listening).devices.uart ≡ some c)
    × (getc 2 tick_all listening
        ≡ ret (some c, without_byte test_host (later test_host k listening)))
getc_lem_example = getc_lem test_host 1 listening 0x41 listening-IsRunning arrives_later

period_lem_example :
    (load listening 0x0200bff8 ≡ ret (5, listening))
    × (load listening 0x0200bffc ≡ ret (0, listening))
    × ((soc1 : Soc World) × (soc2 : Soc World) × (soc3 : Soc World) × (store listening 0x02004004 0
          ≡ ret soc1)
        × (store soc1 0x02004000 1005 ≡ ret soc2)
        × (ticks 999 soc2 ≡ ret soc3)
        × (mtip_wire soc3 ≡ false))
period_lem_example =
    period_lem test_host listening 999 listening-IsRunning (omega arith) (omega arith)

handled_lem_example :
    (h : Handled World) × (interrupt_handler interrupted true 7 0x8000000b ≡ ret h)
    × Outcome test_host interrupted true 7 Cause.external h
handled_lem_example = handled_lem test_host interrupted true 7 0x8000000b interrupted-IsRunning
