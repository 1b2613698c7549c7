-- ===== src/Tests/Ports.antt =====
-- The UART on a terminal with two bytes to come.
use dae_pipeline_cpu.Prelude.{ℕ, ◌*◌, ◌≡◌, refl, inr, List, [], ◌∷◌, true, none}
use dae_pipeline_cpu.Bus.{okay, ret}
use dae_pipeline_cpu.Bytes.Load.{IsWidth}
use dae_pipeline_cpu.IrqAgg
use dae_pipeline_cpu.Uart.{Uart, read}
use dae_pipeline_cpu.Uart.Registers.{read_lem}
use dae_pipeline_cpu.Uart.Stream.{Port, Op}
use dae_pipeline_cpu.Ticker.{Ticker}
use dae_pipeline_cpu.Tests.World.{World, ab}

-- The byte 0x5a waits in the buffer.
abbrev full : Uart
full = record { out = none; terminal = true; irq = true; rx_byte = 0x5a; rx_valid = true }

word : IsWidth 4
word = inr (inr refl)

read_lem_example : read full 8 4 ≡ (okay, 0x5a)
read_lem_example = read_lem full 8 4 word

abbrev port : Port World
port = record { uart = full; agg = IrqAgg.ctor; world = ab }

-- Pop, tick, pop, tick.
abbrev pops : List Op
pops = Op.bus 4 4 2 0xf ∷ Op.pulse ∷ Op.bus 4 1 2 0x1 ∷ Op.pulse ∷ []

abbrev one_tickable : Ticker ℕ
one_tickable = record { cap = 4; tickables = (λ n. ret (n * 2)) ∷ [] }
