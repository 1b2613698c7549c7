-- ===== src/Tests/System.antt =====
-- The SoC in reset, and with the receive interrupt enabled.
use dae_pipeline_cpu.Prelude.{ℕ, ◌≡◌, refl, arith, List, [], ◌∷◌, true, false, none, some}
use dae_pipeline_cpu.Bus.{okay, decerr, ret}
use dae_pipeline_cpu.Alloc.{Alloc, done}
use dae_pipeline_cpu.BootRom
use dae_pipeline_cpu.Dram.{dram_default_size}
use dae_pipeline_cpu.Soc.{
  Soc, Devices, soc_units, fresh_devices, clint_tick, uart_tick, irq_agg_tick, ctor, read, write,
  tick_all, meip_wire,
}
use dae_pipeline_cpu.Soc.Build.{fresh_dram, soc_units-Fits, soc_units-Disjoint}
use dae_pipeline_cpu.Soc.Shortage.{IsClintQuiet, ctor_complete, ctor_stops_clock}
use dae_pipeline_cpu.Soc.Decode.{
  IsMapped, Window, Within, window_lem, unmapped_lem, window_read, window_write,
}
use dae_pipeline_cpu.Soc.Sound.{IsSound}
use dae_pipeline_cpu.Soc.Run.{Event, IsRunning, run, run-Runs}
use dae_pipeline_cpu.Soc.Interrupt.{arrival_visible, service_quiet}
use dae_pipeline_cpu.Tests.World.{World, test_host, ab}

abbrev pub reset : Soc World
reset = record {
  devices = fresh_devices test_host none ab fresh_dram;
  map = record { cap = 8; units = soc_units test_host dram_default_size };
  ticker = record {
    cap = 4;
    tickables = clint_tick test_host ∷ uart_tick test_host ∷ irq_agg_tick test_host ∷ [];
  };
}

pub reset-IsMapped : IsMapped test_host reset
reset-IsMapped = record {
  valid = record {
    fits = soc_units-Fits test_host dram_default_size (omega arith) (omega arith);
    disjoint = soc_units-Disjoint test_host dram_default_size;
    room = omega arith;
  };
  units = refl;
}

-- Devices with the source enabled, and with a byte that has arrived.
abbrev enabled : Devices World
enabled = record {
  boot_rom = BootRom.ctor;
  clint = record { msip = 0; mtime = 5; mtimecmp = 8 };
  uart = record { out = none; terminal = true; irq = true; rx_byte = 0; rx_valid = false };
  irq_agg = record { pending = 0; enable = 1; uart_rx_edge = false };
  dram = fresh_dram;
  world = ab;
}

abbrev pub arrived : Devices World
arrived = record enabled {
  uart = record { out = none; terminal = true; irq = true; rx_byte = 0x41; rx_valid = true };
  irq_agg = record { pending = 1; enable = 1; uart_rx_edge = false };
}

enabled-IsSound : IsSound enabled
enabled-IsSound = record {
  rom = refl;
  clint = omega arith;
  irq_agg = omega arith;
  rx_byte = omega arith;
  wired = refl;
  attached = refl;
  dram_bytes = λ i. omega arith;
  dram_size = refl;
}

arrived-IsSound : IsSound arrived
arrived-IsSound = record {
  rom = refl;
  clint = omega arith;
  irq_agg = omega arith;
  rx_byte = omega arith;
  wired = refl;
  attached = refl;
  dram_bytes = λ i. omega arith;
  dram_size = refl;
}

abbrev pub listening : Soc World
listening = record reset { devices = enabled }

abbrev pub interrupted : Soc World
interrupted = record reset { devices = arrived }

pub listening-IsRunning : IsRunning test_host listening
listening-IsRunning = record {
  mapped = record { valid = reset-IsMapped.valid; units = refl };
  clocked = refl;
  sound = enabled-IsSound;
}

pub interrupted-IsRunning : IsRunning test_host interrupted
interrupted-IsRunning = record {
  mapped = record { valid = reset-IsMapped.valid; units = refl };
  clocked = refl;
  sound = arrived-IsSound;
}

ctor_complete_example :
    (soc : Soc World) × (ctor test_host [] none ab ≡ ret (done, some soc, []))
    × (soc.devices ≡ fresh_devices test_host none ab fresh_dram)
    × IsMapped test_host soc
    × (soc.ticker.tickables
        ≡ clint_tick test_host ∷ uart_tick test_host ∷ irq_agg_tick test_host ∷ [])
ctor_complete_example = ctor_complete test_host none ab

ctor_stops_clock_example :
    (soc : Soc World) × (al : Alloc) × (ctor test_host
        (true ∷ true ∷ true ∷ true ∷ true ∷ true ∷ true ∷ false ∷ [])
        none
        ab
      ≡ ret (done, some soc, al))
    × IsClintQuiet test_host soc.ticker
ctor_stops_clock_example = ctor_stops_clock test_host [] none ab

window_lem_example :
    (read listening 0x0200bff8 4 ≡ window_read test_host listening Window.clint 0x0200bff8 4)
    × ((value strb : ℕ)
        → write listening 0x0200bff8 4 value strb
          ≡ window_write test_host listening Window.clint 0x0200bff8 4 value strb)
window_lem_example =
    window_lem test_host listening Window.clint 0x0200bff8 4 listening-IsRunning.mapped
      (omega arith) (omega arith)

nowhere : (x : Window) → ¬ (Within x 0x1000100a 4)
nowhere x h = ground arith

unmapped_lem_example :
    (read listening 0x1000100a 4 ≡ ret (decerr, 0, listening))
    × ((value strb : ℕ) → write listening 0x1000100a 4 value strb ≡ ret (decerr, listening))
unmapped_lem_example =
    unmapped_lem test_host listening 0x1000100a 4 listening-IsRunning.mapped (omega arith)
      (omega arith) nowhere

abbrev events : List Event
events =
    Event.clock
    ∷ Event.reads 0x10001008 4
    ∷ Event.writes 0x80000010 2 0xeeff 0x3
    ∷ Event.writes 0xffffffff 4 0 0xf
    ∷ []

run-Runs_example :
    (soc : Soc World) × (run test_host listening events ≡ ret soc) × IsRunning test_host soc
run-Runs_example =
    run-Runs test_host events listening (tt, (tt, (omega arith, (omega arith, tt))))
      listening-IsRunning

arrival_visible_example :
    (soc : Soc World) × (tick_all listening ≡ ret soc)
    × (meip_wire soc ≡ true)
    × (read soc 0x10001008 4 ≡ ret (okay, 0x41, soc))
    × (read soc 0x10001004 4 ≡ ret (okay, 2, soc))
    × (read soc 0x10004000 4 ≡ ret (okay, 1, soc))
arrival_visible_example =
    arrival_visible test_host listening 0x41 listening-IsRunning refl refl refl (omega arith)

service_quiet_example :
    (soc1 : Soc World) × (soc2 : Soc World) × (write interrupted 0x10001004 4 2 0xf
      ≡ ret (okay, soc1))
    × (write soc1 0x10004000 4 1 0xf ≡ ret (okay, soc2))
    × (meip_wire soc2 ≡ false)
    × (read soc2 0x10001004 4 ≡ ret (okay, 0, soc2))
    × (read soc2 0x10004000 4 ≡ ret (okay, 0, soc2))
    × (soc2 ≡ record interrupted {
      devices = record arrived {
        uart = record { out = none; terminal = true; irq = true; rx_byte = 0; rx_valid = false };
        irq_agg = record { pending = 0; enable = 1; uart_rx_edge = false };
      };
    })
service_quiet_example = service_quiet test_host interrupted interrupted-IsRunning
