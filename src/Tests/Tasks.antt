-- ===== src/Tests/Tasks.antt =====
-- The demo with a byte that waits and its event pending, and the demo that is booted.
use dae_pipeline_cpu.Prelude.{
  ℕ, ◌+◌, ◌≡◌, refl, arith, List, [], ◌∷◌, ◌++◌, true, false, none, some, u32,
}
use dae_pipeline_cpu.Bus.{ret}
use dae_pipeline_cpu.Alloc.{done}
use dae_pipeline_cpu.Uart.Stream.{held}
use dae_pipeline_cpu.Soc.{Soc, ctor}
use dae_pipeline_cpu.Hal.{try_getc}
use dae_pipeline_cpu.Hal.Print.{codes}
use dae_pipeline_cpu.FreertosDemo.{interrupt_handler, returned}
use dae_pipeline_cpu.FreertosDemo.Tasks.{
  idle, taking, polling, printing, Demo, Turn, clock, interrupt, rx_task, chat, run, rx_line,
}
use dae_pipeline_cpu.FreertosDemo.Tasks.Moves.{IsServed}
use dae_pipeline_cpu.FreertosDemo.Tasks.Schedule.{schedule, byte_taken}
use dae_pipeline_cpu.FreertosDemo.Tasks.Sequential.{turns_lem}
use dae_pipeline_cpu.FreertosDemo.Irq.{with_agg}
use dae_pipeline_cpu.Hal.Driver.{without_byte}
use dae_pipeline_cpu.FreertosDemo.Boot.{made, refused, Kernel, scheduled, fresh_chatty, main}
use dae_pipeline_cpu.FreertosDemo.Boot.Outcome.{Outcome}
use dae_pipeline_cpu.FreertosDemo.Session.{session_delivers}
use dae_pipeline_cpu.Tests.World.{World, test_host, test_host-InputLaws, coming_of, ab}
use dae_pipeline_cpu.Tests.System.{interrupted, interrupted-IsRunning}

abbrev waiting : Demo World
waiting = record {
  soc = interrupted;
  sem = false;
  isr = idle;
  rx = taking;
  evt = 0;
  yields = 0;
  chatty_a = fresh_chatty (codes "A");
  chatty_b = fresh_chatty (codes "B");
  taken = 0x40 ∷ [];
}

waiting-IsServed : IsServed test_host false waiting
waiting-IsServed = record {
  running = interrupted-IsRunning;
  enabled = refl;
  low = refl;
  poised = tt;
  serving = tt;
  awake = refl;
}

-- Two bytes that are to come, and turns in which the first is taken.
abbrev turns : List Turn
turns = clock ∷ chat false ∷ interrupt ∷ interrupt ∷ rx_task ∷ interrupt ∷ rx_task ∷ []

abbrev rounds : List (List Turn × List Turn)
rounds =
    (clock ∷ [], chat true ∷ [])
    ∷ ([], [])
    ∷ ([], [])
    ∷ ([], [])
    ∷ ([], [])
    ∷ ([], [])
    ∷ ([], [])
    ∷ ([], [])
    ∷ []

byte_taken_example :
    (s' : Demo World) × (rest : List ℕ) × (run waiting (schedule rounds) ≡ ret s')
    × (s'.taken ≡ 0x40 ∷ 0x41 ∷ rest)
byte_taken_example = byte_taken test_host rounds waiting 0x41 waiting-IsServed refl (omega arith)

turns_lem_example :
    let s1 : Demo World = record waiting { rx = polling } in
    let acked =
      with_agg test_host interrupted (record interrupted.devices.irq_agg { pending = 0 }) in
    ((interrupt_handler interrupted true 0 0x8000000b ≡ ret (returned acked true 0))
      × (run s1 (interrupt ∷ interrupt ∷ interrupt ∷ [])
          ≡ ret (record s1 { soc = acked; sem = true })))
    × ((try_getc interrupted ≡ ret (some 0x41, without_byte test_host interrupted))
        × (run s1 (rx_task ∷ rx_task ∷ rx_task ∷ [])
            ≡ ret (record s1 {
              soc = without_byte test_host interrupted;
              rx = printing (rx_line 0 0x41);
              evt = u32 (0 + 1);
              taken = 0x40 ∷ 0x41 ∷ [];
            })))
turns_lem_example =
    turns_lem test_host waiting 0x41
      (record {
        running = interrupted-IsRunning;
        enabled = refl;
        low = refl;
        poised = tt;
        serving = tt;
        awake = refl;
      })
      refl refl

-- A kernel that makes everything but the first chatty task, and one that refuses nothing.
abbrev refusing : Kernel
refusing = record {
  handler = 0x80000100;
  semaphore = made;
  chatty_a = refused;
  chatty_b = made;
  uart_rx = made;
  scheduler = true;
}

abbrev willing : Kernel
willing = record refusing { chatty_a = made }

session_delivers_example :
    (soc : Soc World) × (s : Demo World) × (s' : Demo World) × (ctor test_host [] none ab
      ≡ ret (done, some soc, []))
    × (main (codes "main.c") (soc, 0 ∷ 3 ∷ []) willing ≡ ret (scheduled s))
    × (run s turns ≡ ret s')
    × (s'.taken ++ (held s'.soc.devices.uart ++ s'.soc.devices.world.coming) ≡ 0x41 ∷ 0x42 ∷ [])
session_delivers_example =
    session_delivers test_host coming_of test_host-InputLaws none ab (0 ∷ 3 ∷ []) willing
      (codes "main.c") turns refl refl
