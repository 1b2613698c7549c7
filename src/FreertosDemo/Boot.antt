-- ===== src/FreertosDemo/Boot.antt =====
-- freertos_demo: main of app/main.c up to the scheduler, and the hooks of port_glue/hooks.c. The
-- kernel's answers are a parameter, and so is the clock: a list of numbers has how often it ticks
-- before each access of the bus that main makes. The ticks after the last one are those of Tasks.
pub mod Outcome
use dae_pipeline_cpu.Prelude.{
  ℕ, Bool, true, false, bit_and, ◌==◌, if◌then◌else◌, Option, none, some, List, [], ◌∷◌, ◌++◌,
}
use dae_pipeline_cpu.Bus.{Exec, ret, ◌>>=◌}
use dae_pipeline_cpu.Soc.{Soc}
use dae_pipeline_cpu.Hal.{store, putc}
use dae_pipeline_cpu.Hal.Print.{codes, sent}
use dae_pipeline_cpu.Runtime.Stdio.{Arg, word, pointer, printf}
use dae_pipeline_cpu.FreertosDemo.{irq_agg_pending, irq_agg_enable, irq_bit_uart_rx}
use dae_pipeline_cpu.FreertosDemo.Irq.{ticks}
use dae_pipeline_cpu.FreertosDemo.Tasks.{Chatty, Demo, idle, taking}

-- How a call of the kernel that creates an object ends: with the object, without it, or, where its
-- heap is exhausted, in vApplicationMallocFailedHook.
pub data Answer : Type 0 where
  made refused out_of_heap : Answer

-- The address of freertos_risc_v_trap_handler, the answers for the semaphore and the three tasks,
-- and whether vTaskStartScheduler keeps the processor.
pub record Kernel : Type 0 where
  pub handler : ℕ
  pub semaphore : Answer
  pub chatty_a : Answer
  pub chatty_b : Answer
  pub uart_rx : Answer
  pub scheduler : Bool

-- `halt` with a code, the value that main returns, or the demo with its scheduler running.
pub data Booted (W : Type 0) : Type 0 where
  halted returned : ℕ → Soc W → Booted W
  scheduled : Demo W → Booted W

-- The UTF-8 encoding of the dash in the messages.
abbrev pub dash : List ℕ
dash = 0xe2 ∷ 0x80 ∷ 0x94 ∷ []

abbrev pub assert_format : List ℕ
assert_format = codes "[FreeRTOS ASSERT] %s:%d " ++ (dash ++ codes " halting\n")

abbrev pub stack_format : List ℕ
stack_format = codes "[FreeRTOS] stack overflow in task '%s' " ++ (dash ++ codes " halting\n")

abbrev pub malloc_format : List ℕ
malloc_format = codes "[FreeRTOS] pvPortMalloc failed " ++ (dash ++ codes " halting\n")

abbrev pub scheduler_format : List ℕ
scheduler_format = codes "[boot] scheduler returned " ++ (dash ++ codes " halting\n")

-- pdMS_TO_TICKS is not needed: a delay may end at any time. A chatty task starts at its first line.
abbrev pub fresh_chatty : List ℕ → Chatty
fresh_chatty tag = record { tag = tag; tick = 0; line = none }

-- The creations of main, each with the line of the configASSERT on its result.
abbrev pub calls : Kernel → List (Answer × ℕ)
calls k = (k.semaphore, 89) ∷ (k.chatty_a, 94) ∷ (k.chatty_b, 97) ∷ (k.uart_rx, 100) ∷ []

-- The SoC, and the numbers of ticks before the accesses to come, 0 at the end of the list.
abbrev pub Timed : Type 0 → Type 0
Timed W = Soc W × List ℕ

module _ {W : Type 0} where
  pub pause : Timed W → Exec (Timed W)
  pause (soc, []) = ret (soc, [])
  pause (soc, n ∷ clock) = ticks n soc >>= λ soc'. ret (soc', clock)

  -- One access, with the ticks before it.
  pub timed : (Soc W → Exec (Soc W)) → Timed W → Exec (Timed W)
  timed access m = pause m >>= λ r. access r.0 >>= λ soc. ret (soc, r.1)

  pub send : Timed W → List ℕ → Exec (Timed W)
  send m [] = ret m
  send m (c ∷ text) = timed (λ soc. putc soc c) m >>= λ m'. send m' text

  -- printf, as far as the output goes
  pub print : Timed W → List ℕ → List Arg → Exec (Timed W)
  print m format args = send m (sent (printf format args))

  -- enable_uart_rx_irq, with the ticks before its two accesses
  pub timed_enable : Timed W → Exec (Timed W)
  timed_enable m = timed (λ soc. store soc irq_agg_enable irq_bit_uart_rx) m >>= λ m'.
      timed (λ soc. store soc irq_agg_pending irq_bit_uart_rx) m'

  -- The hooks. taskDISABLE_INTERRUPTS is the processor's.
  pub v_assert_called : Timed W → List ℕ → ℕ → Exec (Booted W)
  v_assert_called m file line =
      print m assert_format (pointer (some file) ∷ word line ∷ []) >>= λ m'. ret (halted 1 m'.0)

  pub stack_overflow_hook : Timed W → List ℕ → Exec (Booted W)
  stack_overflow_hook m name =
      print m stack_format (pointer (some name) ∷ []) >>= λ m'. ret (halted 2 m'.0)

  pub malloc_failed_hook : Timed W → Exec (Booted W)
  malloc_failed_hook m = print m malloc_format [] >>= λ m'. ret (halted 3 m'.0)

  -- The demo at the first step of the scheduler.
  abbrev pub fresh : Soc W → Demo W
  fresh soc = record {
    soc = soc;
    sem = false;
    isr = idle;
    rx = taking;
    evt = 0;
    yields = 0;
    chatty_a = fresh_chatty (codes "A");
    chatty_b = fresh_chatty (codes "B");
    taken = [];
  }

  pub start_scheduler : Timed W → Bool → Exec (Booted W)
  start_scheduler m runs = print m (codes "[boot] scheduler starting\n") [] >>= λ m'.
      (if runs
        then ret (scheduled (fresh m'.0))
        else (print m' scheduler_format [] >>= λ m''. ret (returned 1 m''.0)))

  module _ (file : List ℕ) where
    -- configASSERT, in the line of main.c that is given
    pub config_assert : Timed W → Bool → ℕ → (Timed W → Exec (Booted W)) → Exec (Booted W)
    config_assert m x line rest = if x then rest m else v_assert_called m file line

    -- install_mtvec; the register is the processor's.
    pub install_mtvec : Timed W → ℕ → (Timed W → Exec (Booted W)) → Exec (Booted W)
    install_mtvec m handler rest = config_assert m (bit_and handler 3 == 0) 46 rest

    -- The creations, up to the first that fails.
    pub create : List (Answer × ℕ) → Timed W → (Timed W → Exec (Booted W)) → Exec (Booted W)
    create [] m rest = rest m
    create ((made, line) ∷ calls) m rest = config_assert m true line λ m'. create calls m' rest
    create ((refused, line) ∷ calls) m rest = config_assert m false line λ m'. create calls m' rest
    create ((out_of_heap, line) ∷ calls) m rest = malloc_failed_hook m

    pub main : Timed W → Kernel → Exec (Booted W)
    main m k = print m (codes "[boot] main entered\n") [] >>= λ m1.
        install_mtvec m1 k.handler
          λ m2. timed_enable m2 >>= λ m3. create (calls k) m3 λ m4. start_scheduler m4 k.scheduler
