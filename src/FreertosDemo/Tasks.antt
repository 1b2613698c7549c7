-- ===== src/FreertosDemo/Tasks.antt =====
-- freertos_demo: the three tasks of app/main.c and the handler of port_glue/app_irq_handler.c on one
-- processor, an access of the bus at a time. The kernel is seen by its binary semaphore, by the rule
-- that no task moves while the handler runs, and by the schedule, which is left open: a delay may end
-- at any time, and any task that is not blocked may move. The clock ticks at any time.
pub mod Moves
pub mod Kept
pub mod Served
pub mod Delivery
pub mod Progress
pub mod Growth
pub mod Schedule
pub mod Sequential
use dae_pipeline_cpu.Prelude.{
  ℕ, zero, suc, ◌+◌, ◌*◌, ◌/◌, Bool, true, false, bit_and, ◌==◌, if◌then◌else◌, u8, u32, Option,
  none, some, List, [], ◌∷◌, ◌++◌,
}
use dae_pipeline_cpu.Bus.{Exec, ret, ◌>>=◌}
use dae_pipeline_cpu.Soc.{Soc, tick_all, meip_wire}
use dae_pipeline_cpu.Hal.{load, store, putc, uart_status, uart_rx_data, uart_status_rx_valid}
use dae_pipeline_cpu.Hal.Print.{codes, sent}
use dae_pipeline_cpu.Runtime.Stdio.{word, pointer, printf}
use dae_pipeline_cpu.FreertosDemo.{irq_agg_pending, irq_bit_uart_rx}

-- The formats of the two lines, which have their arguments.
abbrev pub rx_format : List ℕ
rx_format = codes "[RX] event %u byte=0x%02x\n"

abbrev pub chatty_format : List ℕ
chatty_format = codes "[%s] tick %u (yields=%u)\n"

-- The line for an event and a byte, and that of a chatty task.
unfoldable pub rx_line : ℕ → ℕ → List ℕ
rx_line evt c = sent (printf rx_format (word evt ∷ word c ∷ []))

pub chatty_line : List ℕ → ℕ → ℕ → List ℕ
chatty_line tag tick yields =
    sent (printf chatty_format (pointer (some tag) ∷ word tick ∷ word yields ∷ []))

-- Where uart_rx_task stands: before xSemaphoreTake; in uart_try_getc before the load of STATUS,
-- that of RX_DATA, and the store to STATUS with the byte; or sending a line.
pub data Rx : Type 0 where
  taking polling reading : Rx
  popping : ℕ → Rx
  printing : List ℕ → Rx

-- Where the handler stands: not running, with PENDING loaded, or before its store to PENDING.
pub data Isr : Type 0 where
  idle : Isr
  sampled acking : ℕ → Isr

-- A chatty task: its tag, its counter, and the rest of its line, or none in vTaskDelay.
pub record Chatty : Type 0 where
  pub tag : List ℕ
  pub tick : ℕ
  pub line : Option (List ℕ)

-- `taken` are the bytes that uart_try_getc has returned to uart_rx_task. `yields` is ulYieldCount, which
-- stays, since nothing here sets MSIP.
pub record Demo (W : Type 0) : Type 0 where
  pub soc : Soc W
  pub sem : Bool
  pub isr : Isr
  pub rx : Rx
  pub evt : ℕ
  pub yields : ℕ
  pub chatty_a : Chatty
  pub chatty_b : Chatty
  pub taken : List ℕ

-- Who moves next; `chat false` is chatty_A.
pub data Turn : Type 0 where
  clock interrupt rx_task : Turn
  chat : Bool → Turn

-- Outside the handler, and inside it.
abbrev pub is_idle : Isr → Bool
is_idle idle = true
is_idle _ = false

module _ {W : Type 0} where
  pub isr_step : Demo W → Isr → Exec (Demo W)
  isr_step s idle = elim (meip_wire s.soc) [
    | true ↦ load s.soc irq_agg_pending >>= λ r. ret (record s { soc = r.1; isr = sampled r.0 })
    | false ↦ ret s
  ]
  isr_step s (sampled pending) = ret (record s {
    sem = if bit_and pending irq_bit_uart_rx == 0 then s.sem else true;
    isr = acking pending;
  })
  isr_step s (acking pending) =
      store s.soc irq_agg_pending pending >>= λ soc. ret (record s { soc = soc; isr = idle })

  pub rx_step : Demo W → Rx → Exec (Demo W)
  rx_step s taking = ret (if s.sem then record s { sem = false; rx = polling } else s)
  rx_step s polling = load s.soc uart_status >>= λ r. ret (record s {
    soc = r.1;
    rx = if bit_and r.0 uart_status_rx_valid == 0 then taking else reading;
  })
  rx_step s reading = load s.soc uart_rx_data >>= λ r.
      ret (record s { soc = r.1; rx = popping (u8 (bit_and r.0 0xff)) })
  rx_step s (popping c) = store s.soc uart_status uart_status_rx_valid >>= λ soc. ret (record s {
    soc = soc;
    rx = printing (rx_line s.evt c);
    evt = u32 (s.evt + 1);
    taken = s.taken ++ (c ∷ []);
  })
  rx_step s (printing []) = ret (record s { rx = polling })
  rx_step s (printing (c ∷ text)) =
      putc s.soc c >>= λ soc. ret (record s { soc = soc; rx = printing text })

  pub chatty_step : Soc W → ℕ → Chatty → Option (List ℕ) → Exec (Soc W × Chatty)
  chatty_step soc yields t none =
      ret (soc, record t { tick = u32 (t.tick + 1); line = some (chatty_line t.tag t.tick yields) })
  chatty_step soc yields t (some []) = ret (soc, record t { line = none })
  chatty_step soc yields t (some (c ∷ text)) =
      putc soc c >>= λ soc'. ret (soc', record t { line = some text })

  -- Of the tasks, uart_rx_task moves, or one of the other two.
  pub task_step : Demo W → Turn → Exec (Demo W)
  task_step s rx_task = rx_step s s.rx
  task_step s (chat false) = chatty_step s.soc s.yields s.chatty_a s.chatty_a.line >>= λ r.
      ret (record s { soc = r.0; chatty_a = r.1 })
  task_step s (chat true) = chatty_step s.soc s.yields s.chatty_b s.chatty_b.line >>= λ r.
      ret (record s { soc = r.0; chatty_b = r.1 })
  task_step s _ = ret s

  pub step : Demo W → Turn → Exec (Demo W)
  step s clock = tick_all s.soc >>= λ soc. ret (record s { soc = soc })
  step s interrupt = isr_step s s.isr
  step s t = if is_idle s.isr then task_step s t else ret s

  pub run : Demo W → List Turn → Exec (Demo W)
  run s [] = ret s
  run s (t ∷ ts) = step s t >>= λ s'. run s' ts
