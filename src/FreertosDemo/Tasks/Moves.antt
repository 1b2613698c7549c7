-- ===== src/FreertosDemo/Tasks/Moves.antt =====
-- What each turn comes to on a running SoC, with the accesses of the bus carried out.
use dae_pipeline_cpu.Prelude.{
  ℕ, ◌+◌, ◌≡◌, refl, arith, Bool, true, false, Bool-cases, bit_and, ◌==◌, not, ◌||◌, if◌then◌else◌,
  u8, u32, inl, inr, Option, none, some, List, [], ◌∷◌, ◌++◌,
}
use dae_pipeline_cpu.Bits.{bit_and_mask}
use dae_pipeline_cpu.Bus.{ret}
use dae_pipeline_cpu.Host.{Host}
use dae_pipeline_cpu.IrqAgg.{IrqAgg}
use dae_pipeline_cpu.IrqAgg.Registers.{meip_wire_lem}
use dae_pipeline_cpu.Uart.{Uart}
use dae_pipeline_cpu.Soc.{Soc, meip_wire}
use dae_pipeline_cpu.Soc.Sound.{ticked}
use dae_pipeline_cpu.Soc.Run.{IsRunning, tick_lem}
use dae_pipeline_cpu.Hal.{store}
use dae_pipeline_cpu.Hal.Driver.{
  without_byte, after_putc, load_status, load_data, store_status, putc_lem,
}
use dae_pipeline_cpu.FreertosDemo.Irq.{with_agg, load_pending, store_pending}
use dae_pipeline_cpu.FreertosDemo.Tasks.{
  Rx, taking, polling, reading, popping, printing, Isr, idle, sampled, acking, is_idle, Chatty,
  Demo, Turn, clock, interrupt, rx_task, chat, isr_step, rx_step, chatty_step, task_step, step,
  rx_line, chatty_line,
}

-- What a task's place says of the buffer: from the load of STATUS to the pop it holds a byte, and
-- after the load of RX_DATA that byte is the one that was loaded.
abbrev pub IsPoised : Uart → Rx → Type 0
IsPoised u reading = u.rx_valid ≡ true
IsPoised u (popping c) = (u.rx_valid ≡ true) × (u.rx_byte ≡ c)
IsPoised u _ = Unit

-- In the handler PENDING was and is set; once the semaphore is given it stays given.
abbrev pub IsServing : IrqAgg → Bool → Isr → Type 0
IsServing a sem idle = Unit
IsServing a sem (sampled p) = (p ≡ 1) × (a.pending ≡ 1)
IsServing a sem (acking p) = (p ≡ 1) × (a.pending ≡ 1) × (sem ≡ true)

abbrev pub is_active : Rx → Bool
is_active taking = false
is_active _ = true

module _ {W : Type 0} (host : Host W) where
  unfoldable pub isr_next : Demo W → Isr → Demo W
  isr_next s idle = if s.soc.devices.irq_agg.pending == 1 then record s { isr = sampled 1 } else s
  isr_next s (sampled p) = record s { sem = true; isr = acking p }
  isr_next s (acking p) = record s {
    soc = with_agg host s.soc (record s.soc.devices.irq_agg { pending = 0 });
    isr = idle;
  }

  unfoldable pub rx_next : Demo W → Rx → Demo W
  rx_next s taking = if s.sem then record s { sem = false; rx = polling } else s
  rx_next s polling = record s { rx = if s.soc.devices.uart.rx_valid then reading else taking }
  rx_next s reading = record s { rx = popping s.soc.devices.uart.rx_byte }
  rx_next s (popping c) = record s {
    soc = without_byte host s.soc;
    rx = printing (rx_line s.evt c);
    evt = u32 (s.evt + 1);
    taken = s.taken ++ (c ∷ []);
  }
  rx_next s (printing []) = record s { rx = polling }
  rx_next s (printing (c ∷ text)) = record s { soc = after_putc host s.soc c; rx = printing text }

  unfoldable pub chatty_next : Soc W → ℕ → Chatty → Option (List ℕ) → Soc W × Chatty
  chatty_next soc yields t none =
      (soc, record t { tick = u32 (t.tick + 1); line = some (chatty_line t.tag t.tick yields) })
  chatty_next soc yields t (some []) = (soc, record t { line = none })
  chatty_next soc yields t (some (c ∷ text)) =
      (after_putc host soc c, record t { line = some text })

  unfoldable pub task_next : Demo W → Turn → Demo W
  task_next s rx_task = rx_next s s.rx
  task_next s (chat false) =
      let r = chatty_next s.soc s.yields s.chatty_a s.chatty_a.line in
      record s { soc = r.0; chatty_a = r.1 }
  task_next s (chat true) =
      let r = chatty_next s.soc s.yields s.chatty_b s.chatty_b.line in
      record s { soc = r.0; chatty_b = r.1 }
  task_next s _ = s

  unfoldable pub next : Demo W → Turn → Demo W
  next s clock = record s { soc = record s.soc { devices = ticked host s.soc.devices } }
  next s interrupt = isr_next s s.isr
  next s t = if is_idle s.isr then task_next s t else s

  isr_step_lem :
      (s : Demo W) (isr : Isr)
      → IsRunning host s.soc
      → s.soc.devices.irq_agg.enable ≡ 1
      → IsServing s.soc.devices.irq_agg s.sem isr
      → isr_step s isr ≡ ret (isr_next s isr)
  unfolding isr_step isr_next meip_wire
  isr_step_lem s idle r on h =
      let wire : meip_wire s.soc ≡ (s.soc.devices.irq_agg.pending == 1) =
        ground (arith, meip_wire_lem s.soc.devices.irq_agg r.sound.irq_agg) in
      elim (Bool-cases (s.soc.devices.irq_agg.pending == 1)) [
        | inl high ↦
            (let one : s.soc.devices.irq_agg.pending ≡ 1 = ground arith in
              rw (wire, isr_step) (rw high (rw (load_pending host s.soc r) (rw one))))
        | inr low ↦ rw (wire, isr_step) (rw low)
      ]
  isr_step_lem s (sampled p) r on h = rw h.0
  isr_step_lem s (acking p) r on h =
      let same : p ≡ s.soc.devices.irq_agg.pending = cc in
      let stored : store s.soc 0x10004000 p
          ≡ ret (with_agg host s.soc (record s.soc.devices.irq_agg { pending = 0 })) =
        rw same (store_pending host s.soc r) in
      rw (stored, isr_step)

  rx_step_lem :
      (s : Demo W) (rx : Rx)
      → IsRunning host s.soc
      → IsPoised s.soc.devices.uart rx
      → rx_step s rx ≡ ret (rx_next s rx)
  unfolding rx_step rx_next
  rx_step_lem s taking r h = refl
  rx_step_lem s polling r h = elim (Bool-cases s.soc.devices.uart.rx_valid) [
    | inl full ↦ rw (load_status host s.soc true r full, rx_step) (rw full)
    | inr empty ↦ rw (load_status host s.soc false r empty, rx_step) (rw empty)
  ]
  rx_step_lem s reading r h =
      let b = s.soc.devices.uart.rx_byte in
      let same : u8 (bit_and b 0xff) ≡ b = ground (arith, bit_and_mask 8 b, r.sound.rx_byte) in
      rw (load_data host s.soc r h, rx_step) (rw same)
  rx_step_lem s (popping c) r h = rw (store_status host s.soc r, rx_step)
  rx_step_lem s (printing []) r h = refl
  rx_step_lem s (printing (c ∷ text)) r h = rw (putc_lem host s.soc c r, rx_step)

  chatty_step_lem :
      (soc : Soc W) (yields : ℕ) (t : Chatty) (line : Option (List ℕ))
      → IsRunning host soc
      → chatty_step soc yields t line ≡ ret (chatty_next soc yields t line)
  unfolding chatty_step chatty_next
  chatty_step_lem soc yields t none r = refl
  chatty_step_lem soc yields t (some []) r = refl
  chatty_step_lem soc yields t (some (c ∷ text)) r = rw (putc_lem host soc c r, chatty_step)

  -- What holds of the demo while its scheduler runs. `awake`, where no byte was lost before: a byte
  -- that waits has its event pending, or the semaphore is given, or uart_rx_task is not blocked.
  pub record IsServed (lost : Bool) (s : Demo W) : Type 0 where
    pub running : IsRunning host s.soc
    pub enabled : s.soc.devices.irq_agg.enable ≡ 1
    pub low : s.soc.devices.irq_agg.uart_rx_edge ≡ false
    pub poised : IsPoised s.soc.devices.uart s.rx
    pub serving : IsServing s.soc.devices.irq_agg s.sem s.isr
    pub awake :
        (lost
          || not s.soc.devices.uart.rx_valid
          || s.soc.devices.irq_agg.pending == 1
          || s.sem
          || is_active s.rx)
        ≡ true

  task_step_lem :
      {lost : Bool} (s : Demo W) (t : Turn) → IsServed lost s → task_step s t ≡ ret (task_next s t)
  unfolding task_step task_next
  task_step_lem s rx_task v = rx_step_lem s s.rx v.running v.poised
  task_step_lem s (chat false) v =
      rw (chatty_step_lem s.soc s.yields s.chatty_a s.chatty_a.line v.running, task_step)
  task_step_lem s (chat true) v =
      rw (chatty_step_lem s.soc s.yields s.chatty_b s.chatty_b.line v.running, task_step)
  task_step_lem s clock v = refl
  task_step_lem s interrupt v = refl

  -- In the handler the tasks wait.
  paused :
      {lost : Bool} (s : Demo W) (t : Turn)
      → IsServed lost s
      → (if is_idle s.isr then task_step s t else ret s)
        ≡ ret (if is_idle s.isr then task_next s t else s)
  paused s t v = elim (Bool-cases (is_idle s.isr)) [
    | inl free ↦ rw free (task_step_lem s t v)
    | inr busy ↦ rw busy
  ]

  pub step_lem : {lost : Bool} (s : Demo W) (t : Turn) → IsServed lost s → step s t ≡ ret (next s t)
  unfolding step next
  step_lem s clock v = rw (tick_lem host s.soc v.running, step)
  step_lem s interrupt v = isr_step_lem s s.isr v.running v.enabled v.serving
  step_lem s rx_task v = paused s rx_task v
  step_lem s (chat b) v = paused s (chat b) v
