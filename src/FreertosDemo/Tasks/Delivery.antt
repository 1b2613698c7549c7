-- ===== src/FreertosDemo/Tasks/Delivery.antt =====
-- From the terminal to uart_rx_task: what is taken is what arrived, in order.
use mathlib.Core.List.{append_assoc}
use dae_pipeline_cpu.Prelude.{
  Bool, ℕ, ◌≡◌, refl, ◌∙◌, ap, arith, true, false, Bool-cases, if◌then◌else◌, inl, inr, Option,
  none, some, Option-cases, List, [], ◌∷◌, ◌++◌, u8,
}
use dae_pipeline_cpu.Bus.{ret}
use dae_pipeline_cpu.Host.{Host}
use dae_pipeline_cpu.Uart
use dae_pipeline_cpu.Uart.{sink}
use dae_pipeline_cpu.Uart.Stream.{InputLaws, held}
use dae_pipeline_cpu.Soc.{Devices, Soc}
use dae_pipeline_cpu.Soc.Sound.{ticked}
use dae_pipeline_cpu.Hal.Driver.{after_putc}
use dae_pipeline_cpu.FreertosDemo.Tasks.{
  Rx, taking, polling, reading, popping, printing, Isr, idle, sampled, acking, is_idle, Chatty,
  Demo, Turn, clock, interrupt, rx_task, chat, run,
}
use dae_pipeline_cpu.FreertosDemo.Tasks.Moves.{
  IsPoised, IsServed, isr_next, rx_next, chatty_next, task_next, next,
}
use dae_pipeline_cpu.FreertosDemo.Tasks.Served.{next-IsServed, after, run_lem}

module _ {W : Type 0} (host : Host W) (input : W → List ℕ) (laws : InputLaws host input) where
  -- What waits in the UART and is still to arrive, and that after what the task has taken.
  abbrev pub pipe : Soc W → List ℕ
  pipe soc = held soc.devices.uart ++ input soc.devices.world

  abbrev pub stream : Demo W → List ℕ
  stream s = s.taken ++ pipe s.soc

  pub pipe-ticked :
      (d : Devices W)
      → held (ticked host d).uart ++ input (ticked host d).world ≡ held d.uart ++ input d.world
  unfolding ticked Uart.tick
  pipe-ticked d = elim (Option-cases (host.read_byte d.world).0) [
    | inl e ↦ ground (arith, e, laws.absent d.world e)
    | inr (b, e) ↦ ground (arith, e, laws.arrives d.world b e)
  ]

  pub pipe-after_putc : (soc : Soc W) (c : ℕ) → pipe (after_putc host soc c) ≡ pipe soc
  pipe-after_putc soc c =
      ap (λ (l : List ℕ). held soc.devices.uart ++ l)
        (laws.output soc.devices.world (sink soc.devices.uart.out) (u8 c))

  isr-stream : (s : Demo W) (isr : Isr) → stream (isr_next host s isr) ≡ stream s
  unfolding isr_next
  isr-stream s idle = ground arith
  isr-stream s (sampled p) = refl
  isr-stream s (acking p) = refl

  rx-stream :
      (s : Demo W) (rx : Rx)
      → IsPoised s.soc.devices.uart rx
      → stream (rx_next host s rx) ≡ stream s
  unfolding rx_next
  rx-stream s taking h = ground arith
  rx-stream s polling h = refl
  rx-stream s reading h = refl
  rx-stream s (popping c) h =
      let full : held s.soc.devices.uart ≡ c ∷ [] = ground arith in
      append_assoc s.taken (c ∷ []) (input s.soc.devices.world) ∙ rw full
  rx-stream s (printing []) h = refl
  rx-stream s (printing (c ∷ text)) h = ap (λ (l : List ℕ). s.taken ++ l) (pipe-after_putc s.soc c)

  chatty-pipe :
      (soc : Soc W) (yields : ℕ) (t : Chatty) (line : Option (List ℕ))
      → pipe (chatty_next host soc yields t line).0 ≡ pipe soc
  unfolding chatty_next
  chatty-pipe soc yields t none = refl
  chatty-pipe soc yields t (some []) = refl
  chatty-pipe soc yields t (some (c ∷ text)) = pipe-after_putc soc c

  task-stream :
      {lost : Bool} (s : Demo W) (t : Turn)
      → IsServed host lost s
      → stream (task_next host s t) ≡ stream s
  unfolding task_next
  task-stream s rx_task v = rx-stream s s.rx v.poised
  task-stream s (chat false) v =
      ap (λ (l : List ℕ). s.taken ++ l) (chatty-pipe s.soc s.yields s.chatty_a s.chatty_a.line)
  task-stream s (chat true) v =
      ap (λ (l : List ℕ). s.taken ++ l) (chatty-pipe s.soc s.yields s.chatty_b s.chatty_b.line)
  task-stream s clock v = refl
  task-stream s interrupt v = refl

  paused-stream :
      {lost : Bool} (s : Demo W) (t : Turn)
      → IsServed host lost s
      → stream (if is_idle s.isr then task_next host s t else s) ≡ stream s
  paused-stream s t v = elim (Bool-cases (is_idle s.isr)) [
    | inl free ↦ rw free (task-stream s t v)
    | inr busy ↦ rw busy
  ]

  next-stream :
      {lost : Bool} (s : Demo W) (t : Turn)
      → IsServed host lost s
      → stream (next host s t) ≡ stream s
  unfolding next
  next-stream s clock v = ap (λ (l : List ℕ). s.taken ++ l) (pipe-ticked s.soc.devices)
  next-stream s interrupt v = isr-stream s s.isr
  next-stream s rx_task v = paused-stream s rx_task v
  next-stream s (chat b) v = paused-stream s (chat b) v

  stream-after :
      {lost : Bool} (ts : List Turn) (s : Demo W)
      → IsServed host lost s
      → stream (after host s ts) ≡ stream s
  unfolding after
  stream-after [] s v = refl
  stream-after (t ∷ ts) s v =
      stream-after ts (next host s t) (next-IsServed host s t v) ∙ next-stream s t v

  -- Every schedule returns, keeps the demo served, and hands the bytes of the terminal to
  -- uart_rx_task: those taken, then the one in the buffer, then those to come are the same list at
  -- the end as at the start.
  pub run_delivers :
      {lost : Bool} (ts : List Turn) (s : Demo W)
      → IsServed host lost s
      → (s' : Demo W) × (run s ts ≡ ret s') × IsServed host lost s' × (stream s' ≡ stream s)
  run_delivers ts s v =
      let (runs, v') = run_lem host ts s v in (after host s ts, runs, v', stream-after ts s v)
