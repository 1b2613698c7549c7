-- ===== src/FreertosDemo/Tasks/Served.antt =====
-- The demo keeps its invariant through every turn.
use dae_pipeline_cpu.Prelude.{
  ℕ, ◌≡◌, refl, Bool, true, false, Bool-cases, if◌then◌else◌, inl, inr, Option, none, some, List,
  [], ◌∷◌,
}
use dae_pipeline_cpu.Bus.{ret}
use dae_pipeline_cpu.Host.{Host}
use dae_pipeline_cpu.Soc.{Soc}
use dae_pipeline_cpu.Soc.Run.{IsRunning}
use dae_pipeline_cpu.FreertosDemo.Tasks.{
  is_idle, Chatty, Demo, Turn, clock, interrupt, rx_task, chat, run,
}
use dae_pipeline_cpu.FreertosDemo.Tasks.Moves.{IsServed, chatty_next, task_next, next, step_lem}
use dae_pipeline_cpu.Hal.Print.{after_putc-IsRunning}
use dae_pipeline_cpu.FreertosDemo.Tasks.Kept.{clock-IsServed, isr-IsServed, rx-IsServed}

module _ {W : Type 0} (host : Host W) where
  -- A chatty task changes nothing but its own record and the output.
  pub chatty_lem :
      (soc : Soc W) (yields : ℕ) (t : Chatty) (line : Option (List ℕ))
      → IsRunning host soc
      → let soc' = (chatty_next host soc yields t line).0 in
        IsRunning host soc'
        × (soc'.devices.uart ≡ soc.devices.uart)
        × (soc'.devices.irq_agg ≡ soc.devices.irq_agg)
  unfolding chatty_next
  chatty_lem soc yields t none r = (r, refl, refl)
  chatty_lem soc yields t (some []) r = (r, refl, refl)
  chatty_lem soc yields t (some (c ∷ text)) r = (after_putc-IsRunning host soc c r, refl, refl)

  task-IsServed :
      {lost : Bool} (s : Demo W) (t : Turn)
      → IsServed host lost s
      → is_idle s.isr ≡ true
      → IsServed host lost (task_next host s t)
  unfolding task_next
  task-IsServed s rx_task v free = rx-IsServed host s s.rx v free v.poised
  task-IsServed s (chat false) v free =
      let (r, u, a) = chatty_lem s.soc s.yields s.chatty_a s.chatty_a.line v.running in
      record {
        running = r;
        enabled = rw a v.enabled;
        low = rw a v.low;
        poised = rw u v.poised;
        serving = rw a v.serving;
        awake = rw (u, a) v.awake;
      }
  task-IsServed s (chat true) v free =
      let (r, u, a) = chatty_lem s.soc s.yields s.chatty_b s.chatty_b.line v.running in
      record {
        running = r;
        enabled = rw a v.enabled;
        low = rw a v.low;
        poised = rw u v.poised;
        serving = rw a v.serving;
        awake = rw (u, a) v.awake;
      }
  task-IsServed s clock v free = v
  task-IsServed s interrupt v free = v

  paused-IsServed :
      {lost : Bool} (s : Demo W) (t : Turn)
      → IsServed host lost s
      → IsServed host lost (if is_idle s.isr then task_next host s t else s)
  paused-IsServed s t v = elim (Bool-cases (is_idle s.isr)) [
    | inl free ↦ rw free (task-IsServed s t v free)
    | inr busy ↦ rw busy v
  ]

  pub next-IsServed :
      {lost : Bool} (s : Demo W) (t : Turn)
      → IsServed host lost s
      → IsServed host lost (next host s t)
  unfolding next
  next-IsServed s clock v = clock-IsServed host s v
  next-IsServed s interrupt v = isr-IsServed host s s.isr v v.serving
  next-IsServed s rx_task v = paused-IsServed s rx_task v
  next-IsServed s (chat b) v = paused-IsServed s (chat b) v

  unfoldable pub after : Demo W → List Turn → Demo W
  after s [] = s
  after s (t ∷ ts) = after (next host s t) ts

  -- No schedule aborts.
  pub run_lem :
      {lost : Bool} (ts : List Turn) (s : Demo W)
      → IsServed host lost s
      → (run s ts ≡ ret (after s ts)) × IsServed host lost (after s ts)
  unfolding run after
  run_lem [] s v = (refl, v)
  run_lem (t ∷ ts) s v =
      let (runs, v') = run_lem ts (next host s t) (next-IsServed s t v) in
      (rw (step_lem host s t v, run) runs, v')
