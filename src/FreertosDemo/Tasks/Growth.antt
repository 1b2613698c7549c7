-- ===== src/FreertosDemo/Tasks/Growth.antt =====
-- What uart_rx_task has taken is never taken back.
use mathlib.Core.List.{append_assoc, append-nil}
use dae_pipeline_cpu.Prelude.{
  ℕ, ◌≡◌, refl, sym, ◌∙◌, ap, arith, true, false, Bool-cases, if◌then◌else◌, inl, inr, List, [],
  ◌∷◌, ◌++◌,
}
use dae_pipeline_cpu.Host.{Host}
use dae_pipeline_cpu.FreertosDemo.Tasks.{
  Rx, taking, polling, reading, popping, printing, Isr, idle, sampled, acking, is_idle, Demo, Turn,
  clock, interrupt, rx_task, chat,
}
use dae_pipeline_cpu.FreertosDemo.Tasks.Moves.{isr_next, rx_next, task_next, next}
use dae_pipeline_cpu.FreertosDemo.Tasks.Served.{after}

module _ {W : Type 0} (host : Host W) where
  pub after-append :
      (ts us : List Turn) (s : Demo W) → after host s (ts ++ us) ≡ after host (after host s ts) us
  unfolding after
  after-append [] us s = refl
  after-append (t ∷ ts) us s = after-append ts us (next host s t)

  -- What was taken stays, and more may follow it.
  abbrev pub Grows : Demo W → Demo W → Type 0
  Grows s s' = (l : List ℕ) × (s'.taken ≡ s.taken ++ l)

  same-Grows : (s s' : Demo W) → s'.taken ≡ s.taken → Grows s s'
  same-Grows s s' e = ([], e ∙ sym (append-nil s.taken))

  isr-Grows : (s : Demo W) (isr : Isr) → Grows s (isr_next host s isr)
  unfolding isr_next
  isr-Grows s idle = same-Grows s (isr_next host s idle) (ground arith)
  isr-Grows s (sampled p) = same-Grows s (isr_next host s (sampled p)) refl
  isr-Grows s (acking p) = same-Grows s (isr_next host s (acking p)) refl

  rx-Grows : (s : Demo W) (rx : Rx) → Grows s (rx_next host s rx)
  unfolding rx_next
  rx-Grows s taking = same-Grows s (rx_next host s taking) (ground arith)
  rx-Grows s polling = same-Grows s (rx_next host s polling) refl
  rx-Grows s reading = same-Grows s (rx_next host s reading) refl
  rx-Grows s (popping c) = (c ∷ [], refl)
  rx-Grows s (printing []) = same-Grows s (rx_next host s (printing [])) refl
  rx-Grows s (printing (c ∷ text)) = same-Grows s (rx_next host s (printing (c ∷ text))) refl

  task-Grows : (s : Demo W) (t : Turn) → Grows s (task_next host s t)
  unfolding task_next
  task-Grows s rx_task = rx-Grows s s.rx
  task-Grows s (chat false) = same-Grows s (task_next host s (chat false)) refl
  task-Grows s (chat true) = same-Grows s (task_next host s (chat true)) refl
  task-Grows s clock = same-Grows s s refl
  task-Grows s interrupt = same-Grows s s refl

  paused-Grows : (s : Demo W) (t : Turn) → Grows s (if is_idle s.isr then task_next host s t else s)
  paused-Grows s t = elim (Bool-cases (is_idle s.isr)) [
    | inl free ↦ rw free (task-Grows s t)
    | inr busy ↦ rw busy (same-Grows s s refl)
  ]

  pub next-Grows : (s : Demo W) (t : Turn) → Grows s (next host s t)
  unfolding next
  next-Grows s clock = same-Grows s (next host s clock) refl
  next-Grows s interrupt = isr-Grows s s.isr
  next-Grows s rx_task = paused-Grows s rx_task
  next-Grows s (chat b) = paused-Grows s (chat b)

  pub after-Grows : (ts : List Turn) (s : Demo W) → Grows s (after host s ts)
  unfolding after
  after-Grows [] s = ([], sym (append-nil s.taken))
  after-Grows (t ∷ ts) s =
      let (l, e) = next-Grows s t in
      let (m, f) = after-Grows ts (next host s t) in
      (l ++ m, f ∙ ap (λ (x : List ℕ). x ++ m) e ∙ append_assoc s.taken l m)
