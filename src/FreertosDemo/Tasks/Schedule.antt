-- ===== src/FreertosDemo/Tasks/Schedule.antt =====
-- A byte that waits is taken, in any schedule that gives the handler and uart_rx_task their turns.
use mathlib.Core.List.{append_assoc}
use dae_pipeline_cpu.Prelude.{
  ℕ, ◌≤◌, ◌<◌, ◌≡◌, refl, ◌∙◌, ap, arith, true, false, Bool-cases, ◌==◌, inl, inr, ◌⊎◌, some, List,
  [], ◌∷◌, ◌++◌, length,
}
use dae_pipeline_cpu.Bus.{ret}
use dae_pipeline_cpu.Host.{Host}
use dae_pipeline_cpu.Uart.Registers.{buffer}
use dae_pipeline_cpu.FreertosDemo.Tasks.{
  Rx, taking, polling, reading, popping, printing, Isr, idle, sampled, acking, is_idle, Demo, Turn,
  interrupt, rx_task, run,
}
use dae_pipeline_cpu.FreertosDemo.Tasks.Moves.{IsServed, task_next, next}
use dae_pipeline_cpu.FreertosDemo.Tasks.Served.{next-IsServed, after, run_lem}
use dae_pipeline_cpu.FreertosDemo.Tasks.Growth.{after-append, Grows, next-Grows, after-Grows}
use dae_pipeline_cpu.FreertosDemo.Tasks.Progress.{
  isr_left, rx_left, handler_left, turns_left, Holds, Takes, isr-Holds, rx-Holds, turn_lem,
  Holds-self, Holds-trans,
}

-- A round: the handler, any turns, uart_rx_task, and any turns.
abbrev pub round : List Turn × List Turn → List Turn
round (cs, ds) = interrupt ∷ (cs ++ (rx_task ∷ ds))

abbrev pub schedule : List (List Turn × List Turn) → List Turn
schedule [] = []
schedule (r ∷ rs) = round r ++ schedule rs

module _ {W : Type 0} (host : Host W) where
  -- The byte is taken first of all, or is where it was.
  abbrev Outcome : ℕ → Demo W → Demo W → Type 0
  Outcome b s s' = ((rest : List ℕ) × (s'.taken ≡ s.taken ++ (b ∷ rest))) ⊎ Holds host s s'

  after_outcome :
      (ts : List Turn) (s : Demo W) (b : ℕ)
      → IsServed host false s
      → buffer s.soc.devices.uart ≡ some b
      → Outcome b s (after host s ts)
  unfolding after
  after_outcome [] s b v full = inr (Holds-self host s)
  after_outcome (t ∷ ts) s b v full = elim (turn_lem host s t b v full) [
    | inl takes ↦
        (let (l, e) = after-Grows host ts (next host s t) in
          inl (l, e ∙ ap (λ (x : List ℕ). x ++ l) takes ∙ append_assoc s.taken (b ∷ []) l))
    | inr holds ↦
        elim (after_outcome ts (next host s t) b (next-IsServed host s t v) (rw holds.uart full)) [
          | inl (rest, e) ↦ inl (rest, e ∙ ap (λ (x : List ℕ). x ++ (b ∷ rest)) holds.taken)
          | inr more ↦
              inr (Holds-trans host s (next host s t) (after host (next host s t) ts) holds more)
        ]
  ]

  rx_left_pos : (rx : Rx) → 0 < rx_left rx
  rx_left_pos taking = omega arith
  rx_left_pos polling = omega arith
  rx_left_pos reading = omega arith
  rx_left_pos (popping c) = omega arith
  rx_left_pos (printing text) = omega arith

  busy_left : (pending : ℕ) (isr : Isr) → is_idle isr ≡ false → 0 < isr_left pending isr
  busy_left pending idle e = absurd cc
  busy_left pending (sampled p) e = omega arith
  busy_left pending (acking p) e = omega arith

  -- With an event pending or the handler inside, the handler has turns left.
  idle_left :
      (pending : ℕ) (isr : Isr)
      → isr_left pending isr ≡ 0
      → (is_idle isr ≡ true) × ((pending == 1) ≡ false)
  idle_left pending idle e = (refl, ground arith)
  idle_left pending (sampled p) e = absurd (omega arith)
  idle_left pending (acking p) e = absurd (omega arith)

  -- The task's turn counts once the handler has none left.
  rx_turn :
      (s : Demo W) (b : ℕ)
      → IsServed host false s
      → buffer s.soc.devices.uart ≡ some b
      → Takes host b s (next host s rx_task)
        ⊎ Holds host s (next host s rx_task)
          × (handler_left host s ≡ 0 → rx_left (next host s rx_task).rx < rx_left s.rx)
  unfolding next task_next
  rx_turn s b v full = elim (Bool-cases (is_idle s.isr)) [
    | inr busy ↦ rw busy (
        inr (
          Holds-self host s,
          λ none_left. absurd (omega (arith, busy_left s.soc.devices.irq_agg.pending s.isr busy)),
        ))
    | inl free ↦ rw free (elim (rx-Holds host s s.rx b refl v.poised full) [
      | inl takes ↦ inl takes
      | inr (holds, less) ↦ inr (
        holds,
        λ none_left. less (
            ground (arith, idle_left s.soc.devices.irq_agg.pending s.isr none_left, v.awake, full)),
      )
    ])
  ]

  abbrev Taken : ℕ → Demo W → Demo W → Type 0
  Taken b s s' = (rest : List ℕ) × (s'.taken ≡ s.taken ++ (b ∷ rest))

  Taken-Grows : (b : ℕ) (s t u : Demo W) → Taken b s t → Grows host t u → Taken b s u
  Taken-Grows b s t u (rest, e) (l, f) =
      (rest ++ l, f ∙ ap (λ (x : List ℕ). x ++ l) e ∙ append_assoc s.taken (b ∷ rest) l)

  Holds-Taken : (b : ℕ) (s t u : Demo W) → Holds host s t → Taken b t u → Taken b s u
  Holds-Taken b s t u h (rest, e) = (rest, e ∙ ap (λ (x : List ℕ). x ++ (b ∷ rest)) h.taken)

  -- What a part of a schedule achieves: the byte is taken, or fewer turns are left.
  abbrev Advances : ℕ → Demo W → Demo W → Type 0
  Advances b s s' = Taken b s s' ⊎ Holds host s s' × (turns_left host s' < turns_left host s)

  advance-after :
      (ts : List Turn) (s t : Demo W) (b : ℕ)
      → IsServed host false t
      → buffer s.soc.devices.uart ≡ some b
      → Advances b s t
      → Advances b s (after host t ts)
  advance-after ts s t b v full (inl taken) =
      inl (Taken-Grows b s t (after host t ts) taken (after-Grows host ts t))
  advance-after ts s t b v full (inr (holds, less)) =
      let u = after host t ts in
      elim (after_outcome ts t b v (rw holds.uart full)) [
        | inl taken ↦ inl (Holds-Taken b s t u holds taken)
        | inr more ↦
            inr (Holds-trans host s t u holds more, omega (arith, less, more.handler, more.task))
      ]

  -- From the end of the handler's turn, through any turns, to that of the task.
  advance-rx :
      (cs : List Turn) (s t : Demo W) (b : ℕ)
      → IsServed host false t
      → buffer s.soc.devices.uart ≡ some b
      → Holds host s t
      → (0 < handler_left host s → handler_left host t < handler_left host s)
      → Advances b s (next host (after host t cs) rx_task)
  advance-rx cs s t b v full first counts =
      let u = after host t cs in
      let w = next host u rx_task in
      let served = (run_lem host cs t v).1 in
      elim (after_outcome cs t b v (rw first.uart full)) [
        | inl taken ↦
            inl (Taken-Grows b s u w (Holds-Taken b s t u first taken) (next-Grows host u rx_task))
        | inr second ↦
            (let both = Holds-trans host s t u first second in
              elim (rx_turn u b served (rw both.uart full)) [
                | inl takes ↦ inl (Holds-Taken b s u w both ([], takes))
                | inr (third, less) ↦ inr (
                  Holds-trans host s u w both third,
                  ground
                      (arith, counts, second.handler, second.task, third.handler, third.task, less),
                )
              ])
      ]

  advance-round :
      (r : List Turn × List Turn) (s : Demo W) (b : ℕ)
      → IsServed host false s
      → buffer s.soc.devices.uart ≡ some b
      → Advances b s (after host s (round r))
  unfolding after next
  advance-round (cs, ds) s b v full =
      let t = next host s interrupt in
      let (first, counts) = isr-Holds host s s.isr refl in
      let served = next-IsServed host s interrupt v in
      let u = after host t cs in
      let w = next host u rx_task in
      let served' = next-IsServed host u rx_task (run_lem host cs t served).1 in
      rw (after-append host cs (rx_task ∷ ds) t)
        (advance-after ds s w b served' full (advance-rx cs s t b served full first counts))

  rounds_take :
      (rs : List (List Turn × List Turn)) (s : Demo W) (b : ℕ)
      → IsServed host false s
      → buffer s.soc.devices.uart ≡ some b
      → turns_left host s ≤ length rs
      → Taken b s (after host s (schedule rs))
  rounds_take [] s b v full few = absurd (omega (arith, few, rx_left_pos s.rx))
  rounds_take (r ∷ rs) s b v full few =
      let t = after host s (round r) in
      rw (after-append host (round r) (schedule rs) s) (elim (advance-round r s b v full) [
        | inl taken ↦
            Taken-Grows b s t (after host t (schedule rs)) taken (after-Grows host (schedule rs) t)
        | inr (holds, less) ↦ Holds-Taken b s t (after host t (schedule rs)) holds (
            rounds_take rs t b (run_lem host (round r) s v).1 (rw holds.uart full)
              (omega (arith, less)))
      ])

  -- Where the demo is within its invariant, whatever else happens and however the turns are
  -- interleaved: in a schedule of as many rounds
  -- as `turns_left` says, each with a turn of the handler and one of uart_rx_task, a byte that waits
  -- is the next one that uart_rx_task takes.
  pub byte_taken :
      (rs : List (List Turn × List Turn)) (s : Demo W) (b : ℕ)
      → IsServed host false s
      → buffer s.soc.devices.uart ≡ some b
      → turns_left host s ≤ length rs
      → (s' : Demo W) × (rest : List ℕ) × (run s (schedule rs) ≡ ret s')
        × (s'.taken ≡ s.taken ++ (b ∷ rest))
  byte_taken rs s b v full few =
      let (rest, taken) = rounds_take rs s b v full few in
      (after host s (schedule rs), rest, (run_lem host (schedule rs) s v).0, taken)
