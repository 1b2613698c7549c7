-- ===== src/FreertosDemo/Tasks/Progress.antt =====
-- A byte that waits is taken, in any schedule that gives the handler and uart_rx_task their turns.
use dae_pipeline_cpu.Prelude.{
  ℕ, ◌+◌, ◌≤◌, ◌<◌, ◌≡◌, refl, ◌∙◌, arith, Bool, true, false, Bool-cases, ◌==◌, ◌||◌, if◌then◌else◌,
  inl, inr, ◌⊎◌, some, [], ◌∷◌, ◌++◌, length,
}
use dae_pipeline_cpu.Host.{Host}
use dae_pipeline_cpu.Uart.Registers.{buffer}
use dae_pipeline_cpu.FreertosDemo.Tasks.{
  Rx, taking, polling, reading, popping, printing, Isr, idle, sampled, acking, is_idle, Demo, Turn,
  clock, interrupt, rx_task, chat,
}
use dae_pipeline_cpu.FreertosDemo.Tasks.Moves.{
  IsPoised, IsServed, is_active, isr_next, rx_next, task_next, next,
}
use dae_pipeline_cpu.FreertosDemo.Tasks.Kept.{ticked_cases}
use dae_pipeline_cpu.FreertosDemo.Tasks.Served.{chatty_lem}

-- The turns that the handler needs until PENDING is clear, and the task until it has popped.
abbrev pub isr_left : ℕ → Isr → ℕ
isr_left pending idle = if pending == 1 then 3 else 0
isr_left pending (sampled p) = 2
isr_left pending (acking p) = 1

abbrev pub rx_left : Rx → ℕ
rx_left taking = 4
rx_left polling = 3
rx_left reading = 2
rx_left (popping c) = 1
rx_left (printing text) = length text + 4

module _ {W : Type 0} (host : Host W) where
  abbrev pub handler_left : Demo W → ℕ
  handler_left s = isr_left s.soc.devices.irq_agg.pending s.isr

  abbrev pub turns_left : Demo W → ℕ
  turns_left s = handler_left s + rx_left s.rx

  -- A turn that does not take the byte leaves the buffer alone and adds to neither count.
  pub record Holds (s s' : Demo W) : Type 0 where
    pub uart : s'.soc.devices.uart ≡ s.soc.devices.uart
    pub taken : s'.taken ≡ s.taken
    pub handler : handler_left s' ≤ handler_left s
    pub task : rx_left s'.rx ≤ rx_left s.rx

  abbrev pub Takes : ℕ → Demo W → Demo W → Type 0
  Takes b s s' = s'.taken ≡ s.taken ++ (b ∷ [])

  pub Holds-self : (s : Demo W) → Holds s s
  Holds-self s = record { uart = refl; taken = refl; handler = omega arith; task = omega arith }

  pub Holds-trans : (s t u : Demo W) → Holds s t → Holds t u → Holds s u
  Holds-trans s t u g h = record {
    uart = h.uart ∙ g.uart;
    taken = h.taken ∙ g.taken;
    handler = omega (arith, g.handler, h.handler);
    task = omega (arith, g.task, h.task);
  }

  -- The handler moves on whenever it has turns left.
  pub isr-Holds :
      (s : Demo W) (isr : Isr)
      → s.isr ≡ isr
      → Holds s (isr_next host s isr)
        × (0 < handler_left s → handler_left (isr_next host s isr) < handler_left s)
  unfolding isr_next
  isr-Holds s idle e =
      let less : handler_left s ≡ isr_left s.soc.devices.irq_agg.pending idle = rw e in
      elim (Bool-cases (s.soc.devices.irq_agg.pending == 1)) [
        | inl event ↦ simp event (
          record { uart = refl; taken = refl; handler = ground arith; task = omega arith },
          λ pos. ground arith,
        )
        | inr none_pending ↦ simp none_pending (
          record { uart = refl; taken = refl; handler = omega arith; task = omega arith },
          λ pos. ground arith,
        )
      ]
  isr-Holds s (sampled p) e = (
    record { uart = refl; taken = refl; handler = rw e (omega arith); task = omega arith },
    λ pos. rw e (omega arith),
  )
  isr-Holds s (acking p) e = (
    record { uart = refl; taken = refl; handler = rw e (omega arith); task = omega arith },
    λ pos. rw e (omega arith),
  )

  -- So does the task, unless it is blocked.
  pub rx-Holds :
      (s : Demo W) (rx : Rx) (b : ℕ)
      → s.rx ≡ rx
      → IsPoised s.soc.devices.uart rx
      → buffer s.soc.devices.uart ≡ some b
      → Takes b s (rx_next host s rx)
        ⊎ Holds s (rx_next host s rx)
          × ((s.sem || is_active s.rx) ≡ true → rx_left (rx_next host s rx).rx < rx_left s.rx)
  unfolding rx_next
  rx-Holds s taking b e h full = elim (Bool-cases s.sem) [
    | inl given ↦ simp given (
        inr (
          record { uart = refl; taken = refl; handler = omega arith; task = rw e (omega arith) },
          λ go. rw e (omega arith),
        ))
    | inr blocked ↦ simp blocked (inr (Holds-self s, λ go. absurd (ground (arith, e))))
  ]
  rx-Holds s polling b e h full =
      let valid : s.soc.devices.uart.rx_valid ≡ true = ground arith in
      inr (
        record { uart = refl; taken = refl; handler = omega arith; task = rw e (ground arith) },
        λ go. rw e (ground arith),
      )
  rx-Holds s reading b e h full = inr (
    record { uart = refl; taken = refl; handler = omega arith; task = rw e (omega arith) },
    λ go. rw e (omega arith),
  )
  rx-Holds s (popping c) b e h full = let same : c ≡ b = ground arith in inl (rw same)
  rx-Holds s (printing []) b e h full = inr (
    record { uart = refl; taken = refl; handler = omega arith; task = rw e (omega arith) },
    λ go. rw e (omega arith),
  )
  rx-Holds s (printing (c ∷ text)) b e h full = inr (
    record { uart = refl; taken = refl; handler = omega arith; task = rw e (omega arith) },
    λ go. rw e (omega arith),
  )

  clock-Holds :
      (s : Demo W) (b : ℕ)
      → IsServed host false s
      → buffer s.soc.devices.uart ≡ some b
      → Holds s (next host s clock)
  unfolding next
  clock-Holds s b v full = elim (ticked_cases host s.soc.devices v.running.sound v.low) [
    | inl (u, a) ↦ record {
      uart = u;
      taken = refl;
      handler = rw a (omega arith);
      task = omega arith;
    }
    | inr (empty, a) ↦ absurd (ground (arith, empty))
  ]

  chat-Holds : (s : Demo W) (b : Bool) → IsServed host false s → Holds s (task_next host s (chat b))
  unfolding task_next
  chat-Holds s false v =
      let (r, u, a) = chatty_lem host s.soc s.yields s.chatty_a s.chatty_a.line v.running in
      record { uart = u; taken = refl; handler = rw a (omega arith); task = omega arith }
  chat-Holds s true v =
      let (r, u, a) = chatty_lem host s.soc s.yields s.chatty_b s.chatty_b.line v.running in
      record { uart = u; taken = refl; handler = rw a (omega arith); task = omega arith }

  pub turn_lem :
      (s : Demo W) (t : Turn) (b : ℕ)
      → IsServed host false s
      → buffer s.soc.devices.uart ≡ some b
      → Takes b s (next host s t) ⊎ Holds s (next host s t)
  unfolding next task_next
  turn_lem s clock b v full = inr (clock-Holds s b v full)
  turn_lem s interrupt b v full = inr (isr-Holds s s.isr refl).0
  turn_lem s rx_task b v full = elim (Bool-cases (is_idle s.isr)) [
    | inr busy ↦ rw busy (inr (Holds-self s))
    | inl free ↦ rw free (elim (rx-Holds s s.rx b refl v.poised full) [
      | inl takes ↦ inl takes
      | inr (holds, less) ↦ inr holds
    ])
  ]
  turn_lem s (chat c) b v full = elim (Bool-cases (is_idle s.isr)) [
    | inr busy ↦ rw busy (inr (Holds-self s))
    | inl free ↦ rw free (inr (chat-Holds s c v))
  ]
