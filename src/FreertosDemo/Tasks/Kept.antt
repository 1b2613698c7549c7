-- ===== src/FreertosDemo/Tasks/Kept.antt =====
-- The clock, the handler and uart_rx_task keep the demo within its invariant.
use dae_pipeline_cpu.Prelude.{
  ◌<◌, ◌≡◌, refl, arith, Bool, true, false, Bool-cases, ◌==◌, inl, inr, ◌⊎◌, Option-cases, [], ◌∷◌,
}
use dae_pipeline_cpu.Host.{Host}
use dae_pipeline_cpu.IrqAgg
use dae_pipeline_cpu.IrqAgg.{IrqAgg, set_uart_rx_edge}
use dae_pipeline_cpu.IrqAgg.Registers.{set_bit}
use dae_pipeline_cpu.Uart
use dae_pipeline_cpu.Uart.{Uart}
use dae_pipeline_cpu.Soc.{Devices, Soc}
use dae_pipeline_cpu.Soc.Sound.{IsSound, ticked, ticked-IsSound, agg-IsSound, uart-IsSound}
use dae_pipeline_cpu.Soc.Run.{IsRunning, devices-IsRunning}
use dae_pipeline_cpu.Hal.Print.{after_putc-IsRunning}
use dae_pipeline_cpu.Hal.Driver.{without_byte}
use dae_pipeline_cpu.FreertosDemo.Tasks.{
  Rx, taking, polling, reading, popping, printing, Isr, idle, sampled, acking, is_idle, Demo, clock,
}
use dae_pipeline_cpu.FreertosDemo.Tasks.Moves.{
  IsPoised, IsServing, IsServed, isr_next, rx_next, next,
}

IsPoised-empty : (u u' : Uart) (rx : Rx) → u.rx_valid ≡ false → IsPoised u rx → IsPoised u' rx
IsPoised-empty u u' taking e h = tt
IsPoised-empty u u' polling e h = tt
IsPoised-empty u u' reading e h = absurd cc
IsPoised-empty u u' (popping c) e h = absurd (cc (h.0))
IsPoised-empty u u' (printing text) e h = tt

IsServing-pending :
    (a : IrqAgg) (sem : Bool) (isr : Isr)
    → IsServing a sem isr
    → IsServing (record a { pending = 1 }) sem isr
IsServing-pending a sem idle h = tt
IsServing-pending a sem (sampled p) h = (h.0, refl)
IsServing-pending a sem (acking p) h = (h.0, refl, h.2)

pub IsServing-idle :
    (a : IrqAgg) (sem : Bool) (isr : Isr) → is_idle isr ≡ true → IsServing a sem isr
IsServing-idle a sem idle e = tt
IsServing-idle a sem (sampled p) e = absurd cc
IsServing-idle a sem (acking p) e = absurd cc

module _ {W : Type 0} (host : Host W) where
  -- A tick with no edge on the wire leaves the two devices alone, or a byte arrives in an empty
  -- buffer and its event is latched.
  pub ticked_cases :
      (d : Devices W)
      → IsSound d
      → d.irq_agg.uart_rx_edge ≡ false
      → let d' = ticked host d in
        ((d'.uart ≡ d.uart) × (d'.irq_agg ≡ d.irq_agg))
        ⊎ ((d.uart.rx_valid ≡ false) × (d'.irq_agg ≡ record d.irq_agg { pending = 1 }))
  unfolding ticked Uart.tick set_uart_rx_edge IrqAgg.tick
  ticked_cases d s low = elim (Bool-cases d.uart.rx_valid) [
    | inl full ↦ inl (ground (arith, full), ground (arith, full, low))
    | inr empty ↦ elim (Option-cases (host.read_byte d.world).0) [
      | inl e ↦ inl (ground (arith, e), ground (arith, e, low))
      | inr (b, e) ↦ inr (
        empty,
        ground (
          arith,
          empty,
          s.attached,
          s.wired,
          e,
          low,
          set_bit d.irq_agg.pending s.irq_agg.pending_bit,
        ),
      )
    ]
  ]

  pub clock-IsServed :
      {lost : Bool} (s : Demo W) → IsServed host lost s → IsServed host lost (next host s clock)
  unfolding next
  clock-IsServed s v =
      let d = s.soc.devices in
      let r =
        devices-IsRunning host s.soc (ticked host d) v.running
          (ticked-IsSound host d v.running.sound) in
      elim (ticked_cases d v.running.sound v.low) [
        | inl (u, a) ↦ record {
          running = r;
          enabled = rw a v.enabled;
          low = rw a v.low;
          poised = rw u v.poised;
          serving = rw a v.serving;
          awake = rw (u, a) v.awake;
        }
        | inr (empty, a) ↦ record {
          running = r;
          enabled = rw a v.enabled;
          low = rw a v.low;
          poised = IsPoised-empty d.uart (ticked host d).uart s.rx empty v.poised;
          serving = rw a (IsServing-pending d.irq_agg s.sem s.isr v.serving);
          awake = rw a (ground arith);
        }
      ]

  pub isr-IsServed :
      {lost : Bool} (s : Demo W) (isr : Isr)
      → IsServed host lost s
      → IsServing s.soc.devices.irq_agg s.sem isr
      → IsServed host lost (isr_next host s isr)
  unfolding isr_next
  isr-IsServed s idle v h = elim (Bool-cases (s.soc.devices.irq_agg.pending == 1)) [
    | inr none_pending ↦ rw none_pending v
    | inl event ↦ rw event (record {
      running = v.running;
      enabled = v.enabled;
      low = v.low;
      poised = v.poised;
      serving = (refl, ground arith);
      awake = v.awake;
    })
  ]
  isr-IsServed s (sampled p) v h = record {
    running = v.running;
    enabled = v.enabled;
    low = v.low;
    poised = v.poised;
    serving = (h.0, h.1, refl);
    awake = ground arith;
  }
  isr-IsServed s (acking p) v h =
      let d = s.soc.devices in
      let a : IrqAgg = record d.irq_agg { pending = 0 } in
      record {
        running =
            devices-IsRunning host s.soc (record d { irq_agg = a }) v.running
              (agg-IsSound host d a (omega (arith, v.running.sound.irq_agg.enable_bit))
                v.running.sound);
        enabled = v.enabled;
        low = v.low;
        poised = v.poised;
        serving = tt;
        awake = ground (arith, h.2);
      }

  -- The UART with its buffer emptied, or with its output moved on.
  pub uart-IsRunning :
      (soc : Soc W) (u : Uart) (w : W)
      → (u.rx_byte < 256) × (u.irq ≡ true) × (u.terminal ≡ true)
      → IsRunning host soc
      → IsRunning host (record soc { devices = record soc.devices { uart = u; world = w } })
  uart-IsRunning soc u w h r =
      devices-IsRunning host soc (record soc.devices { uart = u; world = w }) r
        (uart-IsSound host soc.devices u w h r.sound)

  pub rx-IsServed :
      {lost : Bool} (s : Demo W) (rx : Rx)
      → IsServed host lost s
      → is_idle s.isr ≡ true
      → IsPoised s.soc.devices.uart rx
      → IsServed host lost (rx_next host s rx)
  unfolding rx_next
  rx-IsServed s taking v free h = elim (Bool-cases s.sem) [
    | inr blocked ↦ simp blocked v
    | inl given ↦ simp given (record {
      running = v.running;
      enabled = v.enabled;
      low = v.low;
      poised = tt;
      serving = IsServing-idle s.soc.devices.irq_agg false s.isr free;
      awake = ground arith;
    })
  ]
  rx-IsServed s polling v free h = elim (Bool-cases s.soc.devices.uart.rx_valid) [
    | inl full ↦ simp full (record {
      running = v.running;
      enabled = v.enabled;
      low = v.low;
      poised = full;
      serving = v.serving;
      awake = ground arith;
    })
    | inr empty ↦ simp empty (record {
      running = v.running;
      enabled = v.enabled;
      low = v.low;
      poised = tt;
      serving = v.serving;
      awake = ground (arith, empty);
    })
  ]
  rx-IsServed s reading v free h = record {
    running = v.running;
    enabled = v.enabled;
    low = v.low;
    poised = (h, refl);
    serving = v.serving;
    awake = ground arith;
  }
  rx-IsServed s (popping c) v free h = record {
    running =
        uart-IsRunning s.soc (without_byte host s.soc).devices.uart s.soc.devices.world
          (omega arith, v.running.sound.wired, v.running.sound.attached) v.running;
    enabled = v.enabled;
    low = v.low;
    poised = tt;
    serving = v.serving;
    awake = ground arith;
  }
  rx-IsServed s (printing []) v free h = record {
    running = v.running;
    enabled = v.enabled;
    low = v.low;
    poised = tt;
    serving = v.serving;
    awake = ground arith;
  }
  rx-IsServed s (printing (c ∷ text)) v free h = record {
    running = after_putc-IsRunning host s.soc c v.running;
    enabled = v.enabled;
    low = v.low;
    poised = tt;
    serving = v.serving;
    awake = ground arith;
  }
