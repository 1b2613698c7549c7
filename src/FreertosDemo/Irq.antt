-- ===== src/FreertosDemo/Irq.antt =====
-- The handler and the set-up against the devices.
use dae_pipeline_cpu.Prelude.{
  ℕ, zero, suc, ◌+◌, ◌-◌, ◌%◌, ◌≤◌, ◌≡◌, refl, arith, ◌∙◌, Bool, true, false, bit_and, ap, not,
  ◌&&◌, ◌==◌, if◌then◌else◌,
}
use dae_pipeline_cpu.Bits.{bit_and_mask}
use dae_pipeline_cpu.Bus.{ret, okay, Exec, ◌>>=◌}
use dae_pipeline_cpu.Host.{Host}
use dae_pipeline_cpu.IrqAgg
use dae_pipeline_cpu.IrqAgg.Registers.{read_lem, write_lem, zero-bit_and}
use dae_pipeline_cpu.Uart
use dae_pipeline_cpu.Soc.{Devices, Soc, tick_all, meip_wire}
use dae_pipeline_cpu.Soc.Decode.{IsMapped, Window, window_lem}
use dae_pipeline_cpu.Soc.Sound.{ticked, ticked-IsSound, agg-IsSound}
use dae_pipeline_cpu.Soc.Run.{IsRunning, devices-IsRunning, tick_lem}
use dae_pipeline_cpu.Soc.Interrupt.{read_irq_agg}
use dae_pipeline_cpu.Hal.{load, store}
use dae_pipeline_cpu.FreertosDemo.{
  irq_agg_pending, irq_agg_enable, irq_bit_uart_rx, returned, enable_uart_rx_irq, interrupt_handler,
}

module _ {W : Type 0} where
  -- `n` ticks of the clock.
  unfoldable pub ticks : ℕ → Soc W → Exec (Soc W)
  ticks zero soc = ret soc
  ticks (suc n) soc = tick_all soc >>= ticks n

module _ {W : Type 0} (host : Host W) where
  abbrev pub with_agg : Soc W → IrqAgg.IrqAgg → Soc W
  with_agg soc a = record soc { devices = record soc.devices { irq_agg = a } }

  with_agg-IsMapped :
      (soc : Soc W) (a : IrqAgg.IrqAgg) → IsMapped host soc → IsMapped host (with_agg soc a)
  with_agg-IsMapped soc a m = record { valid = m.valid; units = m.units }

  -- Storing 1 or a pending bit to the two registers.
  store_agg :
      (soc : Soc W) (offset value : ℕ) (a : IrqAgg.IrqAgg)
      → IsMapped host soc
      → offset + 4 ≤ 0x1000
      → IrqAgg.write soc.devices.irq_agg offset 4 value 0xf ≡ (okay, a)
      → store soc (0x10004000 + offset) value ≡ ret (with_agg soc a)
  unfolding store
  store_agg soc offset value a m inside e =
      let off : 0x10004000 + offset - 0x10004000 ≡ offset = omega arith in
      let routed =
        (window_lem host soc Window.irq_agg (0x10004000 + offset) 4 m (omega arith)
            (ground arith)).1
          value 0xf in
      rw (routed, store) (rw off (rw e))

  pub load_pending :
      (soc : Soc W)
      → IsRunning host soc
      → load soc 0x10004000 ≡ ret (soc.devices.irq_agg.pending, soc)
  unfolding load
  load_pending soc r =
      rw (read_irq_agg host soc 0 r.mapped (omega arith), load)
        (rw (read_lem soc.devices.irq_agg r.sound.irq_agg).0)

  -- Storing what PENDING held takes it back.
  pub store_pending :
      (soc : Soc W)
      → IsRunning host soc
      → store soc 0x10004000 soc.devices.irq_agg.pending
        ≡ ret (with_agg soc (record soc.devices.irq_agg { pending = 0 }))
  store_pending soc r =
      let a = soc.devices.irq_agg in
      let v = r.sound.irq_agg in
      let cleared : (if a.pending % 2 == 1 then 0 else a.pending) ≡ 0 =
        ground (arith, v.pending_bit) in
      let answer =
        (write_lem a a.pending v).0 ∙ ap (λ (p : ℕ). (okay, record a { pending = p })) cleared in
      store_agg soc 0 a.pending (record a { pending = 0 }) r.mapped (omega arith) answer

  -- An external interrupt gives the semaphore exactly if an event is pending, takes the event back,
  -- leaves the wire low, and changes nothing but the aggregator.
  pub mei_handled :
      (soc : Soc W) (has_sem : Bool) (yields : ℕ)
      → IsRunning host soc
      → let a = soc.devices.irq_agg in
        (interrupt_handler soc has_sem yields 0x8000000b
          ≡ ret (
              returned
                (with_agg soc (record a { pending = 0 }))
                (a.pending == 1 && has_sem)
                yields))
        × (meip_wire (with_agg soc (record a { pending = 0 })) ≡ false)
  unfolding interrupt_handler meip_wire IrqAgg.meip_wire
  mei_handled soc has_sem yields r =
      let a = soc.devices.irq_agg in
      let v = r.sound.irq_agg in
      let gave : not (bit_and a.pending 1 == 0) ≡ (a.pending == 1) =
        ground (arith, bit_and_mask 1 a.pending, v.pending_bit) in
      (
        rw (load_pending soc r, interrupt_handler) (rw (store_pending soc r) (rw gave)),
        ground (arith, zero-bit_and a.enable),
      )

  -- A byte waits whose event has been taken back.
  record IsStranded (d : Devices W) : Type 0 where
    waits : d.uart.rx_valid ≡ true
    low : d.irq_agg.uart_rx_edge ≡ false
    taken : d.irq_agg.pending ≡ 0

  ticked-IsStranded :
      (d : Devices W) → IsStranded d → IsStranded (ticked host d) × ((ticked host d).uart ≡ d.uart)
  unfolding ticked Uart.tick IrqAgg.tick
  ticked-IsStranded d s =
      let skip : (not d.uart.rx_valid && d.uart.terminal) ≡ false = ground (arith, s.waits) in
      let idle : Uart.tick host d.uart d.irq_agg d.world ≡ (d.uart, d.irq_agg, d.world) =
        rw (skip, Uart.tick) in
      (
        record {
          waits = rw idle s.waits;
          low = refl;
          taken = rw idle (ground (arith, s.low, s.taken));
        },
        rw idle,
      )

  ticks_stranded :
      (n : ℕ) (soc : Soc W)
      → IsRunning host soc
      → IsStranded soc.devices
      → (soc' : Soc W) × (ticks n soc ≡ ret soc')
        × (meip_wire soc' ≡ false)
        × (soc'.devices.uart ≡ soc.devices.uart)
  unfolding ticks meip_wire IrqAgg.meip_wire
  ticks_stranded zero soc r s =
      (soc, refl, rw s.taken (ground (arith, zero-bit_and soc.devices.irq_agg.enable)), refl)
  ticks_stranded (suc n) soc r s =
      let next : Soc W = record soc { devices = ticked host soc.devices } in
      let (s', same) = ticked-IsStranded soc.devices s in
      let r' =
        devices-IsRunning host soc (ticked host soc.devices) r
          (ticked-IsSound host soc.devices r.sound) in
      let (last, calls, quiet, kept) = ticks_stranded n next r' s' in
      (last, rw (tick_lem host soc r, ticks) calls, quiet, kept ∙ same)

  -- The set-up enables the source and takes back its event.
  abbrev listening : Soc W → Soc W
  listening soc = with_agg soc (record soc.devices.irq_agg { enable = 1; pending = 0 })

  -- The two stores of the set-up.
  pub store_enable :
      (soc : Soc W)
      → IsRunning host soc
      → let soc' = with_agg soc (record soc.devices.irq_agg { enable = 1 }) in
        (store soc irq_agg_enable irq_bit_uart_rx ≡ ret soc') × IsRunning host soc'
  store_enable soc r =
      let a = soc.devices.irq_agg in
      let v = r.sound.irq_agg in
      let a1 : IrqAgg.IrqAgg = record a { enable = 1 } in
      (
        store_agg soc 4 1 a1 r.mapped (omega arith) (write_lem a 1 v).1,
        devices-IsRunning host soc (record soc.devices { irq_agg = a1 }) r
            (agg-IsSound host soc.devices a1 (ground (arith, v.pending_bit)) r.sound),
      )

  pub store_stale :
      (soc : Soc W)
      → IsRunning host soc
      → let soc' = with_agg soc (record soc.devices.irq_agg { pending = 0 }) in
        (store soc irq_agg_pending irq_bit_uart_rx ≡ ret soc') × IsRunning host soc'
  store_stale soc r =
      let a = soc.devices.irq_agg in
      let v = r.sound.irq_agg in
      let a1 : IrqAgg.IrqAgg = record a { pending = 0 } in
      (
        store_agg soc 0 1 a1 r.mapped (omega arith) (write_lem a 1 v).0,
        devices-IsRunning host soc (record soc.devices { irq_agg = a1 }) r
            (agg-IsSound host soc.devices a1 (omega (arith, v.enable_bit)) r.sound),
      )

  enable_lem :
      (soc : Soc W)
      → IsRunning host soc
      → (enable_uart_rx_irq soc ≡ ret (listening soc)) × IsRunning host (listening soc)
  unfolding enable_uart_rx_irq
  enable_lem soc r =
      let (first, r1) = store_enable soc r in
      let (second, r2) =
        store_stale (with_agg soc (record soc.devices.irq_agg { enable = 1 })) r1 in
      (rw (first, enable_uart_rx_irq) second, r2)

  -- If a byte has arrived before enable_uart_rx_irq runs, the write that takes back stale events
  -- takes back its event: the byte stays in the buffer, no later byte can enter it, and the
  -- interrupt wire stays low through any number of ticks.
  pub enable_strands_byte :
      (soc : Soc W)
      → IsRunning host soc
      → soc.devices.uart.rx_valid ≡ true
      → soc.devices.irq_agg.uart_rx_edge ≡ false
      → (soc1 : Soc W) × (enable_uart_rx_irq soc ≡ ret soc1)
        × (soc1.devices.irq_agg.enable ≡ 1)
        × ((n : ℕ)
            → (soc2 : Soc W) × (ticks n soc1 ≡ ret soc2)
              × (meip_wire soc2 ≡ false)
              × (soc2.devices.uart ≡ soc.devices.uart))
  enable_strands_byte soc r waits low =
      let (set, r2) = enable_lem soc r in
      (
        listening soc,
        set,
        refl,
        λ n.
            ticks_stranded n (listening soc) r2 (record { waits = waits; low = low; taken = refl }),
      )
