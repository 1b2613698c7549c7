-- ===== src/Soc/Interrupt.antt =====
-- The external interrupt from end to end: a byte arrives, the wire rises, and software serves it.
use dae_pipeline_cpu.Prelude.{ℕ, ◌+◌, ◌-◌, ◌≤◌, ◌≡◌, refl, ◌<◌, ◌∙◌, arith, true, false, some}
use dae_pipeline_cpu.Bus.{ret, okay}
use dae_pipeline_cpu.Host.{Host}
use dae_pipeline_cpu.IrqAgg
use dae_pipeline_cpu.IrqAgg.{IrqAgg, set_uart_rx_edge}
use dae_pipeline_cpu.IrqAgg.Registers.{set_bit, write_lem, zero-bit_and}
use dae_pipeline_cpu.Uart
use dae_pipeline_cpu.Uart.{Uart}
use dae_pipeline_cpu.Uart.Registers.{emptied}
use dae_pipeline_cpu.Soc.{Devices, Soc, read, write, tick_all, meip_wire}
use dae_pipeline_cpu.Soc.Sound.{IsSound, ticked}
use dae_pipeline_cpu.Soc.Decode.{IsMapped, Within, Window, window_lem}
use dae_pipeline_cpu.Soc.Run.{IsRunning, tick_lem}

module _ {W : Type 0} (host : Host W) where
  -- The register reads and writes that the interrupt handler makes.
  pub read_uart :
      (soc : Soc W) (offset : ℕ)
      → IsMapped host soc
      → offset + 4 ≤ 0xc
      → read soc (0x10001000 + offset) 4
        ≡ ret
            ((Uart.read soc.devices.uart offset 4).0, (Uart.read soc.devices.uart offset 4).1, soc)
  read_uart soc offset m h =
      let inside : Within Window.uart (0x10001000 + offset) 4 = ground arith in
      let off : 0x10001000 + offset - 0x10001000 ≡ offset = omega arith in
      (window_lem host soc Window.uart (0x10001000 + offset) 4 m (omega arith) inside).0 ∙ rw off

  pub read_irq_agg :
      (soc : Soc W) (offset : ℕ)
      → IsMapped host soc
      → offset + 4 ≤ 0x1000
      → read soc (0x10004000 + offset) 4
        ≡ ret (
          (IrqAgg.read soc.devices.irq_agg offset 4).0,
          (IrqAgg.read soc.devices.irq_agg offset 4).1,
          soc,
        )
  read_irq_agg soc offset m h =
      let inside : Within Window.irq_agg (0x10004000 + offset) 4 = ground arith in
      let off : 0x10004000 + offset - 0x10004000 ≡ offset = omega arith in
      (window_lem host soc Window.irq_agg (0x10004000 + offset) 4 m (omega arith) inside).0 ∙ rw off

  -- The state after a tick at which a byte was there to be read.
  arrival :
      (d : Devices W) (b : ℕ)
      → IsSound d
      → d.uart.rx_valid ≡ false
      → (host.read_byte d.world).0 ≡ some b
      → b < 256
      → ((ticked host d).uart ≡ record d.uart { rx_byte = b; rx_valid = true })
        × ((ticked host d).irq_agg ≡ record d.irq_agg { pending = 1; uart_rx_edge = false })
  unfolding ticked Uart.tick set_uart_rx_edge IrqAgg.tick
  arrival d b s empty got small = (
    rw (empty, s.attached, Uart.tick) (rw got (ground arith)),
    ground (arith, empty, s.attached, s.wired, got, set_bit d.irq_agg.pending),
  )

  -- A tick that finds the receive buffer empty and a byte `b` on the terminal, with the source
  -- enabled: when it is over, the external interrupt wire is high, and the bus reads `b` from
  -- RX_DATA, bit 1 from STATUS and bit 0 from PENDING.
  pub arrival_visible :
      (soc : Soc W) (b : ℕ)
      → IsRunning host soc
      → soc.devices.uart.rx_valid ≡ false
      → soc.devices.irq_agg.enable ≡ 1
      → (host.read_byte soc.devices.world).0 ≡ some b
      → b < 256
      → (soc' : Soc W) × (tick_all soc ≡ ret soc')
        × (meip_wire soc' ≡ true)
        × (read soc' 0x10001008 4 ≡ ret (okay, b, soc'))
        × (read soc' 0x10001004 4 ≡ ret (okay, 2, soc'))
        × (read soc' 0x10004000 4 ≡ ret (okay, 1, soc'))
  unfolding Uart.read IrqAgg.read meip_wire IrqAgg.meip_wire
  arrival_visible soc b r empty enabled got small =
      let soc' : Soc W = record soc { devices = ticked host soc.devices } in
      let m : IsMapped host soc' = record { valid = r.mapped.valid; units = r.mapped.units } in
      let (u, a) = arrival soc.devices b r.sound empty got small in
      (
        soc',
        tick_lem host soc r,
        rw (a, enabled),
        read_uart soc' 8 m (omega arith) ∙ rw u,
        read_uart soc' 4 m (omega arith) ∙ rw u,
        read_irq_agg soc' 0 m (omega arith) ∙ rw a,
      )

  -- The two writes with which the handler finishes: bit 1 of STATUS, which empties the receive
  -- buffer, and bit 0 of PENDING, which takes the event back. Both are answered OKAY, the wire is
  -- low after them, STATUS and PENDING read 0, and no device but these two has changed.
  pub service_quiet :
      (soc : Soc W)
      → IsRunning host soc
      → let d = soc.devices in
        (soc1 : Soc W) × (soc2 : Soc W) × (write soc 0x10001004 4 2 0xf ≡ ret (okay, soc1))
        × (write soc1 0x10004000 4 1 0xf ≡ ret (okay, soc2))
        × (meip_wire soc2 ≡ false)
        × (read soc2 0x10001004 4 ≡ ret (okay, 0, soc2))
        × (read soc2 0x10004000 4 ≡ ret (okay, 0, soc2))
        × (soc2 ≡ record soc {
          devices = record d {
            uart = record d.uart { rx_valid = false; rx_byte = 0 };
            irq_agg = record d.irq_agg { pending = 0 };
          };
        })
  unfolding Uart.read Uart.write IrqAgg.read meip_wire IrqAgg.meip_wire
  service_quiet soc r =
      let d = soc.devices in
      let soc1 : Soc W = record soc { devices = record d { uart = emptied d.uart } } in
      let soc2 : Soc W = record soc {
        devices = record d { uart = emptied d.uart; irq_agg = record d.irq_agg { pending = 0 } };
      } in
      let m1 : IsMapped host soc1 = record { valid = r.mapped.valid; units = r.mapped.units } in
      let m2 : IsMapped host soc2 = record { valid = r.mapped.valid; units = r.mapped.units } in
      let ack = (write_lem d.irq_agg 1 r.sound.irq_agg).0 in
      (
        soc1,
        soc2,
        (window_lem host soc Window.uart 0x10001004 4 r.mapped (omega arith) (omega arith)).1 2 0xf,
        (window_lem host soc1 Window.irq_agg 0x10004000 4 m1 (omega arith) (omega arith)).1 1 0xf
            ∙ rw ack,
        ground (arith, zero-bit_and d.irq_agg.enable),
        read_uart soc2 4 m2 (omega arith),
        read_irq_agg soc2 0 m2 (omega arith),
        refl,
      )
