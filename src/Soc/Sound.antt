-- ===== src/Soc/Sound.antt =====
-- What the devices of the SoC keep through every operation on one of them.
use dae_pipeline_cpu.Prelude.{ℕ, ◌∙◌, ◌≡◌, refl, ◌<◌, ◌^◌, arith}
use dae_pipeline_cpu.Prelude.{true}
use dae_pipeline_cpu.Bus.{device_write, AxiResp, Exec, ret}
use dae_pipeline_cpu.Bytes.{IsBytes}
use dae_pipeline_cpu.Host.{Host}
use dae_pipeline_cpu.BootRom
use dae_pipeline_cpu.Clint
use dae_pipeline_cpu.Clint.Registers.{write-IsValid}
use dae_pipeline_cpu.Clint.Timer.{tick-IsValid}
use dae_pipeline_cpu.IrqAgg
use dae_pipeline_cpu.IrqAgg.{set_uart_rx_edge}
use dae_pipeline_cpu.Uart
use dae_pipeline_cpu.Uart.{Uart}
use dae_pipeline_cpu.Dram
use dae_pipeline_cpu.Dram.{Dram, dram_default_size}
use dae_pipeline_cpu.Dram.Memory.{write-IsBytes}
use dae_pipeline_cpu.Soc.{Devices}
use dae_pipeline_cpu.Soc.Decode.{Window, device_of}

-- The devices hold values of their types, the ROM is as it was built, and the UART is connected.
pub record IsSound {W : Type 0} (d : Devices W) : Type 0 where
  pub rom : d.boot_rom ≡ BootRom.ctor
  pub clint : Clint.Registers.IsValid d.clint
  pub irq_agg : IrqAgg.Registers.IsValid d.irq_agg
  pub rx_byte : d.uart.rx_byte < 256
  pub wired : d.uart.irq ≡ true
  pub attached : d.uart.terminal ≡ true
  pub dram_bytes : IsBytes d.dram.backing
  pub dram_size : d.dram.size_bytes ≡ dram_default_size

module _ {W : Type 0} (host : Host W) where
  uart_write-rx :
      (u : Uart) (w : W) (offset width value strb : ℕ)
      → let u' = (Uart.write host (u, w) offset width value strb).1.0 in
        (u.rx_byte < 256 → u'.rx_byte < 256) × (u'.irq ≡ u.irq) × (u'.terminal ≡ u.terminal)
  unfolding Uart.write
  uart_write-rx u w offset width value strb = ground arith

  dram_write-size :
      (d : Dram) (offset width value strb : ℕ)
      → (Dram.write d offset width value strb).1.size_bytes ≡ d.size_bytes
  unfolding Dram.write
  dram_write-size d offset width value strb = ground arith

  rom_write :
      (r : BootRom.BootRom) (offset width value strb : ℕ)
      → (BootRom.write r offset width value strb).1 ≡ r
  unfolding BootRom.write
  rom_write r offset width value strb = refl

  -- Whichever device a write reaches, it returns and leaves the devices sound.
  abbrev pub SoundWrite : Exec (AxiResp × Devices W) → Type 0
  SoundWrite call = (resp : AxiResp) × (d : Devices W) × (call ≡ ret (resp, d)) × IsSound d

  pub device_write-IsSound :
      (x : Window) (d : Devices W) (offset width value strb : ℕ)
      → value < 2 ^ 32
      → IsSound d
      → SoundWrite (device_write (device_of host x) d offset width value strb)
  device_write-IsSound Window.rom d offset width value strb word s = (
    _,
    _,
    refl,
    record {
      rom = rom_write d.boot_rom offset width value strb ∙ s.rom;
      clint = s.clint;
      irq_agg = s.irq_agg;
      rx_byte = s.rx_byte;
      wired = s.wired;
      attached = s.attached;
      dram_bytes = s.dram_bytes;
      dram_size = s.dram_size;
    },
  )
  device_write-IsSound Window.clint d offset width value strb word s = (
    _,
    _,
    refl,
    record {
      rom = s.rom;
      clint = write-IsValid d.clint offset width value strb s.clint word;
      irq_agg = s.irq_agg;
      rx_byte = s.rx_byte;
      wired = s.wired;
      attached = s.attached;
      dram_bytes = s.dram_bytes;
      dram_size = s.dram_size;
    },
  )
  device_write-IsSound Window.uart d offset width value strb word s =
      let (rx, irq, terminal) = uart_write-rx d.uart d.world offset width value strb in
      (
        _,
        _,
        refl,
        record {
          rom = s.rom;
          clint = s.clint;
          irq_agg = s.irq_agg;
          rx_byte = rx s.rx_byte;
          wired = irq ∙ s.wired;
          attached = terminal ∙ s.attached;
          dram_bytes = s.dram_bytes;
          dram_size = s.dram_size;
        },
      )
  device_write-IsSound Window.irq_agg d offset width value strb word s = (
    _,
    _,
    refl,
    record {
      rom = s.rom;
      clint = s.clint;
      irq_agg = IrqAgg.Latch.write-IsValid d.irq_agg offset width value strb s.irq_agg;
      rx_byte = s.rx_byte;
      wired = s.wired;
      attached = s.attached;
      dram_bytes = s.dram_bytes;
      dram_size = s.dram_size;
    },
  )
  device_write-IsSound Window.dram d offset width value strb word s = (
    _,
    _,
    refl,
    record {
      rom = s.rom;
      clint = s.clint;
      irq_agg = s.irq_agg;
      rx_byte = s.rx_byte;
      wired = s.wired;
      attached = s.attached;
      dram_bytes = write-IsBytes d.dram offset width value strb s.dram_bytes;
      dram_size = dram_write-size d.dram offset width value strb ∙ s.dram_size;
    },
  )

  uart_tick-rx :
      (u : Uart) (a : IrqAgg.IrqAgg) (w : W)
      → u.rx_byte < 256
      → IrqAgg.Registers.IsValid a
      → let (u', a', w') = Uart.tick host u a w in
        (u'.rx_byte < 256)
        × (u'.irq ≡ u.irq)
        × (u'.terminal ≡ u.terminal)
        × IrqAgg.Registers.IsValid a'
  unfolding Uart.tick set_uart_rx_edge
  uart_tick-rx u a w small v = ground arith

  -- What a clock tick of a running SoC comes to: the CLINT, the UART, then the aggregator.
  unfoldable pub ticked : Devices W → Devices W
  ticked d =
      let (u, a, w) = Uart.tick host d.uart d.irq_agg d.world in
      record d { clint = Clint.tick d.clint; uart = u; irq_agg = IrqAgg.tick a; world = w }

  pub ticked-IsSound : (d : Devices W) → IsSound d → IsSound (ticked d)
  unfolding ticked
  ticked-IsSound d s =
      let (rx, irq, terminal, agg) = uart_tick-rx d.uart d.irq_agg d.world s.rx_byte s.irq_agg in
      record {
        rom = s.rom;
        clint = tick-IsValid d.clint s.clint;
        irq_agg = IrqAgg.Latch.tick-IsValid (Uart.tick host d.uart d.irq_agg d.world).1 agg;
        rx_byte = rx;
        wired = irq ∙ s.wired;
        attached = terminal ∙ s.attached;
        dram_bytes = s.dram_bytes;
        dram_size = s.dram_size;
      }

  -- A new aggregator, or a new UART and world.
  pub agg-IsSound :
      (d : Devices W) (a : IrqAgg.IrqAgg)
      → IrqAgg.Registers.IsValid a
      → IsSound d
      → IsSound (record d { irq_agg = a })
  agg-IsSound d a v s = record {
    rom = s.rom;
    clint = s.clint;
    irq_agg = v;
    rx_byte = s.rx_byte;
    wired = s.wired;
    attached = s.attached;
    dram_bytes = s.dram_bytes;
    dram_size = s.dram_size;
  }

  pub uart-IsSound :
      (d : Devices W) (u : Uart) (w : W)
      → (u.rx_byte < 256) × (u.irq ≡ true) × (u.terminal ≡ true)
      → IsSound d
      → IsSound (record d { uart = u; world = w })
  uart-IsSound d u w (small, wired, attached) s = record {
    rom = s.rom;
    clint = s.clint;
    irq_agg = s.irq_agg;
    rx_byte = small;
    wired = wired;
    attached = attached;
    dram_bytes = s.dram_bytes;
    dram_size = s.dram_size;
  }
