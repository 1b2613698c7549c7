-- ===== src/Soc.antt =====
-- snake_soc: the five devices behind one memory map and one ticker.
pub mod Build
pub mod Shortage
pub mod Registration
pub mod Decode
pub mod Sound
pub mod Run
pub mod Interrupt
pub mod Contract
pub mod Strobes
use dae_pipeline_cpu.Prelude.{
  ℕ, Bool, true, false, Option, none, some, List, [], ◌∷◌, if◌then◌else◌,
}
use dae_pipeline_cpu.Bus.{AxiResp, MmioDevice, vtbl_at, Exec, abort, ret, ◌>>=◌}
use dae_pipeline_cpu.Alloc.{Alloc, alloc, Status, done, enomem}
use dae_pipeline_cpu.Host.{Host, File}
use dae_pipeline_cpu.MemoryMap
use dae_pipeline_cpu.MemoryMap.{MemoryMap, MemMapUnit}
use dae_pipeline_cpu.Ticker
use dae_pipeline_cpu.Ticker.{Ticker, Tickable, tick_at}
use dae_pipeline_cpu.BootRom
use dae_pipeline_cpu.BootRom.{BootRom}
use dae_pipeline_cpu.Clint
use dae_pipeline_cpu.Clint.{Clint, clint_size}
use dae_pipeline_cpu.Uart
use dae_pipeline_cpu.Uart.{Uart}
use dae_pipeline_cpu.IrqAgg
use dae_pipeline_cpu.IrqAgg.{IrqAgg, irq_agg_size}
use dae_pipeline_cpu.Dram
use dae_pipeline_cpu.Dram.{Dram, dram_default_size}

abbrev pub addr_boot_rom : ℕ
addr_boot_rom = 0x00000000

abbrev pub size_boot_rom : ℕ
size_boot_rom = 0x00001000

abbrev pub addr_clint : ℕ
addr_clint = 0x02000000

abbrev pub addr_uart : ℕ
addr_uart = 0x10001000

abbrev pub size_uart : ℕ
size_uart = 0x0000000c

abbrev pub addr_irq_agg : ℕ
addr_irq_agg = 0x10004000

abbrev pub addr_dram : ℕ
addr_dram = 0x80000000

-- The store of all the objects that the vtables reach, with the outside world of the UART.
pub record Devices (W : Type 0) : Type 0 where
  pub boot_rom : BootRom
  pub clint : Clint
  pub uart : Uart
  pub irq_agg : IrqAgg
  pub dram : Dram
  pub world : W

-- `struct SnakeSoC`
pub record Soc (W : Type 0) : Type 0 where
  pub devices : Devices W
  pub map : MemoryMap (Devices W)
  pub ticker : Ticker (Devices W)

module _ {W : Type 0} (host : Host W) where
  -- The views `&soc->boot_rom.super` and `X_as_mmio(&soc->x)`.
  abbrev pub boot_rom_mmio : MmioDevice (Devices W)
  boot_rom_mmio =
      vtbl_at (λ d. d.boot_rom) (λ d r. record d { boot_rom = r }) BootRom.read BootRom.write

  abbrev pub clint_mmio : MmioDevice (Devices W)
  clint_mmio = vtbl_at (λ d. d.clint) (λ d c. record d { clint = c }) Clint.read Clint.write

  abbrev pub uart_mmio : MmioDevice (Devices W)
  uart_mmio =
      vtbl_at (λ d. (d.uart, d.world)) (λ d p. record d { uart = p.0; world = p.1 })
        (λ p. Uart.read p.0) (Uart.write host)

  abbrev pub irq_agg_mmio : MmioDevice (Devices W)
  irq_agg_mmio = vtbl_at (λ d. d.irq_agg) (λ d a. record d { irq_agg = a }) IrqAgg.read IrqAgg.write

  abbrev pub dram_mmio : MmioDevice (Devices W)
  dram_mmio = vtbl_at (λ d. d.dram) (λ d m. record d { dram = m }) Dram.read Dram.write

  -- The views `X_as_tickable(&soc->x)`; the UART's tick reaches the aggregator through `irq`.
  abbrev pub clint_tick : Tickable (Devices W)
  clint_tick = tick_at (λ d. d.clint) (λ d c. record d { clint = c }) Clint.tick

  abbrev pub uart_tick : Tickable (Devices W)
  uart_tick d =
      let (u, a, w) = Uart.tick host d.uart d.irq_agg d.world in
      ret (record d { uart = u; irq_agg = a; world = w })

  abbrev pub irq_agg_tick : Tickable (Devices W)
  irq_agg_tick = tick_at (λ d. d.irq_agg) (λ d a. record d { irq_agg = a }) IrqAgg.tick

  -- The units in the order of their registration.
  abbrev pub soc_units : ℕ → List (MemMapUnit (Devices W))
  soc_units dram_size =
      record { base = addr_boot_rom; size = size_boot_rom; device = boot_rom_mmio }
      ∷ record { base = addr_clint; size = clint_size; device = clint_mmio }
      ∷ record { base = addr_uart; size = size_uart; device = uart_mmio }
      ∷ record { base = addr_irq_agg; size = irq_agg_size; device = irq_agg_mmio }
      ∷ record { base = addr_dram; size = dram_size; device = dram_mmio }
      ∷ []

  -- The chain `(rc = register_unit(...)) != 0 || ...` of the constructor.
  pub register_units :
      Alloc
      → MemoryMap (Devices W)
      → List (MemMapUnit (Devices W))
      → Exec (Status × MemoryMap (Devices W) × Alloc)
  register_units al m [] = ret (done, m, al)
  register_units al m (u ∷ us) =
      MemoryMap.add_device al m u >>= λ r. elim r.0 [ done ↦ register_units r.2 r.1 us | _ ↦ ret r ]

  -- The devices after their constructors and UART_set_irq_agg.
  abbrev pub fresh_devices : Option File → W → Dram → Devices W
  fresh_devices out w dram = record {
    boot_rom = BootRom.ctor;
    clint = Clint.ctor;
    uart = Uart.set_irq_agg (Uart.ctor out true) true;
    irq_agg = IrqAgg.ctor;
    dram = dram;
    world = w;
  }

  -- The three calls of Ticker_add, whose results the constructor drops.
  pub add_tickables : Alloc → Ticker (Devices W) → Ticker (Devices W) × Alloc
  add_tickables al tk =
      let (st0, tk0, al0) = Ticker.add al tk clint_tick in
      let (st1, tk1, al1) = Ticker.add al0 tk0 uart_tick in
      let (st2, tk2, al2) = Ticker.add al1 tk1 irq_agg_tick in (tk2, al2)

  -- The end of SnakeSoC_ctor, on the result of the registrations. Where a step fails, what was
  -- built is freed.
  abbrev pub finish :
      Devices W → Status × MemoryMap (Devices W) × Alloc → Exec (Status × Option (Soc W) × Alloc)
  finish devices r = elim r.0 [
    | done ↦
        (let (st, ticker, al0) = Ticker.ctor r.2 in
          elim ticker [
            | none ↦ ret (st, none, al0)
            | some tk ↦
                (let (tk', al1) = add_tickables al0 tk in
                  ret (done, some (record { devices = devices; map = r.1; ticker = tk' }), al1))
          ])
    | st ↦ ret (st, none, r.2)
  ]

  -- SnakeSoC_ctor from MemoryMap_ctor on.
  pub build_map : Alloc → Devices W → Exec (Status × Option (Soc W) × Alloc)
  build_map al devices =
      let (st, map, al0) = MemoryMap.ctor al in
      elim map [
        | none ↦ ret (st, none, al0)
        | some m ↦ register_units al0 m (soc_units devices.dram.size_bytes) >>= finish devices
      ]

  -- SnakeSoC_ctor
  pub ctor : Alloc → Option File → W → Exec (Status × Option (Soc W) × Alloc)
  ctor al out w =
      let (given, al0) = alloc al in
      if given
      then (Dram.ctor al0 dram_default_size Dram.ideal >>= λ r. elim r.1 [
        | none ↦ ret (r.0, none, r.2)
        | some dram ↦ build_map r.2 (fresh_devices out w dram)
      ])
      else ret (enomem, none, al0)

module _ {W : Type 0} where
  -- SnakeSoC_dtor frees what the SoC owns and the struct, where there is one, and clears the handle.
  unfoldable pub dtor : Option (Soc W) → Option (Soc W)
  dtor self = none

  -- The accesses of the bus through SnakeSoC_memory_map and the ticks through SnakeSoC_ticker.
  pub read : Soc W → ℕ → ℕ → Exec (AxiResp × ℕ × Soc W)
  read soc addr width = MemoryMap.read soc.map soc.devices addr width >>= λ r.
      ret (r.0, r.1, record soc { devices = r.2 })

  pub write : Soc W → ℕ → ℕ → ℕ → ℕ → Exec (AxiResp × Soc W)
  write soc addr width value strb =
      MemoryMap.write soc.map soc.devices addr width value strb >>= λ r.
      ret (r.0, record soc { devices = r.1 })

  pub tick_all : Soc W → Exec (Soc W)
  tick_all soc = Ticker.tick_all soc.ticker soc.devices >>= λ d. ret (record soc { devices = d })

  -- SnakeSoC_msip_wire, SnakeSoC_mtip_wire and SnakeSoC_meip_wire
  unfoldable pub msip_wire : Soc W → Bool
  msip_wire soc = Clint.msip_wire soc.devices.clint

  unfoldable pub mtip_wire : Soc W → Bool
  mtip_wire soc = Clint.mtip_wire soc.devices.clint

  unfoldable pub meip_wire : Soc W → Bool
  meip_wire soc = IrqAgg.meip_wire soc.devices.irq_agg
