-- ===== src/Soc/Decode.antt =====
-- The address map that software sees: which device an access of the bus reaches.
use mathlib.Core.List.{Memᴰ}
use mathlib.Core.List.Memᴰ.{head, tail}
use dae_pipeline_cpu.Prelude.{ℕ, ◌↔◌, ◌+◌, ◌-◌, ◌^◌, ◌≤◌, ◌<◌, ◌≡◌, refl, arith, inl, inr}
use dae_pipeline_cpu.Prelude.{none, some, Option-cases}
use dae_pipeline_cpu.Bus.{AxiResp, Exec, ret, decerr, ◌>>=◌, MmioDevice, device_read, device_write}
use dae_pipeline_cpu.Host.{Host}
use dae_pipeline_cpu.MemoryMap
use dae_pipeline_cpu.MemoryMap.{MemMapUnit, MemoryMap}
use dae_pipeline_cpu.MemoryMap.Layout.{IsValid}
use dae_pipeline_cpu.MemoryMap.Decode.{Covers, find_unit_iff}
use dae_pipeline_cpu.Dram.{dram_default_size}
use dae_pipeline_cpu.Soc.{Devices, Soc, soc_units, read, write, boot_rom_mmio, clint_mmio}
use dae_pipeline_cpu.Soc.{uart_mmio, irq_agg_mmio, dram_mmio}

-- The windows of the address space, as the documentation lists them.
pub data Window : Type 0 where
  rom clint uart irq_agg dram : Window

abbrev pub first : Window → ℕ
first rom = 0
first clint = 0x02000000
first uart = 0x10001000
first irq_agg = 0x10004000
first dram = 0x80000000

-- one past the last address
abbrev pub limit : Window → ℕ
limit rom = 0x1000
limit clint = 0x02010000
limit uart = 0x1000100c
limit irq_agg = 0x10005000
limit dram = 0x84000000

-- The whole access lies in the window.
pub record Within (x : Window) (addr width : ℕ) : Type 0 where
  pub from : first x ≤ addr
  pub upto : addr + width ≤ limit x

module _ {W : Type 0} (host : Host W) where
  -- The map that SnakeSoC_ctor leaves behind (Soc.Build).
  pub record IsMapped (soc : Soc W) : Type 0 where
    pub valid : IsValid soc.map
    pub units : soc.map.units ≡ soc_units host dram_default_size

  abbrev pub device_of : Window → MmioDevice (Devices W)
  device_of rom = boot_rom_mmio host
  device_of clint = clint_mmio host
  device_of uart = uart_mmio host
  device_of irq_agg = irq_agg_mmio host
  device_of dram = dram_mmio host

  abbrev pub unit_of : Window → MemMapUnit (Devices W)
  unit_of x = record { base = first x; size = limit x - first x; device = device_of x }

  unit_of-mem : (x : Window) → Memᴰ (unit_of x) (soc_units host dram_default_size)
  unit_of-mem rom = head refl
  unit_of-mem clint = tail (head refl)
  unit_of-mem uart = tail (tail (head refl))
  unit_of-mem irq_agg = tail (tail (tail (head refl)))
  unit_of-mem dram = tail (tail (tail (tail (head refl))))

  pub mem-window :
      (u : MemMapUnit (Devices W))
      → Memᴰ u (soc_units host dram_default_size)
      → (x : Window) × (u ≡ unit_of x)
  mem-window u (head e) = (rom, e)
  mem-window u (tail (head e)) = (clint, e)
  mem-window u (tail (tail (head e))) = (uart, e)
  mem-window u (tail (tail (tail (head e)))) = (irq_agg, e)
  mem-window u (tail (tail (tail (tail (head e))))) = (dram, e)
  mem-window u (tail (tail (tail (tail (tail x))))) = elim x [ ]

  -- What the bus gets from an access in the window: the device's answer at the offset from the
  -- window's start, and the SoC with that device's new state.
  abbrev pub window_read : Soc W → Window → ℕ → ℕ → Exec (AxiResp × ℕ × Soc W)
  window_read soc x addr width =
      device_read (device_of x) soc.devices (addr - first x) width >>= λ r.
      ret (r.0, r.1, record soc { devices = r.2 })

  abbrev pub window_write : Soc W → Window → ℕ → ℕ → ℕ → ℕ → Exec (AxiResp × Soc W)
  window_write soc x addr width value strb =
      device_write (device_of x) soc.devices (addr - first x) width value strb >>= λ r.
      ret (r.0, record soc { devices = r.1 })

  window_iff : (x : Window) (addr width : ℕ) → Within x addr width ↔ Covers (unit_of x) addr width
  window_iff rom addr width = omega arith
  window_iff clint addr width = omega arith
  window_iff uart addr width = omega arith
  window_iff irq_agg addr width = omega arith
  window_iff dram addr width = omega arith

  window_top : (x : Window) → limit x < 2 ^ 32
  window_top x = ground arith

  unit_of-base : (x : Window) → (unit_of x).base ≡ first x
  unit_of-base x = refl

  pub find_window :
      (soc : Soc W) (x : Window) (addr width : ℕ)
      → IsMapped soc
      → 0 < width
      → Within x addr width
      → MemoryMap.find_unit soc.map.units addr width ≡ some (unit_of x)
  find_window soc x addr width mapped pos inside =
      let top = window_top x in
      (find_unit_iff addr width pos (omega (arith, inside.upto)) soc.map.units (unit_of x)
          mapped.valid.fits mapped.valid.disjoint).1
        (rw mapped.units (unit_of-mem x), (window_iff x addr width).0 inside)

  -- An access whose bytes all lie in one window reaches the device of that window, at the offset
  -- from its start.
  pub window_lem :
      (soc : Soc W) (x : Window) (addr width : ℕ)
      → IsMapped soc
      → 0 < width
      → Within x addr width
      → (read soc addr width ≡ window_read soc x addr width)
        × ((value strb : ℕ)
            → write soc addr width value strb ≡ window_write soc x addr width value strb)
  unfolding read write MemoryMap.read MemoryMap.write
  window_lem soc x addr width mapped pos inside =
      let found = find_window soc x addr width mapped pos inside in
      (rw (found, read, MemoryMap.read), λ value strb. rw (found, write, MemoryMap.write))

  find_nothing :
      (soc : Soc W) (addr width : ℕ)
      → IsMapped soc
      → 0 < width
      → addr + width < 2 ^ 32
      → ((x : Window) → ¬ (Within x addr width))
      → MemoryMap.find_unit soc.map.units addr width ≡ none
  find_nothing soc addr width mapped pos no_wrap out =
      elim (Option-cases (MemoryMap.find_unit soc.map.units addr width)) [
        | inl e ↦ e
        | inr (u, e) ↦
            (let (m, c) =
                (find_unit_iff addr width pos no_wrap soc.map.units u mapped.valid.fits
                    mapped.valid.disjoint).0
                  e in
              let (x, q) = mem-window u (rw (← mapped.units) m) in
              absurd (out x ((window_iff x addr width).1 (rw (← q) c))))
      ]

  -- An access that lies in no window, a straddling one included, is a decode error that changes
  -- nothing, provided that it ends below the end of the address space.
  pub unmapped_lem :
      (soc : Soc W) (addr width : ℕ)
      → IsMapped soc
      → 0 < width
      → addr + width < 2 ^ 32
      → ((x : Window) → ¬ (Within x addr width))
      → (read soc addr width ≡ ret (decerr, 0, soc))
        × ((value strb : ℕ) → write soc addr width value strb ≡ ret (decerr, soc))
  unfolding read write MemoryMap.read MemoryMap.write
  unmapped_lem soc addr width mapped pos no_wrap out =
      let nothing = find_nothing soc addr width mapped pos no_wrap out in
      (rw (nothing, read, MemoryMap.read), λ value strb. rw (nothing, write, MemoryMap.write))
