-- ===== src/Soc/Run.antt =====
-- The SoC in operation: any sequence of bus accesses and clock ticks.
use mathlib.Core.List.{Memᴰ}
use mathlib.Core.List.Memᴰ.{head, tail}
use dae_pipeline_cpu.Prelude.{
  ℕ, ◌-◌, ◌∙◌, ◌≡◌, refl, sym, ◌<◌, ◌^◌, arith, List, [], ◌∷◌, All, inl, inr, ap,
}
use dae_pipeline_cpu.Prelude.{Option, some, Option-cases, Bool-cases}
use dae_pipeline_cpu.Bus.{device_write, Exec, ret, ◌>>=◌}
use dae_pipeline_cpu.Alloc.{done}
use dae_pipeline_cpu.Host.{Host, File}
use dae_pipeline_cpu.MemoryMap
use dae_pipeline_cpu.MemoryMap.{MemMapUnit, hits, find_unit}
use dae_pipeline_cpu.Ticker
use dae_pipeline_cpu.Clint
use dae_pipeline_cpu.Clint.Timer.{ctor-IsValid}
use dae_pipeline_cpu.IrqAgg
use dae_pipeline_cpu.IrqAgg.{set_uart_rx_edge}
use dae_pipeline_cpu.Uart
use dae_pipeline_cpu.Uart.{Uart}
use dae_pipeline_cpu.Soc.{Devices, Soc, read, write, tick_all, ctor}
use dae_pipeline_cpu.Soc.{clint_tick, uart_tick, irq_agg_tick}
use dae_pipeline_cpu.Soc.Decode.{IsMapped, Window, first, device_of, mem-window, unit_of}
use dae_pipeline_cpu.Soc.{fresh_devices}
use dae_pipeline_cpu.Soc.Build.{fresh_dram}
use mathlib.Core.Path.{subst}
use dae_pipeline_cpu.Soc.Shortage.{ctor_complete}
use dae_pipeline_cpu.Soc.Sound.{IsSound, device_write-IsSound, ticked, ticked-IsSound}

-- What drives the SoC: the bus reads and writes, with a 32-bit value, and the clock ticks.
pub data Event : Type 0 where
  reads : ℕ → ℕ → Event
  writes : ℕ → ℕ → ℕ → ℕ → Event
  clock : Event

abbrev pub IsWord : Event → Type 0
IsWord (writes addr width value strb) = value < 2 ^ 32
IsWord _ = Unit

find_unit-mem :
    {S : Type 0} (us : List (MemMapUnit S)) (u : MemMapUnit S) (addr width : ℕ)
    → find_unit us addr width ≡ some u
    → Memᴰ u us
unfolding find_unit
find_unit-mem [] u addr width e = absurd cc
find_unit-mem (v ∷ us) u addr width e = elim (Bool-cases (hits v addr width)) [
  | inl hit ↦ head (sym (cc (rw hit at e)))
  | inr miss ↦ tail (find_unit-mem us u addr width (rw miss at e))
]

module _ {W : Type 0} (host : Host W) where
  -- The SoC as its constructor leaves it when memory suffices, and as it stays.
  pub record IsRunning (soc : Soc W) : Type 0 where
    pub mapped : IsMapped host soc
    pub clocked : soc.ticker.tickables ≡ clint_tick host ∷ uart_tick host ∷ irq_agg_tick host ∷ []
    pub sound : IsSound soc.devices

  -- The devices alone change in operation.
  pub devices-IsRunning :
      (soc : Soc W) (d : Devices W)
      → IsRunning soc
      → IsSound d
      → IsRunning (record soc { devices = d })
  devices-IsRunning soc d r s = record {
    mapped = record { valid = r.mapped.valid; units = r.mapped.units };
    clocked = r.clocked;
    sound = s;
  }

  pub step : Soc W → Event → Exec (Soc W)
  step soc (reads addr width) = read soc addr width >>= λ r. ret r.2
  step soc (writes addr width value strb) = write soc addr width value strb >>= λ r. ret r.1
  step soc clock = tick_all soc

  pub run : Soc W → List Event → Exec (Soc W)
  run soc [] = ret soc
  run soc (e ∷ es) = step soc e >>= λ soc'. run soc' es

  -- The next state of a running SoC.
  abbrev Runs : Exec (Soc W) → Type 0
  Runs call = (soc : Soc W) × (call ≡ ret soc) × IsRunning soc

  -- What a bus write comes to, given the unit that find_unit names.
  step_write :
      (soc : Soc W) (u : MemMapUnit (Devices W)) (x : Window) (addr width value strb : ℕ)
      → find_unit soc.map.units addr width ≡ some u
      → u ≡ unit_of host x
      → step soc (writes addr width value strb) ≡ (
          device_write (device_of host x) soc.devices (addr - first x) width value strb >>= λ r.
          ret (record soc { devices = r.1 }))
  unfolding step write MemoryMap.write
  step_write soc u Window.rom addr width value strb e q =
      rw (e ∙ ap some q, step, write, MemoryMap.write)
  step_write soc u Window.clint addr width value strb e q =
      rw (e ∙ ap some q, step, write, MemoryMap.write)
  step_write soc u Window.uart addr width value strb e q =
      rw (e ∙ ap some q, step, write, MemoryMap.write)
  step_write soc u Window.irq_agg addr width value strb e q =
      rw (e ∙ ap some q, step, write, MemoryMap.write)
  step_write soc u Window.dram addr width value strb e q =
      rw (e ∙ ap some q, step, write, MemoryMap.write)

  write-Runs :
      (soc : Soc W) (addr width value strb : ℕ)
      → value < 2 ^ 32
      → IsRunning soc
      → Runs (step soc (writes addr width value strb))
  unfolding step write MemoryMap.write
  write-Runs soc addr width value strb word r =
      elim (Option-cases (find_unit soc.map.units addr width)) [
        | inl e ↦ (soc, rw (e, step, write, MemoryMap.write), r)
        | inr (u, e) ↦
            (let (x, q) =
                mem-window host u
                  (rw (← r.mapped.units) (find_unit-mem soc.map.units u addr width e)) in
              let p =
                device_write-IsSound host x soc.devices (addr - first x) width value strb word
                  r.sound in
              let call = step_write soc u x addr width value strb e q in
              let next : Soc W = record soc { devices = p.1 } in
              (next, call ∙ rw p.2, devices-IsRunning soc p.1 r p.3))
      ]

  step_read :
      (soc : Soc W) (u : MemMapUnit (Devices W)) (x : Window) (addr width : ℕ)
      → find_unit soc.map.units addr width ≡ some u
      → u ≡ unit_of host x
      → step soc (reads addr width) ≡ ret soc
  unfolding step read MemoryMap.read
  step_read soc u Window.rom addr width e q = rw (e ∙ ap some q, step, read, MemoryMap.read)
  step_read soc u Window.clint addr width e q = rw (e ∙ ap some q, step, read, MemoryMap.read)
  step_read soc u Window.uart addr width e q = rw (e ∙ ap some q, step, read, MemoryMap.read)
  step_read soc u Window.irq_agg addr width e q = rw (e ∙ ap some q, step, read, MemoryMap.read)
  step_read soc u Window.dram addr width e q = rw (e ∙ ap some q, step, read, MemoryMap.read)

  -- No read changes a device.
  read-Runs : (soc : Soc W) (addr width : ℕ) → IsRunning soc → Runs (step soc (reads addr width))
  unfolding step read MemoryMap.read
  read-Runs soc addr width r = elim (Option-cases (find_unit soc.map.units addr width)) [
    | inl e ↦ (soc, rw (e, step, read, MemoryMap.read), r)
    | inr (u, e) ↦
        (let (x, q) =
            mem-window host u
              (rw (← r.mapped.units) (find_unit-mem soc.map.units u addr width e)) in
          (soc, step_read soc u x addr width e q, r))
  ]

  pub tick_lem :
      (soc : Soc W)
      → IsRunning soc
      → tick_all soc ≡ ret (record soc { devices = ticked host soc.devices })
  unfolding tick_all Ticker.tick_all Ticker.tick_each ticked
  tick_lem soc r = rw (r.clocked, tick_all, Ticker.tick_all)

  step-Runs : (soc : Soc W) (e : Event) → IsWord e → IsRunning soc → Runs (step soc e)
  unfolding step
  step-Runs soc (reads addr width) w r = read-Runs soc addr width r
  step-Runs soc (writes addr width value strb) w r = write-Runs soc addr width value strb w r
  step-Runs soc clock w r = (
    record soc { devices = ticked host soc.devices },
    tick_lem soc r,
    devices-IsRunning soc (ticked host soc.devices) r (ticked-IsSound host soc.devices r.sound),
  )

  -- No sequence of bus accesses, at any addresses, widths and strobes, and of clock ticks aborts
  -- the SoC or takes it out of its invariant: the ROM keeps its content, the registers their
  -- widths, and the map and the ticker their devices.
  pub run-Runs : (es : List Event) (soc : Soc W) → All IsWord es → IsRunning soc → Runs (run soc es)
  unfolding run
  run-Runs [] soc ws r = (soc, refl, r)
  run-Runs (e ∷ es) soc ws r =
      let (next, call, r') = step-Runs soc e ws.0 r in
      let (last, calls, r'') = run-Runs es next ws.1 r' in (last, rw (call, run) calls, r'')

  fresh-IsSound : (out : Option File) (w : W) → IsSound (fresh_devices host out w fresh_dram)
  unfolding Uart.ctor Uart.set_irq_agg IrqAgg.ctor Clint.ctor
  fresh-IsSound out w = record {
    rom = refl;
    clint = ctor-IsValid;
    irq_agg = record { pending_bit = omega arith; enable_bit = omega arith };
    rx_byte = omega arith;
    wired = refl;
    attached = refl;
    dram_bytes = λ i. omega arith;
    dram_size = refl;
  }

  -- Its devices are then those in reset.
  pub fresh-IsRunning :
      (out : Option File) (w : W)
      → (soc : Soc W) × (ctor host [] out w ≡ ret (done, some soc, []))
        × (soc.devices ≡ fresh_devices host out w fresh_dram)
        × IsRunning soc
  fresh-IsRunning out w =
      let (soc, made, fresh, mapped, clocked) = ctor_complete host out w in
      (
        soc,
        made,
        fresh,
        record {
          mapped = mapped;
          clocked = clocked;
          sound = subst IsSound (sym fresh) (fresh-IsSound out w);
        },
      )

  -- A SoC that SnakeSoC_ctor builds when no allocation fails is within the invariant.
  pub ctor-IsRunning :
      (out : Option File) (w : W)
      → (soc : Soc W) × (ctor host [] out w ≡ ret (done, some soc, [])) × IsRunning soc
  ctor-IsRunning out w =
      let (soc, made, fresh, running) = fresh-IsRunning out w in (soc, made, running)
