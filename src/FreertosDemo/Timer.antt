-- ===== src/FreertosDemo/Timer.antt =====
-- The timer that include/FreeRTOSConfig.h gives to the kernel: its addresses, its period, and the
-- interrupt that they make of the CLINT.
use dae_pipeline_cpu.Prelude.{
  ℕ, zero, suc, ◌+◌, ◌-◌, ◌/◌, ◌%◌, ◌^◌, ◌≤◌, ◌<◌, ◌≡◌, refl, arith, leb,
}
use dae_pipeline_cpu.Bus.{ret}
use dae_pipeline_cpu.Host.{Host}
use dae_pipeline_cpu.Clint
use dae_pipeline_cpu.Clint.{Clint}
use dae_pipeline_cpu.Clint.Registers.{
  Reg, mtimecmp_lo, mtimecmp_hi, mtime_lo, mtime_hi, msip, offset_of, value_of, read_reg, put,
  put-IsValid, write-put,
}
use dae_pipeline_cpu.Clint.Timer.{ticks_lem}
use dae_pipeline_cpu.Clint.Timer
use dae_pipeline_cpu.Soc.{Soc, mtip_wire}
use dae_pipeline_cpu.Soc.Decode.{Window, window_lem}
use dae_pipeline_cpu.Soc.Sound.{IsSound, ticked, ticked-IsSound}
use dae_pipeline_cpu.Soc.Run.{IsRunning, devices-IsRunning, tick_lem}
use dae_pipeline_cpu.Hal.{load, store}
use dae_pipeline_cpu.FreertosDemo.Irq.{ticks}

abbrev pub config_cpu_clock_hz : ℕ
config_cpu_clock_hz = 1000000

abbrev pub config_tick_rate_hz : ℕ
config_tick_rate_hz = 1000

abbrev pub config_mtime_base_address : ℕ
config_mtime_base_address = 0x0200bff8

abbrev pub config_mtimecmp_base_address : ℕ
config_mtimecmp_base_address = 0x02004000

offset_of_bound : (q : Reg) → offset_of q + 4 ≤ 0x10000
offset_of_bound q = ground arith

module _ {W : Type 0} (host : Host W) where
  abbrev pub with_clint : Soc W → Clint → Soc W
  with_clint soc c = record soc { devices = record soc.devices { clint = c } }

  with_clint-IsRunning :
      (soc : Soc W) (c : Clint)
      → IsRunning host soc
      → Clint.Registers.IsValid c
      → IsRunning host (with_clint soc c)
  with_clint-IsRunning soc c r v =
      let s = r.sound in
      let s' : IsSound (record soc.devices { clint = c }) = record {
        rom = s.rom;
        clint = v;
        irq_agg = s.irq_agg;
        rx_byte = s.rx_byte;
        wired = s.wired;
        attached = s.attached;
        dram_bytes = s.dram_bytes;
        dram_size = s.dram_size;
      } in
      devices-IsRunning host soc (record soc.devices { clint = c }) r s'

  load_reg :
      (soc : Soc W) (q : Reg)
      → IsRunning host soc
      → load soc (0x02000000 + offset_of q) ≡ ret (value_of soc.devices.clint q, soc)
  unfolding load
  load_reg soc q r =
      let bound = offset_of_bound q in
      let off : 0x02000000 + offset_of q - 0x02000000 ≡ offset_of q = omega arith in
      let routed =
        (window_lem host soc Window.clint (0x02000000 + offset_of q) 4 r.mapped (omega arith)
          (omega arith)).0 in
      rw (routed, load) (rw (off, read_reg soc.devices.clint q r.sound.clint))

  pub store_reg :
      (soc : Soc W) (q : Reg) (v : ℕ)
      → IsRunning host soc
      → v < 2 ^ 32
      → (store soc (0x02000000 + offset_of q) v ≡ ret (with_clint soc (put soc.devices.clint q v)))
        × IsRunning host (with_clint soc (put soc.devices.clint q v))
  unfolding store
  store_reg soc q v r word =
      let bound = offset_of_bound q in
      let off : 0x02000000 + offset_of q - 0x02000000 ≡ offset_of q = omega arith in
      let routed =
        (window_lem host soc Window.clint (0x02000000 + offset_of q) 4 r.mapped (omega arith)
            (omega arith)).1
          v 0xf in
      (
        rw (routed, store) (rw (off, write-put soc.devices.clint q v r.sound.clint word)),
        with_clint-IsRunning soc (put soc.devices.clint q v) r
            (put-IsValid soc.devices.clint q v r.sound.clint word),
      )

  -- The ticks of the SoC are those of the CLINT.
  ticks-clint :
      (n : ℕ) (soc : Soc W)
      → IsRunning host soc
      → (soc' : Soc W) × (ticks n soc ≡ ret soc')
        × (soc'.devices.clint ≡ Clint.Timer.ticks n soc.devices.clint)
  unfolding ticks Clint.Timer.ticks ticked
  ticks-clint zero soc r = (soc, refl, refl)
  ticks-clint (suc n) soc r =
      let next : Soc W = record soc { devices = ticked host soc.devices } in
      let r' =
        devices-IsRunning host soc (ticked host soc.devices) r
          (ticked-IsSound host soc.devices r.sound) in
      let (last, calls, same) = ticks-clint n next r' in
      (last, rw (tick_lem host soc r, ticks) calls, same)

  -- On a running SoC the counter is read at the two words from configMTIME_BASE_ADDRESS on. When
  -- software has written the two words of `mtime` plus one period to those from
  -- configMTIMECMP_BASE_ADDRESS on, the high one first, and the counter does not wrap, the wire of
  -- the timer interrupt is high after `n` ticks exactly if these are a period or more.
  pub period_lem :
      (soc : Soc W) (n : ℕ)
      → IsRunning host soc
      → let t = soc.devices.clint.mtime in
        let period = config_cpu_clock_hz / config_tick_rate_hz in
        let due = t + period in
        t + period < 2 ^ 64
        → t + n < 2 ^ 64
        → (load soc config_mtime_base_address ≡ ret (t % 2 ^ 32, soc))
          × (load soc (config_mtime_base_address + 4) ≡ ret (t / 2 ^ 32, soc))
          × ((soc1 : Soc W) × (soc2 : Soc W) × (soc3 : Soc W) × (store soc
                  (config_mtimecmp_base_address + 4)
                  (due / 2 ^ 32)
                ≡ ret soc1)
              × (store soc1 config_mtimecmp_base_address (due % 2 ^ 32) ≡ ret soc2)
              × (ticks n soc2 ≡ ret soc3)
              × (mtip_wire soc3 ≡ leb period n))
  unfolding mtip_wire Clint.mtip_wire
  period_lem soc n r due_fits n_fits =
      let c = soc.devices.clint in
      let due = c.mtime + 1000 in
      let (first, r1) = store_reg soc mtimecmp_hi (due / 2 ^ 32) r (omega arith) in
      let soc1 = with_clint soc (put c mtimecmp_hi (due / 2 ^ 32)) in
      let (second, r2) = store_reg soc1 mtimecmp_lo (due % 2 ^ 32) r1 (omega arith) in
      let soc2 = with_clint soc1 (put soc1.devices.clint mtimecmp_lo (due % 2 ^ 32)) in
      let set : Clint = record c { mtimecmp = due } in
      let v : Clint.Registers.IsValid set = record {
        msip_bit = r.sound.clint.msip_bit;
        mtime_word = r.sound.clint.mtime_word;
        mtimecmp_word = due_fits;
      } in
      let at : soc2.devices.clint ≡ set = ground arith in
      let passed = ticks_lem n set v in
      let (soc3, runs, same) = ticks-clint n soc2 r2 in
      (
        load_reg soc mtime_lo r,
        load_reg soc mtime_hi r,
        (soc1, soc2, soc3, first, second, runs, rw same (rw (at, passed) (ground arith))),
      )
