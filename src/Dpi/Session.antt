-- ===== src/Dpi/Session.antt =====
-- A session of the simulation.
use dae_pipeline_cpu.Prelude.{
  ℕ, All, ◌+◌, ◌-◌, ◌%◌, ◌≤◌, ◌≡◌, arith, ◌∙◌, true, Option, none, some, List, [], ◌==◌,
  if◌then◌else◌,
}
use dae_pipeline_cpu.Bus.{okay, ret}
use dae_pipeline_cpu.Alloc.{done}
use dae_pipeline_cpu.Host.{Host, stdout}
use dae_pipeline_cpu.BootRom.{boot_rom_stub_w0, boot_rom_stub_w1}
use dae_pipeline_cpu.BootRom.Laws.{ctor_words}
use dae_pipeline_cpu.Soc
use dae_pipeline_cpu.Soc.{Soc}
use dae_pipeline_cpu.Soc.Decode.{Window, window_lem}
use dae_pipeline_cpu.Soc.Run.{IsRunning, ctor-IsRunning}
use dae_pipeline_cpu.Soc.Run
use dae_pipeline_cpu.Dpi.{init, load_program, read}

module _ {W : Type 0} (host : Host W) where
  fetch_rom :
      (soc : Soc W) (addr : ℕ)
      → IsRunning host soc
      → addr % 4 ≡ 0
      → addr + 4 ≤ 0x1000
      → Soc.read soc addr 4
        ≡ ret (
          okay,
          if addr == 0 then boot_rom_stub_w0 else if addr == 4 then boot_rom_stub_w1 else 0,
          soc,
        )
  fetch_rom soc addr r aligned inside =
      let routed =
        (window_lem host soc Window.rom addr 4 r.mapped (omega arith) (ground arith)).0 in
      let off : addr - 0 ≡ addr = omega arith in
      routed ∙ rw (off, r.sound.rom) (rw (ctor_words addr aligned inside))

  -- After dpi_snake_soc_init without a program and with memory enough, and any running that follows
  -- it, the processor fetches the stub of the boot ROM.
  init_fetch :
      (w : W) (g_soc : Option (Soc W)) (es : List Soc.Run.Event) (addr : ℕ)
      → All Soc.Run.IsWord es
      → addr % 4 ≡ 0
      → addr + 4 ≤ 0x1000
      → (soc : Soc W) × (soc' : Soc W) × (init host [] none w g_soc ≡ ret (done, some soc))
        × (Soc.Run.run host soc es ≡ ret soc')
        × (read true (some soc') addr 4
            ≡ ret (
              okay,
              if addr == 0 then boot_rom_stub_w0 else if addr == 4 then boot_rom_stub_w1 else 0,
              some soc',
            ))
  unfolding init load_program read
  init_fetch w g_soc es addr words aligned inside =
      let (soc, made, r) = ctor-IsRunning host (some stdout) w in
      let (soc', runs, r') = Soc.Run.run-Runs host es soc words r in
      (soc, soc', rw (made, init), runs, rw (fetch_rom soc' addr r' aligned inside, read))
