-- ===== src/Dpi/Program.antt =====
-- A session that starts with a program.
use dae_pipeline_cpu.Prelude.{
  ℕ, zero, suc, ◌+◌, ◌-◌, ◌*◌, ◌%◌, ◌≤◌, ◌<◌, ◌≡◌, ◌≢◌, refl, arith, ◌∙◌, inl, inr, true, Option,
  none, some, [],
}
use dae_pipeline_cpu.Bus.{okay, decerr, ret}
use dae_pipeline_cpu.Alloc.{done, eio, einval}
use dae_pipeline_cpu.Bytes.{Bytes, IsBytes, zeros}
use dae_pipeline_cpu.Bytes.Load.{IsWidth, le_value}
use dae_pipeline_cpu.Host.{Host, stdout}
use dae_pipeline_cpu.Dram.Access.{Accepts, read_ok}
use dae_pipeline_cpu.Soc
use dae_pipeline_cpu.Soc.{Soc}
use dae_pipeline_cpu.Soc.Decode.{Window, window_lem}
use dae_pipeline_cpu.Soc.Sound.{IsSound}
use dae_pipeline_cpu.Soc.Run.{IsRunning, fresh-IsRunning, devices-IsRunning}
use dae_pipeline_cpu.ElfLoader.{FileImage, Ehdr, Phdr, read_ehdr, read_phdr}
use dae_pipeline_cpu.ElfLoader.Headers.{check_header, soc_load_elf}
use dae_pipeline_cpu.ElfLoader.Headers.Placed.{Loadable, image}
use dae_pipeline_cpu.ElfLoader.Steps.{dram_with}
use dae_pipeline_cpu.ElfLoader.Headers.Image.{load_elf_lem, load_elf_refused}
use dae_pipeline_cpu.Dpi.{init, load_program, tick, read, write, msip, mtip, meip}

image-IsBytes :
    (f : FileImage) (ph : ℕ → Phdr) (n : ℕ) (b : Bytes)
    → IsBytes f.byte
    → IsBytes b
    → IsBytes (image f ph n b)
unfolding image
image-IsBytes f ph zero b file old i = old i
image-IsBytes f ph (suc n) b file old i =
    let rest = image-IsBytes f ph n b file old i in
    let here = file ((ph n).p_offset + (0x80000000 + i - (ph n).p_paddr)) in ground arith

pub width_pos : (width : ℕ) → IsWidth width → 0 < width
width_pos width lanes = ground arith

pub offset_aligned :
    (addr width : ℕ)
    → IsWidth width
    → addr % width ≡ 0
    → 0x80000000 ≤ addr
    → (addr - 0x80000000) % width ≡ 0
offset_aligned addr width (inl e) aligned low = rw e (omega arith)
offset_aligned addr width (inr (inl e)) aligned low =
    let even : addr % 2 ≡ 0 = rw (← e) aligned in rw e (omega arith)
offset_aligned addr width (inr (inr e)) aligned low =
    let whole : addr % 4 ≡ 0 = rw (← e) aligned in rw e (omega arith)

module _ {W : Type 0} (host : Host W) where
  pub dram_read :
      (soc : Soc W) (addr width : ℕ)
      → IsRunning host soc
      → IsWidth width
      → addr % width ≡ 0
      → 0x80000000 ≤ addr
      → addr + width ≤ 0x84000000
      → Soc.read soc addr width
        ≡ ret (okay, le_value width soc.devices.dram.backing (addr - 0x80000000), soc)
  dram_read soc addr width r lanes aligned low high =
      let pos = width_pos width lanes in
      let routed = (window_lem host soc Window.dram addr width r.mapped pos (omega arith)).0 in
      let accepted : Accepts soc.devices.dram (addr - 0x80000000) width = record {
        lanes = lanes;
        aligned = offset_aligned addr width lanes aligned low;
        inside = omega (arith, r.sound.dram_size);
      } in
      routed ∙ rw (read_ok soc.devices.dram (addr - 0x80000000) width r.sound.dram_bytes accepted)

  -- After dpi_snake_soc_init with a well-formed executable and with memory enough there is a SoC
  -- within its invariant, and the processor reads the program: an aligned access of DRAM gives the
  -- bytes of the last segment that covers them, and 0 where none does.
  pub init_program :
      (w : W) (g_soc : Option (Soc W)) (f : FileImage) (eh : Ehdr) (ph : ℕ → Phdr) (addr width : ℕ)
      → IsBytes f.byte
      → read_ehdr f ≡ some eh
      → check_header eh ≡ done
      → f.seekable ≡ true
      → ((j : ℕ) → j < eh.e_phnum → read_phdr f (eh.e_phoff + j * 32) ≡ some (ph j))
      → ((j : ℕ) → j < eh.e_phnum → Loadable f (ph j))
      → IsWidth width
      → addr % width ≡ 0
      → 0x80000000 ≤ addr
      → addr + width ≤ 0x84000000
      → (soc : Soc W) × (init host [] (some (some f)) w g_soc ≡ ret (done, some soc))
        × IsRunning host soc
        × (read true (some soc) addr width
            ≡ ret
                (okay, le_value width (image f ph eh.e_phnum zeros) (addr - 0x80000000), some soc))
  unfolding init load_program read
  init_program w g_soc f eh ph addr width bytes head ok seek found good lanes aligned low high =
      let (soc0, made, reset, r) = fresh-IsRunning host (some stdout) w in
      let b = image f ph eh.e_phnum zeros in
      let loaded =
        load_elf_lem host soc0 r.mapped r.sound.dram_size f bytes [] eh ph refl head ok seek found
          good in
      let empty : soc0.devices.dram.backing ≡ zeros = rw reset in
      let soc : Soc W = record soc0 { devices = dram_with soc0 b } in
      let loads : soc_load_elf [] (some f) soc0 ≡ ret (done, some 0x80000000, soc) =
        rw (← empty) loaded in
      let s : IsSound soc.devices = record {
        rom = r.sound.rom;
        clint = r.sound.clint;
        irq_agg = r.sound.irq_agg;
        rx_byte = r.sound.rx_byte;
        wired = r.sound.wired;
        attached = r.sound.attached;
        dram_bytes = image-IsBytes f ph eh.e_phnum zeros bytes (λ i. omega arith);
        dram_size = r.sound.dram_size;
      } in
      let running = devices-IsRunning host soc0 soc.devices r s in
      (
        soc,
        rw (made, init) (rw (loads, load_program)),
        running,
        rw (dram_read soc addr width running lanes aligned low high, read),
      )

  -- Whatever the file that dpi_snake_soc_init cannot load, one that does not open, is too short for
  -- a header, or has a header that fails a test, no SoC is left, and the bridge answers every access
  -- with DECERR, ticks to no effect, and drives no wire.
  pub init_refused :
      (w : W) (g_soc : Option (Soc W)) (short f : FileImage) (eh : Ehdr)
      → read_ehdr short ≡ none
      → read_ehdr f ≡ some eh
      → check_header eh ≢ done
      → (init host [] (some none) w g_soc ≡ ret (eio, none))
        × (init host [] (some (some short)) w g_soc ≡ ret (eio, none))
        × (init host [] (some (some f)) w g_soc ≡ ret (einval, none))
        × (let gone : Option (Soc W) = none in
            (tick gone ≡ ret none)
            × (msip gone + (mtip gone + meip gone) ≡ 0)
            × ((addr width value strb : ℕ)
                → (read true gone addr width ≡ ret (decerr, 0, none))
                  × (write gone addr width value strb ≡ ret (decerr, none))))
  unfolding init load_program soc_load_elf Soc.dtor tick read write msip mtip meip
  init_refused w g_soc short f eh cut head bad =
      let (soc, made, reset, r) = fresh-IsRunning host (some stdout) w in
      let (absent, empty, invalid) =
        load_elf_refused soc.map [] soc.devices short f eh cut head bad in
      (
        rw (made, init) (rw (absent, load_program, soc_load_elf)),
        rw (made, init) (rw (empty, load_program, soc_load_elf)),
        rw (made, init) (rw (invalid, load_program, soc_load_elf)),
        (refl, refl, λ addr width value strb. (refl, refl)),
      )
