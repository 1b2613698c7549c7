-- ===== src/Tests/Elf.antt =====
-- An executable of one segment of two words, and a segment with ragged ends.
use dae_pipeline_cpu.Prelude.{
  ◌==◌, if◌then◌else◌, ℕ, ◌≡◌, ◌≢◌, refl, arith, inr, List, [], ◌∷◌, get_or, some, none, true, ◌%◌,
  ◌<◌, ◌*◌, ◌+◌, Option,
}
use dae_pipeline_cpu.Bus.{okay, decerr, ret}
use dae_pipeline_cpu.Alloc.{done, eio, einval}
use dae_pipeline_cpu.Bytes.{Bytes, zeros, IsBytes}
use dae_pipeline_cpu.ElfLoader.{FileImage, Ehdr, Phdr, read_ehdr, read_phdr, write_segment}
use dae_pipeline_cpu.ElfLoader.Segment.{write_segment_lem}
use dae_pipeline_cpu.ElfLoader.Copied.{Copied}
use dae_pipeline_cpu.ElfLoader.Headers.{check_header, soc_load_elf}
use dae_pipeline_cpu.ElfLoader.Headers.Placed.{Loadable, image}
use dae_pipeline_cpu.ElfLoader.Steps.{dram_with}
use dae_pipeline_cpu.ElfLoader.Headers.Image.{load_elf_lem}
use dae_pipeline_cpu.Soc.{Soc}
use dae_pipeline_cpu.Soc.Run.{IsRunning}
use dae_pipeline_cpu.Dpi.{init, tick, read, write, msip, mtip, meip}
use dae_pipeline_cpu.Dpi.Program.{init_program, init_refused}
use dae_pipeline_cpu.Tests.World.{World, test_host, ab}
use dae_pipeline_cpu.Tests.System.{reset, reset-IsMapped}

abbrev content : List ℕ
content =
    0x7f ∷ 0x45 ∷ 0x4c ∷ 0x46 ∷ 1 ∷ 1 ∷ 1 ∷ 0 ∷ 0 ∷ 0 ∷ 0 ∷ 0 ∷ 0 ∷ 0 ∷ 0 ∷ 0 ∷ 2 ∷ 0 ∷ 0xf3 ∷ 0 ∷ 1
    ∷ 0 ∷ 0 ∷ 0 ∷ 0 ∷ 0 ∷ 0 ∷ 0x80 ∷ 52 ∷ 0 ∷ 0 ∷ 0 ∷ 0 ∷ 0 ∷ 0 ∷ 0 ∷ 0 ∷ 0 ∷ 0 ∷ 0 ∷ 52 ∷ 0 ∷ 32
    ∷ 0 ∷ 1 ∷ 0 ∷ 0 ∷ 0 ∷ 0 ∷ 0 ∷ 0 ∷ 0 ∷ 1 ∷ 0 ∷ 0 ∷ 0 ∷ 84 ∷ 0 ∷ 0 ∷ 0 ∷ 0 ∷ 0 ∷ 0 ∷ 0x80 ∷ 0 ∷ 0
    ∷ 0 ∷ 0x80 ∷ 8 ∷ 0 ∷ 0 ∷ 0 ∷ 8 ∷ 0 ∷ 0 ∷ 0 ∷ 5 ∷ 0 ∷ 0 ∷ 0 ∷ 0 ∷ 0x10 ∷ 0 ∷ 0 ∷ 0xb7 ∷ 0 ∷ 0
    ∷ 0x80 ∷ 0x67 ∷ 0x80 ∷ 0 ∷ 0 ∷ []

abbrev program : FileImage
program = record { length = 92; byte = λ i. get_or content i 0 % 256; seekable = true }

program-IsBytes : IsBytes program.byte
program-IsBytes i = omega arith

abbrev header : Ehdr
header = record {
  e_ident = program.byte;
  e_type = 2;
  e_machine = 243;
  e_entry = 0x80000000;
  e_phoff = 52;
  e_phnum = 1;
}

abbrev text : Phdr
text = record {
  p_type = 1;
  p_offset = 84;
  p_vaddr = 0x80000000;
  p_paddr = 0x80000000;
  p_filesz = 8;
}

read_header : read_ehdr program ≡ some header
unfolding read_ehdr
read_header = refl

read_text : (j : ℕ) → j < 1 → read_phdr program (52 + j * 32) ≡ some text
unfolding read_phdr
read_text j h = let z : j ≡ 0 = omega arith in rw z

check_header_ok : check_header header ≡ done
unfolding check_header
check_header_ok = refl

text-Loadable : Loadable program text
text-Loadable = inr (refl, refl, refl, omega arith, omega arith, omega arith)

load_elf_lem_example :
    soc_load_elf [] (some program) reset
    ≡ ret (
      done,
      some 0x80000000,
      record reset { devices = dram_with reset (image program (λ i. text) 1 zeros) },
    )
load_elf_lem_example =
    load_elf_lem test_host reset reset-IsMapped refl program program-IsBytes [] header (λ i. text)
      refl read_header check_header_ok refl read_text (λ i below. text-Loadable)

init_program_example :
    (soc : Soc World) × (init test_host [] (some (some program)) ab none ≡ ret (done, some soc))
    × IsRunning test_host soc
    × (read true (some soc) 0x80000004 4 ≡ ret (okay, 0x8067, some soc))
unfolding image
init_program_example =
    init_program test_host ab none program header (λ i. text) 0x80000004 4 program-IsBytes
      read_header check_header_ok refl read_text (λ i below. text-Loadable) (inr (inr refl)) refl
      (omega arith) (omega arith)

-- A file of ten bytes, and one for another machine.
abbrev stub : FileImage
stub = record { length = 10; byte = program.byte; seekable = true }

abbrev foreign : FileImage
foreign = record {
  length = 92;
  byte = λ i. if i == 18 then 40 else program.byte i;
  seekable = true;
}

abbrev foreign_header : Ehdr
foreign_header = record {
  e_ident = foreign.byte;
  e_type = 2;
  e_machine = 40;
  e_entry = 0x80000000;
  e_phoff = 52;
  e_phnum = 1;
}

read_stub : read_ehdr stub ≡ none
unfolding read_ehdr
read_stub = refl

read_foreign : read_ehdr foreign ≡ some foreign_header
unfolding read_ehdr
read_foreign = refl

not_done : einval ≡ done → ⊥
not_done e = cc

foreign_refused : check_header foreign_header ≢ done
unfolding check_header
foreign_refused e = not_done e

init_refused_example :
    (init test_host [] (some none) ab (some reset) ≡ ret (eio, none))
    × (init test_host [] (some (some stub)) ab (some reset) ≡ ret (eio, none))
    × (init test_host [] (some (some foreign)) ab (some reset) ≡ ret (einval, none))
    × (let gone : Option (Soc World) = none in
        (tick gone ≡ ret none)
        × (msip gone + (mtip gone + meip gone) ≡ 0)
        × ((addr width value strb : ℕ)
            → (read true gone addr width ≡ ret (decerr, 0, none))
              × (write gone addr width value strb ≡ ret (decerr, none))))
init_refused_example =
    init_refused test_host ab (some reset) stub foreign foreign_header read_stub read_foreign
      foreign_refused

abbrev ragged : Bytes
ragged i = (i + 0x41) % 256

ragged-IsBytes : IsBytes ragged
ragged-IsBytes i = omega arith

-- Six bytes from an odd address on: no whole word, and one byte at a multiple of four.
write_segment_lem_example :
    (b : Bytes) × (write_segment reset.map 0x80000001 ragged 6 reset.devices
      ≡ ret (done, dram_with reset b))
    × Copied 0x80000001 6 ragged 0 6 zeros b
write_segment_lem_example =
    write_segment_lem test_host reset reset-IsMapped refl 0x80000001 6 ragged ragged-IsBytes
      (omega arith) (omega arith) zeros
