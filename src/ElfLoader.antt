-- ===== src/ElfLoader.antt =====
-- elf_loader/src/elf_loader.c: the loader of 32-bit RISC-V executables, and SnakeSoC_load_elf.
--
-- A file is its length and its bytes; `seekable` is false where fseek fails. The structs of elf.h
-- are read at their offsets, little-endian.
pub mod Words
pub mod Copied
pub mod Steps
pub mod Segment
pub mod Headers
use dae_pipeline_cpu.Prelude.{
  ℕ, zero, suc, ◌+◌, ◌-◌, ◌*◌, ◌≤◌, ◌<◌, bit_and, bit_or, Bool, true, false, not, ◌&&◌, ◌||◌, ◌==◌,
}
use dae_pipeline_cpu.Prelude.{ltb, leb, if◌then◌else◌, u8, u32, ◌<<<◌, Option, none, some}
use dae_pipeline_cpu.Bus.{is_okay, WriteReply, Exec, ret, ◌>>=◌}
use dae_pipeline_cpu.Alloc.{Alloc, alloc, Status, done, enomem, eio, einval, efault}
use dae_pipeline_cpu.Bytes.{Bytes}
use dae_pipeline_cpu.Bytes.Load.{le_value}
use dae_pipeline_cpu.MemoryMap
use dae_pipeline_cpu.MemoryMap.{MemoryMap}

abbrev pub elf_loader_dram_base : ℕ
elf_loader_dram_base = 0x80000000

-- `CHUNK`
abbrev pub chunk_size : ℕ
chunk_size = 64 * 1024

pub record FileImage : Type 0 where
  pub length : ℕ
  pub byte : Bytes
  pub seekable : Bool

-- The fields of Elf32_Ehdr and Elf32_Phdr that the loader uses.
pub record Ehdr : Type 0 where
  pub e_ident : Bytes
  pub e_type : ℕ
  pub e_machine : ℕ
  pub e_entry : ℕ
  pub e_phoff : ℕ
  pub e_phnum : ℕ

pub record Phdr : Type 0 where
  pub p_type : ℕ
  pub p_offset : ℕ
  pub p_vaddr : ℕ
  pub p_paddr : ℕ
  pub p_filesz : ℕ

-- `fread` of a whole struct at a position: none where the file is too short.
unfoldable pub read_ehdr : FileImage → Option Ehdr
read_ehdr f =
    if ltb f.length 52
    then none
    else some (record {
      e_ident = f.byte;
      e_type = le_value 2 f.byte 16;
      e_machine = le_value 2 f.byte 18;
      e_entry = le_value 4 f.byte 24;
      e_phoff = le_value 4 f.byte 28;
      e_phnum = le_value 2 f.byte 44;
    })

unfoldable pub read_phdr : FileImage → ℕ → Option Phdr
read_phdr f at =
    if ltb f.length (at + 32)
    then none
    else some (record {
      p_type = le_value 4 f.byte at;
      p_offset = le_value 4 f.byte (at + 4);
      p_vaddr = le_value 4 f.byte (at + 8);
      p_paddr = le_value 4 f.byte (at + 12);
      p_filesz = le_value 4 f.byte (at + 16);
    })

-- What a loop of write_segment leaves: the status, the index and the store.
abbrev pub Progress : Type 0 → Type 0
Progress S = Status × ℕ × S

-- The four bytes of a word from index `i` on.
abbrev pub word_at : Bytes → ℕ → ℕ
word_at dst i =
    bit_or (bit_or (bit_or (dst (i + 0)) (u32 (dst (i + 1) <<< 8))) (u32 (dst (i + 2) <<< 16)))
      (u32 (dst (i + 3) <<< 24))

module _ {S : Type 0} (m : MemoryMap S) (addr : ℕ) (dst : Bytes) (len : ℕ) where
  -- The write of one byte at a segment's edge.
  abbrev pub write_byte : ℕ → S → Exec (WriteReply S)
  write_byte i s =
      MemoryMap.write m s (u32 (addr + u32 i)) 1 (dst i) (u8 (1 <<< bit_and (addr + i) 0x3))

  abbrev pub write_word : ℕ → S → Exec (WriteReply S)
  write_word i s = MemoryMap.write m s (u32 (addr + u32 i)) 4 (word_at dst i) 0xf

  -- The three loops of write_segment; each index is passed at most once, so that `len` rounds are
  -- enough.
  unfoldable pub leading : ℕ → ℕ → S → Exec (Progress S)
  leading zero i s = ret (done, i, s)
  leading (suc n) i s = elim (ltb i len && not (bit_and (u32 (addr + u32 i)) 0x3 == 0)) [
    | false ↦ ret (done, i, s)
    | true ↦ write_byte i s >>= λ r. elim (is_okay r.0) [
      | false ↦ ret (efault, i, r.1)
      | true ↦ leading n (i + 1) r.1
    ]
  ]

  unfoldable pub words : ℕ → ℕ → S → Exec (Progress S)
  words zero i s = ret (done, i, s)
  words (suc n) i s = elim (leb (i + 4) len) [
    | false ↦ ret (done, i, s)
    | true ↦ write_word i s >>= λ r. elim (is_okay r.0) [
      | false ↦ ret (efault, i, r.1)
      | true ↦ words n (i + 4) r.1
    ]
  ]

  unfoldable pub trailing : ℕ → ℕ → S → Exec (Progress S)
  trailing zero i s = ret (done, i, s)
  trailing (suc n) i s = elim (ltb i len) [
    | false ↦ ret (done, i, s)
    | true ↦ write_byte i s >>= λ r. elim (is_okay r.0) [
      | false ↦ ret (efault, i, r.1)
      | true ↦ trailing n (i + 1) r.1
    ]
  ]

  -- The next loop, unless this one has returned.
  abbrev pub then_loop : (ℕ → S → Exec (Progress S)) → Progress S → Exec (Progress S)
  then_loop next p = elim p.0 [ done ↦ next p.1 p.2 | _ ↦ ret p ]

  unfoldable pub write_segment : S → Exec (Status × S)
  write_segment s =
      leading len 0 s >>= then_loop (words len) >>= then_loop (trailing len) >>= λ p. ret (p.0, p.2)
