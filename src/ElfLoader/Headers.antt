-- ===== src/ElfLoader/Headers.antt =====
-- load_elf: the checks of the header, the program headers and the chunks of each segment.
pub mod Placed
pub mod Chunks
pub mod Image
use dae_pipeline_cpu.Prelude.{ℕ, zero, suc, ◌+◌, ◌-◌, ◌*◌, Bool, true, false, not, ◌&&◌, ◌||◌, ◌==◌}
use dae_pipeline_cpu.Prelude.{ltb, if◌then◌else◌, u32, Option, none, some}
use dae_pipeline_cpu.Bus.{Exec, ret, ◌>>=◌}
use dae_pipeline_cpu.Alloc.{Alloc, alloc, Status, done, enomem, eio, einval}
use dae_pipeline_cpu.MemoryMap.{MemoryMap}
use dae_pipeline_cpu.Soc.{Soc}
use dae_pipeline_cpu.ElfLoader.{elf_loader_dram_base, chunk_size, FileImage, Ehdr, Phdr}
use dae_pipeline_cpu.ElfLoader.{read_ehdr, read_phdr, write_segment}

-- The five tests of the header, in the order of the code. ELFMAG, ELFCLASS32, EM_RISCV, ET_EXEC.
unfoldable pub check_header : Ehdr → Status
check_header eh =
    if not
      (eh.e_ident 0 == 0x7f && eh.e_ident 1 == 0x45 && eh.e_ident 2 == 0x4c && eh.e_ident 3 == 0x46)
    then einval
    else if not (eh.e_ident 4 == 1)
    then einval
    else if not (eh.e_machine == 243)
    then einval
    else if not (eh.e_type == 2)
    then einval
    else if not (eh.e_entry == elf_loader_dram_base)
    then einval
    else done

-- `remaining > CHUNK ? CHUNK : remaining`
pub chunk_of : ℕ → ℕ
chunk_of remaining = if ltb chunk_size remaining then chunk_size else remaining

module _ {S : Type 0} (m : MemoryMap S) (f : FileImage) where
  -- The loop over the chunks of a segment, of which none is empty: `remaining` rounds are enough.
  unfoldable pub copy_chunks : ℕ → ℕ → ℕ → ℕ → S → Exec (Status × S)
  copy_chunks zero pos addr remaining s = ret (done, s)
  copy_chunks (suc n) pos addr remaining s = elim (remaining == 0) [
    | true ↦ ret (done, s)
    | false ↦
        (let chunk = chunk_of remaining in
          elim (ltb f.length (pos + chunk)) [
            | true ↦ ret (eio, s)
            | false ↦ write_segment m addr (λ i. f.byte (pos + i)) chunk s >>= λ r. elim r.0 [
              | done ↦ copy_chunks n (pos + chunk) (u32 (addr + u32 chunk)) (remaining - chunk) r.1
              | st ↦ ret (st, r.1)
            ]
          ])
  ]

  -- The body of the loop over the program headers. PT_LOAD is 1.
  unfoldable pub load_phdr : ℕ → S → Exec (Status × S)
  load_phdr at s = if not f.seekable then ret (eio, s) else elim (read_phdr f at) [
    | none ↦ ret (eio, s)
    | some ph ↦
        (if not (ph.p_type == 1) || ph.p_filesz == 0
          then ret (done, s)
          else if not (ph.p_paddr == ph.p_vaddr)
          then ret (einval, s)
          else copy_chunks ph.p_filesz ph.p_offset ph.p_paddr ph.p_filesz s)
  ]

  unfoldable pub load_phdrs : ℕ → ℕ → ℕ → S → Exec (Status × S)
  load_phdrs zero i phoff s = ret (done, s)
  load_phdrs (suc left) i phoff s = load_phdr (phoff + i * 32) s >>= λ r. elim r.0 [
    | done ↦ load_phdrs left (i + 1) phoff r.1
    | st ↦ ret (st, r.1)
  ]

  -- load_elf after the header has been checked and the buffer allocated.
  unfoldable pub load_body : Ehdr → S → Exec (Status × Option ℕ × S)
  load_body eh s = load_phdrs eh.e_phnum 0 eh.e_phoff s >>= λ r. elim r.0 [
    | done ↦ ret (done, some eh.e_entry, r.1)
    | st ↦ ret (st, none, r.1)
  ]

module _ {S : Type 0} (m : MemoryMap S) where
  -- load_elf; no file is one that fopen cannot open, and the second component `*entry_out`.
  unfoldable pub load_elf : Alloc → Option FileImage → S → Exec (Status × Option ℕ × S)
  load_elf al none s = ret (eio, none, s)
  load_elf al (some f) s = elim (read_ehdr f) [
    | none ↦ ret (eio, none, s)
    | some eh ↦ elim (check_header eh) [
      | done ↦ if (alloc al).0 then load_body m f eh s else ret (enomem, none, s)
      | st ↦ ret (st, none, s)
    ]
  ]

-- SnakeSoC_load_elf
unfoldable pub soc_load_elf :
    {W : Type 0} → Alloc → Option FileImage → Soc W → Exec (Status × Option ℕ × Soc W)
soc_load_elf al f soc =
    load_elf soc.map al f soc.devices >>= λ r. ret (r.0, r.1, record soc { devices = r.2 })
