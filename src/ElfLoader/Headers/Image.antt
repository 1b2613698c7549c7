-- ===== src/ElfLoader/Headers/Image.antt =====
-- A well-formed executable is loaded whole.
use dae_pipeline_cpu.Prelude.{
  fun_ext, ◌≢◌, sym, ℕ, zero, suc, ◌+◌, ◌*◌, ◌≤◌, ◌<◌, ◌≡◌, refl, arith, inl, inr, ◌∙◌, ◌⊎◌,
}
use dae_pipeline_cpu.Prelude.{true, false, not, ◌==◌, Bool-cases, none, some}
use dae_pipeline_cpu.Bus.{ret}
use dae_pipeline_cpu.Alloc.{Alloc, alloc, done, eio, einval}
use dae_pipeline_cpu.Bytes.{Bytes, IsBytes}
use dae_pipeline_cpu.Host.{Host}
use dae_pipeline_cpu.Dram.{dram_default_size}
use dae_pipeline_cpu.MemoryMap.{MemoryMap}
use dae_pipeline_cpu.Soc.{Soc}
use dae_pipeline_cpu.Soc.Decode.{IsMapped}
use dae_pipeline_cpu.ElfLoader.{FileImage, Ehdr, Phdr, read_ehdr, read_phdr}
use dae_pipeline_cpu.ElfLoader.Headers.Placed.{Loadable, placed_phdr, image, image-next}
use dae_pipeline_cpu.ElfLoader.Headers.Chunks.{copy_chunks_lem}
use dae_pipeline_cpu.ElfLoader.Steps.{dram_with}
use dae_pipeline_cpu.ElfLoader.Headers.{
  check_header, load_phdr, load_phdrs, load_body, load_elf, soc_load_elf,
}

module _ {W : Type 0} (host : Host W) (soc : Soc W) (mapped : IsMapped host soc)
    (size : soc.devices.dram.size_bytes ≡ dram_default_size) (f : FileImage)
    (bytes : IsBytes f.byte) where
  load_phdr_lem :
      (at : ℕ) (ph : Phdr) (b : Bytes)
      → f.seekable ≡ true
      → read_phdr f at ≡ some ph
      → Loadable f ph
      → (b' : Bytes) × (load_phdr soc.map f at (dram_with soc b) ≡ ret (done, dram_with soc b'))
        × ((k : ℕ) → b' k ≡ placed_phdr f ph b k)
  unfolding load_phdr
  load_phdr_lem at ph b seek found (inl data_only) =
      let shut : not f.seekable ≡ false = rw seek in
      let other : (ph.p_type == 1) ≡ false = ground arith in
      (b, rw (shut, found, load_phdr) (rw other), λ k. rw other)
  load_phdr_lem at ph b seek found (inr (same, aligned, whole, low, high, inside)) =
      let shut : not f.seekable ≡ false = rw seek in
      elim (Bool-cases (ph.p_type == 1)) [
        | inr other ↦ (b, rw (shut, found, load_phdr) (rw other), λ k. rw other)
        | inl load ↦ elim (Bool-cases (ph.p_filesz == 0)) [
          | inl empty ↦
              (b, rw (shut, found, load_phdr) (rw (load, empty)), λ k. rw load (ground arith))
          | inr full ↦
              (let eq : (ph.p_paddr == ph.p_vaddr) ≡ true = ground arith in
                let (b', call, put) =
                  copy_chunks_lem host soc mapped size f bytes ph.p_filesz ph.p_offset ph.p_paddr
                    ph.p_filesz b (omega arith) low high aligned whole inside in
                (b', rw (shut, found, load_phdr) (rw (load, full, eq) call), λ k. rw load (put k)))
        ]
      ]

  load_phdrs_lem :
      (ph : ℕ → Phdr) (left i phoff : ℕ) (b : Bytes)
      → f.seekable ≡ true
      → ((j : ℕ) → i ≤ j → j < i + left → read_phdr f (phoff + j * 32) ≡ some (ph j))
      → ((j : ℕ) → i ≤ j → j < i + left → Loadable f (ph j))
      → load_phdrs soc.map f left i phoff (dram_with soc (image f ph i b))
        ≡ ret (done, dram_with soc (image f ph (i + left) b))
  unfolding load_phdrs
  load_phdrs_lem ph zero i phoff b seek found good = let e : i + 0 ≡ i = omega arith in rw e
  load_phdrs_lem ph (suc left) i phoff b seek found good =
      let (b1, call, put) =
        load_phdr_lem (phoff + i * 32) (ph i) (image f ph i b) seek
          (found i (omega arith) (omega arith)) (good i (omega arith) (omega arith)) in
      let same : b1 ≡ image f ph (i + 1) b = fun_ext put ∙ sym (image-next f ph i b) in
      let last : i + suc left ≡ i + 1 + left = omega arith in
      let rest =
        load_phdrs_lem ph left (i + 1) phoff b seek (λ j p q. found j (omega arith) (omega arith))
          (λ j p q. good j (omega arith) (omega arith)) in
      rw (call, load_phdrs) (rw (same, last) rest)

  check_header-entry : (eh : Ehdr) → check_header eh ≡ done → eh.e_entry ≡ 0x80000000
  unfolding check_header
  check_header-entry eh ok = ground arith

  -- An executable whose header passes the tests and whose program headers are all well formed is
  -- loaded: the call succeeds with the entry at the base of DRAM, and DRAM holds the file's bytes of
  -- each segment in the order of the headers, what it held elsewhere, and no other device has
  -- changed.
  pub load_elf_lem :
      (al : Alloc) (eh : Ehdr) (ph : ℕ → Phdr)
      → (alloc al).0 ≡ true
      → read_ehdr f ≡ some eh
      → check_header eh ≡ done
      → f.seekable ≡ true
      → ((j : ℕ) → j < eh.e_phnum → read_phdr f (eh.e_phoff + j * 32) ≡ some (ph j))
      → ((j : ℕ) → j < eh.e_phnum → Loadable f (ph j))
      → soc_load_elf al (some f) soc
        ≡ ret (
          done,
          some 0x80000000,
          record soc { devices = dram_with soc (image f ph eh.e_phnum soc.devices.dram.backing) },
        )
  unfolding soc_load_elf load_elf load_body image
  load_elf_lem al eh ph given head ok seek found good =
      let all : 0 + eh.e_phnum ≡ eh.e_phnum = omega arith in
      let body =
        load_phdrs_lem ph eh.e_phnum 0 eh.e_phoff soc.devices.dram.backing seek
          (λ j p q. found j (omega arith)) (λ j p q. good j (omega arith)) in
      rw (head, soc_load_elf, load_elf)
        (rw (ok) (rw given (rw (body, load_body, all) (rw (check_header-entry eh ok)))))

check_header_cases : (eh : Ehdr) → (check_header eh ≡ done) ⊎ (check_header eh ≡ einval)
unfolding check_header
check_header_cases eh = ground arith

-- A file that cannot be opened or is too short, and one whose header fails a test, is refused before
-- anything is written.
pub load_elf_refused :
    {S : Type 0} (m : MemoryMap S) (al : Alloc) (s : S) (short f : FileImage) (eh : Ehdr)
    → read_ehdr short ≡ none
    → read_ehdr f ≡ some eh
    → check_header eh ≢ done
    → (load_elf m al none s ≡ ret (eio, none, s))
      × (load_elf m al (some short) s ≡ ret (eio, none, s))
      × (load_elf m al (some f) s ≡ ret (einval, none, s))
unfolding load_elf
load_elf_refused m al s short f eh cut head bad = (
  refl,
  rw (cut, load_elf),
  elim (check_header_cases eh) [
    | inl ok ↦ absurd (bad ok)
    | inr invalid ↦ rw (head, load_elf) (rw invalid)
  ],
)
