-- ===== src/ElfLoader/Headers/Placed.antt =====
-- What a well-formed executable is to put into DRAM.
use dae_pipeline_cpu.Prelude.{
  ◌≢◌, ℕ, zero, suc, ◌+◌, ◌-◌, ◌%◌, ◌≤◌, ◌≡◌, arith, ◌⊎◌, ◌==◌, ◌&&◌, ltb, leb, if◌then◌else◌,
}
use dae_pipeline_cpu.Bytes.{Bytes}
use dae_pipeline_cpu.ElfLoader.{FileImage, Phdr}

-- The bytes of DRAM after `size` bytes of the file from `pos` have been put at `addr`.
abbrev pub placed : FileImage → ℕ → ℕ → ℕ → Bytes → Bytes
placed f pos addr size b k =
    if leb addr (0x80000000 + k) && ltb (0x80000000 + k) (addr + size)
    then f.byte (pos + (0x80000000 + k - addr))
    else b k

-- A program header of a well-formed image: it is not loaded, or its bytes are in the file, in
-- whole words at an aligned address, and its range lies in DRAM.
abbrev pub Loadable : FileImage → Phdr → Type 0
Loadable f ph =
    (ph.p_type ≢ 1)
    ⊎ (ph.p_paddr ≡ ph.p_vaddr)
      × (ph.p_paddr % 4 ≡ 0)
      × (ph.p_filesz % 4 ≡ 0)
      × (0x80000000 ≤ ph.p_paddr)
      × (ph.p_paddr + ph.p_filesz ≤ 0x84000000)
      × (ph.p_offset + ph.p_filesz ≤ f.length)

-- The bytes of DRAM after one header.
abbrev pub placed_phdr : FileImage → Phdr → Bytes → Bytes
placed_phdr f ph b = if ph.p_type == 1 then placed f ph.p_offset ph.p_paddr ph.p_filesz b else b

-- The bytes of DRAM after the first `n` headers: each byte is that of the last header that covers it.
unfoldable pub image : FileImage → (ℕ → Phdr) → ℕ → Bytes → Bytes
image f ph zero b = b
image f ph (suc n) b = placed_phdr f (ph n) (image f ph n b)

pub image-next :
    (f : FileImage) (ph : ℕ → Phdr) (n : ℕ) (b : Bytes)
    → image f ph (n + 1) b ≡ placed_phdr f (ph n) (image f ph n b)
unfolding image
image-next f ph n b = let e : n + 1 ≡ suc n = omega arith in rw e
