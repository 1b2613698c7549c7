-- ===== src/ElfLoader/Steps.antt =====
-- One write of a segment: a word, or a byte.
use dae_pipeline_cpu.Prelude.{ap, ℕ, ◌+◌, ◌-◌, ◌%◌, ◌≤◌, ◌<◌, ◌≡◌, arith, ◌∙◌}
use dae_pipeline_cpu.Prelude.{bit_and, ◌==◌, ◌&&◌, if◌then◌else◌, u8, u32, ◌<<<◌}
use dae_pipeline_cpu.Bus.{okay, ret}
use dae_pipeline_cpu.Bytes.{Bytes, IsBytes}
use dae_pipeline_cpu.Host.{Host}
use dae_pipeline_cpu.MemoryMap
use dae_pipeline_cpu.Dram
use dae_pipeline_cpu.Dram.{Dram, dram_default_size}
use dae_pipeline_cpu.Soc.{Devices, Soc}
use dae_pipeline_cpu.Soc.Decode.{IsMapped, Within, Window, find_window}
use dae_pipeline_cpu.ElfLoader.{word_at, write_byte, write_word}
use dae_pipeline_cpu.ElfLoader.Words.{dram_word, dram_byte}
use dae_pipeline_cpu.ElfLoader.Copied.{Copied, Copied-word}

-- The devices of a SoC with other bytes in DRAM.
abbrev pub dram_with : {W : Type 0} → Soc W → Bytes → Devices W
dram_with soc b = record soc.devices { dram = record soc.devices.dram { backing = b } }

module _ {W : Type 0} (host : Host W) (soc : Soc W) (mapped : IsMapped host soc)
    (size : soc.devices.dram.size_bytes ≡ dram_default_size) (addr len : ℕ) (dst : Bytes)
    (image : IsBytes dst) (low : 0x80000000 ≤ addr) (high : addr + len ≤ 0x84000000) where
  -- An access of the window of DRAM, by what DRAM answers.
  access :
      (b b' : Bytes) (a w v strb : ℕ)
      → 0 < w
      → 0x80000000 ≤ a
      → a + w ≤ 0x84000000
      → Dram.write (dram_with soc b).dram (a - 0x80000000) w v strb
        ≡ (okay, record soc.devices.dram { backing = b' })
      → MemoryMap.write soc.map (dram_with soc b) a w v strb ≡ ret (okay, dram_with soc b')
  unfolding MemoryMap.write
  access b b' a w v strb pos from upto answer =
      let inside : Within Window.dram a w = ground arith in
      let found = find_window host soc Window.dram a w mapped pos inside in
      rw (found, answer, MemoryMap.write)

  -- The address of an index, which does not wrap.
  place : (i : ℕ) → i < len → u32 (addr + u32 i) ≡ addr + i
  place i h = omega arith

  pub word_step :
      (b : Bytes) (i : ℕ)
      → i + 4 ≤ len
      → (addr + i) % 4 ≡ 0
      → (b' : Bytes) × (write_word soc.map addr dst len i (dram_with soc b)
          ≡ ret (okay, dram_with soc b'))
        × Copied addr len dst i (i + 4) b b'
  word_step b i more aligned =
      let (b', answer, eq) =
        dram_word (dram_with soc b).dram (addr + i - 0x80000000) dst i image (omega arith)
          (omega arith) in
      let call =
        access b b' (addr + i) 4 (word_at dst i) 0xf (omega arith) (omega arith) (omega arith)
          answer in
      (
        b',
        ap (λ (a : ℕ). MemoryMap.write soc.map (dram_with soc b) a 4 (word_at dst i) 0xf)
              (place i (omega arith))
            ∙ call,
        Copied-word addr len dst low b b' i more aligned eq,
      )

  -- The strobe's lane is that of the address.
  pub byte_step :
      (b : Bytes) (i : ℕ)
      → i < len
      → (b' : Bytes) × (write_byte soc.map addr dst len i (dram_with soc b)
          ≡ ret (okay, dram_with soc b'))
        × ((k : ℕ)
            → b' k ≡ (if k == addr + i - 0x80000000 && ((addr + i) % 4 == 0) then dst i else b k))
  byte_step b i more =
      let (b', answer, eq) =
        dram_byte (dram_with soc b).dram (addr + i - 0x80000000) (addr + i) (dst i) (image i)
          (omega arith) (omega arith) in
      let strb = u8 (1 <<< bit_and (addr + i) 0x3) in
      let call =
        access b b' (addr + i) 1 (dst i) strb (omega arith) (omega arith) (omega arith) answer in
      (
        b',
        ap (λ (a : ℕ). MemoryMap.write soc.map (dram_with soc b) a 1 (dst i) strb) (place i more)
            ∙ call,
        eq,
      )
