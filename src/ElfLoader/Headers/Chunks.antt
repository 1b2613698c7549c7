-- ===== src/ElfLoader/Headers/Chunks.antt =====
-- The loop over the chunks of a segment.
use dae_pipeline_cpu.Prelude.{
  ℕ, zero, suc, ◌+◌, ◌-◌, ◌%◌, ◌≤◌, ◌<◌, ◌≡◌, refl, arith, inl, inr, ◌∙◌, true, false, ◌==◌, ◌&&◌,
  ltb, leb, Bool-cases, u32,
}
use dae_pipeline_cpu.Bus.{ret}
use dae_pipeline_cpu.Alloc.{done}
use dae_pipeline_cpu.Bytes.{Bytes, IsBytes}
use dae_pipeline_cpu.Host.{Host}
use dae_pipeline_cpu.Dram.{dram_default_size}
use dae_pipeline_cpu.Soc.{Soc}
use dae_pipeline_cpu.Soc.Decode.{IsMapped}
use dae_pipeline_cpu.ElfLoader.{FileImage, write_segment}
use dae_pipeline_cpu.ElfLoader.Steps.{dram_with}
use dae_pipeline_cpu.ElfLoader.Segment.{write_segment_lem}
use dae_pipeline_cpu.ElfLoader.Headers.{chunk_of, copy_chunks}
use dae_pipeline_cpu.ElfLoader.Headers.Placed.{placed}

module _ {W : Type 0} (host : Host W) (soc : Soc W) (mapped : IsMapped host soc)
    (size : soc.devices.dram.size_bytes ≡ dram_default_size) (f : FileImage)
    (bytes : IsBytes f.byte) where
  -- One chunk at an aligned address, of whole words.
  chunk_lem :
      (pos addr chunk : ℕ) (b : Bytes)
      → 0x80000000 ≤ addr
      → addr + chunk ≤ 0x84000000
      → addr % 4 ≡ 0
      → chunk % 4 ≡ 0
      → (b' : Bytes) × (write_segment soc.map addr (λ i. f.byte (pos + i)) chunk (dram_with soc b)
          ≡ ret (done, dram_with soc b'))
        × ((k : ℕ) → b' k ≡ placed f pos addr chunk b k)
  chunk_lem pos addr chunk b low high aligned whole =
      let (b', call, copied) =
        write_segment_lem host soc mapped size addr chunk (λ i. f.byte (pos + i))
          (λ i. bytes (pos + i)) low high b in
      (b', call, λ k. copied k ∙ ground arith)

  -- A chunk, and then the rest of the segment.
  placed-placed :
      (pos addr remaining chunk : ℕ) (b b1 : Bytes) (k : ℕ)
      → 0x80000000 ≤ addr
      → chunk ≤ remaining
      → b1 k ≡ placed f pos addr chunk b k
      → placed f (pos + chunk) (addr + chunk) (remaining - chunk) b1 k
        ≡ placed f pos addr remaining b k
  placed-placed pos addr remaining chunk b b1 k low le e =
      elim (Bool-cases (
        leb (addr + chunk) (0x80000000 + k)
        && ltb (0x80000000 + k) (addr + chunk + (remaining - chunk)))) [
          | inl here ↦
              (let at : pos + chunk + (0x80000000 + k - (addr + chunk))
                    ≡ pos + (0x80000000 + k - addr) =
                  ground arith in
                let range : (leb addr (0x80000000 + k) && ltb (0x80000000 + k) (addr + remaining))
                    ≡ true =
                  ground arith in
                rw (here, range, at))
          | inr there ↦ rw there (e ∙ ground arith)
        ]

  chunk_of_lem :
      (remaining : ℕ)
      → (remaining == 0) ≡ false
      → remaining % 4 ≡ 0
      → (0 < chunk_of remaining) × (chunk_of remaining ≤ remaining) × (chunk_of remaining % 4 ≡ 0)
  unfolding chunk_of
  chunk_of_lem remaining more whole = ground arith

  -- One round of the loop.
  copy_round :
      (n pos addr remaining : ℕ) (b b1 b2 : Bytes)
      → let chunk = chunk_of remaining in
        (remaining == 0) ≡ false
        → ltb f.length (pos + chunk) ≡ false
        → write_segment soc.map addr (λ i. f.byte (pos + i)) chunk (dram_with soc b)
          ≡ ret (done, dram_with soc b1)
        → u32 (addr + u32 chunk) ≡ addr + chunk
        → copy_chunks soc.map f n
            (pos + chunk)
            (addr + chunk)
            (remaining - chunk)
            (dram_with soc b1)
          ≡ ret (done, dram_with soc b2)
        → copy_chunks soc.map f (suc n) pos addr remaining (dram_with soc b)
          ≡ ret (done, dram_with soc b2)
  unfolding copy_chunks
  copy_round n pos addr remaining b b1 b2 more short call next calls =
      rw (more, copy_chunks) (rw short (rw call (rw next calls)))

  pub copy_chunks_lem :
      (n pos addr remaining : ℕ) (b : Bytes)
      → remaining ≤ n
      → 0x80000000 ≤ addr
      → addr + remaining ≤ 0x84000000
      → addr % 4 ≡ 0
      → remaining % 4 ≡ 0
      → pos + remaining ≤ f.length
      → (b' : Bytes) × (copy_chunks soc.map f n pos addr remaining (dram_with soc b)
          ≡ ret (done, dram_with soc b'))
        × ((k : ℕ) → b' k ≡ placed f pos addr remaining b k)
  unfolding copy_chunks
  copy_chunks_lem zero pos addr remaining b fuel low high aligned whole inside =
      (b, refl, λ k. ground arith)
  copy_chunks_lem (suc n) pos addr remaining b fuel low high aligned whole inside =
      elim (Bool-cases (remaining == 0)) [
        | inl empty ↦ (b, rw (empty, copy_chunks), λ k. ground arith)
        | inr more ↦
            (let chunk = chunk_of remaining in
              let part = chunk_of_lem remaining more whole in
              let short : ltb f.length (pos + chunk) ≡ false = ground (arith, part) in
              let (b1, call, eq) =
                chunk_lem pos addr chunk b low (omega (arith, part)) aligned part.2 in
              let next : u32 (addr + u32 chunk) ≡ addr + chunk = omega (arith, part) in
              let (b2, calls, eqs) =
                copy_chunks_lem n (pos + chunk) (addr + chunk) (remaining - chunk) b1
                  (omega (arith, part)) (omega (arith, part)) (omega (arith, part))
                  (omega (arith, part)) (omega (arith, part)) (omega (arith, part)) in
              (
                b2,
                copy_round n pos addr remaining b b1 b2 more short call next calls,
                λ k. eqs k ∙ placed-placed pos addr remaining chunk b b1 k low part.1 (eq k),
              ))
      ]
