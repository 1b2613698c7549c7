-- ===== src/ElfLoader/Segment.antt =====
-- What write_segment leaves in the DRAM of the SoC.
use dae_pipeline_cpu.Prelude.{
  ◌≢◌, ℕ, zero, suc, ◌+◌, ◌%◌, ◌≤◌, ◌<◌, ◌≡◌, refl, arith, inl, inr, ◌⊎◌,
}
use dae_pipeline_cpu.Prelude.{bit_and, not, ◌==◌, ◌&&◌, ltb, leb, Bool-cases, u32}
use mathlib.Core.Path.{subst}
use dae_pipeline_cpu.Bits.{bit_and_mask}
use dae_pipeline_cpu.Bus.{ret, Exec}
use dae_pipeline_cpu.Alloc.{done}
use dae_pipeline_cpu.Bytes.{Bytes, IsBytes}
use dae_pipeline_cpu.Host.{Host}
use dae_pipeline_cpu.Dram.{dram_default_size}
use dae_pipeline_cpu.Soc.{Devices, Soc}
use dae_pipeline_cpu.Soc.Decode.{IsMapped}
use dae_pipeline_cpu.ElfLoader.{Progress, leading, words, trailing, write_segment}
use dae_pipeline_cpu.ElfLoader.Copied.{Copied, Copied-trans, Copied-none, Copied-byte}
use dae_pipeline_cpu.ElfLoader.Steps.{dram_with, word_step, byte_step}

module _ {W : Type 0} (host : Host W) (soc : Soc W) (mapped : IsMapped host soc)
    (size : soc.devices.dram.size_bytes ≡ dram_default_size) (addr len : ℕ) (dst : Bytes)
    (image : IsBytes dst) (low : 0x80000000 ≤ addr) (high : addr + len ≤ 0x84000000) where
  -- Where a loop has come to, from index `i` and bytes `b`.
  abbrev pub Reached : ℕ → Bytes → Exec (Progress (Devices W)) → (ℕ → Type 0) → Type 0
  Reached i b call P =
      (i' : ℕ) × (b' : Bytes) × (call ≡ ret (done, i', dram_with soc b'))
      × (i ≤ i')
      × (i' ≤ len)
      × P i'
      × Copied addr len dst i i' b b'

  leading_lem :
      (n i : ℕ) (b : Bytes)
      → len ≤ i + n
      → addr % 4 + i ≤ 4
      → (addr % 4 ≡ 0 → i ≡ 0)
      → i ≤ len
      → Reached i b
          (leading soc.map addr dst len n i (dram_with soc b))
          (λ i'. ((addr + i') % 4 ≡ 0) ⊎ (i' ≡ len))
  unfolding leading
  leading_lem zero i b fuel near start bound =
      (i, b, refl, omega arith, bound, inr (omega arith), Copied-none addr len dst i b)
  leading_lem (suc n) i b fuel near start bound =
      elim (Bool-cases (ltb i len && not (bit_and (u32 (addr + u32 i)) 0x3 == 0))) [
        | inr stop ↦ (
          i,
          b,
          rw (stop, leading),
          omega arith,
          bound,
          ground (arith, bit_and_mask 2 (u32 (addr + u32 i))),
          Copied-none addr len dst i b,
        )
        | inl go ↦
            (let more : i < len = ground arith in
              let odd : (addr + i) % 4 ≢ 0 = ground (arith, bit_and_mask 2 (u32 (addr + u32 i))) in
              let (b1, call, eq) =
                byte_step host soc mapped size addr len dst image low high b i more in
              let one = Copied-byte addr len dst low b b1 i more (ground arith) eq in
              let (i', b', calls, up, top, stop, rest) =
                leading_lem n (i + 1) b1 (omega arith) (omega arith) (λ e. absurd (omega arith))
                  (omega arith) in
              (
                i',
                b',
                rw (go, call, leading) calls,
                omega arith,
                top,
                stop,
                Copied-trans addr len dst i (i + 1) i' b b1 b' (omega arith) up one rest,
              ))
      ]

  words_lem :
      (n i : ℕ) (b : Bytes)
      → len ≤ i + n
      → ((addr + i) % 4 ≡ 0) ⊎ (i ≡ len)
      → i ≤ len
      → Reached i b
          (words soc.map addr dst len n i (dram_with soc b))
          (λ i'. (len < i' + 4) × (((addr + i') % 4 ≡ 0) ⊎ (i' ≡ len)))
  unfolding words
  words_lem zero i b fuel start bound =
      (i, b, refl, omega arith, bound, (omega arith, start), Copied-none addr len dst i b)
  words_lem (suc n) i b fuel start bound = elim (Bool-cases (leb (i + 4) len)) [
    | inr stop ↦ (
      i,
      b,
      rw (stop, words),
      omega arith,
      bound,
      (ground arith, start),
      Copied-none addr len dst i b,
    )
    | inl go ↦
        (let more : i + 4 ≤ len = ground arith in
          let aligned : (addr + i) % 4 ≡ 0 = ground arith in
          let (b1, call, one) =
            word_step host soc mapped size addr len dst image low high b i more aligned in
          let (i', b', calls, up, top, stop, rest) =
            words_lem n (i + 4) b1 (omega arith) (inl (omega arith)) more in
          (
            i',
            b',
            rw (go, call, words) calls,
            omega arith,
            top,
            stop,
            Copied-trans addr len dst i (i + 4) i' b b1 b' (omega arith) up one rest,
          ))
  ]

  trailing_lem :
      (i0 n i : ℕ) (b : Bytes)
      → len ≤ i + n
      → ((addr + i0) % 4 ≡ 0) ⊎ (i0 ≡ len)
      → len < i0 + 4
      → i0 ≤ i
      → i ≤ len
      → Reached i b (trailing soc.map addr dst len n i (dram_with soc b)) (λ i'. i' ≡ len)
  unfolding trailing
  trailing_lem i0 zero i b fuel start short from bound =
      (i, b, refl, omega arith, bound, omega arith, Copied-none addr len dst i b)
  trailing_lem i0 (suc n) i b fuel start short from bound = elim (Bool-cases (ltb i len)) [
    | inr stop ↦
        (i, b, rw (stop, trailing), omega arith, bound, ground arith, Copied-none addr len dst i b)
    | inl go ↦
        (let more : i < len = ground arith in
          let (b1, call, eq) =
            byte_step host soc mapped size addr len dst image low high b i more in
          let one = Copied-byte addr len dst low b b1 i more (ground arith) eq in
          let (i', b', calls, up, top, stop, rest) =
            trailing_lem i0 n (i + 1) b1 (omega arith) start short (omega arith) (omega arith) in
          (
            i',
            b',
            rw (go, call, trailing) calls,
            omega arith,
            top,
            stop,
            Copied-trans addr len dst i (i + 1) i' b b1 b' (omega arith) up one rest,
          ))
  ]

  -- A segment that lies in the window of DRAM is always answered with success. Of its bytes those
  -- that `lands` names are stored, the others keep what DRAM held, and nothing else changes: an
  -- image whose ends are not multiples of four is not loaded whole.
  pub write_segment_lem :
      (b : Bytes)
      → (b' : Bytes) × (write_segment soc.map addr dst len (dram_with soc b)
          ≡ ret (done, dram_with soc b'))
        × Copied addr len dst 0 len b b'
  unfolding write_segment
  write_segment_lem b =
      let (i1, b1, c1, u1, t1, s1, r1) =
        leading_lem len 0 b (omega arith) (omega arith) (λ e. refl) (omega arith) in
      let (i2, b2, c2, u2, t2, s2, r2) = words_lem len i1 b1 (omega arith) s1 t1 in
      let (i3, b3, c3, u3, t3, s3, r3) =
        trailing_lem i2 len i2 b2 (omega arith) s2.1 s2.0 (omega arith) t2 in
      (
        b3,
        rw (c1, c2, c3),
        Copied-trans addr len dst 0 i2 len b b2 b3 (omega arith) t2
            (Copied-trans addr len dst 0 i1 i2 b b1 b2 u1 u2 r1 r2)
            (subst (λ e. Copied addr len dst i2 e b2 b3) s3 r3),
      )
