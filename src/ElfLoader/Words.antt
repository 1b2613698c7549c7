-- ===== src/ElfLoader/Words.antt =====
-- What the two kinds of write of write_segment do to the bytes of DRAM.
use dae_pipeline_cpu.Prelude.{
  ℕ, zero, suc, ◌+◌, ◌-◌, ◌*◌, ◌/◌, ◌%◌, ◌^◌, ◌≤◌, ◌<◌, ◌≡◌, refl, arith, inl, inr, ◌∙◌,
}
use dae_pipeline_cpu.Prelude.{
  bit_and, ◌==◌, ◌&&◌, ltb, leb, Bool-cases, if◌then◌else◌, u8, u32, ◌<<<◌,
}
use dae_pipeline_cpu.Bits.{bit_and_mask, bit_or_above}
use dae_pipeline_cpu.Bus.{okay}
use dae_pipeline_cpu.Bytes.{Bytes, IsBytes, store}
use dae_pipeline_cpu.Bytes.Store.{StrobeBit, byte_of, store_inside, store_masked, store_outside}
use dae_pipeline_cpu.Dram.{Dram, write}
use dae_pipeline_cpu.Dram.Access.{AcceptsWrite, write_ok}
use dae_pipeline_cpu.ElfLoader.{word_at}

-- A word of the image is the sum of its bytes.
word_at_lem :
    (dst : Bytes) (i : ℕ)
    → IsBytes dst
    → word_at dst i ≡ dst i + dst (i + 1) * 2 ^ 8 + dst (i + 2) * 2 ^ 16 + dst (i + 3) * 2 ^ 24
word_at_lem dst i h =
    let b0 = h i in
    let b1 = h (i + 1) in
    let b2 = h (i + 2) in
    let b3 = h (i + 3) in
    let j1 = bit_or_above 8 (dst (i + 1)) (dst i) b0 in
    let j2 = bit_or_above 16 (dst (i + 2)) (dst i + dst (i + 1) * 2 ^ 8) (omega arith) in
    let j3 =
      bit_or_above 24 (dst (i + 3)) (dst i + dst (i + 1) * 2 ^ 8 + dst (i + 2) * 2 ^ 16)
        (omega arith) in
    let m1 : u32 (dst (i + 1) <<< 8) ≡ dst (i + 1) <<< 8 = omega arith in
    let m2 : u32 (dst (i + 2) <<< 16) ≡ dst (i + 2) <<< 16 = omega arith in
    let m3 : u32 (dst (i + 3) <<< 24) ≡ dst (i + 3) <<< 24 = omega arith in
    let z : i + 0 ≡ i = omega arith in rw (m1, m2, m3, z, j1, j2, j3)

-- The four bytes of a sum of shifted bytes.
sum_bytes :
    (x0 x1 x2 x3 : ℕ)
    → x0 < 256
    → x1 < 256
    → x2 < 256
    → x3 < 256
    → let v = x0 + x1 * 256 + x2 * 65536 + x3 * 16777216 in
      (v / 1 % 256 ≡ x0) × (v / 256 % 256 ≡ x1) × (v / 65536 % 256 ≡ x2) × (v / 16777216 % 256 ≡ x3)
sum_bytes x0 x1 x2 x3 h0 h1 h2 h3 = omega arith

word_byte : (dst : Bytes) (i j : ℕ) → IsBytes dst → j < 4 → byte_of (word_at dst i) j ≡ dst (i + j)
word_byte dst i j h lt = rw (word_at_lem dst i h) (by_lane j lt)
  where
    by_lane :
        (j : ℕ)
        → j < 4
        → byte_of (dst i + dst (i + 1) * 2 ^ 8 + dst (i + 2) * 2 ^ 16 + dst (i + 3) * 2 ^ 24) j
          ≡ dst (i + j)
    by_lane zero lt =
        let z : i + 0 ≡ i = omega arith in
        rw z
          (sum_bytes (dst i) (dst (i + 1)) (dst (i + 2)) (dst (i + 3)) (h i) (h (i + 1)) (h (i + 2))
            (h (i + 3))).0
    by_lane (suc zero) lt =
        (sum_bytes (dst i) (dst (i + 1)) (dst (i + 2)) (dst (i + 3)) (h i) (h (i + 1)) (h (i + 2))
          (h (i + 3))).1
    by_lane (suc (suc zero)) lt =
        (sum_bytes (dst i) (dst (i + 1)) (dst (i + 2)) (dst (i + 3)) (h i) (h (i + 1)) (h (i + 2))
          (h (i + 3))).2
    by_lane (suc (suc (suc zero))) lt =
        (sum_bytes (dst i) (dst (i + 1)) (dst (i + 2)) (dst (i + 3)) (h i) (h (i + 1)) (h (i + 2))
          (h (i + 3))).3
    by_lane (suc (suc (suc (suc j)))) lt = absurd (omega arith)

all_lanes : (j : ℕ) → j < 4 → StrobeBit 0xf j
all_lanes zero h = refl
all_lanes (suc zero) h = refl
all_lanes (suc (suc zero)) h = refl
all_lanes (suc (suc (suc zero))) h = refl
all_lanes (suc (suc (suc (suc j)))) h = absurd (omega arith)

-- The strobe of a byte at an edge has bit 0 only where the address is a multiple of four.
edge_strobe : (a : ℕ) → u8 (1 <<< bit_and a 0x3) % 2 ≡ (if a % 4 == 0 then 1 else 0)
edge_strobe a = rw (bit_and_mask 2 a) (by_rest (a % 4) (omega arith))
  where
    by_rest : (r : ℕ) → r < 4 → u8 (1 <<< r) % 2 ≡ (if r == 0 then 1 else 0)
    by_rest zero h = refl
    by_rest (suc zero) h = refl
    by_rest (suc (suc zero)) h = refl
    by_rest (suc (suc (suc zero))) h = refl
    by_rest (suc (suc (suc (suc r)))) h = absurd (omega arith)

module _ (d : Dram) (off : ℕ) where
  -- The word is accepted, and its four bytes are the image's.
  pub dram_word :
      (dst : Bytes) (i : ℕ)
      → IsBytes dst
      → off % 4 ≡ 0
      → off + 4 ≤ d.size_bytes
      → (b : Bytes) × (write d off 4 (word_at dst i) 0xf ≡ (okay, record d { backing = b }))
        × ((k : ℕ)
            → b k ≡ (if leb off k && ltb k (off + 4) then dst (i + (k - off)) else d.backing k))
  dram_word dst i h aligned inside =
      let a : AcceptsWrite d off 4 0xf = ground arith in
      (
        store d.backing off 4 (word_at dst i) 0xf,
        write_ok d off 4 (word_at dst i) 0xf a,
        λ k. stored k,
      )
    where
      stored :
          (k : ℕ)
          → store d.backing off 4 (word_at dst i) 0xf k
            ≡ (if leb off k && ltb k (off + 4) then dst (i + (k - off)) else d.backing k)
      stored k = elim (Bool-cases (leb off k && ltb k (off + 4))) [
        | inl here ↦
            (let lane : k - off < 4 = ground arith in
              rw here (
                store_inside d.backing off 4 (word_at dst i) 0xf k (omega arith) (ground arith)
                  (ground arith) (all_lanes (k - off) lane)
                ∙ word_byte dst i (k - off) h lane))
        | inr there ↦ rw there (store_outside d.backing off 4 (word_at dst i) 0xf k (ground arith))
      ]

  -- The byte is accepted, and is stored only where the address is a multiple of four.
  pub dram_byte :
      (a v : ℕ)
      → v < 256
      → off % 4 ≡ a % 4
      → off + 1 ≤ d.size_bytes
      → (b : Bytes) × (write d off 1 v (u8 (1 <<< bit_and a 0x3))
          ≡ (okay, record d { backing = b }))
        × ((k : ℕ) → b k ≡ (if k == off && (a % 4 == 0) then v else d.backing k))
  dram_byte a v small same inside =
      let strb = u8 (1 <<< bit_and a 0x3) in
      let ok : AcceptsWrite d off 1 strb = ground arith in
      (store d.backing off 1 v strb, write_ok d off 1 v strb ok, λ k. stored k)
    where
      stored :
          (k : ℕ)
          → store d.backing off 1 v (u8 (1 <<< bit_and a 0x3)) k
            ≡ (if k == off && (a % 4 == 0) then v else d.backing k)
      stored k = ground (
        arith,
        edge_strobe a,
        store_inside d.backing off 1 v (u8 (1 <<< bit_and a 0x3)) k,
        store_masked d.backing off 1 v (u8 (1 <<< bit_and a 0x3)) k,
        store_outside d.backing off 1 v (u8 (1 <<< bit_and a 0x3)) k,
      )
