-- ===== src/Bytes/Store.antt =====
-- The store loop, byte by byte, and reading back what it stored.
use dae_pipeline_cpu.Prelude.{ℕ, zero, suc, ◌+◌, ◌-◌, ◌*◌, ◌/◌, ◌%◌, ◌^◌, ◌≤◌, ◌<◌, ◌≡◌, refl}
use dae_pipeline_cpu.Prelude.{◌⊎◌, inl, inr, arith, bit_and, ◌<<<◌, true}
use dae_pipeline_cpu.Prelude.{◌&&◌, leb, ltb, if◌then◌else◌, ◌∙◌, Bool-cases, ◌↔◌}
use dae_pipeline_cpu.Prelude.{ap}
use dae_pipeline_cpu.Bits.{bit_and_mask, bit_and_above}
use dae_pipeline_cpu.Bytes.{Bytes, IsBytes, update, lane_on, lane_byte, store_from, store}
use dae_pipeline_cpu.Bytes.Load.{le_value, IsWidth}

-- The strobe bit of a lane, and the byte of a value in it.
abbrev pub StrobeBit : ℕ → ℕ → Type 0
StrobeBit strb i = strb / 2 ^ i % 2 ≡ 1

abbrev pub byte_of : ℕ → ℕ → ℕ
byte_of value i = value / 2 ^ (8 * i) % 256

pub lane_byte_lem : (value i : ℕ) → lane_byte value i ≡ byte_of value i
lane_byte_lem value i = omega (arith, bit_and_mask 8 (value / 2 ^ (8 * i)))

-- The mask of a lane reads its strobe bit.
lane_bit : (strb i : ℕ) → bit_and strb (1 <<< i) ≡ strb / 2 ^ i % 2 * 2 ^ i
lane_bit strb i = bit_and_above i strb 1 ∙ ap (λ (t : ℕ). t * 2 ^ i) (bit_and_mask 1 (strb / 2 ^ i))

pub lane_on_iff : (strb i : ℕ) → i < 4 → (lane_on strb i ≡ true) ↔ StrobeBit strb i
lane_on_iff strb zero h = ground (arith, lane_bit strb 0)
lane_on_iff strb (suc zero) h = ground (arith, lane_bit strb 1)
lane_on_iff strb (suc (suc zero)) h = ground (arith, lane_bit strb 2)
lane_on_iff strb (suc (suc (suc zero))) h = ground (arith, lane_bit strb 3)
lane_on_iff strb (suc (suc (suc (suc i)))) h = absurd (omega arith)

store_from_at :
    (n i : ℕ) (b : Bytes) (offset value strb j : ℕ)
    → store_from n i b offset value strb j ≡ (
        if leb (offset + i) j && ltb j (offset + i + n) && lane_on strb (j - offset)
        then lane_byte value (j - offset)
        else b j)
unfolding store_from
store_from_at zero i b offset value strb j = ground arith
store_from_at (suc n) i b offset value strb j = ground (
  arith,
  store_from_at n (i + 1) (if lane_on strb i then update b (offset + i) (lane_byte value i) else b)
      offset value strb j,
)

module _ (b : Bytes) (offset w value strb : ℕ) where
  store_at :
      (j : ℕ)
      → store b offset w value strb j ≡ (
          if leb offset j && ltb j (offset + w) && lane_on strb (j - offset)
          then lane_byte value (j - offset)
          else b j)
  unfolding store
  store_at j = ground (arith, store_from_at w 0 b offset value strb j)

  -- A byte of the access whose strobe bit is set takes its lane of the value.
  pub store_inside :
      (j : ℕ)
      → w ≤ 4
      → offset ≤ j
      → j < offset + w
      → StrobeBit strb (j - offset)
      → store b offset w value strb j ≡ byte_of value (j - offset)
  store_inside j small from upto on =
      let lane = (lane_on_iff strb (j - offset) (omega arith)).1 on in
      ground (arith, store_at j, lane_byte_lem value (j - offset))

  -- A byte whose strobe bit is not set keeps its value.
  pub store_masked :
      (j : ℕ)
      → w ≤ 4
      → offset ≤ j
      → j < offset + w
      → ¬ (StrobeBit strb (j - offset))
      → store b offset w value strb j ≡ b j
  store_masked j small from upto off = elim (Bool-cases (lane_on strb (j - offset))) [
    | inl on ↦ absurd (off ((lane_on_iff strb (j - offset) (omega arith)).0 on))
    | inr masked ↦ ground (arith, store_at j)
  ]

  -- A byte outside of the access keeps its value.
  pub store_outside :
      (j : ℕ) → (j < offset) ⊎ (offset + w ≤ j) → store b offset w value strb j ≡ b j
  store_outside j out = ground (arith, store_at j)

  -- The same, by the number of the lane.
  stored_lane :
      (j i : ℕ)
      → w ≤ 4
      → i < w
      → j ≡ offset + i
      → StrobeBit strb i
      → store b offset w value strb j ≡ byte_of value i
  stored_lane j i small lt e on =
      let k : j - offset ≡ i = omega arith in
      rw k at (store_inside j small (omega arith) (omega arith) (rw k on))

  pub store-IsBytes : IsBytes b → IsBytes (store b offset w value strb)
  store-IsBytes h j = ground (arith, store_at j, h j)

pub le_value_ext :
    (n a : ℕ) (b c : Bytes)
    → ((j : ℕ) → a ≤ j → j < a + n → b j ≡ c j)
    → le_value n b a ≡ le_value n c a
le_value_ext zero a b c h = refl
le_value_ext (suc n) a b c h = omega (
  arith,
  h a (omega arith) (omega arith),
  le_value_ext n (a + 1) b c (λ j p q. h j (omega arith) (omega arith)),
)

-- With all the strobe bits of the width set, the bytes of the access then stand for the value.
pub le_value-store :
    (b : Bytes) (offset w value strb : ℕ)
    → IsWidth w
    → ((i : ℕ) → i < w → StrobeBit strb i)
    → le_value w (store b offset w value strb) offset ≡ value % 256 ^ w
le_value-store b offset w value strb (inl e) on =
    let lane = λ (j i : ℕ). stored_lane b offset 1 value strb j i (omega arith) in
    rw e (omega (arith, lane offset 0 (omega arith) (omega arith) (on 0 (omega arith))))
le_value-store b offset w value strb (inr (inl e)) on =
    let lane = λ (j i : ℕ). stored_lane b offset 2 value strb j i (omega arith) in
    rw e (
      omega (
        arith,
        lane offset 0 (omega arith) (omega arith) (on 0 (omega arith)),
        lane (offset + 1) 1 (omega arith) (omega arith) (on 1 (omega arith)),
      ))
le_value-store b offset w value strb (inr (inr e)) on =
    let lane = λ (j i : ℕ). stored_lane b offset 4 value strb j i (omega arith) in
    rw e (
      omega (
        arith,
        lane offset 0 (omega arith) (omega arith) (on 0 (omega arith)),
        lane (offset + 1) 1 (omega arith) (omega arith) (on 1 (omega arith)),
        lane (offset + 1 + 1) 2 (omega arith) (omega arith) (on 2 (omega arith)),
        lane (offset + 1 + 1 + 1) 3 (omega arith) (omega arith) (on 3 (omega arith)),
      ))
