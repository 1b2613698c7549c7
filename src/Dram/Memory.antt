-- ===== src/Dram/Memory.antt =====
-- DRAM as a memory of bytes: what a write changes, what a later read sees, and the bounds.
use native.Mathlib.Decide.{ℕ_discrete, dec_le}
use dae_pipeline_cpu.Prelude.{
  ℕ, ◌+◌, ◌-◌, ◌%◌, ◌^◌, ◌≤◌, ◌<◌, ◌≡◌, refl, ◌⊎◌, inl, inr, arith, ◌∙◌, ap, sym,
}
use dae_pipeline_cpu.Bus.{okay, slverr}
use dae_pipeline_cpu.Bytes.{Bytes, IsBytes, store}
use dae_pipeline_cpu.Bytes.Load.{IsWidth}
use dae_pipeline_cpu.Bytes.Store.{StrobeBit, byte_of, store_inside, store_masked, store_outside}
use dae_pipeline_cpu.Bytes.Store.{store-IsBytes, le_value_ext, le_value-store}
use dae_pipeline_cpu.Dram.{Dram, read, write}
use dae_pipeline_cpu.Dram.Access.{
  Accepts, AcceptsWrite, read_ok, read_refused, write_ok, write_refused,
}

pub width-dec : (w : ℕ) → Dec (IsWidth w)
width-dec w = elim (ℕ_discrete w 1) [
  | yes e ↦ yes (inl e)
  | no n ↦ elim (ℕ_discrete w 2) [
    | yes e ↦ yes (inr (inl e))
    | no n' ↦ elim (ℕ_discrete w 4) [ yes e ↦ yes (inr (inr e)) | no n'' ↦ no (λ h. ground arith) ]
  ]
]

pub accepts-dec : (d : Dram) (offset w : ℕ) → Dec (Accepts d offset w)
accepts-dec d offset w = elim (width-dec w) [
  | no n ↦ no (λ a. n a.lanes)
  | yes lanes ↦ elim (ℕ_discrete (offset % w) 0) [
    | no n ↦ no (λ a. n a.aligned)
    | yes aligned ↦ elim (dec_le (offset + w) d.size_bytes) [
      | no n ↦ no (λ a. n a.inside)
      | yes inside ↦ yes (record { lanes = lanes; aligned = aligned; inside = inside })
    ]
  ]
]

accepts_write-dec : (d : Dram) (offset w strb : ℕ) → Dec (AcceptsWrite d offset w strb)
accepts_write-dec d offset w strb = elim (accepts-dec d offset w) [
  | no n ↦ no (λ a. n a.access)
  | yes access ↦ elim (ℕ_discrete w 4) [
    | no n ↦ yes (record { access = access; strobes = λ e. absurd (n e) })
    | yes e ↦ elim (ℕ_discrete strb 0xf) [
      | yes full ↦ yes (record { access = access; strobes = λ _. full })
      | no n ↦ no (λ a. n (a.strobes e))
    ]
  ]
]

-- A read depends on the size and on the bytes of its own range.
read_ext :
    (d : Dram) (o v : ℕ) (other : Bytes)
    → IsBytes d.backing
    → IsBytes other
    → ((j : ℕ) → o ≤ j → j < o + v → other j ≡ d.backing j)
    → read (record d { backing = other }) o v ≡ read d o v
read_ext d o v other h h' same =
    let d' : Dram = record d { backing = other } in
    elim (accepts-dec d o v) [
      | yes a ↦
          (let a' : Accepts d' o v = record {
            lanes = a.lanes;
            aligned = a.aligned;
            inside = a.inside;
          } in
            read_ok d' o v h' a'
            ∙ ap (λ (x : ℕ). (okay, x)) (le_value_ext v o other d.backing same)
            ∙ sym (read_ok d o v h a))
      | no n ↦
          read_refused d' o v
            (λ a. n (record { lanes = a.lanes; aligned = a.aligned; inside = a.inside }))
          ∙ sym (read_refused d o v n)
    ]

-- What an answered write has done to the memory: each byte of the access whose strobe bit is set
-- holds its lane of the value, and every other byte what it held.
pub record Written (d d' : Dram) (offset w value strb : ℕ) : Type 0 where
  pub same_size : d'.size_bytes ≡ d.size_bytes
  pub same_model : d'.model ≡ d.model
  pub stored :
      (j : ℕ)
      → offset ≤ j
      → j < offset + w
      → StrobeBit strb (j - offset)
      → d'.backing j ≡ byte_of value (j - offset)
  pub masked :
      (j : ℕ)
      → offset ≤ j
      → j < offset + w
      → ¬ (StrobeBit strb (j - offset))
      → d'.backing j ≡ d.backing j
  pub outside : (j : ℕ) → (j < offset) ⊎ (offset + w ≤ j) → d'.backing j ≡ d.backing j

module _ (d : Dram) (offset w value strb : ℕ) where
  abbrev after : Dram
  after = record d { backing = store d.backing offset w value strb }

  width_small : IsWidth w → w ≤ 4
  width_small h = omega arith

  after-Written : IsWidth w → Written d after offset w value strb
  after-Written h = record {
    same_size = refl;
    same_model = refl;
    stored = λ j. store_inside d.backing offset w value strb j (width_small h);
    masked = λ j. store_masked d.backing offset w value strb j (width_small h);
    outside = λ j. store_outside d.backing offset w value strb j;
  }

  -- The two outcomes of a write.
  pub data Outcome : Type 0 where
    accepted :
        {d' : Dram}
        → AcceptsWrite d offset w strb
        → write d offset w value strb ≡ (okay, d')
        → Written d d' offset w value strb
        → Outcome
    refused : ¬ (AcceptsWrite d offset w strb) → write d offset w value strb ≡ (slverr, d) → Outcome

  -- Every write to DRAM is one of the two: accepted, storing exactly the strobed bytes of its range,
  -- or a subordinate error that changes nothing.
  write_outcome : Outcome
  write_outcome = elim (accepts_write-dec d offset w strb) [
    | yes a ↦ accepted a (write_ok d offset w value strb a) (after-Written a.access.lanes)
    | no n ↦ refused n (write_refused d offset w value strb n)
  ]

  pub write-IsBytes : IsBytes d.backing → IsBytes (write d offset w value strb).1.backing
  write-IsBytes h = elim (accepts_write-dec d offset w strb) [
    | yes a ↦ rw (write_ok d offset w value strb a) (store-IsBytes d.backing offset w value strb h)
    | no n ↦ rw (write_refused d offset w value strb n) h
  ]

  -- No write reaches a byte past the end of the allocation, whatever its arguments.
  pub write_in_bounds :
      (j : ℕ) → d.size_bytes ≤ j → (write d offset w value strb).1.backing j ≡ d.backing j
  write_in_bounds j past = elim (accepts_write-dec d offset w strb) [
    | yes a ↦
        rw (write_ok d offset w value strb a)
          (store_outside d.backing offset w value strb j (inr (omega arith)))
    | no n ↦ rw (write_refused d offset w value strb n)
  ]

  -- What an accepted write with the strobes of its width has stored is read back.
  pub read-write :
      IsBytes d.backing
      → AcceptsWrite d offset w strb
      → ((i : ℕ) → i < w → StrobeBit strb i)
      → read (write d offset w value strb).1 offset w ≡ (okay, value % 256 ^ w)
  read-write h a on = rw (write_ok d offset w value strb a) (
      read_ok after offset w (store-IsBytes d.backing offset w value strb h)
        (record { lanes = a.access.lanes; aligned = a.access.aligned; inside = a.access.inside })
      ∙ ap (λ (x : ℕ). (okay, x)) (le_value-store d.backing offset w value strb a.access.lanes on))

  -- A read of bytes that the write does not touch returns what it returned before.
  pub read-write_apart :
      (o v : ℕ)
      → IsBytes d.backing
      → (o + v ≤ offset) ⊎ (offset + w ≤ o)
      → read (write d offset w value strb).1 o v ≡ read d o v
  read-write_apart o v h apart = elim (accepts_write-dec d offset w strb) [
    | yes a ↦ rw (write_ok d offset w value strb a) (
        read_ext d o v (store d.backing offset w value strb) h
          (store-IsBytes d.backing offset w value strb h)
          (λ j p q. store_outside d.backing offset w value strb j (omega arith)))
    | no n ↦ rw (write_refused d offset w value strb n)
  ]

-- A read looks at no byte past the end of the allocation.
pub read_in_bounds :
    (d : Dram) (offset w : ℕ) (other : Bytes)
    → IsBytes d.backing
    → IsBytes other
    → ((j : ℕ) → j < d.size_bytes → other j ≡ d.backing j)
    → read (record d { backing = other }) offset w ≡ read d offset w
read_in_bounds d offset w other h h' same = elim (accepts-dec d offset w) [
  | yes a ↦ read_ext d offset w other h h' (λ j p q. same j (omega arith))
  | no n ↦
      read_refused (record d { backing = other }) offset w
        (λ a. n (record { lanes = a.lanes; aligned = a.aligned; inside = a.inside }))
      ∙ sym (read_refused d offset w n)
]
