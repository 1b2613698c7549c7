-- ===== src/Dram/Access.antt =====
-- The accesses that DRAM answers and refuses, and what each leaves behind.
use dae_pipeline_cpu.Prelude.{ℕ, ◌+◌, ◌%◌, ◌≤◌, ◌≡◌, inl, inr, arith, ◌↔◌}
use dae_pipeline_cpu.Prelude.{false, not, ◌&&◌, ◌==◌, ltb, Bool-cases}
use dae_pipeline_cpu.Bits.{bit_and_mask}
use dae_pipeline_cpu.Bus.{okay, slverr, bad_width}
use dae_pipeline_cpu.Bytes.{IsBytes, store}
use dae_pipeline_cpu.Bytes.Load.{le_value, IsWidth, load_lem, bad_width_iff}
use dae_pipeline_cpu.Dram.{Dram, read, write, misaligned}

-- What the two directions ask of an access: the width, natural alignment, the bounds.
pub record Accepts (d : Dram) (offset width : ℕ) : Type 0 where
  pub lanes : IsWidth width
  pub aligned : offset % width ≡ 0
  pub inside : offset + width ≤ d.size_bytes

-- A write also has all strobes set where it is a whole word.
pub record AcceptsWrite (d : Dram) (offset width strb : ℕ) : Type 0 where
  pub access : Accepts d offset width
  pub strobes : width ≡ 4 → strb ≡ 0xf

misaligned_iff :
    (offset width : ℕ) → IsWidth width → (misaligned offset width ≡ false) ↔ (offset % width ≡ 0)
misaligned_iff offset width (inl e) = rw e (ground (arith, bit_and_mask 0 offset))
misaligned_iff offset width (inr (inl e)) = rw e (ground (arith, bit_and_mask 1 offset))
misaligned_iff offset width (inr (inr e)) = rw e (ground (arith, bit_and_mask 2 offset))

-- A read of an accepted access gives the little-endian value of its bytes.
pub read_ok :
    (d : Dram) (offset width : ℕ)
    → IsBytes d.backing
    → Accepts d offset width
    → read d offset width ≡ (okay, le_value width d.backing offset)
unfolding read
read_ok d offset width h a =
    let good = (bad_width_iff width).1 a.lanes in
    let even = (misaligned_iff offset width a.lanes).1 a.aligned in
    let within : ltb d.size_bytes (offset + width) ≡ false = ground arith in
    rw (good, even, within, load_lem d.backing offset width h a.lanes)

pub read_refused :
    (d : Dram) (offset width : ℕ) → ¬ (Accepts d offset width) → read d offset width ≡ (slverr, 0)
unfolding read
read_refused d offset width n = elim (Bool-cases (bad_width width)) [
  | inl bad ↦ rw bad
  | inr good ↦
      (let w = (bad_width_iff width).0 good in
        elim (Bool-cases (misaligned offset width)) [
          | inl odd ↦ rw (good, odd)
          | inr even ↦ elim (Bool-cases (ltb d.size_bytes (offset + width))) [
            | inl beyond ↦ rw (good, even, beyond)
            | inr within ↦ absurd (
                n (record {
                  lanes = w;
                  aligned = (misaligned_iff offset width w).0 even;
                  inside = ground arith;
                }))
          ]
        ])
]

pub write_ok :
    (d : Dram) (offset width value strb : ℕ)
    → AcceptsWrite d offset width strb
    → write d offset width value strb
      ≡ (okay, record d { backing = store d.backing offset width value strb })
unfolding write
write_ok d offset width value strb a =
    let good = (bad_width_iff width).1 a.access.lanes in
    let full : (width == 4 && not (strb == 0xf)) ≡ false = ground (arith, a.strobes) in
    let even = (misaligned_iff offset width a.access.lanes).1 a.access.aligned in
    let within : ltb d.size_bytes (offset + width) ≡ false = ground arith in
    rw (good, full, even, within)

pub write_refused :
    (d : Dram) (offset width value strb : ℕ)
    → ¬ (AcceptsWrite d offset width strb)
    → write d offset width value strb ≡ (slverr, d)
unfolding write
write_refused d offset width value strb n = elim (Bool-cases (bad_width width)) [
  | inl bad ↦ rw bad
  | inr good ↦ elim (Bool-cases (width == 4 && not (strb == 0xf))) [
    | inl partial ↦ rw (good, partial)
    | inr full ↦
        (let w = (bad_width_iff width).0 good in
          elim (Bool-cases (misaligned offset width)) [
            | inl odd ↦ rw (good, full, odd)
            | inr even ↦ elim (Bool-cases (ltb d.size_bytes (offset + width))) [
              | inl beyond ↦ rw (good, full, even, beyond)
              | inr within ↦ absurd (
                  n (record {
                    access = record {
                      lanes = w;
                      aligned = (misaligned_iff offset width w).0 even;
                      inside = ground arith;
                    };
                    strobes = λ e. ground arith;
                  }))
            ]
          ])
  ]
]
