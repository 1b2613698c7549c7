-- ===== src/Clint/Halves.antt =====
-- The masks and shifts on the halves of a 64-bit counter, as arithmetic.
use dae_pipeline_cpu.Prelude.{ℕ, ◌+◌, ◌*◌, ◌/◌, ◌%◌, ◌^◌, ◌<◌, ◌≡◌, arith, bit_and, u64, ◌<<<◌}
use dae_pipeline_cpu.Bits.{bit_and_mask, bit_and_above, bit_or_below, bit_or_above}
use dae_pipeline_cpu.Clint.{low_half, high_half, with_low, with_high}

high_part : (t : ℕ) → t < 2 ^ 64 → bit_and t 0xffffffff00000000 ≡ t / 2 ^ 32 * 2 ^ 32
high_part t h = omega (arith, bit_and_above 32 t 0xffffffff, bit_and_mask 32 (t / 2 ^ 32))

pub low_half_lem : (t : ℕ) → low_half t ≡ t % 2 ^ 32
low_half_lem t = omega (arith, bit_and_mask 32 t)

pub high_half_lem : (t : ℕ) → t < 2 ^ 64 → high_half t ≡ t / 2 ^ 32
high_half_lem t h = omega arith

pub with_low_lem : (t v : ℕ) → t < 2 ^ 64 → v < 2 ^ 32 → with_low t v ≡ t / 2 ^ 32 * 2 ^ 32 + v
with_low_lem t v ht hv = rw (high_part t ht) (bit_or_below 32 (t / 2 ^ 32) v hv)

pub with_high_lem : (t v : ℕ) → v < 2 ^ 32 → with_high t v ≡ v * 2 ^ 32 + t % 2 ^ 32
with_high_lem t v hv =
    let fits : u64 (v <<< 32) ≡ v <<< 32 = omega arith in
    rw (bit_and_mask 32 t, fits) (omega (arith, bit_or_above 32 v (t % 2 ^ 32) (omega arith)))
