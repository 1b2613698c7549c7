-- ===== src/Bits/Subset.antt =====
-- A mask test as a statement about single bits.
use dae_pipeline_cpu.Prelude.{ℕ, zero, suc, ◌/◌, ◌%◌, ◌^◌, ◌<◌, ◌≡◌, ◌↔◌, arith, bit_and, min}
use dae_pipeline_cpu.Bits.{bit_and-zero}
use dae_pipeline_cpu.Bits.Digits.{bit_and_digit}
use native.Mathlib.Nat.{pow-suc}

-- Bit `i` of a number.
abbrev pub bit : ℕ → ℕ → ℕ
bit zero n = n % 2
bit (suc i) n = bit i (n / 2)

-- Every bit of the second is set in the first.
abbrev pub Includes : ℕ → ℕ → Type 0
Includes a b = (i : ℕ) → bit i b ≡ 1 → bit i a ≡ 1

halves :
    (a b : ℕ) → bit_and a b ≡ b → (bit_and (a / 2) (b / 2) ≡ b / 2) × (min (a % 2) (b % 2) ≡ b % 2)
halves a b e = ground (arith, bit_and_digit a b)

halve : (n b : ℕ) → b < 2 ^ suc n → b / 2 < 2 ^ n
halve n b small = omega (arith, pow-suc 2 n)

Includes-of : (a b : ℕ) → bit_and a b ≡ b → Includes a b
Includes-of a b e zero one = let (high, low) = halves a b e in ground arith
Includes-of a b e (suc i) one = Includes-of (a / 2) (b / 2) (halves a b e).0 i one

of_Includes : (n a b : ℕ) → b < 2 ^ n → Includes a b → bit_and a b ≡ b
of_Includes zero a b small h = let none_set : b ≡ 0 = omega arith in rw none_set (bit_and-zero a)
of_Includes (suc n) a b small h = ground (
  arith,
  bit_and_digit a b,
  h 0,
  of_Includes n (a / 2) (b / 2) (halve n b small) (λ i. h (suc i)),
)

pub bit_and-eq_iff : (n a b : ℕ) → b < 2 ^ n → (bit_and a b ≡ b) ↔ Includes a b
bit_and-eq_iff n a b small = (Includes-of a b, of_Includes n a b small)
