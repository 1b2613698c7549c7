-- ===== src/Bits.antt =====
-- `|` and `&` of C with shifted fields and masks, as arithmetic, at every width.
pub mod Digits
pub mod Subset
use Digits.{bit_or_digit, bit_and_digit}
use Prim.Native.Nat.{bit_or-bitwise}
use native.Mathlib.Nat.{pow-suc, pow-succ', one-le-pow}
use native.Mathlib.Nat.{div-div-eq-div-mul, mod-eq-sub-div-mul, div-mul-le_self}
use dae_pipeline_cpu.Prelude.{ℕ, zero, suc, ◌+◌, ◌-◌, ◌*◌, ◌/◌, ◌%◌, ◌^◌, ◌≤◌, ◌<◌, min, max}
use dae_pipeline_cpu.Prelude.{bit_and, bit_or, ◌≡◌, refl, sym, ap, ◌∙◌, arith, ◌<<<◌, ◌>>>◌}

scale : (q k : ℕ) → q * 2 ^ suc k ≡ 2 * (q * 2 ^ k)
scale q k = omega (arith, ap (λ (t : ℕ). q * t) (pow-suc 2 k))

halve : (a k : ℕ) → a / 2 ^ suc k ≡ a / 2 / 2 ^ k
halve a k = rw pow-succ' (sym (div-div-eq-div-mul a 2 (2 ^ k)))

halve_mod : (a k : ℕ) → a % 2 ^ suc k ≡ a / 2 % 2 ^ k * 2 + a % 2
halve_mod a k = omega (
  arith,
  mod-eq-sub-div-mul a (2 ^ suc k),
  mod-eq-sub-div-mul (a / 2) (2 ^ k),
  div-mul-le_self (a / 2) (2 ^ k),
  scale (a / 2 / 2 ^ k) k,
  ap (λ (t : ℕ). t * 2 ^ suc k) (halve a k),
)

bit_or-zero_bounded : (n a : ℕ) → a ≤ n → bit_or a 0 ≡ a
bit_or-zero_bounded n zero h = refl
bit_or-zero_bounded zero (suc a) h = absurd (omega arith)
bit_or-zero_bounded (suc n) (suc a) h =
    omega (arith, bit_or_digit (suc a) 0, bit_or-zero_bounded n (suc a / 2) (omega arith))

bit_and-zero_bounded : (n a : ℕ) → a ≤ n → bit_and a 0 ≡ 0
bit_and-zero_bounded n zero h = refl
bit_and-zero_bounded zero (suc a) h = absurd (omega arith)
bit_and-zero_bounded (suc n) (suc a) h =
    omega (arith, bit_and_digit (suc a) 0, bit_and-zero_bounded n (suc a / 2) (omega arith))

pub bit_or-zero : (a : ℕ) → bit_or a 0 ≡ a
bit_or-zero a = bit_or-zero_bounded a a (omega arith)

pub bit_and-zero : (a : ℕ) → bit_and a 0 ≡ 0
bit_and-zero a = bit_and-zero_bounded a a (omega arith)

pub zero-bit_or : (b : ℕ) → bit_or 0 b ≡ b
zero-bit_or b = bit_or-bitwise 0 b

-- A field shifted past the bits in use is added.
pub bit_or_above : (k x v : ℕ) → v < 2 ^ k → bit_or v (x <<< k) ≡ v + x * 2 ^ k
bit_or_above zero x v h = ground (arith, zero-bit_or (x * 1))
bit_or_above (suc k) x v h = ground (
  arith,
  bit_or_digit v (x * 2 ^ suc k),
  scale x k,
  pow-suc 2 k,
  bit_or_above k x (v / 2) (omega (arith, pow-suc 2 k)),
)

-- The same with the operands exchanged.
pub bit_or_below : (k x v : ℕ) → v < 2 ^ k → bit_or (x <<< k) v ≡ x * 2 ^ k + v
bit_or_below zero x v h = ground (arith, bit_or-zero (x * 1))
bit_or_below (suc k) x v h = ground (
  arith,
  bit_or_digit (x * 2 ^ suc k) v,
  scale x k,
  pow-suc 2 k,
  bit_or_below k x (v / 2) (omega (arith, pow-suc 2 k)),
)

-- A mask whose low `k` bits are 0 keeps what lies above them.
pub bit_and_above : (k a m : ℕ) → bit_and a (m <<< k) ≡ bit_and (a >>> k) m * 2 ^ k
bit_and_above zero a m = ground arith
bit_and_above (suc k) a m = ground (
  arith,
  bit_and_digit a (m * 2 ^ suc k),
  scale m k,
  scale (bit_and (a / 2 ^ suc k) m) k,
  halve a k,
  bit_and_above k (a / 2) m,
)

-- A mask of `k` low bits is the remainder by `2 ^ k`.
pub bit_and_mask : (k a : ℕ) → bit_and a (2 ^ k - 1) ≡ a % 2 ^ k
bit_and_mask zero a = ground (arith, bit_and-zero a)
bit_and_mask (suc k) a = ground (
  arith,
  bit_and_digit a (2 ^ suc k - 1),
  pow-suc 2 k,
  one-le-pow k 2,
  halve_mod a k,
  bit_and_mask k (a / 2),
)
