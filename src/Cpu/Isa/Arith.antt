-- ===== src/Cpu/Isa/Arith.antt =====
-- The arithmetic of the code is that of the instruction set.
use native.Mathlib.Decide.{ℕ_discrete}
use native.Mathlib.Nat.{pow-suc, pow-le-pow_right, div-div-eq-div-mul}
use dae_pipeline_cpu.Prelude.{
  ℕ, zero, suc, ◌+◌, ◌-◌, ◌*◌, ◌/◌, ◌%◌, ◌^◌, ◌<◌, ◌≤◌, ◌≡◌, refl, arith, true, false, not, ◌==◌,
  ap, sym,
}
use dae_pipeline_cpu.Cpu.Word.{slice, signed_lt, shift_signed}
use dae_pipeline_cpu.Cpu.Types.{
  AluOp, alu_add, alu_sll, alu_slt, alu_sltu, alu_xor, alu_srl, alu_or, alu_and, alu_sub, alu_sra,
  BranchOp, br_jump, br_eq, br_ne, br_lt, br_ltu, br_ge, br_geu,
}
use dae_pipeline_cpu.Cpu.Alu.{alu, taken}
use dae_pipeline_cpu.Cpu.Isa.{less_signed, shift_arith, compute, holds}

signed_lem : (a b : ℕ) → a < 2 ^ 32 → b < 2 ^ 32 → signed_lt a b ≡ less_signed a b
signed_lem a b ha hb = ground arith

low_five : (b : ℕ) → slice b 4 0 ≡ b % 32
low_five b = omega arith

pub taken_lem : (c : BranchOp) (a b : ℕ) → a < 2 ^ 32 → b < 2 ^ 32 → taken c a b ≡ holds c a b
unfolding taken
taken_lem br_jump a b ha hb = refl
taken_lem br_eq a b ha hb = refl
taken_lem br_ne a b ha hb = refl
taken_lem br_lt a b ha hb = signed_lem a b ha hb
taken_lem br_ltu a b ha hb = refl
taken_lem br_ge a b ha hb = ap not (signed_lem a b ha hb)
taken_lem br_geu a b ha hb = refl

next_half : (a n : ℕ) → a / 2 ^ suc n ≡ a / 2 ^ n / 2
next_half a n = rw pow-suc (sym (div-div-eq-div-mul a (2 ^ n) 2))

-- How large the shifted word is, by the sign; `m` more shifts bring the sign to the lowest bit.
record Sized (a n m : ℕ) : Type 0 where
  below : a / 2 ^ n < 2 * 2 ^ m
  large : a / 2 ^ 31 ≡ 1 → 2 ^ m ≤ a / 2 ^ n
  small : a / 2 ^ 31 ≡ 0 → a / 2 ^ n < 2 ^ m

sized : (a n m : ℕ) → a < 2 ^ 32 → n + m ≡ 31 → Sized a n m
sized a zero m h e =
    let top : m ≡ 31 = omega arith in
    rw top record { below = omega arith; large = λ s. omega arith; small = λ s. omega arith }
sized a (suc n) m h e =
    let s = sized a n (suc m) h (omega arith) in
    let half = next_half a n in
    let twice = pow-suc 2 m in
    record {
      below = omega (arith, s.below);
      large = λ t. omega (arith, s.large t);
      small = λ t. omega (arith, s.small t);
    }

shift_lem : (a n m : ℕ) → a < 2 ^ 32 → n + m ≡ 31 → shift_signed a n ≡ shift_arith a n
shift_lem a zero m h e = ground arith
shift_lem a (suc n) m h e =
    let s = sized a n (suc m) h (omega arith) in
    let half = next_half a n in
    let twice = pow-suc 2 m in
    let rest = shift_lem a n (suc m) h (omega arith) in
    let left : 32 - n ≡ suc (suc m) = omega arith in
    let left' : 32 - suc n ≡ suc m = omega arith in
    let four = pow-suc 2 (suc m) in
    let fits : 2 ^ m ≤ 2 ^ 30 =
      pow-le-pow_right {n = 2} (omega arith) {i = m} {j = 30} (omega arith) in
    elim (ℕ_discrete (a / 2 ^ 31) 1) [
      | yes t ↦
          (let bit : (a / 2 ^ 31 % 2 == 1) ≡ true = ground arith in
            rw (← rest, bit, left, left', half, four, twice) (omega (arith, s.large t, s.below)))
      | no f ↦
          (let bit : (a / 2 ^ 31 % 2 == 1) ≡ false = ground arith in
            rw (← rest, bit, half) (omega (arith, s.small (omega arith), s.below)))
    ]

pub alu_lem : (o : AluOp) (a b : ℕ) → a < 2 ^ 32 → b < 2 ^ 32 → alu o a b ≡ compute o a b
unfolding alu
alu_lem alu_add a b ha hb = refl
alu_lem alu_sub a b ha hb = omega arith
alu_lem alu_sll a b ha hb = rw (low_five b) refl
alu_lem alu_slt a b ha hb = rw (signed_lem a b ha hb) refl
alu_lem alu_sltu a b ha hb = refl
alu_lem alu_xor a b ha hb = refl
alu_lem alu_srl a b ha hb = rw (low_five b) refl
alu_lem alu_sra a b ha hb = rw (low_five b) (shift_lem a (b % 32) (31 - b % 32) ha (omega arith))
alu_lem alu_or a b ha hb = refl
alu_lem alu_and a b ha hb = refl
