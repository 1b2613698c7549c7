-- ===== src/Runtime/Digits.antt =====
-- runtime/src/stdlib/stdio.c: the characters that printf sends for a number. The recursion has
-- rounds; ten are enough for a 32-bit number in decimal, and eight in hexadecimal.
use native.Mathlib.Nat.{pow-suc}
use dae_pipeline_cpu.Prelude.{
  ℕ, zero, suc, ◌+◌, ◌-◌, ◌*◌, ◌/◌, ◌%◌, ◌^◌, ◌<◌, ◌≡◌, refl, ◌∙◌, arith,
}
use dae_pipeline_cpu.Prelude.{bit_and, ltb, leb, if◌then◌else◌, Bool-cases, inl, inr}
use dae_pipeline_cpu.Prelude.{List, [], ◌∷◌, ◌++◌}
use dae_pipeline_cpu.Bits.{bit_and_mask}

-- `(char)('0' + (absv % 10u))`
abbrev pub digit_char : ℕ → ℕ
digit_char d = 0x30 + d

abbrev pub nibble_char : ℕ → ℕ
nibble_char n = if ltb n 10 then 0x30 + n else 0x61 + (n - 10)

-- emit_dec_unsigned; emit_dec_signed does the same with a value that is not negative.
unfoldable pub emit_dec : ℕ → ℕ → List ℕ
emit_dec zero value = digit_char (value % 10) ∷ []
emit_dec (suc n) value =
    (if leb 10 value then emit_dec n (value / 10) else []) ++ (digit_char (value % 10) ∷ [])

-- emit_hex_lower
pub emit_hex : ℕ → ℕ → List ℕ
emit_hex zero value = nibble_char (bit_and value 0xf) ∷ []
emit_hex (suc n) value =
    (if leb 16 value then emit_hex n (value / 2 ^ 4) else [])
    ++ (nibble_char (bit_and value 0xf) ∷ [])

-- Reading digits back, most significant first.
abbrev pub value_in : ℕ → (ℕ → ℕ) → ℕ → List ℕ → ℕ
value_in base digit acc [] = acc
value_in base digit acc (c ∷ cs) = value_in base digit (acc * base + digit c) cs

abbrev pub dec_digit : ℕ → ℕ
dec_digit c = c - 0x30

abbrev pub hex_digit : ℕ → ℕ
hex_digit c = if ltb c 0x61 then c - 0x30 else c - 0x61 + 10

value_in-snoc :
    (base : ℕ) (digit : ℕ → ℕ) (acc c : ℕ) (cs : List ℕ)
    → value_in base digit acc (cs ++ (c ∷ [])) ≡ value_in base digit acc cs * base + digit c
value_in-snoc base digit acc c [] = refl
value_in-snoc base digit acc c (d ∷ cs) = value_in-snoc base digit (acc * base + digit d) c cs

-- One digit more.
longer : (base n value : ℕ) → value < base ^ (suc n + 1) → value < base ^ (n + 1) * base
longer base n value small =
    let next : suc n + 1 ≡ suc (n + 1) = omega arith in
    rw (← pow-suc base (n + 1)) (rw (← next) small)

nibble : (value : ℕ) → hex_digit (nibble_char (bit_and value 0xf)) ≡ value % 16
nibble value = rw (bit_and_mask 4 value) (ground arith)

pub emit_dec_lem :
    (n value : ℕ) → value < 10 ^ (n + 1) → value_in 10 dec_digit 0 (emit_dec n value) ≡ value
unfolding emit_dec
emit_dec_lem zero value small = omega arith
emit_dec_lem (suc n) value small = elim (Bool-cases (leb 10 value)) [
  | inl more ↦
      rw (more, emit_dec)
        (value_in-snoc 10 dec_digit 0 (digit_char (value % 10)) (emit_dec n (value / 10))
          ∙ rw (emit_dec_lem n (value / 10) (omega (arith, longer 10 n value small))) (omega arith))
  | inr one ↦ rw (one, emit_dec) (ground arith)
]

pub emit_hex_lem :
    (n value : ℕ) → value < 16 ^ (n + 1) → value_in 16 hex_digit 0 (emit_hex n value) ≡ value
unfolding emit_hex
emit_hex_lem zero value small = rw (nibble value) (omega arith)
emit_hex_lem (suc n) value small = elim (Bool-cases (leb 16 value)) [
  | inl more ↦
      rw (more, emit_hex)
        (value_in-snoc 16 hex_digit 0 (nibble_char (bit_and value 0xf)) (emit_hex n (value / 2 ^ 4))
          ∙ rw (emit_hex_lem n (value / 16) (omega (arith, longer 16 n value small)), nibble value)
              (omega arith))
  | inr one ↦ rw (one, emit_hex) (rw (nibble value) (ground arith))
]
