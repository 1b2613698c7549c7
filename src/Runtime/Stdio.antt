-- ===== src/Runtime/Stdio.antt =====
-- runtime/src/stdlib/stdio.c: putchar, puts, emit_dec_signed and printf. What a call sends through
-- uart_putc is a list of bytes. A string is the list of its characters before the 0.
pub mod Format
use dae_pipeline_cpu.Prelude.{
  ℕ, zero, suc, ◌-◌, ◌/◌, ◌%◌, ◌^◌, Bool, true, false, ltb, leb, ◌==◌, if◌then◌else◌, u8,
}
use dae_pipeline_cpu.Prelude.{Option, some, none, List, [], ◌∷◌, ◌++◌, map}
use dae_pipeline_cpu.Runtime.Digits.{digit_char, emit_dec, emit_hex}

-- What the caller passes in place of the dots: a word, or a pointer to a string, where none is NULL.
pub data Arg : Type 0 where
  word : ℕ → Arg
  pointer : Option (List ℕ) → Arg

-- `'\0'`, `'%'` and `'-'`, and `"(null)"`
abbrev pub percent : ℕ
percent = 0x25

abbrev pub minus : ℕ
minus = 0x2d

abbrev pub null_text : List ℕ
null_text = 0x28 ∷ 0x6e ∷ 0x75 ∷ 0x6c ∷ 0x6c ∷ 0x29 ∷ []

-- The bytes that are sent, and the value returned.
unfoldable pub putchar : ℕ → List ℕ × ℕ
putchar c = (u8 c ∷ [], c)

unfoldable pub puts : List ℕ → List ℕ × ℕ
puts s = (map u8 s ++ (0x0a ∷ []), 0)

-- `absv`; an `int` is its 32-bit pattern. A `long` has 32 bits too, so that `-(long)value` overflows
-- for INT_MIN, which C leaves undefined: none.
abbrev pub magnitude : ℕ → Option ℕ
magnitude value =
    if value == 2 ^ 31
    then none
    else if ltb value (2 ^ 31)
    then some value
    else some (2 ^ 32 - value)

abbrev pub sign : ℕ → List ℕ
sign value = if ltb value (2 ^ 31) then [] else minus ∷ []

-- The recursion has rounds, as in emit_dec.
pub emit_dec_signed : ℕ → ℕ → Option (List ℕ)
emit_dec_signed zero value = elim (magnitude value) [
  | none ↦ none
  | some absv ↦ some (sign value ++ (digit_char (absv % 10) ∷ []))
]
emit_dec_signed (suc n) value = elim (magnitude value) [
  | none ↦ none
  | some absv ↦ elim (leb 10 absv) [
    | false ↦ some (sign value ++ (digit_char (absv % 10) ∷ []))
    | true ↦ elim (emit_dec_signed n (absv / 10)) [
      | none ↦ none
      | some text ↦ some (sign value ++ (text ++ (digit_char (absv % 10) ∷ [])))
    ]
  ]
]

-- The cases of the switch: the bytes sent, and the arguments left. none is an argument that is
-- missing or of another type, or INT_MIN for `%d`, which C leaves undefined.
pub data Conversion : Type 0 where
  char_conv dec_conv unsigned_conv hex_conv string_conv percent_conv other_conv : Conversion

-- The labels of the switch.
abbrev pub conversion_at : ℕ → Conversion
conversion_at c =
    if c == 0x63
    then char_conv
    else if c == 0x64
    then dec_conv
    else if c == 0x75
    then unsigned_conv
    else if c == 0x78
    then hex_conv
    else if c == 0x73
    then string_conv
    else if c == percent
    then percent_conv
    else other_conv

abbrev pub string_text : Option (List ℕ) → List ℕ
string_text none = null_text
string_text (some s) = map u8 s

unfoldable pub convert : Conversion → ℕ → List Arg → Option (List ℕ × List Arg)
convert percent_conv c args = some (percent ∷ [], args)
convert other_conv c args = some (percent ∷ u8 c ∷ [], args)
convert char_conv c (word v ∷ args) = some (u8 v ∷ [], args)
convert dec_conv c (word v ∷ args) = elim (emit_dec_signed 9 v) [
  | none ↦ none
  | some text ↦ some (text, args)
]
convert unsigned_conv c (word v ∷ args) = some (emit_dec 9 v, args)
convert hex_conv c (word v ∷ args) = some (emit_hex 7 v, args)
convert string_conv c (pointer s ∷ args) = some (string_text s, args)
convert _ _ _ = none

-- What is sent before the rest.
abbrev pub prepend : List ℕ → Option (List ℕ) → Option (List ℕ)
prepend out none = none
prepend out (some rest) = some (out ++ rest)

-- The loop of printf: the bytes sent. A `%` before the 0 ends it.
unfoldable pub printf : List ℕ → List Arg → Option (List ℕ)
printf [] args = some []
printf (c ∷ []) args = if c == percent then some [] else some (u8 c ∷ [])
printf (c ∷ d ∷ fmt) args = elim (c == percent) [
  | false ↦ prepend (u8 c ∷ []) (printf (d ∷ fmt) args)
  | true ↦ elim (convert (conversion_at d) d args) [
    | none ↦ none
    | some r ↦ prepend r.0 (printf fmt r.1)
  ]
]
