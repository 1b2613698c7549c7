-- ===== src/Runtime/Stdio/Format.antt =====
-- printf on formats that are built from pieces.
use dae_pipeline_cpu.Prelude.{ℕ, ◌-◌, ◌^◌, ◌<◌, ◌≡◌, ◌≢◌, false, ltb, ◌==◌, if◌then◌else◌, u8}
use dae_pipeline_cpu.Prelude.{Option, List, [], ◌∷◌, ◌++◌}
use dae_pipeline_cpu.Runtime.Digits.{value_in, dec_digit, hex_digit}
use dae_pipeline_cpu.Runtime.Stdio.{
  Arg, word, pointer, percent, sign, other_conv, conversion_at, string_text,
}

-- The absolute value of an `int`, from its pattern.
abbrev pub absolute : ℕ → ℕ
absolute v = if ltb v (2 ^ 31) then v else 2 ^ 32 - v

-- What a format is written from, each piece with the argument that it takes.
pub data Piece : Type 0 where
  literal unknown : ℕ → Piece
  percent_sign : Piece
  char_of dec_of unsigned_of hex_of : ℕ → Piece
  string_of : Option (List ℕ) → Piece

-- Its characters in the format, before the rest, and its argument.
unfoldable pub spell : Piece → List ℕ → List ℕ
spell (literal c) rest = c ∷ rest
spell (unknown c) rest = percent ∷ c ∷ rest
spell percent_sign rest = percent ∷ percent ∷ rest
spell (char_of v) rest = percent ∷ 0x63 ∷ rest
spell (dec_of v) rest = percent ∷ 0x64 ∷ rest
spell (unsigned_of v) rest = percent ∷ 0x75 ∷ rest
spell (hex_of v) rest = percent ∷ 0x78 ∷ rest
spell (string_of s) rest = percent ∷ 0x73 ∷ rest

unfoldable pub pass : Piece → List Arg → List Arg
pass (literal c) args = args
pass (unknown c) args = args
pass percent_sign args = args
pass (char_of v) args = word v ∷ args
pass (dec_of v) args = word v ∷ args
pass (unsigned_of v) args = word v ∷ args
pass (hex_of v) args = word v ∷ args
pass (string_of s) args = pointer s ∷ args

abbrev pub format_of : List Piece → List ℕ → List ℕ
format_of [] end = end
format_of (p ∷ ps) end = spell p (format_of ps end)

abbrev pub args_of : List Piece → List Arg → List Arg
args_of [] rest = rest
args_of (p ∷ ps) rest = pass p (args_of ps rest)

-- A literal is not `%`, an unknown letter has no label, and a number has 32 bits and is not INT_MIN
-- where it is signed.
abbrev pub IsPiece : Piece → Type 0
IsPiece (literal c) = (c == percent) ≡ false
IsPiece (unknown c) = conversion_at c ≡ other_conv
IsPiece (dec_of v) = (v < 2 ^ 32) × (v ≢ 2 ^ 31)
IsPiece (unsigned_of v) = v < 2 ^ 32
IsPiece (hex_of v) = v < 2 ^ 32
IsPiece _ = Unit

-- What stands for a piece in the output: numbers are read back from their digits.
abbrev pub Shown : Piece → List ℕ → Type 0
Shown (literal c) t = t ≡ u8 c ∷ []
Shown (unknown c) t = t ≡ percent ∷ u8 c ∷ []
Shown percent_sign t = t ≡ percent ∷ []
Shown (char_of v) t = t ≡ u8 v ∷ []
Shown (dec_of v) t = (ds : List ℕ) × (t ≡ sign v ++ ds) × (value_in 10 dec_digit 0 ds ≡ absolute v)
Shown (unsigned_of v) t = value_in 10 dec_digit 0 t ≡ v
Shown (hex_of v) t = value_in 16 hex_digit 0 t ≡ v
Shown (string_of s) t = t ≡ string_text s

abbrev pub AllShown : List Piece → List ℕ → Type 0
AllShown [] out = out ≡ []
AllShown (p ∷ ps) out =
    (t : List ℕ) × (rest : List ℕ) × (out ≡ t ++ rest) × Shown p t × AllShown ps rest
