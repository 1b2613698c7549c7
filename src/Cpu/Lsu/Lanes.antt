-- ===== src/Cpu/Lsu/Lanes.antt =====
-- The lanes of a word: what a store puts on the bus, and what a load takes from it.
use dae_pipeline_cpu.Prelude.{
  ℕ, ◌+◌, ◌-◌, ◌*◌, ◌/◌, ◌%◌, ◌^◌, ◌<◌, ◌≡◌, refl, arith, Bool, false, ◌&&◌, ◌==◌, leb, ltb, ap,
  ◌∙◌, if◌then◌else◌, inl, inr,
}
use dae_pipeline_cpu.Bytes.{Bytes, IsBytes}
use dae_pipeline_cpu.Bytes.Load.{le_value, IsWidth}
use dae_pipeline_cpu.Cpu.Word.{extend, bit_at}
use dae_pipeline_cpu.Cpu.Types.{MemLen, mem_len_1, mem_len_2, mem_len_4}
use dae_pipeline_cpu.Cpu.Lsu.{byte_v, half_v, misaligned, load_data_filter}

abbrev pub bytes : MemLen → ℕ
bytes mem_len_1 = 1
bytes mem_len_2 = 2
bytes mem_len_4 = 4

pub bytes-IsWidth : (len : MemLen) → IsWidth (bytes len)
bytes-IsWidth mem_len_1 = inl refl
bytes-IsWidth mem_len_2 = inr (inl refl)
bytes-IsWidth mem_len_4 = inr (inr refl)

pub misaligned_lem : (addr : ℕ) (len : MemLen) → misaligned addr len ≡ false → addr % bytes len ≡ 0
unfolding misaligned
misaligned_lem addr mem_len_1 e = omega arith
misaligned_lem addr mem_len_2 e = ground arith
misaligned_lem addr mem_len_4 e = ground arith

-- A number of `n` bytes as one of 32 bits, with its sign where `signext`.
abbrev pub extended : MemLen → Bool → ℕ → ℕ
extended mem_len_4 signext x = x
extended len signext x =
    let size = 2 ^ (8 * bytes len) in if signext && leb (size / 2) x then x + (2 ^ 32 - size) else x

-- Four bytes as a word, for which `le_value` stands.
word_of :
    (b : Bytes) (a : ℕ)
    → le_value 4 b a ≡ b a + 256 * b (a + 1) + 65536 * b (a + 2) + 16777216 * b (a + 3)
word_of b a =
    let two : b (a + 1 + 1) ≡ b (a + 2) = ap b (omega arith) in
    let three : b (a + 1 + 1 + 1) ≡ b (a + 3) = ap b (omega arith) in omega arith

byte_at :
    (addr w0 w1 w2 w3 : ℕ)
    → w0 < 256
    → w1 < 256
    → w2 < 256
    → w3 < 256
    → byte_v addr (w0 + 256 * w1 + 65536 * w2 + 16777216 * w3) ≡ (
        let r = addr % 4 in if r == 0 then w0 else if r == 1 then w1 else if r == 2 then w2 else w3)
byte_at addr w0 w1 w2 w3 h0 h1 h2 h3 = ground arith

half_at :
    (addr w0 w1 w2 w3 : ℕ)
    → w0 < 256
    → w1 < 256
    → w2 < 256
    → w3 < 256
    → half_v addr (w0 + 256 * w1 + 65536 * w2 + 16777216 * w3)
      ≡ (if ltb (addr % 4) 2 then w0 + 256 * w1 else w2 + 256 * w3)
half_at addr w0 w1 w2 w3 h0 h1 h2 h3 = ground arith

extended_one :
    (signext : Bool) (x : ℕ)
    → x < 256
    → (if signext then extend (bit_at x 7) 24 8 x else x) ≡ extended mem_len_1 signext x
extended_one signext x h = ground arith

extended_two :
    (signext : Bool) (x : ℕ)
    → x < 65536
    → (if signext then extend (bit_at x 15) 16 16 x else x) ≡ extended mem_len_2 signext x
extended_two signext x h = ground arith

module _ (b : Bytes) (addr o : ℕ) (h : IsBytes b) (q : addr % 4 ≡ o % 4) where
  abbrev a : ℕ
  a = o - o % 4

  at : (k : ℕ) → o % 4 ≡ k → b (a + k) ≡ b o
  at k e = ap b (omega arith)

  base : o % 4 ≡ 0 → b a ≡ b o
  base e = ap b (omega arith)

  second : o % 4 ≡ 0 → b (a + 1) ≡ b (o + 1)
  second e = ap b (omega arith)

  fourth : o % 4 ≡ 2 → b (a + 3) ≡ b (o + 1)
  fourth e = ap b (omega arith)

  byte_lem : byte_v addr (le_value 4 b a) ≡ b o
  byte_lem =
      ap (byte_v addr) (word_of b a)
      ∙ byte_at addr (b a) (b (a + 1)) (b (a + 2)) (b (a + 3)) (h a) (h (a + 1)) (h (a + 2))
          (h (a + 3))
      ∙ ground (arith, base, at 1, at 2, at 3)

  half_lem : addr % 2 ≡ 0 → half_v addr (le_value 4 b a) ≡ le_value 2 b o
  half_lem e =
      ap (half_v addr) (word_of b a)
      ∙ half_at addr (b a) (b (a + 1)) (b (a + 2)) (b (a + 3)) (h a) (h (a + 1)) (h (a + 2))
          (h (a + 3))
      ∙ ground (arith, base, second, at 2, fourth)

-- The filter takes from the word that holds an aligned piece the number that its bytes stand for.
pub filter_lem :
    (b : Bytes) (addr o : ℕ) (len : MemLen) (signext : Bool)
    → IsBytes b
    → misaligned addr len ≡ false
    → addr % 4 ≡ o % 4
    → load_data_filter addr (le_value 4 b (o - o % 4)) len signext
      ≡ extended len signext (le_value (bytes len) b o)
unfolding load_data_filter
filter_lem b addr o mem_len_4 signext h e q =
    let m = misaligned_lem addr mem_len_4 e in
    let same : o - o % 4 ≡ o = omega arith in rw same refl
filter_lem b addr o mem_len_2 signext h e q =
    rw (half_lem b addr o h q (misaligned_lem addr mem_len_2 e))
      (extended_two signext (le_value 2 b o) (omega (arith, h o, h (o + 1))))
filter_lem b addr o mem_len_1 signext h e q =
    let one : b o ≡ le_value 1 b o = omega arith in
    rw (byte_lem b addr o h q) (rw (← one) (extended_one signext (b o) (h o)))
