-- ===== src/Cpu/Word.antt =====
-- Slices, concatenations and signs of vectors of bits.
use dae_pipeline_cpu.Prelude.{
  ℕ, ◌+◌, ◌-◌, ◌*◌, ◌/◌, ◌%◌, ◌^◌, Bool, true, false, ◌==◌, ltb, if◌then◌else◌, u32,
}

-- `x[hi:lo]`
abbrev pub slice : ℕ → ℕ → ℕ → ℕ
slice x hi lo = x / 2 ^ lo % 2 ^ (hi + 1 - lo)

-- `x[i]`
abbrev pub bit_at : ℕ → ℕ → Bool
bit_at x i = x / 2 ^ i % 2 == 1

-- `{{w{s}}, x}` where x has k bits
abbrev pub extend : Bool → ℕ → ℕ → ℕ → ℕ
extend s w k x = if s then (2 ^ w - 1) * 2 ^ k + x else x

-- `a - b` and `~a` on 32 bits
abbrev pub sub32 : ℕ → ℕ → ℕ
sub32 a b = u32 (a + 2 ^ 32 - b)

abbrev pub not32 : ℕ → ℕ
not32 a = 2 ^ 32 - 1 - a

-- `$signed(a) < $signed(b)` on 32 bits
abbrev pub signed_lt : ℕ → ℕ → Bool
signed_lt a b =
    if bit_at a 31
    then (if bit_at b 31 then ltb a b else true)
    else (if bit_at b 31 then false else ltb a b)

-- `$signed(a) >>> n` on 32 bits: the sign fills what becomes free.
abbrev pub shift_signed : ℕ → ℕ → ℕ
shift_signed a n = if bit_at a 31 then a / 2 ^ n + (2 ^ 32 - 2 ^ (32 - n)) else a / 2 ^ n
