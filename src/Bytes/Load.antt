-- ===== src/Bytes/Load.antt =====
-- The load loop builds the little-endian value of the bytes.
use dae_pipeline_cpu.Prelude.{ℕ, zero, suc, ◌+◌, ◌*◌, ◌^◌, ◌<◌, ◌≡◌, ◌⊎◌, inl, inr, arith}
use dae_pipeline_cpu.Prelude.{bit_or, u32, ◌<<<◌}
use native.Mathlib.Nat.{mod-eq_of_lt}
use dae_pipeline_cpu.Prelude.{false, ◌↔◌}
use dae_pipeline_cpu.Bus.{bad_width}
use dae_pipeline_cpu.Bits.{bit_or_above, zero-bit_or}
use dae_pipeline_cpu.Bytes.{Bytes, IsBytes, load}

-- The number that `n` bytes from `a` on stand for, the lowest first.
abbrev pub le_value : ℕ → Bytes → ℕ → ℕ
le_value zero b a = 0
le_value (suc n) b a = b a + 256 * le_value n b (a + 1)

-- The widths of a bus access.
abbrev pub IsWidth : ℕ → Type 0
IsWidth w = (w ≡ 1) ⊎ (w ≡ 2) ⊎ (w ≡ 4)

pub bad_width_iff : (w : ℕ) → (bad_width w ≡ false) ↔ IsWidth w
bad_width_iff w = ground arith

-- One round: a byte that fits the word joins the lanes below it.
join : (k v x : ℕ) → v < 2 ^ k → x * 2 ^ k < 2 ^ 32 → bit_or v (u32 (x <<< k)) ≡ v + x * 2 ^ k
join k v x low fits = rw (mod-eq_of_lt fits) (bit_or_above k x v low)

module _ (b : Bytes) (a : ℕ) (h : IsBytes b) where
  at : ℕ → ℕ
  at i = b (a + i)

  load_one : load b a 1 ≡ at 0
  unfolding load at
  load_one = let h0 = h (a + 0) in rw (zero-bit_or) (omega arith)

  load_two : load b a 2 ≡ at 0 + at 1 * 256
  unfolding load at
  load_two =
      let h0 = h (a + 0) in
      let h1 = h (a + 1) in
      rw (zero-bit_or, join 8 (u32 (b (a + 0) <<< 0)) (b (a + 1)) (omega arith) (omega arith))
        (omega arith)

  load_four : load b a 4 ≡ at 0 + at 1 * 256 + at 2 * 65536 + at 3 * 16777216
  unfolding load at
  load_four =
      let h0 = h (a + 0) in
      let h1 = h (a + 1) in
      let h2 = h (a + 2) in
      let h3 = h (a + 3) in
      rw
        (
          zero-bit_or,
          join 8 (u32 (b (a + 0) <<< 0)) (b (a + 1)) (omega arith) (omega arith),
          join 16 (u32 (b (a + 0) <<< 0) + b (a + 1) * 2 ^ 8) (b (a + 2)) (omega arith)
              (omega arith),
          join 24 (u32 (b (a + 0) <<< 0) + b (a + 1) * 2 ^ 8 + b (a + 2) * 2 ^ 16) (b (a + 3))
              (omega arith) (omega arith),
        )
        (omega arith)

-- The load loop, at the widths of a bus access, gives the number that the bytes stand for.
pub load_lem : (b : Bytes) (a w : ℕ) → IsBytes b → IsWidth w → load b a w ≡ le_value w b a
load_lem b a w h (inl e) = rw (e, load_one b a h) (unfold at in ground arith)
load_lem b a w h (inr (inl e)) = rw (e, load_two b a h) (unfold at in ground arith)
load_lem b a w h (inr (inr e)) = rw (e, load_four b a h) (unfold at in ground arith)
