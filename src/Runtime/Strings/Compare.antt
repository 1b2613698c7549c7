-- ===== src/Runtime/Strings/Compare.antt =====
-- strlen and strcmp on C strings.
use native.Mathlib.Decide.{ℕ_discrete}
use dae_pipeline_cpu.Prelude.{
  ℕ, zero, suc, ◌+◌, ◌≤◌, ◌<◌, ◌≡◌, ◌≢◌, ap, sym, ◌∙◌, arith, ◌⊎◌, inl, inr,
}
use dae_pipeline_cpu.Prelude.{◌&&◌, not, ◌==◌, true, false}
use dae_pipeline_cpu.Bytes.{Bytes}
use dae_pipeline_cpu.Runtime.Strings.{strlen_from, strlen, strcmp, difference}
use dae_pipeline_cpu.Runtime.Strings.Copies.{IsString}

-- The string without its first character.
IsString-tail :
    (m : Bytes) (s len : ℕ) → IsString m s (suc len) → (m s ≢ 0) × IsString m (s + 1) len
IsString-tail m s len h = (
  λ e. let z : s + 0 ≡ s = omega arith in h.chars 0 (omega arith) (rw (z, e)),
  record {
    chars = λ j lt.
        let at : s + 1 + j ≡ s + suc j = omega arith in rw at (h.chars (suc j) (omega arith));
    ends = let at : s + 1 + len ≡ s + suc len = omega arith in rw at h.ends;
  },
)

at_end : (m : Bytes) (s : ℕ) → IsString m s 0 → (m s == 0) ≡ true
at_end m s h =
    let z : s + 0 ≡ s = omega arith in let e : m s ≡ 0 = ap m (sym z) ∙ h.ends in ground arith

strlen_from_lem :
    (n : ℕ) (m : Bytes) (s len : ℕ) → IsString m s len → len ≤ n → strlen_from n m s ≡ s + len
unfolding strlen_from
strlen_from_lem zero m s len h fuel = omega arith
strlen_from_lem (suc n) m s zero h fuel = rw (at_end m s h, strlen_from) (omega arith)
strlen_from_lem (suc n) m s (suc len) h fuel =
    let (more, rest) = IsString-tail m s len h in
    let go : (m s == 0) ≡ false = ground arith in
    rw (go, strlen_from) (rw (strlen_from_lem n m (s + 1) len rest (omega arith)) (omega arith))

-- strlen of a string gives its length, in as many rounds.
pub strlen_lem :
    (rounds : ℕ) (m : Bytes) (s len : ℕ) → IsString m s len → len ≤ rounds → strlen rounds m s ≡ len
unfolding strlen
strlen_lem rounds m s len h fuel = rw (strlen_from_lem rounds m s len h fuel) (omega arith)

-- Where two strings first differ, or both end.
pub record FirstDifference (m : Bytes) (a b p : ℕ) : Type 0 where
  pub same : (j : ℕ) → j < p → (m (a + j) ≡ m (b + j)) × (m (a + j) ≢ 0)
  pub here : (m (a + p) ≢ m (b + p)) ⊎ (m (a + p) ≡ 0)

first_at : (m : Bytes) (a b : ℕ) → (m a ≢ m b) ⊎ (m a ≡ 0) → FirstDifference m a b 0
first_at m a b d =
    let za : a + 0 ≡ a = omega arith in
    let zb : b + 0 ≡ b = omega arith in
    record { same = λ j lt. absurd (omega arith); here = rw (za, zb) d }

first_later :
    (m : Bytes) (a b p : ℕ)
    → m a ≡ m b
    → m a ≢ 0
    → FirstDifference m (a + 1) (b + 1) p
    → FirstDifference m a b (suc p)
first_later m a b p e n d = record {
  same = λ j lt. by_index j lt;
  here =
      let za : a + suc p ≡ a + 1 + p = omega arith in
      let zb : b + suc p ≡ b + 1 + p = omega arith in rw (za, zb) d.here;
}
  where
    by_index : (j : ℕ) → j < suc p → (m (a + j) ≡ m (b + j)) × (m (a + j) ≢ 0)
    by_index zero lt =
        let za : a + 0 ≡ a = omega arith in let zb : b + 0 ≡ b = omega arith in rw (za, zb) (e, n)
    by_index (suc j) lt =
        let za : a + suc j ≡ a + 1 + j = omega arith in
        let zb : b + suc j ≡ b + 1 + j = omega arith in rw (za, zb) (d.same j (omega arith))

here_difference :
    (m : Bytes) (a b : ℕ) → difference (m a) (m b) ≡ difference (m (a + 0)) (m (b + 0))
here_difference m a b =
    let za : a + 0 ≡ a = omega arith in let zb : b + 0 ≡ b = omega arith in rw (za, zb)

-- strcmp of two strings returns the difference of the bytes at the first place where they differ
-- or both end, which lies within the first string; the length of that is enough rounds.
strcmp_lem :
    (n : ℕ) (m : Bytes) (a b len : ℕ)
    → IsString m a len
    → len ≤ n
    → (p : ℕ) × (p ≤ len)
      × FirstDifference m a b p
      × (strcmp n m a b ≡ difference (m (a + p)) (m (b + p)))
unfolding strcmp
strcmp_lem zero m a b zero h fuel =
    let ends : m a ≡ 0 = ground (arith, at_end m a h) in
    (0, omega arith, first_at m a b (inr ends), here_difference m a b)
strcmp_lem zero m a b (suc len) h fuel = absurd (omega arith)
strcmp_lem (suc n) m a b zero h fuel =
    let ends : m a ≡ 0 = ground (arith, at_end m a h) in
    let stop : (not (m a == 0) && m a == m b) ≡ false = ground arith in
    (0, omega arith, first_at m a b (inr ends), rw (stop, strcmp) (here_difference m a b))
strcmp_lem (suc n) m a b (suc len) h fuel =
    let (more, rest) = IsString-tail m a len h in
    elim (ℕ_discrete (m a) (m b)) [
      | no ne ↦
          (let stop : (not (m a == 0) && m a == m b) ≡ false = ground arith in
            (0, omega arith, first_at m a b (inl ne), rw (stop, strcmp) (here_difference m a b)))
      | yes e ↦
          (let (p, bound, d, r) = strcmp_lem n m (a + 1) (b + 1) len rest (omega arith) in
            let go : (not (m a == 0) && m a == m b) ≡ true = ground arith in
            let za : a + suc p ≡ a + 1 + p = omega arith in
            let zb : b + suc p ≡ b + 1 + p = omega arith in
            (suc p, omega arith, first_later m a b p e more d, rw (go, strcmp) (rw (za, zb) r)))
    ]
