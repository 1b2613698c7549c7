-- ===== src/Runtime/Strings/Copies.antt =====
-- What memcpy, memset and strncpy leave in memory.
use native.Mathlib.Decide.{ℕ_discrete}
use dae_pipeline_cpu.Prelude.{
  ℕ, zero, suc, ◌+◌, ◌-◌, ◌%◌, ◌≤◌, ◌<◌, ◌≡◌, ◌≢◌, ◌∙◌, arith, ◌⊎◌, inl, inr,
}
use dae_pipeline_cpu.Prelude.{◌&&◌, ◌==◌, leb, ltb, if◌then◌else◌, Bool-cases, true, false}
use dae_pipeline_cpu.Bytes.{Bytes, update}
use dae_pipeline_cpu.Runtime.Strings.{copy_from, memcpy, fill_from, memset, strncpy_from, strncpy}

-- Two ranges do not meet.
abbrev pub Apart : ℕ → ℕ → ℕ → ℕ → Type 0
Apart a n b k = (a + n ≤ b) ⊎ (b + k ≤ a)

copy_from_lem :
    (n i : ℕ) (m : Bytes) (dst src : ℕ)
    → Apart (dst + i) n (src + i) n
    → (k : ℕ)
    → copy_from n i m dst src k
      ≡ (if leb (dst + i) k && ltb k (dst + i + n) then m (src + (k - dst)) else m k)
unfolding copy_from
copy_from_lem zero i m dst src apart k = ground arith
copy_from_lem (suc n) i m dst src apart k =
    copy_from_lem n (i + 1) (update m (dst + i) (m (src + i))) dst src (omega arith) k
    ∙ ground arith

-- memcpy between ranges that do not meet copies every byte, in place, and changes nothing else.
pub memcpy_lem :
    (m : Bytes) (dst src n : ℕ)
    → Apart dst n src n
    → (k : ℕ)
    → memcpy m dst src n k ≡ (if leb dst k && ltb k (dst + n) then m (src + (k - dst)) else m k)
unfolding memcpy
memcpy_lem m dst src n apart k = copy_from_lem n 0 m dst src (omega arith) k ∙ ground arith

fill_from_lem :
    (n i : ℕ) (m : Bytes) (dst v k : ℕ)
    → fill_from n i m dst v k ≡ (if leb (dst + i) k && ltb k (dst + i + n) then v else m k)
unfolding fill_from
fill_from_lem zero i m dst v k = ground arith
fill_from_lem (suc n) i m dst v k =
    fill_from_lem n (i + 1) (update m (dst + i) v) dst v k ∙ ground arith

-- memset stores the low byte of its argument in the whole range and changes nothing else.
pub memset_lem :
    (m : Bytes) (dst c n k : ℕ)
    → memset m dst c n k ≡ (if leb dst k && ltb k (dst + n) then c % 256 else m k)
unfolding memset
memset_lem m dst c n k = fill_from_lem n 0 m dst (c % 256) k ∙ ground arith

-- A C string: `len` bytes that are not 0, and then a 0.
pub record IsString (m : Bytes) (s len : ℕ) : Type 0 where
  pub chars : (j : ℕ) → j < len → m (s + j) ≢ 0
  pub ends : m (s + len) ≡ 0

-- A byte outside a string does not matter to it.
IsString-update :
    (m : Bytes) (s len a v : ℕ)
    → IsString m s len
    → (a < s) ⊎ (s + len < a)
    → IsString (update m a v) s len
IsString-update m s len a v h out = record {
  chars = λ j lt. let away : (a == s + j) ≡ false = ground arith in rw away (h.chars j lt);
  ends = let away : (a == s + len) ≡ false = ground arith in rw away h.ends;
}

not_last :
    (m : Bytes) (s len i : ℕ) → IsString m s len → i ≤ len → (m (s + i) == 0) ≡ false → i < len
not_last m s len i h bound more = elim (ℕ_discrete i len) [
  | no ne ↦ omega arith
  | yes e ↦ (let zero_here : (m (s + i) == 0) ≡ true = rw (e, h.ends) in absurd cc)
]

strncpy_from_lem :
    (n i : ℕ) (m : Bytes) (dst src len : ℕ)
    → IsString m src len
    → i ≤ len
    → Apart (dst + i) n src (len + 1)
    → (k : ℕ)
    → strncpy_from n i m dst src k ≡ (
        if leb (dst + i) k && ltb k (dst + i + n)
        then if ltb (k - dst) len then m (src + (k - dst)) else 0
        else m k)
unfolding strncpy_from
strncpy_from_lem zero i m dst src len h bound apart k = ground arith
strncpy_from_lem (suc n) i m dst src len h bound apart k = elim (Bool-cases (m (src + i) == 0)) [
  | inl stop ↦
      (let last : i ≡ len = ground (arith, h.chars i) in
        rw (stop, strncpy_from) (fill_from_lem (suc n) i m dst 0 k ∙ ground arith))
  | inr more ↦
      (let m' = update m (dst + i) (m (src + i)) in
        let h' = IsString-update m src len (dst + i) (m (src + i)) h (omega arith) in
        let inside : i < len = not_last m src len i h bound more in
        rw (more, strncpy_from)
          (strncpy_from_lem n (i + 1) m' dst src len h' (omega arith) (omega arith) k
            ∙ ground arith))
]

-- strncpy from a string that the destination does not meet fills all `n` bytes: those of the string
-- as far as it goes, and then 0. Where the string has `n` bytes or more, no 0 is stored.
pub strncpy_lem :
    (m : Bytes) (dst src n len : ℕ)
    → IsString m src len
    → Apart dst n src (len + 1)
    → (k : ℕ)
    → strncpy m dst src n k ≡ (
        if leb dst k && ltb k (dst + n)
        then if ltb (k - dst) len then m (src + (k - dst)) else 0
        else m k)
unfolding strncpy
strncpy_lem m dst src n len h apart k =
    strncpy_from_lem n 0 m dst src len h (omega arith) (omega arith) k ∙ ground arith
