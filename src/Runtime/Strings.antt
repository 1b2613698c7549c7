-- ===== src/Runtime/Strings.antt =====
-- runtime/src/stdlib/string.c over one memory, so that source and destination may meet. Addresses
-- do not wrap; a loop over a string has rounds, and its theorem says how many are enough.
pub mod Copies
pub mod Compare
use dae_pipeline_cpu.Prelude.{
  ℕ, zero, suc, ◌+◌, ◌-◌, Bool, true, false, not, ◌&&◌, ◌==◌, leb, if◌then◌else◌, u8,
}
use dae_pipeline_cpu.Bytes.{Bytes, update}

-- the loop of memcpy from index `i` on
pub copy_from : ℕ → ℕ → Bytes → ℕ → ℕ → Bytes
copy_from zero i m dst src = m
copy_from (suc n) i m dst src = copy_from n (i + 1) (update m (dst + i) (m (src + i))) dst src

-- the memory after memcpy, which returns `dst`
pub memcpy : Bytes → ℕ → ℕ → ℕ → Bytes
memcpy m dst src n = copy_from n 0 m dst src

-- the loop of memset, and the second loop of strncpy
pub fill_from : ℕ → ℕ → Bytes → ℕ → ℕ → Bytes
fill_from zero i m dst v = m
fill_from (suc n) i m dst v = fill_from n (i + 1) (update m (dst + i) v) dst v

pub memset : Bytes → ℕ → ℕ → ℕ → Bytes
memset m dst c n = fill_from n 0 m dst (u8 c)

pub strlen_from : ℕ → Bytes → ℕ → ℕ
strlen_from zero m p = p
strlen_from (suc n) m p = elim (m p == 0) [ true ↦ p | false ↦ strlen_from n m (p + 1) ]

-- `p - s` after the loop
pub strlen : ℕ → Bytes → ℕ → ℕ
strlen rounds m s = strlen_from rounds m s - s

-- The int that is the difference of two bytes.
pub data ℤ : Type 0 where
  pos : ℕ → ℤ
  negsuc : ℕ → ℤ

abbrev pub difference : ℕ → ℕ → ℤ
difference a b = if leb b a then pos (a - b) else negsuc (b - a - 1)

pub strcmp : ℕ → Bytes → ℕ → ℕ → ℤ
strcmp zero m a b = difference (m a) (m b)
strcmp (suc n) m a b = elim (not (m a == 0) && m a == m b) [
  | true ↦ strcmp n m (a + 1) (b + 1)
  | false ↦ difference (m a) (m b)
]

-- The first loop of strncpy, by the rounds that `n` still allows, and the second.
pub strncpy_from : ℕ → ℕ → Bytes → ℕ → ℕ → Bytes
strncpy_from zero i m dst src = m
strncpy_from (suc n) i m dst src = elim (m (src + i) == 0) [
  | true ↦ fill_from (suc n) i m dst 0
  | false ↦ strncpy_from n (i + 1) (update m (dst + i) (m (src + i))) dst src
]

pub strncpy : Bytes → ℕ → ℕ → ℕ → Bytes
strncpy m dst src n = strncpy_from n 0 m dst src
