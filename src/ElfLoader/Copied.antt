-- ===== src/ElfLoader/Copied.antt =====
-- Which bytes of a segment its writes store.
use dae_pipeline_cpu.Prelude.{ℕ, ◌+◌, ◌-◌, ◌*◌, ◌/◌, ◌%◌, ◌≤◌, ◌<◌, ◌≡◌, arith, inl, inr, ◌∙◌}
use dae_pipeline_cpu.Prelude.{
  Bool, true, false, ◌==◌, ◌&&◌, ◌||◌, ltb, leb, Bool-cases, if◌then◌else◌,
}
use dae_pipeline_cpu.Bytes.{Bytes}

-- The bytes of a segment that its writes store: those of its whole aligned words, and of the rest
-- those at a multiple of four.
abbrev pub lands : ℕ → ℕ → ℕ → Bool
lands addr len j =
    let word = (addr + j) / 4 * 4 in
    (addr + j) % 4 == 0 || (leb addr word && leb (word + 4) (addr + len))

module _ (addr len : ℕ) (dst : Bytes) where
  abbrev pub off : ℕ
  off = addr - 0x80000000

  -- Between two indices the bytes that land have been copied, and nothing else has changed.
  abbrev pub Copied : ℕ → ℕ → Bytes → Bytes → Type 0
  Copied i0 i1 b b' =
      (k : ℕ)
      → b' k ≡ (
          if leb (off + i0) k && ltb k (off + i1) && lands addr len (k - off)
          then dst (k - off)
          else b k)

  pub Copied-trans :
      (i0 i1 i2 : ℕ) (b b' b'' : Bytes)
      → i0 ≤ i1
      → i1 ≤ i2
      → Copied i0 i1 b b'
      → Copied i1 i2 b' b''
      → Copied i0 i2 b b''
  Copied-trans i0 i1 i2 b b' b'' h h' c c' k = ground (arith, c k, c' k)

  pub Copied-none : (i : ℕ) (b : Bytes) → Copied i i b b
  Copied-none i b k = ground arith

  module _ (low : 0x80000000 ≤ addr) where
    pub Copied-word :
        (b b' : Bytes) (i : ℕ)
        → i + 4 ≤ len
        → (addr + i) % 4 ≡ 0
        → ((k : ℕ)
            → b' k ≡ (
                if leb (addr + i - 0x80000000) k && ltb k (addr + i - 0x80000000 + 4)
                then dst (i + (k - (addr + i - 0x80000000)))
                else b k))
        → Copied i (i + 4) b b'
    Copied-word b b' i more aligned eq k =
        elim (Bool-cases (leb (off + i) k && ltb k (off + (i + 4)))) [
          | inl here ↦
              (let same : i + (k - (addr + i - 0x80000000)) ≡ k - off = ground arith in
                let in_word : lands addr len (k - off) ≡ true = ground arith in
                let range : (leb (addr + i - 0x80000000) k && ltb k (addr + i - 0x80000000 + 4))
                    ≡ true =
                  ground arith in
                eq k ∙ rw (range, here, in_word, same))
          | inr there ↦
              (let range : (leb (addr + i - 0x80000000) k && ltb k (addr + i - 0x80000000 + 4))
                    ≡ false =
                  ground arith in
                eq k ∙ rw (range, there))
        ]

    -- A byte at an edge of the segment, where no whole word lies around it.
    pub Copied-byte :
        (b b' : Bytes) (i : ℕ)
        → i < len
        → lands addr len i ≡ ((addr + i) % 4 == 0)
        → ((k : ℕ)
            → b' k ≡ (if k == addr + i - 0x80000000 && ((addr + i) % 4 == 0) then dst i else b k))
        → Copied i (i + 1) b b'
    Copied-byte b b' i more edge eq k = elim (Bool-cases (k == addr + i - 0x80000000)) [
      | inl here ↦
          (let at : k - off ≡ i = ground arith in
            let range : (leb (off + i) k && ltb k (off + (i + 1))) ≡ true = ground arith in
            eq k ∙ rw (here, range, at, edge))
      | inr there ↦
          (let range : (leb (off + i) k && ltb k (off + (i + 1))) ≡ false = ground arith in
            eq k ∙ rw (there, range))
    ]
