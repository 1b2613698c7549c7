-- ===== src/Runtime/Heap/Blocks.antt =====
-- The blocks that malloc hands out.
use dae_pipeline_cpu.Prelude.{ℕ, ◌+◌, ◌-◌, ◌*◌, ◌/◌, ◌%◌, ◌^◌, ◌≤◌, ◌<◌, ◌≡◌, arith, ◌⊎◌, inl, inr}
use dae_pipeline_cpu.Prelude.{◌==◌, if◌then◌else◌, u32, List, [], ◌∷◌, All, none, some}
use dae_pipeline_cpu.Bits.{bit_and_mask, bit_and_above}
use dae_pipeline_cpu.Runtime.Heap.{Heap, aligned, heap_init_if_needed, malloc}

-- The size is rounded up to a multiple of four.
aligned_lem : (size : ℕ) → aligned size ≡ u32 (size + 3) / 4 * 4
aligned_lem size =
    ground
      (arith, bit_and_above 2 (u32 (size + 3)) (2 ^ 30 - 1), bit_and_mask 30 (u32 (size + 3) / 4))

module _ (sheap eheap : ℕ) where
  -- A heap between its ends, which are words of a 31-bit address space, the first above 0.
  pub record IsValid (h : Heap) : Type 0 where
    pub first : 0 < sheap
    pub whole : sheap % 4 ≡ 0
    pub last : eheap < 2 ^ 32
    pub pointer :
        (h.heap_ptr ≡ 0) ⊎ (sheap ≤ h.heap_ptr) × (h.heap_ptr ≤ eheap) × (h.heap_ptr % 4 ≡ 0)
    pub room : sheap ≤ eheap

  -- Where the next block starts.
  abbrev pub next : Heap → ℕ
  next h = if h.heap_ptr == 0 then sheap else h.heap_ptr

  -- A request gives a block at the next place, aligned, inside the heap and as large as asked,
  -- after which the next place is the block's rounded end, or NULL where that would pass the heap's
  -- end.
  pub malloc_lem :
      (h : Heap) (size : ℕ)
      → IsValid h
      → size + eheap < 2 ^ 32 - 4
      → let (p, h') = malloc sheap eheap h size in
        let top = next h + (size + 3) / 4 * 4 in
        IsValid h'
        × ((p ≡ some (next h))
              × (next h % 4 ≡ 0)
              × (sheap ≤ next h)
              × (top ≤ eheap)
              × (next h' ≡ top)
            ⊎ (p ≡ none) × (eheap < top) × (next h' ≡ next h))
  unfolding malloc heap_init_if_needed
  malloc_lem h size v small =
      let e : aligned size ≡ (size + 3) / 4 * 4 = ground (arith, aligned_lem size) in
      let p : (0 < next h) × (sheap ≤ next h) × (next h ≤ eheap) × (next h % 4 ≡ 0) =
        ground arith in
      rw e (ground arith)

  -- The heap after a list of requests, and the blocks that they were given.
  pub after : Heap → List ℕ → Heap
  after h [] = h
  after h (size ∷ sizes) = after (malloc sheap eheap h size).1 sizes

  pub blocks : Heap → List ℕ → List (ℕ × ℕ)
  blocks h [] = []
  blocks h (size ∷ sizes) =
      let rest = blocks (malloc sheap eheap h size).1 sizes in
      elim (malloc sheap eheap h size).0 [ none ↦ rest | some p ↦ (p, size) ∷ rest ]

  -- A block is aligned, lies in the heap, and starts at or after a place.
  pub record IsBlock (from : ℕ) (b : ℕ × ℕ) : Type 0 where
    pub at : b.0 % 4 ≡ 0
    pub low : from ≤ b.0
    pub high : b.0 + b.1 ≤ eheap

  abbrev pub AllApart : List (ℕ × ℕ) → Type 0
  AllApart [] = Unit
  AllApart (b ∷ bs) = All (λ c. b.0 + b.1 ≤ c.0) bs × AllApart bs

  IsBlock-later :
      (from top : ℕ) (bs : List (ℕ × ℕ)) → from ≤ top → All (IsBlock top) bs → All (IsBlock from) bs
  IsBlock-later from top [] le h = tt
  IsBlock-later from top (b ∷ bs) le h = (omega (arith, h.0), IsBlock-later from top bs le h.1)

  after_block :
      (b : ℕ × ℕ) (top : ℕ) (bs : List (ℕ × ℕ))
      → b.0 + b.1 ≤ top
      → All (IsBlock top) bs
      → All (λ c. b.0 + b.1 ≤ c.0) bs
  after_block b top [] le h = tt
  after_block b top (c ∷ cs) le h = (omega (arith, h.0), after_block b top cs le h.1)

  -- Over any requests without a release between them, the blocks are aligned, lie in the heap, and
  -- do not overlap.
  pub blocks_lem :
      (sizes : List ℕ) (h : Heap)
      → IsValid h
      → All (λ size. size + eheap < 2 ^ 32 - 4) sizes
      → All (IsBlock (next h)) (blocks h sizes) × AllApart (blocks h sizes)
  unfolding blocks
  blocks_lem [] h v small = (tt, tt)
  blocks_lem (size ∷ sizes) h v small =
      let (v', outcome) = malloc_lem h size v small.0 in
      let (ih, apart) = blocks_lem sizes (malloc sheap eheap h size).1 v' small.1 in
      elim outcome [
        | inl (e, at, low, top, moved) ↦
            (let bs = blocks (malloc sheap eheap h size).1 sizes in
              let up : next h + size ≤ next (malloc sheap eheap h size).1 = omega arith in
              rw (e, blocks)
                (
                  (
                    record { at = at; low = omega arith; high = omega arith },
                    IsBlock-later (next h) (next (malloc sheap eheap h size).1) bs (omega arith) ih,
                  ),
                  (after_block (next h, size) (next (malloc sheap eheap h size).1) bs up ih, apart),
                ))
        | inr (e, full, same) ↦
            rw (e, blocks)
              (
                IsBlock-later (next h) (next (malloc sheap eheap h size).1)
                    (blocks (malloc sheap eheap h size).1 sizes) (omega arith) ih,
                apart,
              )
      ]

-- A request within three bytes of the largest size is rounded up to 0: it is answered with a block
-- that holds nothing, at the place of the next one.
pub malloc_wraps :
    (sheap eheap : ℕ) (h : Heap) (size : ℕ)
    → IsValid sheap eheap h
    → 2 ^ 32 - 3 ≤ size
    → size < 2 ^ 32
    → ((malloc sheap eheap h size).0 ≡ some (next sheap eheap h))
      × (next sheap eheap (malloc sheap eheap h size).1 ≡ next sheap eheap h)
unfolding malloc heap_init_if_needed
malloc_wraps sheap eheap h size v large word =
    let e : aligned size ≡ 0 = ground (arith, aligned_lem size) in rw e (ground arith)
