-- ===== src/Runtime/Heap/Count.antt =====
-- The count of the blocks that are in use.
use dae_pipeline_cpu.Prelude.{
  ℕ, ◌+◌, ◌-◌, ◌*◌, ◌%◌, ◌^◌, ◌≤◌, ◌<◌, ◌≡◌, refl, arith, ltb, if◌then◌else◌, u32, none, List, [],
  ◌∷◌, All, ◌⊎◌, inl, inr,
}
use dae_pipeline_cpu.Runtime.Heap.{Heap, start, heap_init_if_needed, malloc, free}
use dae_pipeline_cpu.Runtime.Heap.Blocks.{IsValid, next, malloc_lem}

-- The calls of a program.
pub data Call : Type 0 where
  takes : ℕ → Call
  gives : ℕ → Call

module _ (sheap eheap : ℕ) where
  pub call : Heap → Call → Heap
  call h (Call.takes size) = (malloc sheap eheap h size).1
  call h (Call.gives ptr) = free sheap eheap h ptr

  pub calls : Heap → List Call → Heap
  calls h [] = h
  calls h (c ∷ cs) = calls (call h c) cs

  -- A request of at least a byte, which does not run around the address space.
  abbrev pub IsFit : Call → Type 0
  IsFit (Call.takes size) = (0 < size) × (size + eheap < 2 ^ 32 - 4)
  IsFit (Call.gives ptr) = Unit

  -- Every counted block has four bytes of its own below the pointer.
  record IsCounted (h : Heap) : Type 0 where
    valid : IsValid sheap eheap h
    words : h.allocated_cnt * 4 + sheap ≤ next sheap eheap h

  free-IsCounted : (h : Heap) (ptr : ℕ) → IsCounted h → IsCounted (free sheap eheap h ptr)
  unfolding free
  free-IsCounted h ptr v =
      let v0 = v.valid in
      let w = v.words in
      let f = v0.first in
      let wh = v0.whole in
      let la = v0.last in
      let po = v0.pointer in
      let ro = v0.room in
      record {
        valid = record { first = f; whole = wh; last = la; pointer = ground arith; room = ro };
        words = ground arith;
      }

  -- A request counts one block, or none when it is refused.
  malloc_count :
      (h : Heap) (size : ℕ)
      → let (p, h') = malloc sheap eheap h size in
        ((h'.allocated_cnt ≡ u32 (h.allocated_cnt + 1)) ⊎ (h'.allocated_cnt ≡ h.allocated_cnt))
        × (p ≡ none → h'.allocated_cnt ≡ h.allocated_cnt)
  unfolding malloc heap_init_if_needed
  malloc_count h size = (ground arith, ground arith)

  malloc-IsCounted :
      (h : Heap) (size : ℕ)
      → 0 < size
      → size + eheap < 2 ^ 32 - 4
      → IsCounted h
      → IsCounted (malloc sheap eheap h size).1
  malloc-IsCounted h size some_bytes small v =
      let (valid, outcome) = malloc_lem sheap eheap h size v.valid small in
      let (either, refused) = malloc_count h size in
      record {
        valid = valid;
        words = elim outcome [
          | inl (_, _, _, _, top) ↦
              let full : h.allocated_cnt * 4 + sheap ≤ next sheap eheap h = v.words in ground arith
          | inr (n, over, same) ↦
              let unchanged = refused n in
              let full : h.allocated_cnt * 4 + sheap ≤ next sheap eheap h = v.words in ground arith
        ];
      }

  call-IsCounted : (c : Call) (h : Heap) → IsFit c → IsCounted h → IsCounted (call h c)
  unfolding call
  call-IsCounted (Call.takes size) h (some_bytes, small) v =
      malloc-IsCounted h size some_bytes small v
  call-IsCounted (Call.gives ptr) h fit v = free-IsCounted h ptr v

  calls-IsCounted :
      (cs : List Call) (h : Heap) → All IsFit cs → IsCounted h → IsCounted (calls h cs)
  unfolding calls
  calls-IsCounted [] h fit v = v
  calls-IsCounted (c ∷ cs) h fit v =
      calls-IsCounted cs (call h c) fit.1 (call-IsCounted c h fit.0 v)

  -- However a program calls the allocator, as long as it asks for at least a byte each time, the
  -- blocks that are counted are no more than the words of the heap.
  pub count_lem :
      (cs : List Call)
      → 0 < sheap
      → sheap % 4 ≡ 0
      → sheap ≤ eheap
      → eheap < 2 ^ 32
      → All IsFit cs
      → (calls start cs).allocated_cnt * 4 ≤ eheap - sheap
  count_lem cs first whole room last fit =
      let fresh : IsCounted start = record {
        valid = record {
          first = first;
          whole = whole;
          last = last;
          pointer = inl refl;
          room = room;
        };
        words = omega arith;
      } in
      let v = calls-IsCounted cs start fit fresh in
      let words : (calls start cs).allocated_cnt * 4 + sheap ≤ next sheap eheap (calls start cs) =
        v.words in
      let pointer = v.valid.pointer in ground arith

-- A call of free is one block less, and the last one makes the heap empty.
pub free_lem :
    (sheap eheap ptr : ℕ) (h : Heap)
    → free sheap eheap h ptr ≡ (
        if ltb 1 h.allocated_cnt
        then record h { allocated_cnt = h.allocated_cnt - 1 }
        else record { heap_ptr = sheap; allocated_cnt = 0 })
unfolding free
free_lem sheap eheap ptr h = ground arith
