-- ===== src/Runtime/Heap.antt =====
-- runtime/src/stdlib/stdlib.c: the bump allocator. `heap_ptr` is 0 until the first call. The ends of
-- the heap are addresses that the linker gives.
pub mod Blocks
pub mod Count
use dae_pipeline_cpu.Prelude.{ℕ, zero, ◌+◌, ◌-◌, ◌^◌, bit_and, Bool, ◌==◌, ltb, if◌then◌else◌, u32}
use dae_pipeline_cpu.Prelude.{Option, none, some}

pub record Heap : Type 0 where
  pub heap_ptr : ℕ
  pub allocated_cnt : ℕ

-- the two static variables at the start
abbrev pub start : Heap
start = record { heap_ptr = 0; allocated_cnt = 0 }

-- `(size + 3u) & ~(size_t)3u`
abbrev pub aligned : ℕ → ℕ
aligned size = bit_and (u32 (size + 3)) (2 ^ 32 - 1 - 3)

module _ (sheap eheap : ℕ) where
  pub heap_init_if_needed : Heap → Heap
  heap_init_if_needed h = if h.heap_ptr == 0 then record h { heap_ptr = sheap } else h

  -- malloc; none is NULL.
  pub malloc : Heap → ℕ → Option ℕ × Heap
  malloc h0 size =
      let h = heap_init_if_needed h0 in
      if ltb eheap (u32 (h.heap_ptr + aligned size)) then (none, h) else (
        some h.heap_ptr,
        record {
          heap_ptr = u32 (h.heap_ptr + aligned size);
          allocated_cnt = u32 (h.allocated_cnt + 1);
        },
      )

  -- free, which does not look at its argument
  pub free : Heap → ℕ → Heap
  free h ptr =
      let cnt = if ltb 0 h.allocated_cnt then h.allocated_cnt - 1 else h.allocated_cnt in
      record { heap_ptr = if cnt == 0 then sheap else h.heap_ptr; allocated_cnt = cnt }
