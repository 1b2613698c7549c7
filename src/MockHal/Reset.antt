-- ===== src/MockHal/Reset.antt =====
-- mock_heap_reset against the allocator's count of blocks. The allocator is that of Runtime.Heap, whose
-- addresses have 32 bits.
use dae_pipeline_cpu.Prelude.{ℕ, zero, suc, ◌+◌, ◌%◌, ◌^◌, ◌≤◌, ◌<◌, ◌≡◌, arith, List, All}
use dae_pipeline_cpu.Runtime.Heap.{Heap, start}
use dae_pipeline_cpu.Runtime.Heap.Count.{Call, calls, IsFit, count_lem, free_lem}
use dae_pipeline_cpu.MockHal.{mock_heap_bytes, release, mock_heap_reset}

-- A round takes one off the count, and the rounds that bring it to 0 put the pointer at the start.
release_lem :
    (sheap n : ℕ) (h : Heap)
    → h.allocated_cnt ≤ suc n
    → release sheap (suc n) h ≡ record { heap_ptr = sheap; allocated_cnt = 0 }
unfolding release
release_lem sheap zero h few = rw (free_lem sheap sheap 0 h) (ground arith)
release_lem sheap (suc n) h few =
    release_lem sheap n _ (let one = free_lem sheap sheap 0 h in rw one (ground arith))

-- With a heap of whole words below 2 ^ 32, whatever calls of malloc and free a test makes from the
-- start, each malloc of at least a byte and of less than the room above the heap, mock_heap_reset
-- leaves the heap empty: no block is counted and the next one starts at the heap's start.
reset_lem :
    (sheap : ℕ) (cs : List Call)
    → 0 < sheap
    → sheap % 4 ≡ 0
    → sheap + mock_heap_bytes < 2 ^ 32
    → All (IsFit sheap (sheap + mock_heap_bytes)) cs
    → mock_heap_reset sheap (calls sheap (sheap + mock_heap_bytes) start cs)
      ≡ record { heap_ptr = sheap; allocated_cnt = 0 }
unfolding mock_heap_reset
reset_lem sheap cs first whole last fit = release_lem sheap 16383 _ (
    let few = count_lem sheap (sheap + mock_heap_bytes) cs first whole (omega arith) last fit in
    ground arith)
