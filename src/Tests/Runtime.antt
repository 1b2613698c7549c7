-- ===== src/Tests/Runtime.antt =====
-- A heap of 64 bytes, and numbers.
use dae_pipeline_cpu.Runtime.Stdio.Format.{Piece, literal, unknown, dec_of, hex_of, string_of}
use dae_pipeline_cpu.Prelude.{List, none, ◌≡◌, arith, [], ◌∷◌, All, some}
use dae_pipeline_cpu.Runtime.Heap.{start, malloc}
use dae_pipeline_cpu.Runtime.Heap.Blocks.{
  IsValid, next, blocks, IsBlock, AllApart, blocks_lem, malloc_wraps,
}

start-IsValid : IsValid 0x80001000 0x80001040 start
start-IsValid = ground arith

blocks_lem_example :
    All
      (IsBlock 0x80001000 0x80001040 0x80001000)
      (blocks 0x80001000 0x80001040 start (5 ∷ 100 ∷ 8 ∷ []))
    × AllApart 0x80001000 0x80001040 (blocks 0x80001000 0x80001040 start (5 ∷ 100 ∷ 8 ∷ []))
blocks_lem_example =
    blocks_lem 0x80001000 0x80001040 (5 ∷ 100 ∷ 8 ∷ []) start start-IsValid
      (omega arith, (omega arith, (omega arith, tt)))

malloc_wraps_example :
    ((malloc 0x80001000 0x80001040 start 0xfffffffe).0 ≡ some 0x80001000)
    × (next 0x80001000 0x80001040 (malloc 0x80001000 0x80001040 start 0xfffffffe).1 ≡ 0x80001000)
malloc_wraps_example =
    malloc_wraps 0x80001000 0x80001040 start 0xfffffffe start-IsValid (omega arith) (omega arith)

-- `"%d:%x%s%0%"` with -5, 0xcafe and NULL
abbrev pieces : List Piece
pieces = dec_of 0xfffffffb ∷ literal 0x3a ∷ hex_of 0xcafe ∷ string_of none ∷ unknown 0x30 ∷ []
