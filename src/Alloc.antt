-- ===== src/Alloc.antt =====
-- The heap of the host as the C side sees it: calloc and realloc either answer or return NULL. The
-- answers of the coming calls are a list, and the calls past its end succeed.
use dae_pipeline_cpu.Prelude.{Bool, true, List, [], ◌∷◌}

abbrev pub Alloc : Type 0
Alloc = List Bool

-- One call: whether it succeeds, and the answers that remain.
abbrev pub alloc : Alloc → Bool × Alloc
alloc [] = (true, [])
alloc (b ∷ bs) = (b, bs)

-- The status codes of the setup functions: 0, and the negated errno values that they return.
pub data Status : Type 0 where
  done enomem eexist enotsup eio einval efault : Status
