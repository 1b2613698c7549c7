-- ===== src/Cpu/Fifo/Bounded.antt =====
-- What a bounded queue promises, on a list.
use dae_pipeline_cpu.Prelude.{
  ℕ, Bool, not, ◌&&◌, ◌==◌, if◌then◌else◌, Option, none, some, List, [], ◌∷◌, ◌++◌, length,
}

-- The inputs of one cycle.
pub record In (T : Type 0) : Type 0 where
  pub flush : Bool
  pub in_data : T
  pub in_valid : Bool
  pub out_ready : Bool

-- What one cycle shows: whether there is room, and the entry that is offered.
pub record Out (T : Type 0) : Type 0 where
  pub has_room : Bool
  pub offered : Option T

module _ {T : Type 0} where
  abbrev pub first : List T → Option T
  first [] = none
  first (x ∷ xs) = some x

  abbrev pub rest : List T → List T
  rest [] = []
  rest (x ∷ xs) = xs

module _ {T : Type 0} (depth : ℕ) where
  abbrev pub show : List T → In T → Out T
  show q i = record {
    has_room = not (length q == depth);
    offered = if i.flush then none else first q;
  }

  -- An entry joins at the end if there was room, and the oldest leaves when it is taken.
  abbrev pub next : List T → In T → List T
  next q i =
      if i.flush
      then []
      else let left = if i.out_ready then rest q else q in
        if i.in_valid && not (length q == depth) then left ++ (i.in_data ∷ []) else left

  abbrev pub run : List T → List (In T) → List (Out T)
  run q [] = []
  run q (i ∷ is) = show q i ∷ run (next q i) is
