-- ===== src/Cpu/Fifo/Refine.antt =====
-- The queue as a bounded list, over every run of cycles.
use native.Mathlib.Nat.{mod-add-mod, mod-eq_of_lt, mod-eq-sub-mod, add-zero, mod_self, mod-lt}
use native.Mathlib.Decide.{dec_lt}
use dae_pipeline_cpu.Prelude.{
  ℕ, zero, suc, ◌+◌, ◌-◌, ◌%◌, ◌≤◌, ◌<◌, ◌≡◌, ◌≢◌, refl, arith, ◌∙◌, ap, ap₂, inl, inr, Bool, true,
  false, not, ◌&&◌, ◌==◌, if◌then◌else◌, none, some, List, [], ◌∷◌, ◌++◌, Bool-cases, ==_iff, sym,
  length,
}
use dae_pipeline_cpu.Cpu.Fifo
use dae_pipeline_cpu.Cpu.Fifo.{Fifo, ptr_next}
use dae_pipeline_cpu.Cpu.Fifo.Bounded.{In, Out, first, rest, show, next, run}

-- What holds between two edges: the pointers are in the array, and the distance from the read to the
-- write pointer round it is the count.
pub record IsValid {T : Type 0} (depth : ℕ) (f : Fifo T) : Type 0 where
  pub rd_inside : f.rd_ptr_q < depth
  pub count_bound : f.count_q ≤ depth
  pub distance : f.wr_ptr_q ≡ (f.rd_ptr_q + f.count_q) % depth

module _ {T : Type 0} (depth : ℕ) where
  -- the `n` entries from index `h` on, going round at `depth`
  abbrev pub window : (ℕ → T) → ℕ → ℕ → List T
  window mem h zero = []
  window mem h (suc n) = mem h ∷ window mem ((h + 1) % depth) n

  abbrev pub contents : Fifo T → List T
  contents f = window f.mem_q f.rd_ptr_q f.count_q

ptr_next_lem : (depth p : ℕ) → p < depth → ptr_next depth p ≡ (p + 1) % depth
unfolding ptr_next
ptr_next_lem depth p h = elim (dec_lt (p + 1) depth) [
  | yes lt ↦ ground (arith, mod-eq_of_lt lt)
  | no last ↦
      (let e : p + 1 ≡ depth = omega arith in
        let m : (p + 1) % depth ≡ 0 = rw e (mod_self depth) in ground arith)
]

-- Fewer than `depth` steps round the array do not come back to the start.
add-mod-ne : {depth h k : ℕ} → h < depth → suc k < depth → (h + suc k) % depth ≢ h
add-mod-ne {depth} {h} {k} hh hk = elim (dec_lt (h + suc k) depth) [
  | yes p ↦ omega (arith, mod-eq_of_lt p)
  | no p ↦ omega (
    arith,
    mod-eq-sub-mod {n = h + suc k} {m = depth} (omega arith),
    mod-eq_of_lt {n = h + suc k - depth} {m = depth} (omega arith),
  )
]

module _ {T : Type 0} (depth : ℕ) where
  abbrev put : (ℕ → T) → ℕ → T → ℕ → T
  put mem w x i = if i == w then x else mem i

  put_self : (mem : ℕ → T) (w : ℕ) (x : T) → put mem w x w ≡ x
  put_self mem w x = rw ((==_iff w w).1 refl) refl

  put_ne : (mem : ℕ → T) (w : ℕ) (x : T) (i : ℕ) → w ≢ i → put mem w x i ≡ mem i
  put_ne mem w x i n = elim (Bool-cases (i == w)) [
    | inl e ↦ absurd (n (sym ((==_iff i w).0 e)))
    | inr e ↦ rw e refl
  ]

  -- Writing just past a window extends it by that entry.
  window-put :
      (mem : ℕ → T) (x : T) (n h w : ℕ)
      → h < depth
      → n < depth
      → w ≡ (h + n) % depth
      → window depth (put mem w x) h (suc n) ≡ window depth mem h n ++ (x ∷ [])
  window-put mem x zero h w hh hn e =
      let at : w ≡ h = rw (e, add-zero, mod-eq_of_lt hh) refl in rw at (rw (put_self mem h x) refl)
  window-put mem x (suc n) h w hh hn e =
      ap₂ ◌∷◌ (put_ne mem w x h (rw e (add-mod-ne hh hn)))
        (window-put mem x n ((h + 1) % depth) w (omega arith) (omega arith) (e ∙ shift))
    where
      shift : (h + suc n) % depth ≡ ((h + 1) % depth + n) % depth
      shift = rw mod-add-mod (ap (λ k. k % depth) (omega arith))

  length-window : (mem : ℕ → T) (h n : ℕ) → length (window depth mem h n) ≡ n
  length-window mem h zero = refl
  length-window mem h (suc n) = ap suc (length-window mem ((h + 1) % depth) n)

room_of :
    (depth n : ℕ) (in_valid : Bool)
    → n ≤ depth
    → (in_valid && not (n == depth) && true) ≡ true
    → n < depth
room_of depth n in_valid h e = ground arith

gate : (a : Bool) → (a && true) ≡ a
gate true = refl
gate false = refl

module _ {T : Type 0} (depth : ℕ) where
  abbrev pub step_in : Fifo T → In T → Fifo T
  step_in f i = Fifo.step depth f i.flush i.in_data i.in_valid i.out_ready

  abbrev pub show_in : Fifo T → In T → Out T
  show_in f i = record {
    has_room = Fifo.in_ready depth f;
    offered = if Fifo.out_valid depth f i.flush then some (Fifo.out_data depth f) else none;
  }

  abbrev pub run_fifo : Fifo T → List (In T) → List (Out T)
  run_fifo f [] = []
  run_fifo f (i ∷ is) = show_in f i ∷ run_fifo (step_in f i) is

  offered_lem :
      (mem : ℕ → T) (rd n : ℕ) (flush : Bool)
      → (if not (n == 0) && not flush then some (mem rd) else none)
        ≡ (if flush then none else first (window depth mem rd n))
  offered_lem mem rd zero true = refl
  offered_lem mem rd zero false = refl
  offered_lem mem rd (suc n) true = ground arith
  offered_lem mem rd (suc n) false = ground arith

  show_refines : (f : Fifo T) (i : In T) → show_in f i ≡ show depth (contents depth f) i
  unfolding Fifo.in_ready Fifo.out_valid Fifo.out_data
  show_refines f i =
      rw
        (
          length-window depth f.mem_q f.rd_ptr_q f.count_q,
          offered_lem f.mem_q f.rd_ptr_q f.count_q i.flush,
        )
        refl

  -- An edge without a flush, by what it does.
  abbrev edge : Fifo T → T → Bool → Bool → Fifo T
  edge f x push pop = record {
    mem_q = λ i. if push && i == f.wr_ptr_q then x else f.mem_q i;
    wr_ptr_q = if push then ptr_next depth f.wr_ptr_q else f.wr_ptr_q;
    rd_ptr_q = if pop then ptr_next depth f.rd_ptr_q else f.rd_ptr_q;
    count_q =
        if push && not pop
        then f.count_q + 1
        else if not push && pop
        then f.count_q - 1
        else f.count_q;
  }

  abbrev moved : List T → T → Bool → Bool → List T
  moved q x push pop =
      let left = if pop then rest q else q in if push then left ++ (x ∷ []) else left

  module _ (mem : ℕ → T) (x : T) (rd wr : ℕ) (hr : rd < depth) where
    abbrev at : ℕ → Fifo T
    at n = record { mem_q = mem; rd_ptr_q = rd; wr_ptr_q = wr; count_q = n }

    abbrev Good : ℕ → Bool → Bool → Type 0
    Good n push pop =
        IsValid depth (edge (at n) x push pop)
        × (contents depth (edge (at n) x push pop) ≡ moved (window depth mem rd n) x push pop)

    wr_moves : (n : ℕ) → wr ≡ (rd + n) % depth → ptr_next depth wr ≡ (rd + (n + 1)) % depth
    wr_moves n hw =
        ptr_next_lem depth wr (rw hw (mod-lt (rd + n) (omega arith)))
        ∙ rw (hw, mod-add-mod) (ap (λ k. k % depth) (omega arith))

    rd_moves : (n : ℕ) → (rd + suc n) % depth ≡ (ptr_next depth rd + n) % depth
    rd_moves n = rw (ptr_next_lem depth rd hr, mod-add-mod) (ap (λ k. k % depth) (omega arith))

    rd_inside : ptr_next depth rd < depth
    rd_inside = rw (ptr_next_lem depth rd hr) (mod-lt (rd + 1) (omega arith))

    kept : (n : ℕ) → n ≤ depth → wr ≡ (rd + n) % depth → Good n false false
    kept n hn hw = (record { rd_inside = hr; count_bound = hn; distance = hw }, refl)

    pushed : (n : ℕ) → n < depth → wr ≡ (rd + n) % depth → Good n true false
    pushed n hn hw =
        let one_more : n + 1 ≡ suc n = omega arith in
        (
          record { rd_inside = hr; count_bound = omega arith; distance = wr_moves n hw },
          rw one_more (window-put depth mem x n rd wr hr hn hw),
        )

    popped : (n : ℕ) → suc n ≤ depth → wr ≡ (rd + suc n) % depth → Good (suc n) false true
    popped n hn hw =
        let one_less : suc n - 1 ≡ n = omega arith in
        (
          rw one_less record {
            rd_inside = rd_inside;
            count_bound = omega arith;
            distance = hw ∙ rd_moves n;
          },
          rw (one_less, ptr_next_lem depth rd hr) refl,
        )

    both : (n : ℕ) → suc n < depth → wr ≡ (rd + suc n) % depth → Good (suc n) true true
    both n hn hw = (
      record {
        rd_inside = rd_inside;
        count_bound = omega arith;
        distance =
            wr_moves (suc n) hw ∙ ap (λ (k : ℕ). (rd + k) % depth) (omega arith) ∙ rd_moves (suc n);
      },
      window-put depth mem x n (ptr_next depth rd) wr rd_inside (omega arith) (hw ∙ rd_moves n)
          ∙ rw (ptr_next_lem depth rd hr) refl,
    )

    -- An edge whose handshakes `step` allows.
    allowed :
        (n : ℕ) (push out_ready : Bool)
        → (push ≡ true → n < depth)
        → n ≤ depth
        → wr ≡ (rd + n) % depth
        → let pop = not (n == 0) && not false && out_ready in
          IsValid depth (edge (at n) x push pop)
          × (contents depth (edge (at n) x push pop)
              ≡ moved (window depth mem rd n) x push out_ready)
    allowed zero true true room hn hw = pushed 0 (room refl) hw
    allowed zero true false room hn hw = pushed 0 (room refl) hw
    allowed zero false true room hn hw = kept 0 hn hw
    allowed zero false false room hn hw = kept 0 hn hw
    allowed (suc n) push out_ready room hn hw =
        let pos : (suc n == 0) ≡ false = ground arith in rw pos (by_case push out_ready room)
      where
        by_case : (push pop : Bool) → (push ≡ true → suc n < depth) → Good (suc n) push pop
        by_case true true room = both n (room refl) hw
        by_case true false room = pushed (suc n) (room refl) hw
        by_case false true room = popped n hn hw
        by_case false false room = kept (suc n) hn hw

  -- An edge keeps the queue valid, and moves its contents as a bounded queue.
  step_lem :
      {f : Fifo T} (i : In T)
      → IsValid depth f
      → IsValid depth (step_in f i)
        × (contents depth (step_in f i) ≡ next depth (contents depth f) i)
  unfolding Fifo.step Fifo.reset Fifo.in_ready Fifo.out_valid
  step_lem {f} i v = elim (Bool-cases i.flush) [
    | inl e ↦ rw e (
      record {
        rd_inside = omega (arith, v.rd_inside);
        count_bound = omega arith;
        distance = sym (mod-eq_of_lt {n = 0} {m = depth} (omega (arith, v.rd_inside)));
      },
      refl,
    )
    | inr e ↦
        (let (valid, moves) =
            allowed f.mem_q i.in_data f.rd_ptr_q f.wr_ptr_q v.rd_inside f.count_q
              (i.in_valid && not (f.count_q == depth) && true) i.out_ready
              (room_of depth f.count_q i.in_valid v.count_bound) v.count_bound v.distance in
          rw (e, length-window depth f.mem_q f.rd_ptr_q f.count_q)
            (
              valid,
              moves
                  ∙ ap (λ (p : Bool). moved (contents depth f) i.in_data p i.out_ready)
                      (gate (i.in_valid && not (f.count_q == depth))),
            ))
  ]

  -- Over any run of cycles with their pushes, pops and flushes, a queue within its invariant, such
  -- as a reset one of a positive depth, shows what the bounded list of its contents shows: when
  -- there is room, and every entry exactly once, in order, with none lost, repeated or overwritten.
  pub fifo_refines :
      (f : Fifo T) (is : List (In T))
      → IsValid depth f
      → run_fifo f is ≡ run depth (contents depth f) is
  fifo_refines f [] v = refl
  fifo_refines f (i ∷ is) v =
      let (valid, moves) = step_lem i v in
      ap₂ ◌∷◌ (show_refines f i)
        (fifo_refines (step_in f i) is valid ∙ ap (λ q. run depth q is) moves)

  pub reset-IsValid : (f : Fifo T) → 0 < depth → IsValid depth (Fifo.reset depth f)
  unfolding Fifo.reset
  reset-IsValid f h = record {
    rd_inside = h;
    count_bound = omega arith;
    distance = sym (mod-eq_of_lt {n = 0} {m = depth} h);
  }
