-- ===== src/MemoryMap/Order.antt =====
-- "Order of registration does not affect dispatch" (mem_map.h), as an equation of whole accesses.
use mathlib.Core.List.{Memᴰ, Permᴰ}
use mathlib.Core.List.Memᴰ.{head, tail}
use mathlib.Core.List.Permᴰ
use mathlib.Core.List.Permᴰ.{nil, cons, swap, trans}
use mathlib.Core.Path.{subst}
use dae_pipeline_cpu.Prelude.{ℕ, ◌+◌, ◌^◌, ◌<◌, ◌≡◌, sym, ◌∙◌, inl, inr}
use dae_pipeline_cpu.Prelude.{List, ◌∷◌, All, arith}
use dae_pipeline_cpu.Prelude.{Option-cases}
use dae_pipeline_cpu.MemoryMap.{MemMapUnit, MemoryMap, find_unit, read, write}
use dae_pipeline_cpu.MemoryMap.Layout.{Fits, Apart, Disjoint, IsValid}
use dae_pipeline_cpu.MemoryMap.Decode.{find_unit_iff}

module _ {S : Type 0} where
  All-perm :
      (P : MemMapUnit S → Type 0) {us vs : List (MemMapUnit S)} → Permᴰ us vs → All P us → All P vs
  All-perm P nil h = h
  All-perm P (cons e p) h = (rw (← e) h.0, All-perm P p h.1)
  All-perm P (swap e e') h = (rw (← e') h.1.0, (rw (← e) h.0, h.1.1))
  All-perm P (trans p q) h = All-perm P q (All-perm P p h)

  Disjoint-perm : {us vs : List (MemMapUnit S)} → Permᴰ us vs → Disjoint us → Disjoint vs
  Disjoint-perm nil d = d
  Disjoint-perm (cons {b = b} e p) d = (All-perm (Apart b) p (rw (← e) d.0), Disjoint-perm p d.1)
  Disjoint-perm (swap {b = b} {b' = b'} {l = l} e e') d =
      subst (λ x. Disjoint (x ∷ b' ∷ l)) e'
        (subst (λ y. Disjoint (b ∷ y ∷ l)) e ((omega (arith, d.0.0), d.1.0), (d.0.1, d.1.1)))
  Disjoint-perm (trans p q) d = Disjoint-perm q (Disjoint-perm p d)

  Mem-perm : {u : MemMapUnit S} {us vs : List (MemMapUnit S)} → Permᴰ us vs → Memᴰ u us → Memᴰ u vs
  Mem-perm nil m = m
  Mem-perm (cons e p) (head q) = head (q ∙ e)
  Mem-perm (cons e p) (tail m) = tail (Mem-perm p m)
  Mem-perm (swap e e') (head q) = tail (head (q ∙ e))
  Mem-perm (swap e e') (tail (head q)) = head (q ∙ e')
  Mem-perm (swap e e') (tail (tail m)) = tail (tail m)
  Mem-perm (trans p q) m = Mem-perm q (Mem-perm p m)

  find_unit-perm :
      (addr width : ℕ) {us vs : List (MemMapUnit S)}
      → 0 < width
      → addr + width < 2 ^ 32
      → Permᴰ us vs
      → All Fits us
      → Disjoint us
      → find_unit us addr width ≡ find_unit vs addr width
  find_unit-perm addr width {us} {vs} pos fits p fs d =
      let here = λ (u : MemMapUnit S). find_unit_iff addr width pos fits us u fs d in
      let there = λ (u : MemMapUnit S).
        find_unit_iff addr width pos fits vs u (All-perm Fits p fs) (Disjoint-perm p d) in
      elim (Option-cases (find_unit us addr width)) [
        | inr (u, e) ↦ (let (m, c) = (here u).0 e in e ∙ sym ((there u).1 (Mem-perm p m, c)))
        | inl e ↦ elim (Option-cases (find_unit vs addr width)) [
          | inl e' ↦ e ∙ sym e'
          | inr (u, e') ↦
              (let (m, c) = (there u).0 e' in cc ((here u).1 (Mem-perm (Permᴰ.symm p) m, c)))
        ]
      ]

  -- Two valid maps that hold the same units, registered in any two orders and grown to any two
  -- capacities, answer every access alike, and pass it to the same device at the same offset.
  pub access-perm :
      (m m' : MemoryMap S) (s : S) (addr width : ℕ)
      → 0 < width
      → addr + width < 2 ^ 32
      → IsValid m
      → Permᴰ m.units m'.units
      → (read m s addr width ≡ read m' s addr width)
        × ((value strb : ℕ) → write m s addr width value strb ≡ write m' s addr width value strb)
  unfolding read write
  access-perm m m' s addr width pos fits v p =
      let same = find_unit-perm addr width pos fits p v.fits v.disjoint in
      (rw (same, read), λ value strb. rw (same, write))
