-- ===== src/MemoryMap/Decode.antt =====
-- What find_unit finds, and what MemoryMap_read and MemoryMap_write do with it, for an access
-- that does not run past the end of the address space.
use mathlib.Core.List.{Memᴰ}
use mathlib.Core.List.Memᴰ.{head, tail}
use dae_pipeline_cpu.Prelude.{ℕ, ◌+◌, ◌-◌, ◌^◌, ◌≤◌, ◌<◌, ◌≡◌, ◌↔◌, inl, inr}
use dae_pipeline_cpu.Prelude.{true, some, List, [], ◌∷◌, All, All-mem, arith}
use dae_pipeline_cpu.Prelude.{Bool-cases, Option-cases}
use dae_pipeline_cpu.Bus.{decerr, ret, device_read, device_write}
use dae_pipeline_cpu.MemoryMap.{MemMapUnit, MemoryMap, hits, find_unit, read, write}
use dae_pipeline_cpu.MemoryMap.Layout.{Fits, Apart, Disjoint, IsValid}

module _ {S : Type 0} where
  -- The bytes [addr, addr + width) lie in the unit.
  pub record Covers (u : MemMapUnit S) (addr width : ℕ) : Type 0 where
    pub from : u.base ≤ addr
    pub upto : addr + width ≤ u.base + u.size

  module _ (addr width : ℕ) (nonempty : 0 < width) (no_wrap : addr + width < 2 ^ 32) where
    hits_iff : (u : MemMapUnit S) → Fits u → (hits u addr width ≡ true) ↔ Covers u addr width
    hits_iff u fu = ground arith

    -- A nonempty access does not lie in two units that are apart.
    both_cover : {u v : MemMapUnit S} → Apart u v → Covers u addr width → Covers v addr width → ⊥
    both_cover a cu cv = omega arith

    find_unit_sound :
        (us : List (MemMapUnit S)) {u : MemMapUnit S}
        → All Fits us
        → find_unit us addr width ≡ some u
        → Memᴰ u us × Covers u addr width
    unfolding find_unit
    find_unit_sound [] fs e = absurd cc
    find_unit_sound (v ∷ us) {u} fs e = elim (Bool-cases (hits v addr width)) [
      | inl hit ↦
          (let same : u ≡ v = cc (rw hit at e) in (head same, rw same ((hits_iff v fs.0).0 hit)))
      | inr miss ↦ (let (m, c) = find_unit_sound us fs.1 (rw miss at e) in (tail m, c))
    ]

    find_unit_complete :
        (us : List (MemMapUnit S)) {u : MemMapUnit S}
        → All Fits us
        → Disjoint us
        → Memᴰ u us
        → Covers u addr width
        → find_unit us addr width ≡ some u
    unfolding find_unit
    find_unit_complete [] fs d m c = elim m [ ]
    find_unit_complete (v ∷ us) {u} fs d (head e) c =
        let hit = (hits_iff v fs.0).1 (rw (← e) c) in rw (hit, e)
    find_unit_complete (v ∷ us) {u} fs d (tail m) c = elim (Bool-cases (hits v addr width)) [
      | inl hit ↦ absurd (both_cover (All-mem (Apart v) us d.0 m) ((hits_iff v fs.0).0 hit) c)
      | inr miss ↦ rw miss (find_unit_complete us fs.1 d.1 m c)
    ]

    -- On a valid map the decode of an access is the unit that holds all its bytes, and nothing
    -- else: the order of the array plays no part.
    pub find_unit_iff :
        (us : List (MemMapUnit S)) (u : MemMapUnit S)
        → All Fits us
        → Disjoint us
        → (find_unit us addr width ≡ some u) ↔ (Memᴰ u us × Covers u addr width)
    find_unit_iff us u fs d = (find_unit_sound us fs, λ h. find_unit_complete us fs d h.0 h.1)

    -- An access is answered in one of two ways: by the one unit that holds all its bytes, at the
    -- offset from its base, or, where no unit does, by a decode error that changes nothing.
    pub data Decoded (m : MemoryMap S) (s : S) : Type 0 where
      routed :
          (u : MemMapUnit S)
          → Memᴰ u m.units
          → Covers u addr width
          → read m s addr width ≡ device_read u.device s (addr - u.base) width
          → ((value strb : ℕ)
              → write m s addr width value strb
                ≡ device_write u.device s (addr - u.base) width value strb)
          → Decoded m s
      unmapped :
          ((u : MemMapUnit S) → Memᴰ u m.units → ¬ (Covers u addr width))
          → read m s addr width ≡ ret (decerr, 0, s)
          → ((value strb : ℕ) → write m s addr width value strb ≡ ret (decerr, s))
          → Decoded m s

    -- On a valid map every access of positive width that ends below the end of the address space is
    -- answered in one of the two ways.
    decode : (m : MemoryMap S) (s : S) → IsValid m → Decoded m s
    unfolding read write
    decode m s v = elim (Option-cases (find_unit m.units addr width)) [
      | inl e ↦
          unmapped (λ u mem c. cc (find_unit_complete m.units v.fits v.disjoint mem c))
            (rw (e, read)) (λ value strb. rw (e, write))
      | inr (u, e) ↦
          (let (mem, c) = find_unit_sound m.units v.fits e in
            routed u mem c (rw (e, read)) (λ value strb. rw (e, write)))
    ]
