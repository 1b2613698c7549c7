-- ===== src/MemoryMap/Layout.antt =====
-- The layout that MemoryMap_add_device keeps: ranges that fit the address space and do not meet.
use dae_pipeline_cpu.Prelude.{ℕ, ◌+◌, ◌^◌, ◌≤◌, ◌<◌, ◌≡◌, refl, ◌↔◌, ◌⊎◌, inl, inr, arith}
use dae_pipeline_cpu.Prelude.{
  true, false, List, [], ◌∷◌, ◌++◌, All, All-snoc, length, length-append,
}
use dae_pipeline_cpu.Prelude.{ltb, ◌==◌, Bool-cases}
use dae_pipeline_cpu.Bus.{ret}
use dae_pipeline_cpu.Alloc.{Alloc, alloc, Status, done, enomem, eexist}
use dae_pipeline_cpu.MemoryMap.{MemMapUnit, MemoryMap, ranges_overlap, any_overlap, add_device}
use dae_pipeline_cpu.MemoryMap.{append_unit, grown}

module _ {S : Type 0} where
  -- A unit is not empty, and its end is an `addr_t`.
  pub record Fits (u : MemMapUnit S) : Type 0 where
    pub nonempty : 0 < u.size
    pub top : u.base + u.size < 2 ^ 32

  -- Neither range reaches into the other.
  abbrev pub Apart : MemMapUnit S → MemMapUnit S → Type 0
  Apart u v = (u.base + u.size ≤ v.base) ⊎ (v.base + v.size ≤ u.base)

  abbrev pub Disjoint : List (MemMapUnit S) → Type 0
  Disjoint [] = Unit
  Disjoint (u ∷ us) = All (Apart u) us × Disjoint us

  pub record IsValid (m : MemoryMap S) : Type 0 where
    pub fits : All Fits m.units
    pub disjoint : Disjoint m.units
    pub room : length m.units ≤ m.cap

  ranges_overlap_iff :
      (u v : MemMapUnit S)
      → Fits u
      → Fits v
      → (ranges_overlap u.base u.size v.base v.size ≡ false) ↔ Apart u v
  ranges_overlap_iff u v fu fv = ground arith

  pub any_overlap_iff :
      (u : MemMapUnit S) (us : List (MemMapUnit S))
      → Fits u
      → All Fits us
      → (any_overlap u us ≡ false) ↔ All (Apart u) us
  unfolding any_overlap
  any_overlap_iff u [] fu fs = (λ _. tt, λ _. refl)
  any_overlap_iff u (v ∷ us) fu fs =
      let ih = any_overlap_iff u us fu fs.1 in
      let here = ranges_overlap_iff u v fu fs.0 in
      elim (Bool-cases (ranges_overlap u.base u.size v.base v.size)) [
        | inl meet ↦ rw meet (λ h. cc, λ h. cc (here.1 h.0))
        | inr apart ↦ rw apart (λ h. (here.0 apart, ih.0 h), λ h. ih.1 h.1)
      ]

  -- `Apart` is symmetric, so a unit that is apart from all others may stand last.
  Disjoint-snoc :
      (us : List (MemMapUnit S)) (u : MemMapUnit S)
      → Disjoint us
      → All (Apart u) us
      → Disjoint (us ++ (u ∷ []))
  Disjoint-snoc [] u d a = (tt, tt)
  Disjoint-snoc (v ∷ us) u d a =
      (All-snoc (Apart v) us u d.0 (omega arith), Disjoint-snoc us u d.1 a.1)

  append_unit-IsValid :
      (m : MemoryMap S) (u : MemMapUnit S) (room : ℕ)
      → IsValid m
      → Fits u
      → All (Apart u) m.units
      → length m.units < room
      → IsValid (append_unit (record m { cap = room }) u)
  append_unit-IsValid m u room v fu apart more = record {
    fits = All-snoc Fits m.units u v.fits fu;
    disjoint = Disjoint-snoc m.units u v.disjoint apart;
    room = omega (arith, length-append m.units (u ∷ []));
  }

  -- What MemoryMap_add_device has done, by the status that it returns.
  pub data Added (al : Alloc) (m : MemoryMap S) (u : MemMapUnit S)
      : Status → MemoryMap S → Type 0 where
    added :
        {m' : MemoryMap S}
        → All (Apart u) m.units
        → m'.units ≡ m.units ++ (u ∷ [])
        → Added al m u done m'
    overlaps : ¬ (All (Apart u) m.units) → Added al m u eexist m
    no_room :
        All (Apart u) m.units
        → length m.units ≡ m.cap
        → (alloc al).0 ≡ false
        → Added al m u enomem m

  -- Registration never aborts on a unit that fits, keeps the map valid whatever it returns, and
  -- its status says exactly what was done.
  pub add_device_lem :
      (al : Alloc) (m : MemoryMap S) (u : MemMapUnit S)
      → IsValid m
      → Fits u
      → (st : Status) × (m' : MemoryMap S) × (al' : Alloc) × (add_device al m u ≡ ret (st, m', al'))
        × IsValid m'
        × Added al m u st m'
  unfolding add_device
  add_device_lem al m u v fu =
      let full : ltb 0 u.size ≡ true = ground arith in
      let free = any_overlap_iff u m.units fu v.fits in
      elim (Bool-cases (any_overlap u m.units)) [
        | inl meet ↦ (eexist, m, al, rw (full, meet), v, overlaps (λ a. cc (free.1 a)))
        | inr apart ↦ elim (Bool-cases (length m.units == m.cap)) [
          | inr more ↦ (
            done,
            append_unit m u,
            al,
            rw (full, apart, more),
            append_unit-IsValid m u m.cap v fu (free.0 apart) (ground arith),
            added (free.0 apart) refl,
          )
          | inl at_cap ↦ elim (Bool-cases (alloc al).0) [
            | inl given ↦ (
              done,
              append_unit (record m { cap = grown m.cap }) u,
              (alloc al).1,
              rw (full, apart, at_cap, given),
              append_unit-IsValid m u (grown m.cap) v fu (free.0 apart) (ground arith),
              added (free.0 apart) refl,
            )
            | inr refused ↦ (
              enomem,
              m,
              (alloc al).1,
              rw (full, apart, at_cap, refused),
              v,
              no_room (free.0 apart) (ground arith) refused,
            )
          ]
        ]
      ]
