-- ===== src/Pma/Attributes.antt =====
-- The attributes of an address in a table whose regions do not overlap.
use mathlib.Core.List.{Memᴰ}
use mathlib.Core.List.Memᴰ.{head, tail}
use dae_pipeline_cpu.Prelude.{
  ℕ, ◌^◌, ◌≤◌, ◌<◌, ◌≡◌, ◌⊎◌, inl, inr, ◌↔◌, arith, true, false, Bool-cases, Option-cases, ◌&&◌,
  bit_and, ◌==◌, ==_iff, leb, not, some, List, [], ◌∷◌, All, All-mem,
}
use dae_pipeline_cpu.Bits.Subset.{Includes, bit_and-eq_iff}
use dae_pipeline_cpu.Pma.{
  PmaEntry, pma_io, pma_lookup, pma_is_cacheable, pma_is_io, pma_perms_allow,
}

abbrev pub Covers : PmaEntry → ℕ → Type 0
Covers e addr = (e.base ≤ addr) × (addr ≤ e.last)

-- No address lies in two regions.
abbrev pub Disjoint : List PmaEntry → Type 0
Disjoint [] = Unit
Disjoint (e ∷ es) = All (λ f. (e.last < f.base) ⊎ (f.last < e.base)) es × Disjoint es

Covers-bounds :
    (e : PmaEntry) (addr : ℕ) → ((leb e.base addr && leb addr e.last) ≡ true) ↔ Covers e addr
Covers-bounds e addr = ground arith

lookup_sound :
    (table : List PmaEntry) (addr : ℕ) {e : PmaEntry}
    → pma_lookup table addr ≡ some e
    → Memᴰ e table × Covers e addr
unfolding pma_lookup
lookup_sound [] addr found = absurd cc
lookup_sound (f ∷ es) addr {e} found = elim (Bool-cases (leb f.base addr && leb addr f.last)) [
  | inl hit ↦
      (let same : e ≡ f = cc (rw hit at found) in
        (head same, rw same ((Covers-bounds f addr).0 hit)))
  | inr miss ↦ (let (m, c) = lookup_sound es addr (rw miss at found) in (tail m, c))
]

lookup_complete :
    (table : List PmaEntry) (addr : ℕ) {e : PmaEntry}
    → Disjoint table
    → Memᴰ e table
    → Covers e addr
    → pma_lookup table addr ≡ some e
unfolding pma_lookup
lookup_complete [] addr d m c = elim m [ ]
lookup_complete (f ∷ es) addr d (head e) c =
    let hit = (Covers-bounds f addr).1 (rw (← e) c) in rw (hit, e)
lookup_complete (f ∷ es) addr {e} d (tail m) c =
    elim (Bool-cases (leb f.base addr && leb addr f.last)) [
      | inl hit ↦
          (let apart = All-mem (λ g. (f.last < g.base) ⊎ (g.last < f.base)) es d.0 m in
            let both = (Covers-bounds f addr).0 hit in absurd (omega (arith, apart, both)))
      | inr miss ↦ rw miss (lookup_complete es addr d.1 m c)
    ]

-- In a table with disjoint regions an address in a region has the attributes of that region,
-- wherever it stands in the table: an access is allowed exactly if every permission bit that it
-- wants, of the 8 that there are, is set there.
region_lem :
    (table : List PmaEntry) (e : PmaEntry) (addr want : ℕ)
    → Disjoint table
    → Memᴰ e table
    → Covers e addr
    → want < 2 ^ 8
    → (pma_is_cacheable table addr ≡ not (e.cacheable == 0))
      × (pma_is_io table addr ≡ (e.kind == pma_io))
      × ((pma_perms_allow table addr want ≡ true) ↔ Includes e.perms want)
unfolding pma_is_cacheable pma_is_io pma_perms_allow
region_lem table e addr want d m c small =
    let found = lookup_complete table addr d m c in
    let bits = bit_and-eq_iff 8 e.perms want small in
    let test = ==_iff (bit_and e.perms want) want in
    (
      rw (found, pma_is_cacheable),
      rw (found, pma_is_io),
      rw (found, pma_perms_allow) (λ h. bits.0 (test.0 h), λ h. test.1 (bits.1 h)),
    )

-- An address in no region is neither cacheable nor I/O, and no access to it is allowed, not even
-- one that wants nothing.
pub no_region_lem :
    (table : List PmaEntry) (addr want : ℕ)
    → ((e : PmaEntry) → Memᴰ e table → ¬ (Covers e addr))
    → (pma_is_cacheable table addr ≡ false)
      × (pma_is_io table addr ≡ false)
      × (pma_perms_allow table addr want ≡ false)
unfolding pma_is_cacheable pma_is_io pma_perms_allow
no_region_lem table addr want out = elim (Option-cases (pma_lookup table addr)) [
  | inl e ↦ (rw (e, pma_is_cacheable), rw (e, pma_is_io), rw (e, pma_perms_allow))
  | inr (e, found) ↦ (let (m, c) = lookup_sound table addr found in absurd (out e m c))
]
