-- ===== src/MemoryMap/Wrap.antt =====
-- An access that runs past the end of the address space: the sum of find_unit wraps.
use mathlib.Core.List.{Memᴰ}
use dae_pipeline_cpu.Prelude.{ℕ, ◌+◌, ◌-◌, ◌^◌, ◌≤◌, ◌<◌, ◌≡◌, ◌↔◌, List, ◌∷◌, true, arith}
use dae_pipeline_cpu.Bus.{device_read}
use dae_pipeline_cpu.MemoryMap.{MemMapUnit, MemoryMap, hits, find_unit, read}
use dae_pipeline_cpu.MemoryMap.Layout.{Fits, IsValid}
use dae_pipeline_cpu.MemoryMap.Decode.{Covers}
use dae_pipeline_cpu.Prelude.{All-mem}

module _ {S : Type 0} where
  module _ (addr width : ℕ) (start : addr < 2 ^ 32) (small : width ≤ 2 ^ 32)
      (past : 2 ^ 32 ≤ addr + width) where
    hits_past_iff :
        (u : MemMapUnit S)
        → Fits u
        → (hits u addr width ≡ true) ↔ ((u.base ≤ addr) × (addr + width ≤ u.base + u.size + 2 ^ 32))
    hits_past_iff u fu = ground arith

    -- No unit holds the bytes of an access past the end, yet the first unit of the array claims
    -- it where it starts at or below the address and is at least as large as the access: the read
    -- goes to that device and not to a decode error.
    pub read-past_end :
        (m : MemoryMap S) (s : S) (u : MemMapUnit S) (us : List (MemMapUnit S))
        → IsValid m
        → m.units ≡ u ∷ us
        → u.base ≤ addr
        → width ≤ u.size
        → ((v : MemMapUnit S) → Memᴰ v m.units → ¬ (Covers v addr width))
          × (read m s addr width ≡ device_read u.device s (addr - u.base) width)
    unfolding read find_unit
    read-past_end m s u us v e from large =
        let fits : Fits u = (rw e at v.fits).0 in
        (
          λ w mem c. let fw = All-mem Fits m.units v.fits mem in omega arith,
          rw (e, read, find_unit, (hits_past_iff u fits).1 (from, omega arith)),
        )
