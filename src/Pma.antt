-- ===== src/Pma.antt =====
-- devices/common/include/pma_defs.h: the lookup of physical memory attributes. The table is a
-- parameter, since the file that it is generated from is not in the repository.
pub mod Attributes
use Prim.Native.String.{String}
use dae_pipeline_cpu.Prelude.{
  ℕ, Bool, false, ◌&&◌, bit_and, bit_or, u8, ◌==◌, leb, if◌then◌else◌, not, List, [], ◌∷◌, Option,
  none, some,
}

abbrev pub pma_main : ℕ
pma_main = 0

abbrev pub pma_io : ℕ
pma_io = 1

abbrev pub pma_perm_r : ℕ
pma_perm_r = 0x1

abbrev pub pma_perm_w : ℕ
pma_perm_w = 0x2

abbrev pub pma_perm_x : ℕ
pma_perm_x = 0x4

abbrev pub pma_perm_rw : ℕ
pma_perm_rw = bit_or pma_perm_r pma_perm_w

abbrev pub pma_perm_rx : ℕ
pma_perm_rx = bit_or pma_perm_r pma_perm_x

abbrev pub pma_perm_rwx : ℕ
pma_perm_rwx = bit_or (bit_or pma_perm_r pma_perm_w) pma_perm_x

abbrev pub pma_cache_y : ℕ
pma_cache_y = 1

abbrev pub pma_cache_n : ℕ
pma_cache_n = 0

abbrev pub pma_idemp_y : ℕ
pma_idemp_y = 1

abbrev pub pma_idemp_n : ℕ
pma_idemp_n = 0

-- `pma_entry_t`; both bounds are inclusive.
pub record PmaEntry : Type 0 where
  pub name : String
  pub base : ℕ
  pub last : ℕ
  pub kind : ℕ
  pub perms : ℕ
  pub cacheable : ℕ
  pub idemp_r : ℕ
  pub idemp_w : ℕ

-- PMA_REGION, with the casts to uint8_t
abbrev pub pma_region : String → ℕ → ℕ → ℕ → ℕ → ℕ → ℕ → ℕ → PmaEntry
pma_region nm b l k p c ir iw = record {
  name = nm;
  base = b;
  last = l;
  kind = u8 k;
  perms = u8 p;
  cacheable = u8 c;
  idemp_r = u8 ir;
  idemp_w = u8 iw;
}

pub pma_lookup : List PmaEntry → ℕ → Option PmaEntry
pma_lookup [] addr = none
pma_lookup (e ∷ es) addr = if leb e.base addr && leb addr e.last then some e else pma_lookup es addr

pub pma_is_cacheable : List PmaEntry → ℕ → Bool
pma_is_cacheable table addr = elim (pma_lookup table addr) [
  | none ↦ false
  | some e ↦ not (e.cacheable == 0)
]

pub pma_is_io : List PmaEntry → ℕ → Bool
pma_is_io table addr = elim (pma_lookup table addr) [ none ↦ false | some e ↦ e.kind == pma_io ]

pub pma_perms_allow : List PmaEntry → ℕ → ℕ → Bool
pma_perms_allow table addr want = elim (pma_lookup table addr) [
  | none ↦ false
  | some e ↦ bit_and e.perms want == want
]
