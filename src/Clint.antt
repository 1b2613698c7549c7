-- ===== src/Clint.antt =====
-- devices/clint: the core-local interruptor, with its registers, its tick and its two wires.
pub mod Halves
pub mod Registers
pub mod Timer
use dae_pipeline_cpu.Prelude.{ℕ, ◌+◌, bit_and, bit_or, Bool, not, ◌||◌, ◌==◌, leb, if◌then◌else◌}
use dae_pipeline_cpu.Prelude.{u32, u64, ◌<<<◌, ◌>>>◌}
use dae_pipeline_cpu.Bus.{AxiResp, okay, slverr}

abbrev pub clint_size : ℕ
clint_size = 0x10000

abbrev pub clint_offset_msip : ℕ
clint_offset_msip = 0x0000

abbrev pub clint_offset_mtimecmp_lo : ℕ
clint_offset_mtimecmp_lo = 0x4000

abbrev pub clint_offset_mtimecmp_hi : ℕ
clint_offset_mtimecmp_hi = 0x4004

abbrev pub clint_offset_mtime_lo : ℕ
clint_offset_mtime_lo = 0xbff8

abbrev pub clint_offset_mtime_hi : ℕ
clint_offset_mtime_hi = 0xbffc

abbrev pub clint_msip_mask : ℕ
clint_msip_mask = 0x1

-- `Clint` without the two embedded traits; `uint32_t msip`, `uint64_t mtime` and `mtimecmp`.
pub record Clint : Type 0 where
  pub msip : ℕ
  pub mtime : ℕ
  pub mtimecmp : ℕ

-- The getters and setters of the halves of a 64-bit counter.
abbrev pub low_half : ℕ → ℕ
low_half t = u32 (bit_and t 0xffffffff)

abbrev pub high_half : ℕ → ℕ
high_half t = u32 (t >>> 32)

abbrev pub with_low : ℕ → ℕ → ℕ
with_low t v = bit_or (bit_and t 0xffffffff00000000) v

abbrev pub with_high : ℕ → ℕ → ℕ
with_high t v = bit_or (bit_and t 0x00000000ffffffff) (u64 (v <<< 32))

unfoldable pub read : Clint → ℕ → ℕ → AxiResp × ℕ
read c offset width =
    if not (width == 4) || not (bit_and offset 0x3 == 0)
    then (slverr, 0)
    else if offset == clint_offset_msip
    then (okay, bit_and c.msip clint_msip_mask)
    else if offset == clint_offset_mtimecmp_lo
    then (okay, low_half c.mtimecmp)
    else if offset == clint_offset_mtimecmp_hi
    then (okay, high_half c.mtimecmp)
    else if offset == clint_offset_mtime_lo
    then (okay, low_half c.mtime)
    else if offset == clint_offset_mtime_hi
    then (okay, high_half c.mtime)
    else (slverr, 0)

unfoldable pub write : Clint → ℕ → ℕ → ℕ → ℕ → AxiResp × Clint
write c offset width value strb =
    if not (width == 4) || not (strb == 0xf) || not (bit_and offset 0x3 == 0)
    then (slverr, c)
    else if offset == clint_offset_msip
    then (okay, record c { msip = bit_and value clint_msip_mask })
    else if offset == clint_offset_mtimecmp_lo
    then (okay, record c { mtimecmp = with_low c.mtimecmp value })
    else if offset == clint_offset_mtimecmp_hi
    then (okay, record c { mtimecmp = with_high c.mtimecmp value })
    else if offset == clint_offset_mtime_lo
    then (okay, record c { mtime = with_low c.mtime value })
    else if offset == clint_offset_mtime_hi
    then (okay, record c { mtime = with_high c.mtime value })
    else (slverr, c)

-- `mtime += 1u`, which wraps at 2 ^ 64
unfoldable pub tick : Clint → Clint
tick c = record c { mtime = u64 (c.mtime + 1) }

unfoldable pub ctor : Clint
ctor = record { msip = 0; mtime = 0; mtimecmp = 0xffffffffffffffff }

-- Clint_msip and Clint_mtip
unfoldable pub msip_wire : Clint → Bool
msip_wire c = not (bit_and c.msip clint_msip_mask == 0)

unfoldable pub mtip_wire : Clint → Bool
mtip_wire c = leb c.mtimecmp c.mtime
