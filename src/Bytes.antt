-- ===== src/Bytes.antt =====
-- The byte arrays behind BootROM and DRAM, with the two loops over the lanes of a word that
-- boot_rom.c and dram.c write out. An array is its content by index; the bounds of each access are
-- theorems of the devices. An index `offset + i` is a `size_t` of 64 bits and does not wrap.
pub mod Load
pub mod Store
use dae_pipeline_cpu.Prelude.{ℕ, zero, suc, ◌+◌, ◌*◌, ◌%◌, ◌^◌, ◌<◌, bit_and, bit_or}
use dae_pipeline_cpu.Prelude.{Bool, not, ◌==◌, if◌then◌else◌, u8, u32, ◌<<<◌, ◌>>>◌}

abbrev pub Bytes : Type 0
Bytes = ℕ → ℕ

abbrev pub update : Bytes → ℕ → ℕ → Bytes
update b i v j = if i == j then v else b j

-- `calloc` and `memset` to 0
abbrev pub zeros : Bytes
zeros i = 0

abbrev pub IsBytes : Bytes → Type 0
IsBytes b = (i : ℕ) → b i < 256

-- `for (i = 0; i < width; i++) v |= (uint32_t)a[offset + i] << (8u * i);` from lane `i` on, with
-- the rounds that are left first.
pub load_from : ℕ → ℕ → Bytes → ℕ → ℕ → ℕ
load_from zero i b offset v = v
load_from (suc n) i b offset v =
    load_from n (i + 1) b offset (bit_or v (u32 (b (offset + i) <<< (8 * i))))

unfoldable pub load : Bytes → ℕ → ℕ → ℕ
unfolding load_from
load b offset width = load_from width 0 b offset 0

-- `strb & (uint8_t)(1u << i)` as a truth value
abbrev pub lane_on : ℕ → ℕ → Bool
lane_on strb i = not (bit_and strb (u8 (1 <<< i)) == 0)

-- `(uint8_t)((value >> (8u * i)) & 0xFFu)`
abbrev pub lane_byte : ℕ → ℕ → ℕ
lane_byte value i = u8 (bit_and (value >>> (8 * i)) 0xff)

-- The loop of DRAM's write over the lanes, with the rounds that are left first.
unfoldable pub store_from : ℕ → ℕ → Bytes → ℕ → ℕ → ℕ → Bytes
store_from zero i b offset value strb = b
store_from (suc n) i b offset value strb =
    store_from n (i + 1) (if lane_on strb i then update b (offset + i) (lane_byte value i) else b)
      offset value strb

unfoldable pub store : Bytes → ℕ → ℕ → ℕ → ℕ → Bytes
unfolding store_from
store b offset width value strb = store_from width 0 b offset value strb
