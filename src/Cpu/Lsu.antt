-- ===== src/Cpu/Lsu.antt =====
-- src/lsu.sv and src/load_data_filter.sv.
pub mod Lanes
use dae_pipeline_cpu.Prelude.{ℕ, ◌+◌, ◌*◌, ◌^◌, Bool, false, not, ◌==◌, if◌then◌else◌, u32, ◌<<<◌}
use dae_pipeline_cpu.Cpu.Word.{slice, bit_at, extend}
use dae_pipeline_cpu.Cpu.Types.{MemLen, mem_len_1, mem_len_2, mem_len_4}

-- `be_o`, on 4 bits
unfoldable pub be : ℕ → MemLen → ℕ
be addr mem_len_1 = 1 <<< slice addr 1 0
be addr mem_len_2 = if bit_at addr 1 then 12 else 3
be addr mem_len_4 = 15

-- `wdata_o`
unfoldable pub wdata : ℕ → ℕ → MemLen → ℕ
wdata addr store_data mem_len_1 =
    let b = slice store_data 7 0 in
    u32 ((b + b * 2 ^ 8 + b * 2 ^ 16 + b * 2 ^ 24) <<< (8 * slice addr 1 0))
wdata addr store_data mem_len_2 =
    if bit_at addr 1 then slice store_data 15 0 * 2 ^ 16 else slice store_data 15 0
wdata addr store_data mem_len_4 = store_data

-- `misaligned_o`
unfoldable pub misaligned : ℕ → MemLen → Bool
misaligned addr mem_len_1 = false
misaligned addr mem_len_2 = bit_at addr 0
misaligned addr mem_len_4 = not (slice addr 1 0 == 0)

-- `byte_v` and `half_v` of the filter
abbrev pub byte_v : ℕ → ℕ → ℕ
byte_v addr rdata =
    let lane = slice addr 1 0 in
    if lane == 0
    then slice rdata 7 0
    else if lane == 1
    then slice rdata 15 8
    else if lane == 2
    then slice rdata 23 16
    else slice rdata 31 24

abbrev pub half_v : ℕ → ℕ → ℕ
half_v addr rdata = if bit_at addr 1 then slice rdata 31 16 else slice rdata 15 0

-- `value_o`
pub load_data_filter : ℕ → ℕ → MemLen → Bool → ℕ
load_data_filter addr rdata mem_len_1 signext =
    let b = byte_v addr rdata in if signext then extend (bit_at b 7) 24 8 b else b
load_data_filter addr rdata mem_len_2 signext =
    let h = half_v addr rdata in if signext then extend (bit_at h 15) 16 16 h else h
load_data_filter addr rdata mem_len_4 signext = rdata
