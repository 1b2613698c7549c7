-- ===== src/Dram.antt =====
-- devices/dram: main memory, a byte array on the heap. The Tickable of the ideal model does nothing.
-- The traits embedded in the struct are the vtables of the store (Bus); the fields here are the rest.
pub mod Access
pub mod Memory
use dae_pipeline_cpu.Prelude.{ℕ, ◌+◌, ◌-◌, ◌*◌, bit_and, Bool, true, false, not, ◌&&◌, ◌==◌, ltb}
use dae_pipeline_cpu.Prelude.{Option, none, some, if◌then◌else◌}
use dae_pipeline_cpu.Bus.{AxiResp, okay, slverr, bad_width, Exec, ret, dev_assert}
use dae_pipeline_cpu.Bytes.{Bytes, zeros, load, store}
use dae_pipeline_cpu.Alloc.{Alloc, alloc, Status, done, enomem, enotsup}

abbrev pub dram_default_size : ℕ
dram_default_size = 64 * 1024 * 1024

-- `dram_model_e`
pub data DramModel : Type 0 where
  ideal abstract : DramModel

pub record Dram : Type 0 where
  pub model : DramModel
  pub backing : Bytes
  pub size_bytes : ℕ

-- `(offset & (width - 1)) != 0`
abbrev pub misaligned : ℕ → ℕ → Bool
misaligned offset width = not (bit_and offset (width - 1) == 0)

unfoldable pub read : Dram → ℕ → ℕ → AxiResp × ℕ
read d offset width =
    if bad_width width
    then (slverr, 0)
    else if misaligned offset width
    then (slverr, 0)
    else if ltb d.size_bytes (offset + width)
    then (slverr, 0)
    else (okay, load d.backing offset width)

unfoldable pub write : Dram → ℕ → ℕ → ℕ → ℕ → AxiResp × Dram
write d offset width value strb =
    if bad_width width
    then (slverr, d)
    else if width == 4 && not (strb == 0xf)
    then (slverr, d)
    else if misaligned offset width
    then (slverr, d)
    else if ltb d.size_bytes (offset + width)
    then (slverr, d)
    else (okay, record d { backing = store d.backing offset width value strb })

unfoldable pub tick : Dram → Dram
tick d = d

-- Two calls of calloc, for the struct and for the backing; the struct is freed if the second fails.
unfoldable pub ctor : Alloc → ℕ → DramModel → Exec (Status × Option Dram × Alloc)
ctor al size model = dev_assert (ltb 0 size) (elim model [
  | abstract ↦ ret (enotsup, none, al)
  | ideal ↦
      (let (given, al') = alloc al in
        let (filled, al'') = alloc al' in
        if given
        then if filled
          then ret (done, some (record { model = ideal; backing = zeros; size_bytes = size }), al'')
          else ret (enomem, none, al'')
        else ret (enomem, none, al'))
])

-- DRAM_dtor frees the backing and the struct, where there is one, and clears the handle.
pub dtor : Option Dram → Option Dram
dtor self = none
