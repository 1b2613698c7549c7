-- ===== src/MemoryMap.antt =====
-- devices/common/src/mem_map.c: the registry of devices by address range, with its linear decode.
-- An `addr_t` wraps at 2 ^ 32, and a `size_t` is cut to it where the code casts.
pub mod Layout
pub mod Decode
pub mod Order
pub mod Wrap
use dae_pipeline_cpu.Prelude.{ℕ, ◌+◌, ◌-◌, ◌*◌, ◌%◌, ◌^◌, Bool, true, false, ◌&&◌}
use dae_pipeline_cpu.Prelude.{Option, none, some, List, [], ◌∷◌, ◌++◌}
use dae_pipeline_cpu.Prelude.{ltb, leb, ◌==◌, if◌then◌else◌, length, u32}
use dae_pipeline_cpu.Bus.{AxiResp, decerr, Exec, ret, dev_assert, MmioDevice}
use dae_pipeline_cpu.Bus.{ReadReply, WriteReply, device_read, device_write}
use dae_pipeline_cpu.Alloc.{Alloc, alloc, Status, done, enomem, eexist}

-- `mem_map_unit_t`
pub record MemMapUnit (S : Type 0) : Type 0 where
  pub base : ℕ
  pub size : ℕ
  pub device : MmioDevice S

-- `struct MemoryMap`; `n_units` is the length of the list, and `cap` the room of the array.
pub record MemoryMap (S : Type 0) : Type 0 where
  pub cap : ℕ
  pub units : List (MemMapUnit S)

-- the one-past-the-end address as the code computes it
abbrev pub end_addr : ℕ → ℕ → ℕ
end_addr base size = u32 (base + u32 size)

abbrev pub ranges_overlap : ℕ → ℕ → ℕ → ℕ → Bool
ranges_overlap a_base a_size b_base b_size =
    ltb a_base (end_addr b_base b_size) && ltb b_base (end_addr a_base a_size)

-- the next capacity of the array
abbrev pub grown : ℕ → ℕ
grown room = if room == 0 then 4 else room * 2

module _ {S : Type 0} where
  unfoldable pub ctor : Alloc → Status × Option (MemoryMap S) × Alloc
  ctor al =
      let (given, al') = alloc al in
      if given then (done, some (record { cap = 0; units = [] }), al') else (enomem, none, al')

  -- MemoryMap_dtor frees the array and the map, where there is one, and clears the handle.
  pub dtor : Option (MemoryMap S) → Option (MemoryMap S)
  dtor self = none

  -- the loop of MemoryMap_add_device that rejects an overlap
  unfoldable pub any_overlap : MemMapUnit S → List (MemMapUnit S) → Bool
  any_overlap unit [] = false
  any_overlap unit (u ∷ us) =
      if ranges_overlap unit.base unit.size u.base u.size then true else any_overlap unit us

  -- `self->units[self->n_units++] = unit`
  abbrev pub append_unit : MemoryMap S → MemMapUnit S → MemoryMap S
  append_unit m unit = record m { units = m.units ++ (unit ∷ []) }

  unfoldable pub add_device :
      Alloc → MemoryMap S → MemMapUnit S → Exec (Status × MemoryMap S × Alloc)
  add_device al m unit = dev_assert (ltb 0 unit.size) (
      if any_overlap unit m.units
      then ret (eexist, m, al)
      else if length m.units == m.cap
      then (let (given, al') = alloc al in
          if given
          then ret (done, append_unit (record m { cap = grown m.cap }) unit, al')
          else ret (enomem, m, al'))
      else ret (done, append_unit m unit, al))

  -- the test of find_unit
  abbrev pub hits : MemMapUnit S → ℕ → ℕ → Bool
  hits u addr width = leb u.base addr && leb (u32 (addr + u32 width)) (end_addr u.base u.size)

  unfoldable pub find_unit : List (MemMapUnit S) → ℕ → ℕ → Option (MemMapUnit S)
  find_unit [] addr width = none
  find_unit (u ∷ us) addr width = if hits u addr width then some u else find_unit us addr width

  unfoldable pub read : MemoryMap S → S → ℕ → ℕ → Exec (ReadReply S)
  read m s addr width = elim (find_unit m.units addr width) [
    | none ↦ ret (decerr, 0, s)
    | some u ↦ device_read u.device s (addr - u.base) width
  ]

  unfoldable pub write : MemoryMap S → S → ℕ → ℕ → ℕ → ℕ → Exec (WriteReply S)
  write m s addr width value strb = elim (find_unit m.units addr width) [
    | none ↦ ret (decerr, s)
    | some u ↦ device_write u.device s (addr - u.base) width value strb
  ]
