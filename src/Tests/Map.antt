-- ===== src/Tests/Map.antt =====
-- The memory map with a boot ROM and a small DRAM.
use mathlib.Core.List.{Memᴰ}
use mathlib.Core.List.Permᴰ.{swap}
use dae_pipeline_cpu.Prelude.{ℕ, ◌≡◌, refl, arith, [], ◌∷◌}
use dae_pipeline_cpu.Bus.{ret, vtbl_at, device_read, MmioDevice}
use dae_pipeline_cpu.Bytes.{zeros}
use dae_pipeline_cpu.Alloc.{Alloc, Status}
use dae_pipeline_cpu.MemoryMap.{MemMapUnit, MemoryMap, read, write, add_device}
use dae_pipeline_cpu.MemoryMap.Layout.{IsValid, Added, add_device_lem}
use dae_pipeline_cpu.MemoryMap.Decode.{Covers}
use dae_pipeline_cpu.MemoryMap.Order.{access-perm}
use dae_pipeline_cpu.MemoryMap.Wrap.{read-past_end}
use dae_pipeline_cpu.BootRom
use dae_pipeline_cpu.BootRom.{BootRom}
use dae_pipeline_cpu.Dram
use dae_pipeline_cpu.Dram.{Dram}

abbrev Store : Type 0
Store = BootRom × Dram

abbrev rom_view : MmioDevice Store
rom_view = vtbl_at (λ s. s.0) (λ s r. (r, s.1)) BootRom.read BootRom.write

abbrev dram_view : MmioDevice Store
dram_view = vtbl_at (λ s. s.1) (λ s d. (s.0, d)) Dram.read Dram.write

abbrev rom_unit : MemMapUnit Store
rom_unit = record { base = 0; size = 0x1000; device = rom_view }

abbrev dram_unit : MemMapUnit Store
dram_unit = record { base = 0x80000000; size = 0x1000; device = dram_view }

abbrev one_unit : MemoryMap Store
one_unit = record { cap = 4; units = rom_unit ∷ [] }

abbrev two_units : MemoryMap Store
two_units = record { cap = 4; units = rom_unit ∷ dram_unit ∷ [] }

abbrev swapped : MemoryMap Store
swapped = record { cap = 8; units = dram_unit ∷ rom_unit ∷ [] }

abbrev store : Store
store = (BootRom.ctor, record { model = Dram.ideal; backing = zeros; size_bytes = 0x1000 })

one_unit-IsValid : IsValid one_unit
one_unit-IsValid = omega arith

two_units-IsValid : IsValid two_units
two_units-IsValid = omega arith

add_device_lem_example :
    (st : Status) × (m : MemoryMap Store) × (al : Alloc) × (add_device [] one_unit dram_unit
      ≡ ret (st, m, al))
    × IsValid m
    × Added [] one_unit dram_unit st m
add_device_lem_example = add_device_lem [] one_unit dram_unit one_unit-IsValid (omega arith)

access-perm_example :
    (read two_units store 0x80000100 4 ≡ read swapped store 0x80000100 4)
    × ((value strb : ℕ)
        → write two_units store 0x80000100 4 value strb
          ≡ write swapped store 0x80000100 4 value strb)
access-perm_example =
    access-perm two_units swapped store 0x80000100 4 (omega arith) (omega arith) two_units-IsValid
      (swap refl refl)

read-past_end_example :
    ((v : MemMapUnit Store) → Memᴰ v (rom_unit ∷ dram_unit ∷ []) → ¬ (Covers v 0xfffffffe 4))
    × (read two_units store 0xfffffffe 4 ≡ device_read rom_view store 0xfffffffe 4)
read-past_end_example =
    read-past_end 0xfffffffe 4 (omega arith) (omega arith) (omega arith) two_units store rom_unit
      (dram_unit ∷ []) two_units-IsValid refl (omega arith) (omega arith)
