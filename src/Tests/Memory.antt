-- ===== src/Tests/Memory.antt =====
-- A DRAM of 4 KiB and the boot ROM.
use dae_pipeline_cpu.Prelude.{ℕ, zero, suc, ◌/◌, ◌≡◌, refl, arith, ◌%◌, ◌<◌}
use dae_pipeline_cpu.Bus.{okay, slverr, ret, vtbl_at, MmioDevice, device_read, device_write}
use dae_pipeline_cpu.Bytes
use dae_pipeline_cpu.Bytes.{Bytes, zeros, IsBytes}
use dae_pipeline_cpu.BootRom
use dae_pipeline_cpu.BootRom.{boot_rom_stub_w1}
use dae_pipeline_cpu.Bytes.Store.{StrobeBit}
use dae_pipeline_cpu.Dram.{Dram, ideal, read, write}
use dae_pipeline_cpu.Dram.Access.{AcceptsWrite}
use dae_pipeline_cpu.Dram.Memory.{read-write}

abbrev page : Dram
page = record { model = ideal; backing = zeros; size_bytes = 0x1000 }

zeros-IsBytes : IsBytes zeros
zeros-IsBytes i = omega arith

half_word : AcceptsWrite page 0x10 2 0x3
half_word = ground arith

both_lanes : (i : ℕ) → i < 2 → StrobeBit 0x3 i
both_lanes zero h = refl
both_lanes (suc zero) h = refl
both_lanes (suc (suc i)) h = absurd (omega arith)

read-write_example : read (write page 0x10 2 0xabcdeeff 0x3).1 0x10 2 ≡ (okay, 0xeeff)
read-write_example = read-write page 0x10 2 0xabcdeeff 0x3 zeros-IsBytes half_word both_lanes

-- Memory past the end of the allocation that holds something else.
abbrev beyond : Bytes
beyond i = i / 0x1000 % 256

-- The ROM behind the decorator.
abbrev rom_device : MmioDevice BootRom.BootRom
rom_device = vtbl_at (λ r. r) (λ r r'. r') BootRom.read BootRom.write

read_stub : device_read rom_device BootRom.ctor 4 4 ≡ ret (okay, boot_rom_stub_w1, BootRom.ctor)
unfolding BootRom.read BootRom.ctor Bytes.load
read_stub = refl

write_stub : device_write rom_device BootRom.ctor 4 4 0 0xf ≡ ret (slverr, BootRom.ctor)
unfolding BootRom.write
write_stub = refl
