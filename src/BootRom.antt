-- ===== src/BootRom.antt =====
-- devices/boot_rom: 4 KiB of read-only memory at address 0 with the two instructions of the stub.
pub mod Laws
use dae_pipeline_cpu.Prelude.{ℕ, ◌+◌, bit_and, Bool, ltb, if◌then◌else◌, u8, ◌>>>◌}
use dae_pipeline_cpu.Bus.{AxiResp, okay, slverr, bad_width}
use dae_pipeline_cpu.Bytes.{Bytes, update, zeros, load}

abbrev pub boot_rom_size : ℕ
boot_rom_size = 0x1000

-- `lui x1, 0x80000` and `jalr x0, x1, 0`
abbrev pub boot_rom_stub_w0 : ℕ
boot_rom_stub_w0 = 0x800000b7

abbrev pub boot_rom_stub_w1 : ℕ
boot_rom_stub_w1 = 0x00008067

pub record BootRom : Type 0 where
  pub rom : Bytes

abbrev pub store_le32 : Bytes → ℕ → ℕ → Bytes
store_le32 b dst value =
    update
      (update
        (update (update b dst (u8 (bit_and (value >>> 0) 0xff))) (dst + 1)
          (u8 (bit_and (value >>> 8) 0xff)))
        (dst + 2) (u8 (bit_and (value >>> 16) 0xff)))
      (dst + 3) (u8 (bit_and (value >>> 24) 0xff))

unfoldable pub read : BootRom → ℕ → ℕ → AxiResp × ℕ
read r offset width =
    if bad_width width
    then (slverr, 0)
    else if ltb boot_rom_size (offset + width)
    then (slverr, 0)
    else (okay, load r.rom offset width)

-- Every write is refused.
unfoldable pub write : BootRom → ℕ → ℕ → ℕ → ℕ → AxiResp × BootRom
write r offset width value strb = (slverr, r)

unfoldable pub ctor : BootRom
ctor = record { rom = store_le32 (store_le32 zeros 0 boot_rom_stub_w0) 4 boot_rom_stub_w1 }
