-- ===== src/Cpu/TbTop/Memory.antt =====
-- The DRAM of the SoC as the loads and stores of the processor see it.
use dae_pipeline_cpu.Prelude.{
  ℕ, zero, suc, ◌+◌, ◌-◌, ◌%◌, ◌^◌, ◌≤◌, ◌<◌, ◌≡◌, refl, arith, Bool, true, false, ◌∙◌,
}
use dae_pipeline_cpu.Bus.{okay, ret}
use dae_pipeline_cpu.Bytes.{store}
use dae_pipeline_cpu.Bytes.Load.{IsWidth}
use dae_pipeline_cpu.Bytes.Store.{StrobeBit, store-IsBytes}
use dae_pipeline_cpu.Host.{Host}
use dae_pipeline_cpu.Dram.Access.{AcceptsWrite, write_ok}
use dae_pipeline_cpu.Soc
use dae_pipeline_cpu.Soc.{Soc}
use dae_pipeline_cpu.Soc.Decode.{Window, window_lem}
use dae_pipeline_cpu.Soc.Run.{IsRunning, devices-IsRunning}
use dae_pipeline_cpu.ElfLoader.Steps.{dram_with}
use dae_pipeline_cpu.Dpi.Program.{width_pos, offset_aligned}
use dae_pipeline_cpu.Cpu.Types.{MemReq, MemLen, mem_len_1, mem_len_2, mem_len_4}
use dae_pipeline_cpu.Cpu.Word.{slice, bit_at}
use dae_pipeline_cpu.Cpu.Lsu.{be, wdata}
use dae_pipeline_cpu.Cpu.Lsu.Lanes.{bytes}
use dae_pipeline_cpu.Cpu.TbTop.{dpi_access}

-- The request of a store, and what the bench makes of it.
abbrev pub store_req : ℕ → ℕ → MemLen → MemReq
store_req addr v len = record {
  req_valid = true;
  addr = addr;
  we = true;
  be = be addr len;
  wdata = wdata addr v len;
}

-- The value on the bus agrees with the register in the bytes of the access.
pub record Access (v : ℕ) (len : MemLen) (access : ℕ × ℕ × ℕ) : Type 0 where
  pub width_is : access.0 ≡ bytes len
  pub value_is : access.1 % 256 ^ bytes len ≡ v % 256 ^ bytes len
  pub strobe_is : access.2 ≡ 2 ^ bytes len - 1

byte-Access :
    (addr v k : ℕ)
    → slice addr 1 0 ≡ k
    → k < 4
    → Access v mem_len_1 (dpi_access (store_req addr v mem_len_1))
unfolding be wdata dpi_access
byte-Access addr v zero e h =
    rw e record { width_is = refl; value_is = omega arith; strobe_is = refl }
byte-Access addr v (suc zero) e h =
    rw e record { width_is = refl; value_is = omega arith; strobe_is = refl }
byte-Access addr v (suc (suc zero)) e h =
    rw e record { width_is = refl; value_is = omega arith; strobe_is = refl }
byte-Access addr v (suc (suc (suc zero))) e h =
    rw e record { width_is = refl; value_is = omega arith; strobe_is = refl }
byte-Access addr v (suc (suc (suc (suc k)))) e h = absurd (omega arith)

half-Access :
    (addr v : ℕ) (upper : Bool)
    → bit_at addr 1 ≡ upper
    → Access v mem_len_2 (dpi_access (store_req addr v mem_len_2))
unfolding be wdata dpi_access
half-Access addr v true e =
    rw e record { width_is = refl; value_is = omega arith; strobe_is = refl }
half-Access addr v false e =
    rw e record { width_is = refl; value_is = omega arith; strobe_is = refl }

pub store-Access : (addr v : ℕ) (len : MemLen) → Access v len (dpi_access (store_req addr v len))
unfolding be wdata dpi_access
store-Access addr v mem_len_1 = byte-Access addr v (slice addr 1 0) refl (omega arith)
store-Access addr v mem_len_2 = half-Access addr v (bit_at addr 1) refl
store-Access addr v mem_len_4 = record { width_is = refl; value_is = refl; strobe_is = refl }

-- The strobe of a store has every lane of its width.
pub full_strobe :
    (width strb i : ℕ) → IsWidth width → strb ≡ 2 ^ width - 1 → i < width → StrobeBit strb i
full_strobe width strb zero lanes e h = ground arith
full_strobe width strb (suc zero) lanes e h = ground arith
full_strobe width strb (suc (suc zero)) lanes e h = ground arith
full_strobe width strb (suc (suc (suc zero))) lanes e h = ground arith
full_strobe width strb (suc (suc (suc (suc i)))) lanes e h = ground arith

module _ {W : Type 0} (host : Host W) where
  abbrev pub with_store : Soc W → ℕ → ℕ → ℕ → ℕ → Soc W
  with_store soc addr width value strb = record soc {
    devices = dram_with soc (store soc.devices.dram.backing (addr - 0x80000000) width value strb);
  }

  pub dram_write :
      (soc : Soc W) (addr width value strb : ℕ)
      → IsRunning host soc
      → IsWidth width
      → addr % width ≡ 0
      → 0x80000000 ≤ addr
      → addr + width ≤ 0x84000000
      → strb ≡ 2 ^ width - 1
      → Soc.write soc addr width value strb ≡ ret (okay, with_store soc addr width value strb)
  dram_write soc addr width value strb r lanes aligned low high full =
      let pos = width_pos width lanes in
      let routed =
        (window_lem host soc Window.dram addr width r.mapped pos (omega arith)).1 value strb in
      let accepted : AcceptsWrite soc.devices.dram (addr - 0x80000000) width strb = record {
        access = record {
          lanes = lanes;
          aligned = offset_aligned addr width lanes aligned low;
          inside = omega (arith, r.sound.dram_size);
        };
        strobes = λ e. rw (full, e) refl;
      } in
      routed ∙ rw (write_ok soc.devices.dram (addr - 0x80000000) width value strb accepted) refl

  pub with_store-IsRunning :
      (soc : Soc W) (addr width value strb : ℕ)
      → IsRunning host soc
      → IsRunning host (with_store soc addr width value strb)
  with_store-IsRunning soc addr width value strb r =
      let b = store soc.devices.dram.backing (addr - 0x80000000) width value strb in
      devices-IsRunning host soc (dram_with soc b) r record {
        rom = r.sound.rom;
        clint = r.sound.clint;
        irq_agg = r.sound.irq_agg;
        rx_byte = r.sound.rx_byte;
        wired = r.sound.wired;
        attached = r.sound.attached;
        dram_bytes =
            store-IsBytes soc.devices.dram.backing (addr - 0x80000000) width value strb
              r.sound.dram_bytes;
        dram_size = r.sound.dram_size;
      }
