-- ===== src/IrqAgg/Registers.antt =====
-- PENDING and ENABLE as software sees them.
use Prim.Native.Nat.{bit_and-bitwise}
use dae_pipeline_cpu.Prelude.{Bool-cases}
use dae_pipeline_cpu.Prelude.{
  ℕ, zero, suc, ◌*◌, ◌%◌, ◌^◌, ◌<◌, ◌≡◌, refl, ◌≢◌, ◌⊎◌, inl, inr, arith,
}
use dae_pipeline_cpu.Prelude.{bit_and, bit_or, ◌&&◌, ◌==◌, if◌then◌else◌}
use dae_pipeline_cpu.Bits.{bit_and_mask}
use dae_pipeline_cpu.Bus.{okay, slverr}
use dae_pipeline_cpu.IrqAgg.{IrqAgg, read, write, meip_wire, complement}
use dae_pipeline_cpu.IrqAgg.{irq_agg_offset_pending, irq_agg_offset_enable, irq_agg_bit_uart_rx}

-- Bits 1 to 31 of both registers are 0.
pub record IsValid (a : IrqAgg) : Type 0 where
  pub pending_bit : a.pending < 2
  pub enable_bit : a.enable < 2

pub zero-bit_and : (b : ℕ) → bit_and 0 b ≡ 0
zero-bit_and b = bit_and-bitwise 0 b

-- Writing 1 to a latched bit clears it, and writing 0 does not.
clear_bit : (p v : ℕ) → p < 2 → bit_and p (complement (bit_and v 1)) ≡ (if v % 2 == 1 then 0 else p)
clear_bit zero v h = rw zero-bit_and (ground arith)
clear_bit (suc zero) v h = elim (Bool-cases (v % 2 == 1)) [
  | inl one ↦ let e : bit_and v 1 ≡ 1 = ground (arith, bit_and_mask 1 v) in rw (one, e)
  | inr other ↦ let e : bit_and v 1 ≡ 0 = ground (arith, bit_and_mask 1 v) in rw (other, e)
]
clear_bit (suc (suc p)) v h = absurd (omega arith)

one_bits : (p q : ℕ) → p < 2 → q < 2 → bit_and (bit_and p q) 1 ≡ p * q
one_bits zero q h k = rw (zero-bit_and, zero-bit_and) (omega arith)
one_bits (suc zero) zero h k = refl
one_bits (suc zero) (suc zero) h k = refl
one_bits (suc zero) (suc (suc q)) h k = absurd (omega arith)
one_bits (suc (suc p)) q h k = absurd (omega arith)

-- Setting bit 0 of a valid register.
pub set_bit : (p : ℕ) → p < 2 → bit_or p (2 ^ irq_agg_bit_uart_rx) ≡ 1
set_bit zero h = refl
set_bit (suc zero) h = refl
set_bit (suc (suc p)) h = absurd (omega arith)

-- The wire is the conjunction of the two bits.
pub meip_wire_lem : (a : IrqAgg) → IsValid a → meip_wire a ≡ (a.pending == 1) && (a.enable == 1)
unfolding meip_wire
meip_wire_lem a v = ground (arith, one_bits a.pending a.enable)

-- A word read of either register gives its bit.
pub read_lem :
    (a : IrqAgg)
    → IsValid a
    → (read a irq_agg_offset_pending 4 ≡ (okay, a.pending))
      × (read a irq_agg_offset_enable 4 ≡ (okay, a.enable))
unfolding read
read_lem a v = (ground (arith, bit_and_mask 1 a.pending), ground (arith, bit_and_mask 1 a.enable))

-- A word write to PENDING clears the bit where the value has it set, and one to ENABLE stores it.
pub write_lem :
    (a : IrqAgg) (value : ℕ)
    → IsValid a
    → (write a irq_agg_offset_pending 4 value 0xf
        ≡ (okay, record a { pending = if value % 2 == 1 then 0 else a.pending }))
      × (write a irq_agg_offset_enable 4 value 0xf ≡ (okay, record a { enable = value % 2 }))
unfolding write
write_lem a value v = (rw (clear_bit a.pending value v.pending_bit), rw (bit_and_mask 1 value))

-- What any write leaves, by the tests of the code read as equations of numbers.
pub write_at :
    (a : IrqAgg) (offset width value strb : ℕ)
    → IsValid a
    → (write a offset width value strb).1 ≡ (
        if width == 4 && strb == 0xf
        then if offset == 0
          then record a { pending = if value % 2 == 1 then 0 else a.pending }
          else if offset == 4
          then record a { enable = value % 2 }
          else a
        else a)
unfolding write
write_at a offset width value strb v =
    ground (arith, bit_and_mask 2 offset, clear_bit a.pending value, bit_and_mask 1 value)

-- A write of another width, with another strobe, or at an offset of neither register, is a
-- subordinate error and changes nothing.
pub write_refused :
    (a : IrqAgg) (offset width value strb : ℕ)
    → (width ≢ 4) ⊎ (strb ≢ 0xf) ⊎ (offset ≢ 0) × (offset ≢ 4)
    → write a offset width value strb ≡ (slverr, a)
unfolding write
write_refused a offset width value strb (inl ne) = ground arith
write_refused a offset width value strb (inr (inl ne)) = ground arith
write_refused a offset width value strb (inr (inr n)) = ground arith
