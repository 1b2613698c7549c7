-- ===== src/Cpu/CsrFile/Masks.antt =====
-- The masks of include/riscv.svh as fields of the masked number.
use dae_pipeline_cpu.Prelude.{ℕ, ◌+◌, ◌-◌, ◌*◌, ◌/◌, ◌%◌, ◌^◌, ◌≡◌, arith, bit_and, ◌∙◌, ap}
use dae_pipeline_cpu.Bits.{bit_and_above, bit_and_mask, bit_or_above}
use dae_pipeline_cpu.Bits.Digits.{bit_and_digit}
use dae_pipeline_cpu.Cpu.CsrFile.{
  CsrFile, mstatus_mie, mstatus_mpie, mstatus_mask, mie_mask, word_mask, mstatus_o,
}

pub bit_and-single : (k a : ℕ) → bit_and a (2 ^ k) ≡ a / 2 ^ k % 2 * 2 ^ k
bit_and-single k a =
    ap (λ (m : ℕ). bit_and a m) (omega arith)
    ∙ bit_and_above k a 1
    ∙ ap (λ (t : ℕ). t * 2 ^ k) (bit_and_mask 1 (a / 2 ^ k))

pub bit_and-mie : (a : ℕ) → bit_and a mstatus_mie ≡ a / 8 % 2 * 8
bit_and-mie a = bit_and-single 3 a

pub bit_and-mpie : (a : ℕ) → bit_and a mstatus_mpie ≡ a / 128 % 2 * 128
bit_and-mpie a = bit_and-single 7 a

pub bit_and-mask : (a : ℕ) → bit_and a mstatus_mask ≡ a / 8 % 2 * 8 + a / 128 % 2 * 128
bit_and-mask a = omega (
  arith,
  bit_and_above 3 a 17,
  bit_and_digit (a / 8) 17,
  bit_and_above 3 (a / 8 / 2) 1,
  bit_and_mask 1 (a / 8 / 2 / 8),
)

pub bit_and-word : (a : ℕ) → bit_and a word_mask ≡ a / 4 % 2 ^ 30 * 4
bit_and-word a = omega (arith, bit_and_above 2 a (2 ^ 30 - 1), bit_and_mask 30 (a / 4))

pub bit_and-mie_mask :
    (a : ℕ) → bit_and a mie_mask ≡ a / 8 % 2 * 8 + a / 128 % 2 * 128 + a / 2048 % 2 * 2048
bit_and-mie_mask a = omega (
  arith,
  bit_and_above 3 a 273,
  bit_and_digit (a / 8) 273,
  bit_and_above 3 (a / 8 / 2) 17,
  bit_and_digit (a / 8 / 2 / 8) 17,
  bit_and_above 3 (a / 8 / 2 / 8 / 2) 1,
  bit_and_mask 1 (a / 8 / 2 / 8 / 2 / 8),
)

pub mstatus_o_lem :
    (c : CsrFile) → mstatus_o c ≡ c.mstatus_q / 8 % 2 * 8 + c.mstatus_q / 128 % 2 * 128 + 6144
unfolding mstatus_o
mstatus_o_lem c = omega (
  arith,
  bit_and-mask c.mstatus_q,
  bit_or_above 11 3 (bit_and c.mstatus_q mstatus_mask) (omega (arith, bit_and-mask c.mstatus_q)),
)
