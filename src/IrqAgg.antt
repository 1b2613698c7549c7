-- ===== src/IrqAgg.antt =====
-- devices/irq_agg: the interrupt aggregator, an edge latch for one source with a mask.
pub mod Registers
pub mod Latch
use dae_pipeline_cpu.Prelude.{ℕ, ◌-◌, ◌^◌, bit_and, bit_or, Bool, true, false, not, ◌||◌, ◌==◌}
use dae_pipeline_cpu.Prelude.{if◌then◌else◌, u32}
use dae_pipeline_cpu.Bus.{AxiResp, okay, slverr}

abbrev pub irq_agg_size : ℕ
irq_agg_size = 0x1000

abbrev pub irq_agg_offset_pending : ℕ
irq_agg_offset_pending = 0x0

abbrev pub irq_agg_offset_enable : ℕ
irq_agg_offset_enable = 0x4

-- bit 0, the only source
abbrev pub irq_agg_bit_uart_rx : ℕ
irq_agg_bit_uart_rx = 0

abbrev pub irq_agg_valid_mask : ℕ
irq_agg_valid_mask = 0x1

pub record IrqAgg : Type 0 where
  pub pending : ℕ
  pub enable : ℕ
  pub uart_rx_edge : Bool

-- `~x` of a uint32_t
abbrev pub complement : ℕ → ℕ
complement x = 2 ^ 32 - 1 - x

unfoldable pub read : IrqAgg → ℕ → ℕ → AxiResp × ℕ
read a offset width =
    if not (width == 4) || not (bit_and offset 0x3 == 0)
    then (slverr, 0)
    else if offset == irq_agg_offset_pending
    then (okay, bit_and a.pending irq_agg_valid_mask)
    else if offset == irq_agg_offset_enable
    then (okay, bit_and a.enable irq_agg_valid_mask)
    else (slverr, 0)

unfoldable pub write : IrqAgg → ℕ → ℕ → ℕ → ℕ → AxiResp × IrqAgg
write a offset width value strb =
    if not (width == 4) || not (strb == 0xf) || not (bit_and offset 0x3 == 0)
    then (slverr, a)
    else if offset == irq_agg_offset_pending
    then (
      okay,
      record a { pending = bit_and a.pending (complement (bit_and value irq_agg_valid_mask)) },
    )
    else if offset == irq_agg_offset_enable
    then (okay, record a { enable = bit_and value irq_agg_valid_mask })
    else (slverr, a)

-- The edge is latched and taken back, so that one pulse is one event.
unfoldable pub tick : IrqAgg → IrqAgg
tick a = record a {
  pending = if a.uart_rx_edge then bit_or a.pending (2 ^ irq_agg_bit_uart_rx) else a.pending;
  uart_rx_edge = false;
}

unfoldable pub ctor : IrqAgg
ctor = record { pending = 0; enable = 0; uart_rx_edge = false }

unfoldable pub meip_wire : IrqAgg → Bool
meip_wire a = not (bit_and (bit_and a.pending a.enable) irq_agg_valid_mask == 0)

unfoldable pub set_uart_rx_edge : IrqAgg → Bool → IrqAgg
set_uart_rx_edge a e = record a { uart_rx_edge = e }
