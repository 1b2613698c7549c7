-- ===== src/Uart.antt =====
-- devices/uart: the serial port, with a receive buffer of one byte.
pub mod Registers
pub mod Stream
use dae_pipeline_cpu.Prelude.{ℕ, bit_and, Bool, true, false, not, ◌&&◌, ◌==◌, if◌then◌else◌, u8}
use dae_pipeline_cpu.Prelude.{Option, none, some}
use dae_pipeline_cpu.Bus.{AxiResp, okay, slverr, bad_width}
use dae_pipeline_cpu.Host.{Host, File, stdout}
use dae_pipeline_cpu.IrqAgg.{IrqAgg, set_uart_rx_edge}

abbrev pub uart_tx_data : ℕ
uart_tx_data = 0x0

abbrev pub uart_status : ℕ
uart_status = 0x4

abbrev pub uart_rx_data : ℕ
uart_rx_data = 0x8

-- bit 1 of STATUS
abbrev pub status_rx_valid_bit : ℕ
status_rx_valid_bit = 2

-- `out` may be NULL; `terminal` and `irq` say whether the two pointers are set. The aggregator
-- that `irq` points to and the terminal are passed to the functions that use them.
pub record Uart : Type 0 where
  pub out : Option File
  pub terminal : Bool
  pub irq : Bool
  pub rx_byte : ℕ
  pub rx_valid : Bool

unfoldable pub read : Uart → ℕ → ℕ → AxiResp × ℕ
read u offset width =
    if bad_width width
    then (slverr, 0)
    else if offset == uart_tx_data
    then (slverr, 0)
    else if offset == uart_status
    then (okay, if u.rx_valid then status_rx_valid_bit else 0)
    else if offset == uart_rx_data
    then (okay, if u.rx_valid then u.rx_byte else 0)
    else (slverr, 0)

-- `(self->out != NULL) ? self->out : stdout`
abbrev pub sink : Option File → File
sink none = stdout
sink (some f) = f

unfoldable pub ctor : Option File → Bool → Uart
ctor out terminal = record {
  out = out;
  terminal = terminal;
  irq = false;
  rx_byte = 0;
  rx_valid = false;
}

unfoldable pub set_irq_agg : Uart → Bool → Uart
set_irq_agg u connected = record u { irq = connected }

-- A byte arrives in the buffer; the wire to the aggregator is raised if that is a rising edge.
unfoldable pub inject_rx_byte : Uart → IrqAgg → ℕ → Uart × IrqAgg
inject_rx_byte u a byte = (
  record u { rx_byte = u8 byte; rx_valid = true },
  if not u.rx_valid && u.irq then set_uart_rx_edge a true else a,
)

module _ {W : Type 0} (host : Host W) where
  unfoldable pub write : Uart × W → ℕ → ℕ → ℕ → ℕ → AxiResp × (Uart × W)
  write (u, w) offset width value strb =
      if bad_width width
      then (slverr, (u, w))
      else if width == 4 && not (strb == 0xf)
      then (slverr, (u, w))
      else if offset == uart_tx_data
      then (let (written, w') = host.fputc w (sink u.out) (bit_and value 0xff) in
          if written then (okay, (u, w')) else (slverr, (u, w')))
      else if offset == uart_status
      then (if bit_and value status_rx_valid_bit == 0
          then (okay, (u, w))
          else (okay, (record u { rx_valid = false; rx_byte = 0 }, w)))
      else (slverr, (u, w))

  -- terminal_backend_try_read, where the buffer is empty and a terminal is set
  unfoldable pub tick : Uart → IrqAgg → W → Uart × IrqAgg × W
  tick u a w =
      if not u.rx_valid && u.terminal
      then (let (got, w') = host.read_byte w in
          elim got [
            | none ↦ (u, a, w')
            | some byte ↦ (
              record u { rx_byte = u8 byte; rx_valid = true },
              if u.irq then set_uart_rx_edge a true else a,
              w',
            )
          ])
      else (u, a, w)
