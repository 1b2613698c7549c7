-- ===== src/Uart/Registers.antt =====
-- The three registers as software sees them.
use dae_pipeline_cpu.Prelude.{ℕ, ◌/◌, ◌%◌, ◌≡◌, ◌≢◌, ◌⊎◌, inl, inr, arith}
use dae_pipeline_cpu.Prelude.{bit_and, Bool, false, not, ◌&&◌, ◌==◌, if◌then◌else◌, Bool-cases}
use dae_pipeline_cpu.Prelude.{Option, none, some}
use dae_pipeline_cpu.Bits.{bit_and_mask, bit_and_above}
use dae_pipeline_cpu.Bus.{AxiResp, okay, slverr, bad_width}
use dae_pipeline_cpu.Bytes.Load.{IsWidth, bad_width_iff}
use dae_pipeline_cpu.Host.{Host}
use dae_pipeline_cpu.Uart.{Uart, read, write, sink, uart_tx_data, uart_status, uart_rx_data}

-- The receive buffer.
abbrev pub buffer : Uart → Option ℕ
buffer u = if u.rx_valid then some u.rx_byte else none

-- What STATUS and RX_DATA read for a buffer.
abbrev pub status_of : Option ℕ → ℕ
status_of none = 0
status_of (some b) = 2

abbrev pub data_of : Option ℕ → ℕ
data_of none = 0
data_of (some b) = b

-- A strobe that a width accepts.
abbrev pub IsStrobed : ℕ → ℕ → Type 0
IsStrobed width strb = (width ≢ 4) ⊎ (strb ≡ 0xf)

-- The bit of STATUS that pops the buffer.
abbrev pub pops : ℕ → Bool
pops value = value / 2 % 2 == 1

pops_lem : (value : ℕ) → (bit_and value 2 == 0) ≡ not (pops value)
pops_lem value = ground (arith, bit_and_above 1 value 1, bit_and_mask 1 (value / 2))

-- At every legal width STATUS shows whether the buffer holds a byte and RX_DATA the byte, and
-- TX_DATA cannot be read. The offsets of no register are refused.
pub read_lem :
    (u : Uart) (offset width : ℕ)
    → IsWidth width
    → read u offset width ≡ (
        if offset == uart_status
        then (okay, status_of (buffer u))
        else if offset == uart_rx_data
        then (okay, data_of (buffer u))
        else (slverr, 0))
unfolding read
read_lem u offset width w = ground (arith, (bad_width_iff width).1 w)

-- The buffer after a pop.
abbrev pub emptied : Uart → Uart
emptied u = record u { rx_valid = false; rx_byte = 0 }

module _ {W : Type 0} (host : Host W) where
  -- TX_DATA: the low byte goes to the stream, and the answer is an error exactly if that fails.
  abbrev pub transmit : Uart → W → ℕ → AxiResp × (Uart × W)
  transmit u w value =
      let (written, w') = host.fputc w (sink u.out) (value % 256) in
      (if written then okay else slverr, (u, w'))

  -- At every legal width and strobe a write to TX_DATA sends the low byte, and one to STATUS pops
  -- the buffer if bit 1 is set and does nothing else; RX_DATA and the other offsets are refused.
  pub write_lem :
      (u : Uart) (w : W) (offset width value strb : ℕ)
      → IsWidth width
      → IsStrobed width strb
      → write host (u, w) offset width value strb ≡ (
          if offset == uart_tx_data
          then transmit u w value
          else if offset == uart_status
          then (okay, (if pops value then emptied u else u, w))
          else (slverr, (u, w)))
  unfolding write
  write_lem u w offset width value strb lanes strobed =
      let good = (bad_width_iff width).1 lanes in
      let full : (width == 4 && not (strb == 0xf)) ≡ false = ground arith in
      rw (good, full, pops_lem value, bit_and_mask 8 value) (ground arith)

  -- Another width, or a partial strobe of a word, is refused before anything is touched.
  pub write_refused :
      (u : Uart) (w : W) (offset width value strb : ℕ)
      → (¬ (IsWidth width)) ⊎ (width ≡ 4) × (strb ≢ 0xf)
      → write host (u, w) offset width value strb ≡ (slverr, (u, w))
  unfolding write
  write_refused u w offset width value strb (inl n) = elim (Bool-cases (bad_width width)) [
    | inl bad ↦ rw bad
    | inr good ↦ absurd (n ((bad_width_iff width).0 good))
  ]
  write_refused u w offset width value strb (inr n) = ground arith
