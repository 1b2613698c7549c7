-- ===== src/Hal.antt =====
-- runtime/src/hal/uart.c over the bus of the SoC. A load or store of a `volatile uint32_t` is an
-- access of a word with all strobes; what the processor does with an error response is not read
-- here.
pub mod Driver
pub mod Polling
pub mod Print
use dae_pipeline_cpu.Prelude.{
  ℕ, zero, suc, Bool, true, false, bit_and, ◌==◌, Option, none, some, u8,
}
use dae_pipeline_cpu.Bus.{Exec, ret, ◌>>=◌}
use dae_pipeline_cpu.Soc
use dae_pipeline_cpu.Soc.{Soc}

abbrev pub uart_tx_data : ℕ
uart_tx_data = 0x10001000

abbrev pub uart_status : ℕ
uart_status = 0x10001004

abbrev pub uart_rx_data : ℕ
uart_rx_data = 0x10001008

abbrev pub uart_status_rx_valid : ℕ
uart_status_rx_valid = 2

module _ {W : Type 0} where
  -- the value loaded, and the SoC
  unfoldable pub load : Soc W → ℕ → Exec (ℕ × Soc W)
  load soc addr = Soc.read soc addr 4 >>= λ r. ret (r.1, r.2)

  unfoldable pub store : Soc W → ℕ → ℕ → Exec (Soc W)
  store soc addr value = Soc.write soc addr 4 value 0xf >>= λ r. ret r.1

  unfoldable pub putc : Soc W → ℕ → Exec (Soc W)
  putc soc c = store soc uart_tx_data (u8 c)

  -- uart_try_getc; none is -1.
  unfoldable pub try_getc : Soc W → Exec (Option ℕ × Soc W)
  try_getc soc = load soc uart_status >>= λ r. elim (bit_and r.0 uart_status_rx_valid == 0) [
    | true ↦ ret (none, r.1)
    | false ↦ load r.1 uart_rx_data >>= λ q. store q.1 uart_status uart_status_rx_valid >>= λ soc'.
        ret (some (u8 (bit_and q.0 0xff)), soc')
  ]

  -- uart_getc: each poll that finds no byte takes a round, after which `between` is what the SoC
  -- does before the next. none is a loop that has not ended in these rounds.
  unfoldable pub getc : ℕ → (Soc W → Exec (Soc W)) → Soc W → Exec (Option ℕ × Soc W)
  getc zero between soc = ret (none, soc)
  getc (suc n) between soc = load soc uart_status >>= λ r.
      elim (bit_and r.0 uart_status_rx_valid == 0) [
        | true ↦ between r.1 >>= getc n between
        | false ↦ load r.1 uart_rx_data >>= λ q.
            store q.1 uart_status uart_status_rx_valid >>= λ soc'.
            ret (some (u8 (bit_and q.0 0xff)), soc')
      ]
