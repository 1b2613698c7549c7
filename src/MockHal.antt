-- ===== src/MockHal.antt =====
-- runtime/host_tests/mock_hal.c: the hardware that the host tests link instead of runtime/src/hal.
-- An array is its content by index.
pub mod Capture
pub mod Reset
use dae_pipeline_cpu.Prelude.{
  ℕ, zero, suc, ◌+◌, ◌-◌, ◌*◌, ◌/◌, ◌%◌, ◌==◌, ltb, if◌then◌else◌, Option, none, some, List, [],
  ◌∷◌,
}
use dae_pipeline_cpu.Bus.{Exec, abort, ret}
use dae_pipeline_cpu.Bytes.{Bytes, update}
use dae_pipeline_cpu.Runtime.Heap.{Heap, free}

abbrev pub mock_uart_cap : ℕ
mock_uart_cap = 4096

abbrev pub mock_rx_cap : ℕ
mock_rx_cap = 256

abbrev pub mock_heap_bytes : ℕ
mock_heap_bytes = 64 * 1024

-- The static variables.
pub record MockHal : Type 0 where
  pub mock_uart_buf : Bytes
  pub mock_uart_pos : ℕ
  pub mock_rx_buf : Bytes
  pub mock_rx_head : ℕ
  pub mock_rx_tail : ℕ

pub uart_putc : MockHal → ℕ → MockHal
uart_putc m c =
    if ltb m.mock_uart_pos (mock_uart_cap - 1)
    then record m {
      mock_uart_buf = update m.mock_uart_buf m.mock_uart_pos c;
      mock_uart_pos = m.mock_uart_pos + 1;
    }
    else m

pub uart_status : ℕ
uart_status = 0

-- none is -1.
pub uart_try_getc : MockHal → Option ℕ × MockHal
uart_try_getc m = if m.mock_rx_head == m.mock_rx_tail then (none, m) else (
  some (m.mock_rx_buf m.mock_rx_head),
  record m { mock_rx_head = (m.mock_rx_head + 1) % mock_rx_cap },
)

-- An empty queue ends the process.
pub uart_getc : MockHal → Exec (ℕ × MockHal)
uart_getc m = let (c, m') = uart_try_getc m in elim c [ none ↦ abort | some b ↦ ret (b, m') ]

-- The string is terminated, and the buffer is the string.
pub mock_uart_get : MockHal → Bytes × MockHal
mock_uart_get m =
    let buf = update m.mock_uart_buf m.mock_uart_pos 0 in (buf, record m { mock_uart_buf = buf })

pub mock_uart_len : MockHal → ℕ
mock_uart_len m = m.mock_uart_pos

pub mock_uart_reset : MockHal → MockHal
mock_uart_reset m = record m { mock_uart_pos = 0 }

pub mock_heap_size : ℕ
mock_heap_size = mock_heap_bytes

-- The loop of mock_heap_reset over `i`, a step of 4 a round, with the rounds that are left.
pub release : ℕ → ℕ → Heap → Heap
release sheap zero h = h
release sheap (suc n) h = release sheap n (free sheap sheap h 0)

pub mock_heap_reset : ℕ → Heap → Heap
mock_heap_reset sheap h = release sheap (mock_heap_bytes / 4) h
