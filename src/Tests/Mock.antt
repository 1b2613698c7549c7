-- ===== src/Tests/Mock.antt =====
-- The host test HAL after a few characters.
use dae_pipeline_cpu.Prelude.{◌≡◌, arith, min, [], ◌∷◌}
use dae_pipeline_cpu.MockHal.{MockHal, mock_uart_get, mock_uart_len, mock_uart_reset}
use dae_pipeline_cpu.MockHal.Capture.{sends, capture_lem}

-- A buffer with an earlier output in it.
abbrev used : MockHal
used = record {
  mock_uart_buf = λ i. 0x2e;
  mock_uart_pos = 17;
  mock_rx_buf = λ i. 0;
  mock_rx_head = 0;
  mock_rx_tail = 0;
}

abbrev sent : MockHal
sent = sends (mock_uart_reset used) (0x6f ∷ 0x6b ∷ [])

capture_lem_example :
    (mock_uart_len sent ≡ min 2 4095)
    × ((mock_uart_get sent).0 1 ≡ 0x6b)
    × ((mock_uart_get sent).0 (mock_uart_len sent) ≡ 0)
    × ((mock_uart_get sent).1.mock_uart_buf ≡ (mock_uart_get sent).0)
capture_lem_example = capture_lem used (0x6f ∷ 0x6b ∷ []) 1 (omega arith)
