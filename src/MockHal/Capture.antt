-- ===== src/MockHal/Capture.antt =====
-- The output that the mock captures.
use dae_pipeline_cpu.Prelude.{
  ℕ, zero, suc, ◌+◌, ◌≤◌, ◌<◌, ◌≡◌, refl, ◌∙◌, sym, arith, min, ◌==◌, ltb, if◌then◌else◌, List, [],
  ◌∷◌, length, get_or,
}
use dae_pipeline_cpu.MockHal.{MockHal, uart_putc, mock_uart_get, mock_uart_len, mock_uart_reset}

pub sends : MockHal → List ℕ → MockHal
sends m [] = m
sends m (c ∷ cs) = sends (uart_putc m c) cs

putc_pos :
    (m : MockHal) (c : ℕ)
    → (uart_putc m c).mock_uart_pos
      ≡ (if ltb m.mock_uart_pos 4095 then m.mock_uart_pos + 1 else m.mock_uart_pos)
unfolding uart_putc
putc_pos m c = ground arith

putc_buf :
    (m : MockHal) (c i : ℕ)
    → (uart_putc m c).mock_uart_buf i ≡ (
        if ltb m.mock_uart_pos 4095
        then (if i == m.mock_uart_pos then c else m.mock_uart_buf i)
        else m.mock_uart_buf i)
unfolding uart_putc
putc_buf m c i = ground arith

sends_pos :
    (cs : List ℕ) (m : MockHal)
    → m.mock_uart_pos ≤ 4095
    → (sends m cs).mock_uart_pos ≡ min (m.mock_uart_pos + length cs) 4095
unfolding sends
sends_pos [] m small = ground arith
sends_pos (c ∷ cs) m small =
    let step = putc_pos m c in sends_pos cs (uart_putc m c) (ground arith) ∙ (ground arith)

-- What is captured stays.
sends_old :
    (cs : List ℕ) (m : MockHal) (i : ℕ)
    → i < m.mock_uart_pos
    → (sends m cs).mock_uart_buf i ≡ m.mock_uart_buf i
unfolding sends
sends_old [] m i below = refl
sends_old (c ∷ cs) m i below =
    let step = putc_pos m c in
    let same = putc_buf m c i in sends_old cs (uart_putc m c) i (ground arith) ∙ (ground arith)

sends_new :
    (cs : List ℕ) (m : MockHal) (j : ℕ)
    → j < length cs
    → m.mock_uart_pos + j < 4095
    → (sends m cs).mock_uart_buf (m.mock_uart_pos + j) ≡ get_or cs j 0
unfolding sends
sends_new [] m j short room = omega arith
sends_new (c ∷ cs) m zero short room =
    let step = putc_pos m c in
    let same = putc_buf m c (m.mock_uart_pos + 0) in
    sends_old cs (uart_putc m c) (m.mock_uart_pos + 0) (ground arith) ∙ (ground arith)
sends_new (c ∷ cs) m (suc j) short room =
    let step = putc_pos m c in
    let at : (uart_putc m c).mock_uart_pos + j ≡ m.mock_uart_pos + suc j = ground arith in
    rw (sym at) (sends_new cs (uart_putc m c) j (omega arith) (ground arith))

-- After mock_uart_reset and any characters, mock_uart_len is their number or, when that is more,
-- 4095, and the string that mock_uart_get returns has each of the first of them, as many as there
-- are or 4095, in its place and its terminator after them, and is the buffer.
pub capture_lem :
    (m : MockHal) (cs : List ℕ) (i : ℕ)
    → i < min (length cs) 4095
    → let m' = sends (mock_uart_reset m) cs in
      (mock_uart_len m' ≡ min (length cs) 4095)
      × ((mock_uart_get m').0 i ≡ get_or cs i 0)
      × ((mock_uart_get m').0 (mock_uart_len m') ≡ 0)
      × ((mock_uart_get m').1.mock_uart_buf ≡ (mock_uart_get m').0)
unfolding mock_uart_reset mock_uart_len mock_uart_get
capture_lem m cs i below =
    let n = sends_pos cs (mock_uart_reset m) (omega arith) in
    let c = sends_new cs (mock_uart_reset m) i (omega arith) (omega arith) in
    (ground arith, ground arith, ground arith, refl)
