-- ===== src/FreertosDemo/Tasks/Sequential.antt =====
-- The turns of the handler and of the task against the code that is written in one piece.
use dae_pipeline_cpu.Prelude.{ℕ, ◌+◌, ◌≡◌, ◌∙◌, arith, true, false, ◌==◌, some, [], ◌∷◌, ◌++◌, u32}
use dae_pipeline_cpu.Bus.{ret}
use dae_pipeline_cpu.Host.{Host}
use dae_pipeline_cpu.Uart.Registers.{buffer}
use dae_pipeline_cpu.Hal.{try_getc}
use dae_pipeline_cpu.Hal.Driver.{without_byte, try_getc_full}
use dae_pipeline_cpu.FreertosDemo.{interrupt_handler, returned}
use dae_pipeline_cpu.FreertosDemo.Irq.{with_agg, mei_handled}
use dae_pipeline_cpu.FreertosDemo.Tasks.{
  idle, polling, printing, rx_line, Demo, interrupt, rx_task, run,
}
use dae_pipeline_cpu.FreertosDemo.Tasks.Moves.{IsServed, isr_next, rx_next, task_next, next}
use dae_pipeline_cpu.FreertosDemo.Tasks.Served.{after, run_lem}

module _ {W : Type 0} (host : Host W) where
  -- Where the demo, with the handler idle and uart_rx_task at its poll, is within its invariant, and
  -- an event is pending and a byte in the buffer: interrupt_handler and three turns of the handler
  -- both take the event back, change nothing else of the SoC and give the semaphore; and
  -- uart_try_getc and three turns of uart_rx_task both take the byte out of the buffer, change
  -- nothing else of the SoC and hand the byte over, whose line is then the next to be sent.
  pub turns_lem :
      (s : Demo W) (b : ℕ)
      → IsServed host false (record s { isr = idle; rx = polling })
      → s.soc.devices.irq_agg.pending ≡ 1
      → buffer s.soc.devices.uart ≡ some b
      → let s1 : Demo W = record s { isr = idle; rx = polling } in
        let acked = with_agg host s.soc (record s.soc.devices.irq_agg { pending = 0 }) in
        ((interrupt_handler s.soc true s.yields 0x8000000b ≡ ret (returned acked true s.yields))
          × (run s1 (interrupt ∷ interrupt ∷ interrupt ∷ [])
              ≡ ret (record s1 { soc = acked; sem = true })))
        × ((try_getc s.soc ≡ ret (some b, without_byte host s.soc))
            × (run s1 (rx_task ∷ rx_task ∷ rx_task ∷ [])
                ≡ ret (record s1 {
                  soc = without_byte host s.soc;
                  rx = printing (rx_line s.evt b);
                  evt = u32 (s.evt + 1);
                  taken = s.taken ++ (b ∷ []);
                })))
  unfolding after next isr_next rx_next task_next
  turns_lem s b v event full =
      let s1 : Demo W = record s { isr = idle; rx = polling } in
      let handled = (mei_handled host s.soc true s.yields v.running).0 in
      let high : (s.soc.devices.irq_agg.pending == 1) ≡ true = ground arith in
      let valid : s.soc.devices.uart.rx_valid ≡ true = ground arith in
      let byte : s.soc.devices.uart.rx_byte ≡ b = ground arith in
      (
        (
          handled ∙ simp high,
          (run_lem host (interrupt ∷ interrupt ∷ interrupt ∷ []) s1 v).0 ∙ simp high,
        ),
        (
          try_getc_full host s.soc b v.running full,
          (run_lem host (rx_task ∷ rx_task ∷ rx_task ∷ []) s1 v).0 ∙ simp (valid, byte),
        ),
      )
