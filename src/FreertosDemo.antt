-- ===== src/FreertosDemo.antt =====
-- freertos_demo: the set-up of the receive interrupt (app/main.c) and the handler of external and
-- software interrupts (port_glue/app_irq_handler.c), over the bus of the SoC. The kernel's
-- semaphore is seen by whether it was given.
pub mod Irq
pub mod Tasks
pub mod Boot
pub mod Session
pub mod Timer
pub mod Handler
use dae_pipeline_cpu.Prelude.{
  ℕ, ◌+◌, ◌-◌, ◌^◌, Bool, true, false, not, ◌&&◌, bit_and, ◌==◌, if◌then◌else◌, u32, List, [], ◌∷◌,
}
use dae_pipeline_cpu.Bus.{Exec, ret, ◌>>=◌}
use dae_pipeline_cpu.Soc.{Soc}
use dae_pipeline_cpu.Hal.{load, store}
use dae_pipeline_cpu.Hal.Print.{codes, print}
use dae_pipeline_cpu.Runtime.Stdio.{word}

abbrev pub irq_agg_pending : ℕ
irq_agg_pending = 0x10004000

abbrev pub irq_agg_enable : ℕ
irq_agg_enable = 0x10004004

abbrev pub irq_bit_uart_rx : ℕ
irq_bit_uart_rx = 1

abbrev pub clint_msip : ℕ
clint_msip = 0x02000000

abbrev pub mcause_code_msi : ℕ
mcause_code_msi = 3

abbrev pub mcause_code_mei : ℕ
mcause_code_mei = 11

abbrev pub spurious_format : List ℕ
spurious_format = codes "[ISR] spurious sync mcause=0x%08x\n"

abbrev pub unexpected_format : List ℕ
unexpected_format = codes "[ISR] unexpected async mcause=0x%08x\n"

-- The handler halts the simulation with a code, or returns: the SoC, whether the semaphore was
-- given, and `ulYieldCount`.
pub data Handled (W : Type 0) : Type 0 where
  halted : ℕ → Soc W → Handled W
  returned : Soc W → Bool → ℕ → Handled W

module _ {W : Type 0} where
  pub enable_uart_rx_irq : Soc W → Exec (Soc W)
  enable_uart_rx_irq soc = store soc irq_agg_enable irq_bit_uart_rx >>= λ soc'.
      store soc' irq_agg_pending irq_bit_uart_rx

  -- `has_sem` is `xUartRxSem != NULL`.
  pub interrupt_handler : Soc W → Bool → ℕ → ℕ → Exec (Handled W)
  interrupt_handler soc has_sem yields mcause =
      if bit_and mcause (2 ^ 31) == 0
      then (print soc spurious_format (word mcause ∷ []) >>= λ soc'. ret (halted 4 soc'))
      else (let code = bit_and mcause (2 ^ 31 - 1) in
          if code == mcause_code_mei
          then (load soc irq_agg_pending >>= λ r. store r.1 irq_agg_pending r.0 >>= λ soc'.
              ret (returned soc' (not (bit_and r.0 irq_bit_uart_rx == 0) && has_sem) yields))
          else if code == mcause_code_msi
          then (store soc clint_msip 0 >>= λ soc'. ret (returned soc' false (u32 (yields + 1))))
          else (print soc unexpected_format (word mcause ∷ []) >>= λ soc'. ret (halted 5 soc')))
