-- ===== src/FreertosDemo/Handler.antt =====
-- The interrupt handler on every cause.
use dae_pipeline_cpu.Prelude.{
  ℕ, ◌+◌, ◌-◌, ◌^◌, ◌≡◌, refl, arith, Bool, false, Bool-cases, bit_and, ◌==◌, ◌&&◌, if◌then◌else◌,
  inl, inr, u32, [], ◌∷◌,
}
use dae_pipeline_cpu.Bus.{ret}
use dae_pipeline_cpu.Host.{Host}
use dae_pipeline_cpu.Clint.Registers.{msip}
use dae_pipeline_cpu.Soc.{Soc, meip_wire}
use dae_pipeline_cpu.Soc.Run.{IsRunning}
use dae_pipeline_cpu.Hal.Print.{Printed, print-Printed}
use dae_pipeline_cpu.Runtime.Stdio.{word}
use dae_pipeline_cpu.FreertosDemo.{
  Handled, halted, returned, interrupt_handler, spurious_format, unexpected_format,
}
use dae_pipeline_cpu.FreertosDemo.Irq.{with_agg, mei_handled}
use dae_pipeline_cpu.FreertosDemo.Timer.{with_clint, store_reg}

-- What mcause says: bit 31, and the code in the others.
pub data Cause : Type 0 where
  exception external software unknown : Cause

abbrev pub cause_of : ℕ → Cause
cause_of mcause =
    if bit_and mcause (2 ^ 31) == 0
    then exception
    else if bit_and mcause (2 ^ 31 - 1) == 11
    then external
    else if bit_and mcause (2 ^ 31 - 1) == 3
    then software
    else unknown

module _ {W : Type 0} (host : Host W) where
  abbrev pub Halts : Soc W → ℕ → Handled W → Type 0
  Halts soc code h = (soc' : Soc W) × (h ≡ halted code soc') × Printed host soc soc'

  abbrev pub Outcome : Soc W → Bool → ℕ → Cause → Handled W → Type 0
  Outcome soc has_sem yields exception h = Halts soc 4 h
  Outcome soc has_sem yields external h =
      (h
        ≡ returned (with_agg host soc (record soc.devices.irq_agg { pending = 0 }))
            (soc.devices.irq_agg.pending == 1 && has_sem) yields)
      × (meip_wire (with_agg host soc (record soc.devices.irq_agg { pending = 0 })) ≡ false)
  Outcome soc has_sem yields software h =
      h
      ≡ returned (with_clint host soc (record soc.devices.clint { msip = 0 })) false
          (u32 (yields + 1))
  Outcome soc has_sem yields unknown h = Halts soc 5 h

  -- On a running SoC the handler ends on every cause: an exception halts with 4 and an unknown
  -- interrupt with 5 after a message that changes nothing of the SoC; an external one takes the
  -- event back, leaves the wire low and gives the semaphore exactly if an event was pending and there is one; and a
  -- software one clears msip and counts.
  pub handled_lem :
      (soc : Soc W) (has_sem : Bool) (yields mcause : ℕ)
      → IsRunning host soc
      → (h : Handled W) × (interrupt_handler soc has_sem yields mcause ≡ ret h)
        × Outcome soc has_sem yields (cause_of mcause) h
  unfolding interrupt_handler
  handled_lem soc has_sem yields mcause r = elim (Bool-cases (bit_and mcause (2 ^ 31) == 0)) [
    | inl sync ↦
        (let (soc', prints, _, same) =
            print-Printed host soc spurious_format (word mcause ∷ []) r in
          (halted 4 soc', rw (sync, interrupt_handler) (rw prints), rw sync (soc', refl, same)))
    | inr async ↦ elim (Bool-cases (bit_and mcause (2 ^ 31 - 1) == 11)) [
      | inl mei ↦
          (let (call, quiet) = mei_handled host soc has_sem yields r in
            (
              returned (with_agg host soc (record soc.devices.irq_agg { pending = 0 }))
                  (soc.devices.irq_agg.pending == 1 && has_sem) yields,
              rw (async, mei, interrupt_handler) call,
              rw (async, mei) (refl, quiet),
            ))
      | inr no_mei ↦ elim (Bool-cases (bit_and mcause (2 ^ 31 - 1) == 3)) [
        | inl msi ↦
            (let (call, _) = store_reg host soc msip 0 r (omega arith) in
              (
                returned (with_clint host soc (record soc.devices.clint { msip = 0 })) false
                    (u32 (yields + 1)),
                rw (async, no_mei, msi, interrupt_handler) (rw call),
                rw (async, no_mei, msi) refl,
              ))
        | inr other ↦
            (let (soc', prints, _, same) =
                print-Printed host soc unexpected_format (word mcause ∷ []) r in
              (
                halted 5 soc',
                rw (async, no_mei, other, interrupt_handler) (rw prints),
                rw (async, no_mei, other) (soc', refl, same),
              ))
      ]
    ]
  ]
