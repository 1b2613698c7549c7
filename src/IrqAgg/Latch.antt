-- ===== src/IrqAgg/Latch.antt =====
-- The aggregator as a latch of three bits, and the refinement of every sequence of its operations.
use mathlib.Core.Path.{subst}
use dae_pipeline_cpu.Prelude.{ℕ, ◌%◌, ◌≡◌, refl, arith, List, [], ◌∷◌, All}
use dae_pipeline_cpu.Prelude.{Bool, true, false, ◌&&◌, ◌||◌, ◌==◌, if◌then◌else◌}
use dae_pipeline_cpu.IrqAgg.{IrqAgg, write, tick, meip_wire, set_uart_rx_edge}
use dae_pipeline_cpu.IrqAgg.Registers.{IsValid, meip_wire_lem, set_bit, write_at}

-- What the rest of the SoC does to the device: the UART drives the edge wire, the ticker ticks,
-- and the bus writes.
pub data Op : Type 0 where
  edge : Bool → Op
  pulse : Op
  bus : ℕ → ℕ → ℕ → ℕ → Op

pub step : IrqAgg → Op → IrqAgg
step a (edge e) = set_uart_rx_edge a e
step a pulse = tick a
step a (bus offset width value strb) = (write a offset width value strb).1

pub run : IrqAgg → List Op → IrqAgg
run a [] = a
run a (o ∷ os) = run (step a o) os

-- The latch: an event is pending, the source is unmasked, the wire from the source is up.
pub record Latch : Type 0 where
  pub pending : Bool
  pub enabled : Bool
  pub wire : Bool

abbrev odd : ℕ → Bool
odd v = v % 2 == 1

pub spec_step : Latch → Op → Latch
spec_step l (edge e) = record l { wire = e }
spec_step l pulse = record l { pending = l.pending || l.wire; wire = false }
spec_step l (bus offset width value strb) =
    if width == 4 && strb == 0xf
    then if offset == 0
      then record l { pending = if odd value then false else l.pending }
      else if offset == 4
      then record l { enabled = odd value }
      else l
    else l

pub spec_run : Latch → List Op → Latch
spec_run l [] = l
spec_run l (o ∷ os) = spec_run (spec_step l o) os

abbrev pub view : IrqAgg → Latch
view a = record { pending = a.pending == 1; enabled = a.enable == 1; wire = a.uart_rx_edge }

step-IsValid : (a : IrqAgg) (o : Op) → IsValid a → IsValid (step a o)
unfolding step set_uart_rx_edge tick
step-IsValid a (edge e) v = ground arith
step-IsValid a pulse v = ground (arith, set_bit a.pending)
step-IsValid a (bus offset width value strb) v =
    rw (write_at a offset width value strb v) (ground arith)

pub tick-IsValid : (a : IrqAgg) → IsValid a → IsValid (tick a)
unfolding step
tick-IsValid a v = step-IsValid a pulse v

pub write-IsValid :
    (a : IrqAgg) (offset width value strb : ℕ)
    → IsValid a
    → IsValid (write a offset width value strb).1
unfolding step
write-IsValid a offset width value strb v = step-IsValid a (bus offset width value strb) v

view-step : (a : IrqAgg) (o : Op) → IsValid a → view (step a o) ≡ spec_step (view a) o
unfolding step spec_step set_uart_rx_edge tick
view-step a (edge e) v = refl
view-step a pulse v = ground (arith, set_bit a.pending)
view-step a (bus offset width value strb) v = ground (arith, write_at a offset width value strb v)

-- Every sequence of operations acts on a valid aggregator as on the latch that it shows, the wire
-- `meip` is the conjunction of the latch's two bits, and the device stays valid.
pub run_refines :
    (ops : List Op) (a : IrqAgg)
    → IsValid a
    → (view (run a ops) ≡ spec_run (view a) ops)
      × (meip_wire (run a ops) ≡ (spec_run (view a) ops).pending && (spec_run (view a) ops).enabled)
      × IsValid (run a ops)
unfolding run spec_run
run_refines [] a v = (refl, meip_wire_lem a v, v)
run_refines (o ∷ os) a v =
    subst
      (λ l.
        (view (run (step a o) os) ≡ spec_run l os)
        × (meip_wire (run (step a o) os) ≡ (spec_run l os).pending && (spec_run l os).enabled)
        × IsValid (run (step a o) os))
      (view-step a o v) (run_refines os (step a o) (step-IsValid a o v))

-- The write by which software acknowledges the event.
abbrev pub acknowledges : Op → Bool
acknowledges (bus offset width value strb) = width == 4 && strb == 0xf && offset == 0 && odd value
acknowledges _ = false

step_keeps :
    (a : IrqAgg) (o : Op)
    → IsValid a
    → a.pending ≡ 1
    → acknowledges o ≡ false
    → (step a o).pending ≡ 1
unfolding step set_uart_rx_edge tick
step_keeps a (edge e) v p n = p
step_keeps a pulse v p n = ground (arith, set_bit a.pending)
step_keeps a (bus offset width value strb) v p n =
    ground (arith, write_at a offset width value strb v)

run_keeps :
    (ops : List Op) (a : IrqAgg)
    → IsValid a
    → a.pending ≡ 1
    → All (λ o. acknowledges o ≡ false) ops
    → (run a ops).pending ≡ 1
unfolding run
run_keeps [] a v p n = p
run_keeps (o ∷ os) a v p n =
    run_keeps os (step a o) (step-IsValid a o v) (step_keeps a o v p n.0) n.1

-- An event is not lost: a pulse of the wire that a tick has sampled stays pending through any
-- further pulses, ticks and writes, as long as none of them acknowledges it.
pub event_kept :
    (ops : List Op) (a : IrqAgg)
    → IsValid a
    → All (λ o. acknowledges o ≡ false) ops
    → (run a (edge true ∷ pulse ∷ ops)).pending ≡ 1
unfolding run step set_uart_rx_edge tick
event_kept ops a v n =
    let raised = step-IsValid a (edge true) v in
    let sampled = step-IsValid (set_uart_rx_edge a true) pulse raised in
    run_keeps ops (tick (set_uart_rx_edge a true)) sampled (set_bit a.pending v.pending_bit) n
