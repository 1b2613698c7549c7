-- ===== src/Uart/Stream.antt =====
-- The receive path as a stream: no byte of the input is lost, repeated or reordered between the
-- terminal and the software that pops the buffer.
use dae_pipeline_cpu.Prelude.{ℕ, ◌<◌, ◌≡◌, refl, ◌∙◌, ap, sym, arith, List, [], ◌∷◌, ◌++◌}
use dae_pipeline_cpu.Prelude.{not, ◌&&◌, if◌then◌else◌}
use dae_pipeline_cpu.Prelude.{none, some, Option-cases, inl, inr, bit_and}
use mathlib.Core.List.{append_assoc}
use dae_pipeline_cpu.Host.{Host, File}
use dae_pipeline_cpu.IrqAgg.{IrqAgg}
use dae_pipeline_cpu.Uart.{Uart, write, tick, sink}
use dae_pipeline_cpu.Uart.Registers.{buffer}

-- What is documented of the host: the bytes that are still to arrive are a list, a successful read
-- takes the first of them, a failed one none, and output does not touch them.
pub record InputLaws {W : Type 0} (host : Host W) (input : W → List ℕ) : Type 0 where
  pub arrives :
      (w : W) (b : ℕ)
      → (host.read_byte w).0 ≡ some b
      → (input w ≡ b ∷ input (host.read_byte w).1) × (b < 256)
  pub absent : (w : W) → (host.read_byte w).0 ≡ none → input (host.read_byte w).1 ≡ input w
  pub output : (w : W) (f : File) (b : ℕ) → input (host.fputc w f b).1 ≡ input w

-- The device with the aggregator that it drives and the outside world.
pub record Port (W : Type 0) : Type 0 where
  pub uart : Uart
  pub agg : IrqAgg
  pub world : W

-- A tick, or a bus write; reads change nothing.
pub data Op : Type 0 where
  pulse : Op
  bus : ℕ → ℕ → ℕ → ℕ → Op

abbrev pub held : Uart → List ℕ
held u = elim (buffer u) [ none ↦ [] | some b ↦ b ∷ [] ]

module _ {W : Type 0} (host : Host W) where
  pub step : Port W → Op → Port W
  step p pulse =
      let (u, a, w) = tick host p.uart p.agg p.world in record { uart = u; agg = a; world = w }
  step p (bus offset width value strb) =
      let (resp, (u, w)) = write host (p.uart, p.world) offset width value strb in
      record p { uart = u; world = w }

  -- The byte that an operation hands to the software: the buffer was full, and is empty after it.
  abbrev pub popped : Port W → Op → List ℕ
  popped p o = if p.uart.rx_valid && not (step p o).uart.rx_valid then held p.uart else []

  pub run : Port W → List Op → Port W
  run p [] = p
  run p (o ∷ os) = run (step p o) os

  pub all_popped : Port W → List Op → List ℕ
  all_popped p [] = []
  all_popped p (o ∷ os) = popped p o ++ all_popped (step p o) os

  module _ (input : W → List ℕ) (laws : InputLaws host input) where
    -- What is in the device and still to come.
    abbrev pub pipe : Port W → List ℕ
    pipe p = held p.uart ++ input p.world

    pipe-step : (p : Port W) (o : Op) → pipe p ≡ popped p o ++ pipe (step p o)
    unfolding step tick write
    pipe-step p pulse = elim (Option-cases (host.read_byte p.world).0) [
      | inl e ↦ ground (arith, e, laws.absent p.world e)
      | inr (b, e) ↦ ground (arith, e, laws.arrives p.world b e)
    ]
    pipe-step p (bus offset width value strb) =
        ground (arith, laws.output p.world (sink p.uart.out) (bit_and value 0xff))

    -- Over any sequence of ticks and bus writes, the bytes in the buffer and still to come at the
    -- start are those that were popped, in order, followed by those in the buffer and to come at
    -- the end.
    pub pipe-run : (p : Port W) (os : List Op) → pipe p ≡ all_popped p os ++ pipe (run p os)
    unfolding run all_popped
    pipe-run p [] = refl
    pipe-run p (o ∷ os) =
        pipe-step p o
        ∙ ap (λ (l : List ℕ). popped p o ++ l) (pipe-run (step p o) os)
        ∙ sym (append_assoc (popped p o) (all_popped (step p o) os) (pipe (run (step p o) os)))
