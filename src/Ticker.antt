-- ===== src/Ticker.antt =====
-- devices/common: the Tickable trait of tickable.c and the registry of ticker.c. A tickable view is
-- its tick over the store of all objects (Bus has the same for MmioDevice).
pub mod Order
use dae_pipeline_cpu.Prelude.{ℕ, Bool, Option, none, some, List, [], ◌∷◌, ◌++◌, length, ◌==◌}
use dae_pipeline_cpu.Prelude.{if◌then◌else◌}
use dae_pipeline_cpu.Bus.{Exec, abort, ret, ◌>>=◌}
use dae_pipeline_cpu.Alloc.{Alloc, alloc, Status, done, enomem}
use dae_pipeline_cpu.MemoryMap.{grown}

abbrev pub Tickable : Type 0 → Type 0
Tickable S = S → Exec S

-- Tickable_ctor: the default tick panics until a concrete class overrides it.
unfoldable pub default_tick : {S : Type 0} → Tickable S
default_tick s = abort

-- The tick of a concrete class, for an object that lies at `get` in the store.
module _ {S D : Type 0} (get : S → D) (set : S → D → S) where
  abbrev pub tick_at : (D → D) → Tickable S
  tick_at tick s = ret (set s (tick (get s)))

-- `struct Ticker`; `n_tickables` is the length of the list.
pub record Ticker (S : Type 0) : Type 0 where
  pub cap : ℕ
  pub tickables : List (Tickable S)

module _ {S : Type 0} where
  unfoldable pub ctor : Alloc → Status × Option (Ticker S) × Alloc
  ctor al =
      let (given, al') = alloc al in
      if given then (done, some (record { cap = 0; tickables = [] }), al') else (enomem, none, al')

  -- Ticker_dtor frees the array and the registry, where there is one, and clears the handle.
  pub dtor : Option (Ticker S) → Option (Ticker S)
  dtor self = none

  abbrev pub append_tickable : Ticker S → Tickable S → Ticker S
  append_tickable tk t = record tk { tickables = tk.tickables ++ (t ∷ []) }

  unfoldable pub add : Alloc → Ticker S → Tickable S → Status × Ticker S × Alloc
  add al tk t =
      if length tk.tickables == tk.cap
      then (let (given, al') = alloc al in
          if given
          then (done, append_tickable (record tk { cap = grown tk.cap }) t, al')
          else (enomem, tk, al'))
      else (done, append_tickable tk t, al)

  -- the loop of Ticker_tick_all
  unfoldable pub tick_each : List (Tickable S) → S → Exec S
  tick_each [] s = ret s
  tick_each (t ∷ ts) s = t s >>= tick_each ts

  unfoldable pub tick_all : Ticker S → S → Exec S
  tick_all tk s = tick_each tk.tickables s
