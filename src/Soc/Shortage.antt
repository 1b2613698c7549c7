-- ===== src/Soc/Shortage.antt =====
-- The results of Ticker_add are dropped: a SoC can be built whose ticker lacks the CLINT.
use dae_pipeline_cpu.Prelude.{ℕ, ◌≡◌, refl, arith, List, [], ◌∷◌, Option, some, true, false}
use dae_pipeline_cpu.Bus.{ret}
use dae_pipeline_cpu.Alloc.{Alloc, done}
use dae_pipeline_cpu.Host.{Host, File}
use dae_pipeline_cpu.MemoryMap
use dae_pipeline_cpu.Ticker
use dae_pipeline_cpu.Ticker.{Ticker, Tickable}
use dae_pipeline_cpu.Dram
use dae_pipeline_cpu.Dram.{dram_default_size}
use dae_pipeline_cpu.Soc.{Devices, Soc, soc_units, register_units, fresh_devices, add_tickables}
use dae_pipeline_cpu.Soc.{build_map, ctor, clint_tick, uart_tick, irq_agg_tick}
use dae_pipeline_cpu.Soc.Build.{fresh_dram, soc_units-Fits, soc_units-Disjoint}
use dae_pipeline_cpu.Soc.Decode.{IsMapped}

module _ {W : Type 0} (host : Host W) where
  -- The answers of the calls before the first Ticker_add: the struct, the two of the DRAM, the map,
  -- its array of four and then of eight units, the ticker.
  abbrev pub until_ticker : Alloc → Alloc
  until_ticker rest = true ∷ true ∷ true ∷ true ∷ true ∷ true ∷ true ∷ rest

  abbrev soc_with : Option File → W → Ticker (Devices W) → Soc W
  soc_with out w tk = record {
    devices = fresh_devices host out w fresh_dram;
    map = record { cap = 8; units = soc_units host dram_default_size };
    ticker = tk;
  }

  abbrev all_ticks : List (Tickable (Devices W))
  all_ticks = clint_tick host ∷ uart_tick host ∷ irq_agg_tick host ∷ []

  full_map-IsMapped :
      (out : Option File) (w : W) (tk : Ticker (Devices W)) → IsMapped host (soc_with out w tk)
  full_map-IsMapped out w tk = record {
    valid = record {
      fits = soc_units-Fits host dram_default_size (omega arith) (omega arith);
      disjoint = soc_units-Disjoint host dram_default_size;
      room = omega arith;
    };
    units = refl;
  }

  -- With memory enough, the SoC has its devices in reset, the five units in the map, and it ticks
  -- the CLINT, the UART and the aggregator, in this order.
  pub ctor_complete :
      (out : Option File) (w : W)
      → (soc : Soc W) × (ctor host [] out w ≡ ret (done, some soc, []))
        × (soc.devices ≡ fresh_devices host out w fresh_dram)
        × IsMapped host soc
        × (soc.ticker.tickables ≡ clint_tick host ∷ uart_tick host ∷ irq_agg_tick host ∷ [])
  unfolding ctor Dram.ctor build_map MemoryMap.ctor register_units MemoryMap.add_device
      MemoryMap.any_overlap Ticker.ctor add_tickables Ticker.add
  ctor_complete out w =
      let tk : Ticker (Devices W) = record { cap = 4; tickables = all_ticks } in
      (soc_with out w tk, refl, refl, full_map-IsMapped out w tk, refl)

  -- A ticker whose ticks return and leave the CLINT alone.
  abbrev pub IsClintQuiet : Ticker (Devices W) → Type 0
  IsClintQuiet tk =
      (d : Devices W) → (d' : Devices W) × (Ticker.tick_all tk d ≡ ret d') × (d'.clint ≡ d.clint)

  rest_ticks :
      (room : ℕ)
      → IsClintQuiet (record { cap = room; tickables = uart_tick host ∷ irq_agg_tick host ∷ [] })
  unfolding Ticker.tick_all Ticker.tick_each
  rest_ticks room d = (_, refl, refl)

  agg_ticks : (room : ℕ) → IsClintQuiet (record { cap = room; tickables = irq_agg_tick host ∷ [] })
  unfolding Ticker.tick_all Ticker.tick_each
  agg_ticks room d = (_, refl, refl)

  no_ticks : (room : ℕ) → IsClintQuiet (record { cap = room; tickables = [] })
  unfolding Ticker.tick_all Ticker.tick_each
  no_ticks room d = (_, refl, refl)

  -- If the first array of the ticker is refused, SnakeSoC_ctor reports success all the same,
  -- whatever the later calls answer, and the SoC has a CLINT whose time stands still.
  pub ctor_stops_clock :
      (rest : Alloc) (out : Option File) (w : W)
      → (soc : Soc W) × (al : Alloc) × (ctor host (until_ticker (false ∷ rest)) out w
          ≡ ret (done, some soc, al))
        × IsClintQuiet soc.ticker
  unfolding ctor Dram.ctor build_map MemoryMap.ctor register_units MemoryMap.add_device
      MemoryMap.any_overlap Ticker.ctor add_tickables Ticker.add
  ctor_stops_clock [] out w = (
    soc_with out w (record { cap = 4; tickables = uart_tick host ∷ irq_agg_tick host ∷ [] }),
    [],
    refl,
    rest_ticks 4,
  )
  ctor_stops_clock (true ∷ rest) out w = (
    soc_with out w (record { cap = 4; tickables = uart_tick host ∷ irq_agg_tick host ∷ [] }),
    rest,
    refl,
    rest_ticks 4,
  )
  ctor_stops_clock (false ∷ []) out w = (
    soc_with out w (record { cap = 4; tickables = irq_agg_tick host ∷ [] }),
    [],
    refl,
    agg_ticks 4,
  )
  ctor_stops_clock (false ∷ true ∷ rest) out w = (
    soc_with out w (record { cap = 4; tickables = irq_agg_tick host ∷ [] }),
    rest,
    refl,
    agg_ticks 4,
  )
  ctor_stops_clock (false ∷ false ∷ rest) out w =
      (soc_with out w (record { cap = 0; tickables = [] }), rest, refl, no_ticks 0)
