-- ===== src/Soc/Build.antt =====
-- SnakeSoC_ctor: the SoC that it builds, and what it does when the allocator fails.
use dae_pipeline_cpu.Prelude.{ℕ, ◌+◌, ◌^◌, ◌<◌, ◌≡◌, refl, inl, inr, arith}
use dae_pipeline_cpu.Prelude.{[], All, Option, none, some, true, false, Bool-cases}
use dae_pipeline_cpu.Bus.{Exec, ret}
use dae_pipeline_cpu.Alloc.{Alloc, alloc, Status, done, enomem}
use dae_pipeline_cpu.Bytes.{zeros}
use dae_pipeline_cpu.Host.{Host, File}
use dae_pipeline_cpu.MemoryMap.{MemoryMap, MemMapUnit}
use dae_pipeline_cpu.MemoryMap
use dae_pipeline_cpu.MemoryMap.Layout.{Fits, Disjoint, IsValid}
use dae_pipeline_cpu.Ticker
use dae_pipeline_cpu.Ticker.{Ticker, Tickable}
use dae_pipeline_cpu.Dram
use dae_pipeline_cpu.Dram.{Dram, dram_default_size}
use dae_pipeline_cpu.Soc.{Devices, Soc, soc_units, fresh_devices, add_tickables}
use dae_pipeline_cpu.Soc.{build_map, finish, ctor, addr_dram}
use dae_pipeline_cpu.Soc.Registration.{Registered, all, short, register_units_lem}

abbrev pub fresh_dram : Dram
fresh_dram = record { model = Dram.ideal; backing = zeros; size_bytes = dram_default_size }

module _ {W : Type 0} (host : Host W) where
  -- The locked address map is a layout that the memory map accepts, for any DRAM that ends below
  -- the end of the address space.
  pub soc_units-Fits :
      (size : ℕ) → 0 < size → addr_dram + size < 2 ^ 32 → All Fits (soc_units host size)
  soc_units-Fits size pos top = omega arith

  pub soc_units-Disjoint : (size : ℕ) → Disjoint (soc_units host size)
  soc_units-Disjoint size = omega arith

  -- What the constructor answers: a SoC with the devices in reset and the five units registered,
  -- or no SoC for want of memory.
  pub data Built (out : Option File) (w : W) : Status → Option (Soc W) → Type 0 where
    built :
        (soc : Soc W)
        → soc.devices ≡ fresh_devices host out w fresh_dram
        → IsValid soc.map
        → soc.map.units ≡ soc_units host dram_default_size
        → Built out w done (some soc)
    no_memory : Built out w enomem none

  abbrev Answer : Type 0
  Answer = Exec (Status × Option (Soc W) × Alloc)

  -- A call returned one of the two.
  pub record Outcome (out : Option File) (w : W) (call : Answer) : Type 0 where
    pub status : Status
    pub soc : Option (Soc W)
    pub rest : Alloc
    pub returns : call ≡ ret (status, soc, rest)
    pub result : Built out w status soc

  abbrev empty_map : MemoryMap (Devices W)
  empty_map = record { cap = 0; units = [] }

  empty_map-IsValid : IsValid empty_map
  empty_map-IsValid = record { fits = tt; disjoint = tt; room = omega arith }

  ticker_given :
      (al : Alloc)
      → (alloc al).0 ≡ true
      → Ticker.ctor {S = Devices W} al
        ≡ (done, some (record { cap = 0; tickables = [] }), (alloc al).1)
  unfolding Ticker.ctor
  ticker_given al e = rw e

  ticker_refused :
      (al : Alloc)
      → (alloc al).0 ≡ false
      → Ticker.ctor {S = Devices W} al ≡ (enomem, none, (alloc al).1)
  unfolding Ticker.ctor
  ticker_refused al e = rw e

  map_given :
      (al : Alloc) → (alloc al).0 ≡ true → MemoryMap.ctor al ≡ (done, some empty_map, (alloc al).1)
  unfolding MemoryMap.ctor
  map_given al e = rw e

  map_refused :
      (al : Alloc)
      → (alloc al).0 ≡ false
      → MemoryMap.ctor {S = Devices W} al ≡ (enomem, none, (alloc al).1)
  unfolding MemoryMap.ctor
  map_refused al e = rw e

  finish_lem :
      (out : Option File) (w : W) {st : Status} (m : MemoryMap (Devices W)) (al : Alloc)
      → IsValid m
      → Registered host empty_map (soc_units host dram_default_size) st m
      → Outcome out w (finish host (fresh_devices host out w fresh_dram) (st, m, al))
  finish_lem out w m al v (all q) = elim (Bool-cases (alloc al).0) [
    | inl given ↦
        (let (tk, al') = add_tickables host (alloc al).1 (record { cap = 0; tickables = [] }) in
          let soc : Soc W = record {
            devices = fresh_devices host out w fresh_dram;
            map = m;
            ticker = tk;
          } in
          record {
            status = done;
            soc = some soc;
            rest = al';
            returns = rw (ticker_given al given, finish) (rw (ticker_given al given));
            result = built soc refl v q;
          })
    | inr refused ↦ record {
      status = enomem;
      soc = none;
      rest = (alloc al).1;
      returns = rw (ticker_refused al refused, finish) (rw (ticker_refused al refused));
      result = no_memory;
    }
  ]
  finish_lem out w m al v short = record {
    status = enomem;
    soc = none;
    rest = al;
    returns = refl;
    result = no_memory;
  }

  build_map_lem :
      (al : Alloc) (out : Option File) (w : W)
      → Outcome out w (build_map host al (fresh_devices host out w fresh_dram))
  unfolding build_map
  build_map_lem al out w = elim (Bool-cases (alloc al).0) [
    | inl given ↦
        (let r =
            register_units_lem host (soc_units host dram_default_size) (alloc al).1 empty_map
              empty_map-IsValid (soc_units-Fits dram_default_size (omega arith) (omega arith))
              (soc_units-Disjoint dram_default_size) in
          let o = finish_lem out w r.map r.rest r.valid r.registered in
          record {
            status = o.status;
            soc = o.soc;
            rest = o.rest;
            returns =
                rw (map_given al given, build_map) (rw (map_given al given, r.returns) o.returns);
            result = o.result;
          })
    | inr refused ↦ record {
      status = enomem;
      soc = none;
      rest = (alloc al).1;
      returns = rw (map_refused al refused, build_map) (rw (map_refused al refused));
      result = no_memory;
    }
  ]

  no_memory-Outcome :
      (out : Option File) (w : W) (call : Answer) (al : Alloc)
      → call ≡ ret (enomem, none, al)
      → Outcome out w call
  no_memory-Outcome out w call al e = record {
    status = enomem;
    soc = none;
    rest = al;
    returns = e;
    result = no_memory;
  }

  -- Whatever the allocator answers, SnakeSoC_ctor returns one of the two.
  ctor_lem : (al : Alloc) (out : Option File) (w : W) → Outcome out w (ctor host al out w)
  unfolding ctor Dram.ctor
  ctor_lem al out w =
      let al1 = (alloc al).1 in
      let al2 = (alloc al1).1 in
      elim (Bool-cases (alloc al).0) [
        | inr refused ↦ no_memory-Outcome out w (ctor host al out w) al1 (rw refused)
        | inl given ↦ elim (Bool-cases (alloc al1).0) [
          | inr refused ↦ no_memory-Outcome out w (ctor host al out w) al2 (rw (given, refused))
          | inl struct ↦ elim (Bool-cases (alloc al2).0) [
            | inr refused ↦
                no_memory-Outcome out w (ctor host al out w) (alloc al2).1
                  (rw (given, struct, refused))
            | inl backing ↦
                (let o = build_map_lem (alloc al2).1 out w in
                  record {
                    status = o.status;
                    soc = o.soc;
                    rest = o.rest;
                    returns = rw (given, struct, backing) o.returns;
                    result = o.result;
                  })
          ]
        ]
      ]
