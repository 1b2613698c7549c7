-- ===== src/Soc/Registration.antt =====
-- The registration of a list of units that fit beside each other, whatever the allocator answers.
use mathlib.Core.Path.{subst}
use mathlib.Core.List.{append_assoc, append-nil}
use dae_pipeline_cpu.Prelude.{◌≡◌, refl, sym, ◌∙◌, arith}
use dae_pipeline_cpu.Prelude.{List, [], ◌∷◌, ◌++◌, All}
use dae_pipeline_cpu.Bus.{ret}
use dae_pipeline_cpu.Alloc.{Alloc, Status, done, enomem}
use dae_pipeline_cpu.Host.{Host}
use dae_pipeline_cpu.MemoryMap.{MemoryMap, MemMapUnit}
use dae_pipeline_cpu.MemoryMap
use dae_pipeline_cpu.MemoryMap.Layout.{Fits, Apart, Disjoint, IsValid, Added, add_device_lem}
use dae_pipeline_cpu.MemoryMap.Layout.Added.{added, overlaps, no_room}
use dae_pipeline_cpu.Soc.{Devices, register_units}

module _ {S : Type 0} where
  Apart-symm : (u v : MemMapUnit S) → Apart u v → Apart v u
  Apart-symm u v a = omega arith

  All-middle :
      (P : MemMapUnit S → Type 0) (us : List (MemMapUnit S)) (u : MemMapUnit S)
      (vs : List (MemMapUnit S))
      → All P (us ++ (u ∷ vs))
      → P u
  All-middle P [] u vs h = h.0
  All-middle P (w ∷ us) u vs h = All-middle P us u vs h.1

  Apart-middle :
      (us : List (MemMapUnit S)) (u : MemMapUnit S) (vs : List (MemMapUnit S))
      → Disjoint (us ++ (u ∷ vs))
      → All (Apart u) us
  Apart-middle [] u vs d = tt
  Apart-middle (w ∷ us) u vs d =
      (Apart-symm w u (All-middle (Apart w) us u vs d.0), Apart-middle us u vs d.1)

module _ {W : Type 0} (host : Host W) where
  -- The two outcomes of the chain of registrations.
  pub data Registered (m : MemoryMap (Devices W)) (us : List (MemMapUnit (Devices W)))
      : Status → MemoryMap (Devices W) → Type 0 where
    all : {m' : MemoryMap (Devices W)} → m'.units ≡ m.units ++ us → Registered m us done m'
    short : {m' : MemoryMap (Devices W)} → Registered m us enomem m'

  -- The chain returns, with a valid map and one of the outcomes.
  pub record Outcome (al : Alloc) (m : MemoryMap (Devices W)) (us : List (MemMapUnit (Devices W)))
      : Type 0 where
    pub status : Status
    pub map : MemoryMap (Devices W)
    pub rest : Alloc
    pub returns : register_units host al m us ≡ ret (status, map, rest)
    pub valid : IsValid map
    pub registered : Registered m us status map

  after_one :
      (al : Alloc) (m : MemoryMap (Devices W)) (u : MemMapUnit (Devices W))
      (us : List (MemMapUnit (Devices W))) {st : Status} {m' : MemoryMap (Devices W)} (al' : Alloc)
      → MemoryMap.add_device al m u ≡ ret (st, m', al')
      → IsValid m'
      → Added al m u st m'
      → Disjoint (m.units ++ (u ∷ us))
      → (Disjoint (m'.units ++ us) → Outcome al' m' us)
      → Outcome al m (u ∷ us)
  unfolding register_units
  after_one al m u us {m' = m'} al' e v (added a q) d next =
      let shift : m'.units ++ us ≡ m.units ++ (u ∷ us) = rw q (append_assoc m.units (u ∷ []) us) in
      let o = next (subst Disjoint (sym shift) d) in
      record {
        status = o.status;
        map = o.map;
        rest = o.rest;
        returns = rw (e, register_units) o.returns;
        valid = o.valid;
        registered = shifted shift o.registered;
      }
    where
      shifted :
          {st' : Status} {m'' : MemoryMap (Devices W)}
          → m'.units ++ us ≡ m.units ++ (u ∷ us)
          → Registered m' us st' m''
          → Registered m (u ∷ us) st' m''
      shifted shift (all q') = all (q' ∙ shift)
      shifted shift short = short
  after_one al m u us al' e v (overlaps n) d next = absurd (n (Apart-middle m.units u us d))
  after_one al m u us {m' = m'} al' e v (no_room a q f) d next = record {
    status = enomem;
    map = m';
    rest = al';
    returns = rw (e, register_units);
    valid = v;
    registered = short;
  }

  -- Units that fit beside those of the map are all registered, in order, or the chain stops for
  -- want of memory; it neither aborts nor meets an overlap.
  pub register_units_lem :
      (us : List (MemMapUnit (Devices W))) (al : Alloc) (m : MemoryMap (Devices W))
      → IsValid m
      → All Fits us
      → Disjoint (m.units ++ us)
      → Outcome al m us
  register_units_lem [] al m v fs d = record {
    status = done;
    map = m;
    rest = al;
    returns = unfold register_units in refl;
    valid = v;
    registered = all (sym (append-nil m.units));
  }
  register_units_lem (u ∷ us) al m v fs d =
      let (st, m', al', e, v', a) = add_device_lem al m u v fs.0 in
      after_one al m u us al' e v' a d (register_units_lem us al' m' v' fs.1)
