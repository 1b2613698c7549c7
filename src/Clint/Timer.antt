-- ===== src/Clint/Timer.antt =====
-- The timer: what the tick does to the counter, and when the wire `mtip` rises.
use dae_pipeline_cpu.Prelude.{ℕ, zero, suc, ◌+◌, ◌-◌, ◌/◌, ◌%◌, ◌^◌, ◌≤◌, ◌<◌, ◌≡◌, arith, ◌↔◌}
use dae_pipeline_cpu.Prelude.{true, false, ◌∙◌, ap}
use dae_pipeline_cpu.Bus.{AxiResp}
use dae_pipeline_cpu.Clint.{Clint, write, tick, ctor, mtip_wire}
use dae_pipeline_cpu.Clint.{clint_offset_mtimecmp_lo, clint_offset_mtimecmp_hi}
use dae_pipeline_cpu.Clint.Registers.{
  IsValid, write-put, mtimecmp_lo, mtimecmp_hi, put, put-IsValid,
}

unfoldable pub ticks : ℕ → Clint → Clint
ticks zero c = c
ticks (suc n) c = ticks n (tick c)

pub tick-IsValid : (c : Clint) → IsValid c → IsValid (tick c)
unfolding tick
tick-IsValid c v = ground arith

-- `n` ticks advance the 64-bit counter by `n` and leave the other registers alone.
pub ticks_lem :
    (n : ℕ) (c : Clint) → IsValid c → ticks n c ≡ record c { mtime = (c.mtime + n) % 2 ^ 64 }
unfolding ticks tick
ticks_lem zero c v = ground arith
ticks_lem (suc n) c v = ground (arith, ticks_lem n (tick c) (tick-IsValid c v))

-- The wire is high after `n` ticks exactly when the counter has come to the comparand, as long as
-- the counter does not wrap.
pub mtip_wire-ticks_iff :
    (n : ℕ) (c : Clint)
    → IsValid c
    → c.mtime + n < 2 ^ 64
    → (mtip_wire (ticks n c) ≡ true) ↔ (c.mtimecmp ≤ c.mtime + n)
unfolding mtip_wire
mtip_wire-ticks_iff n c v small = ground (arith, ticks_lem n c v)

pub ctor-IsValid : IsValid ctor
unfolding ctor
ctor-IsValid = omega arith

-- Reset leaves the wire low, and 2 ^ 64 - 2 ticks keep it low if nothing is written.
pub ctor_quiet : (n : ℕ) → n < 2 ^ 64 - 1 → mtip_wire (ticks n ctor) ≡ false
unfolding mtip_wire ctor
ctor_quiet n small = ground (arith, ticks_lem n ctor ctor-IsValid)

abbrev answer : AxiResp × Clint → Clint
answer p = p.1

-- The three writes by which software sets a new comparand: the low word to all ones, the high
-- word, the low word. The state after each of them.
module _ (c : Clint) (t : ℕ) where
  pub set_first : Clint
  set_first = (write c clint_offset_mtimecmp_lo 4 0xffffffff 0xf).1

  pub set_second : Clint
  set_second = (write set_first clint_offset_mtimecmp_hi 4 (t / 2 ^ 32) 0xf).1

  pub set_third : Clint
  set_third = (write set_second clint_offset_mtimecmp_lo 4 (t % 2 ^ 32) 0xf).1

  module _ (v : IsValid c) (word : t < 2 ^ 64) where
    set_first_lem : set_first ≡ put c mtimecmp_lo 0xffffffff
    unfolding set_first
    set_first_lem = ap answer (write-put c mtimecmp_lo 0xffffffff v (omega arith))

    set_second_lem : set_second ≡ put (put c mtimecmp_lo 0xffffffff) mtimecmp_hi (t / 2 ^ 32)
    unfolding set_second
    set_second_lem =
        let v1 = put-IsValid c mtimecmp_lo 0xffffffff v (omega arith) in
        let c1 = put c mtimecmp_lo 0xffffffff in
        rw (set_first_lem, set_second)
          (ap answer (write-put c1 mtimecmp_hi (t / 2 ^ 32) v1 (omega arith)))

    set_third_lem : set_third ≡ record c { mtimecmp = t }
    unfolding set_third
    set_third_lem =
        let c1 = put c mtimecmp_lo 0xffffffff in
        let v1 = put-IsValid c mtimecmp_lo 0xffffffff v (omega arith) in
        let c2 = put c1 mtimecmp_hi (t / 2 ^ 32) in
        let v2 = put-IsValid c1 mtimecmp_hi (t / 2 ^ 32) v1 (omega arith) in
        rw (set_second_lem, set_third)
          (ap answer (write-put c2 mtimecmp_lo (t % 2 ^ 32) v2 (omega arith)) ∙ ground arith)

  -- If the wire is low, it stays low through the three writes of a comparand that the counter has
  -- not come to, and the comparand is then the 64-bit value.
  pub set_comparand_quiet :
      IsValid c
      → c.mtime < c.mtimecmp
      → c.mtime < t
      → t < 2 ^ 64
      → (mtip_wire set_first ≡ false)
        × (mtip_wire set_second ≡ false)
        × (mtip_wire set_third ≡ false)
        × (set_third ≡ record c { mtimecmp = t })
  unfolding mtip_wire
  set_comparand_quiet v low later word =
      let e1 = set_first_lem v word in
      let e2 = set_second_lem v word in
      let e3 = set_third_lem v word in
      (rw e1 (ground arith), rw e2 (ground arith), rw e3 (ground arith), e3)
