-- ===== src/Hal/Polling.antt =====
-- The polling loop of uart_getc, on a SoC whose clock ticks once between two polls.
use dae_pipeline_cpu.Prelude.{
  ℕ, zero, suc, ◌≤◌, ◌≡◌, ◌∙◌, arith, inl, inr, some, none, Option-cases,
}
use dae_pipeline_cpu.Bus.{ret}
use dae_pipeline_cpu.Host.{Host}
use dae_pipeline_cpu.Uart.Registers.{buffer}
use dae_pipeline_cpu.Soc.{Soc, tick_all}
use dae_pipeline_cpu.Soc.Sound.{ticked, ticked-IsSound}
use dae_pipeline_cpu.Soc.Run.{IsRunning, devices-IsRunning, tick_lem}
use dae_pipeline_cpu.Hal.{getc}
use dae_pipeline_cpu.Hal.Driver.{without_byte, getc_full, getc_empty}

module _ {W : Type 0} (host : Host W) where
  abbrev pub next : Soc W → Soc W
  next soc = record soc { devices = ticked host soc.devices }

  abbrev pub later : ℕ → Soc W → Soc W
  later zero soc = soc
  later (suc n) soc = later n (next soc)

  next-IsRunning : (soc : Soc W) → IsRunning host soc → IsRunning host (next soc)
  next-IsRunning soc r =
      devices-IsRunning host soc (ticked host soc.devices) r
        (ticked-IsSound host soc.devices r.sound)

  -- If a byte waits after `n` ticks, the loop of uart_getc, with one tick between two polls, ends
  -- after at most `n` of them: it returns the first byte that arrives and empties the buffer of it.
  pub getc_lem :
      (n : ℕ) (soc : Soc W) (b : ℕ)
      → IsRunning host soc
      → buffer (later n soc).devices.uart ≡ some b
      → (k : ℕ) × (c : ℕ) × (k ≤ n)
        × ((j : ℕ) → suc j ≤ k → buffer (later j soc).devices.uart ≡ none)
        × (buffer (later k soc).devices.uart ≡ some c)
        × (getc (suc n) tick_all soc ≡ ret (some c, without_byte host (later k soc)))
  getc_lem zero soc b r full =
      (0, b, omega arith, λ j h. ground arith, full, getc_full host 0 tick_all soc b r full)
  getc_lem (suc n) soc b r full = elim (Option-cases (buffer soc.devices.uart)) [
    | inr (c, now) ↦
        (0, c, omega arith, λ j h. ground arith, now, getc_full host (suc n) tick_all soc c r now)
    | inl empty ↦
        (let (k, c, le, before, at, ends) = getc_lem n (next soc) b (next-IsRunning soc r) full in
          (
            suc k,
            c,
            omega arith,
            elim [ zero ↦ λ h. empty | suc j ↦ λ h. before j (omega arith) ],
            at,
            getc_empty host (suc n) tick_all soc r empty ∙ rw (tick_lem host soc r) ends,
          ))
  ]
