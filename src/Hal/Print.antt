-- ===== src/Hal/Print.antt =====
-- printf of runtime/src/stdlib/stdio.c over uart_putc of runtime/src/hal/uart.c.
use Prim.Native.Char.{code}
use Prim.Native.String.{String}
use dae_pipeline_cpu.Prelude.{ℕ, ◌≡◌, refl, Option, none, some, List, [], ◌∷◌}
use dae_pipeline_cpu.Bus.{Exec, ret, ◌>>=◌}
use dae_pipeline_cpu.Host.{Host}
use dae_pipeline_cpu.Soc.{Soc}
use dae_pipeline_cpu.Soc.Sound.{uart-IsSound}
use dae_pipeline_cpu.Soc.Run.{IsRunning, devices-IsRunning}
use dae_pipeline_cpu.Hal.{putc}
use dae_pipeline_cpu.Hal.Driver.{after_putc, putc_lem}
use dae_pipeline_cpu.Runtime.Stdio.{Arg, printf}

-- The characters of a literal.
abbrev pub codes : String → List ℕ
codes String.[] = []
codes (String.◌∷◌ c s) = code c ∷ codes s

-- What a printf sends, where the format has its arguments.
abbrev pub sent : Option (List ℕ) → List ℕ
sent none = []
sent (some text) = text

module _ {W : Type 0} where
  unfoldable pub send : Soc W → List ℕ → Exec (Soc W)
  send soc [] = ret soc
  send soc (c ∷ text) = putc soc c >>= λ soc'. send soc' text

  -- printf, as far as the output goes
  unfoldable pub print : Soc W → List ℕ → List Arg → Exec (Soc W)
  print soc format args = send soc (sent (printf format args))

module _ {W : Type 0} (host : Host W) where
  pub after_putc-IsRunning :
      (soc : Soc W) (c : ℕ) → IsRunning host soc → IsRunning host (after_putc host soc c)
  after_putc-IsRunning soc c r = devices-IsRunning host soc (after_putc host soc c).devices r (
      uart-IsSound host soc.devices soc.devices.uart (after_putc host soc c).devices.world
        (r.sound.rx_byte, r.sound.wired, r.sound.attached) r.sound)

  -- The world outside is all that a message changes.
  abbrev pub Printed : Soc W → Soc W → Type 0
  Printed soc soc' = (w : W) × (soc' ≡ record soc { devices = record soc.devices { world = w } })

  send-Printed :
      (text : List ℕ) (soc : Soc W)
      → IsRunning host soc
      → (soc' : Soc W) × (send soc text ≡ ret soc') × IsRunning host soc' × Printed soc soc'
  unfolding send
  send-Printed [] soc r = (soc, refl, r, (soc.devices.world, refl))
  send-Printed (c ∷ text) soc r =
      let next = after_putc host soc c in
      let (last, sends, r', (w, same)) = send-Printed text next (after_putc-IsRunning soc c r) in
      (last, rw (putc_lem host soc c r, send) sends, r', (w, same))

  pub print-Printed :
      (soc : Soc W) (format : List ℕ) (args : List Arg)
      → IsRunning host soc
      → (soc' : Soc W) × (print soc format args ≡ ret soc') × IsRunning host soc' × Printed soc soc'
  unfolding print
  print-Printed soc format args r = send-Printed (sent (printf format args)) soc r
