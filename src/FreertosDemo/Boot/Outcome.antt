-- ===== src/FreertosDemo/Boot/Outcome.antt =====
-- How main ends, for every answer of the kernel.
use dae_pipeline_cpu.Prelude.{
  ℕ, zero, suc, ◌≡◌, refl, ◌∙◌, arith, Bool, true, false, Bool-cases, bit_and, ◌&&◌, ◌==◌,
  if◌then◌else◌, inl, inr, Option, none, some, List, [], ◌∷◌,
}
use dae_pipeline_cpu.Bus.{Exec, ret}
use dae_pipeline_cpu.Host.{Host}
use dae_pipeline_cpu.Uart.Stream.{InputLaws}
use dae_pipeline_cpu.Soc.{Devices, Soc}
use dae_pipeline_cpu.Soc.Sound.{ticked, ticked-IsSound}
use dae_pipeline_cpu.Soc.Run.{IsRunning, devices-IsRunning, tick_lem}
use dae_pipeline_cpu.Hal.{store, putc}
use dae_pipeline_cpu.Hal.Driver.{after_putc, putc_lem}
use dae_pipeline_cpu.Hal.Print.{codes, sent, after_putc-IsRunning}
use dae_pipeline_cpu.Runtime.Stdio.{Arg, word, pointer, printf}
use dae_pipeline_cpu.FreertosDemo.{irq_agg_pending, irq_agg_enable, irq_bit_uart_rx}
use dae_pipeline_cpu.FreertosDemo.Irq.{ticks, store_enable, store_stale}
use dae_pipeline_cpu.FreertosDemo.Tasks.Moves.{IsServed}
use dae_pipeline_cpu.FreertosDemo.Tasks.Kept.{ticked_cases}
use dae_pipeline_cpu.FreertosDemo.Tasks.Delivery.{pipe, pipe-ticked, pipe-after_putc}
use dae_pipeline_cpu.FreertosDemo.Boot.{
  Answer, made, refused, out_of_heap, Kernel, Booted, halted, returned, scheduled, assert_format,
  malloc_format, scheduler_format, calls, Timed, pause, timed, send, print, timed_enable,
  v_assert_called, malloc_failed_hook, config_assert, install_mtvec, create, fresh, start_scheduler,
  main,
}

-- The code with which the creations halt, if they do.
abbrev pub failure : List (Answer × ℕ) → Option ℕ
failure [] = none
failure ((made, line) ∷ calls) = failure calls
failure ((refused, line) ∷ calls) = some 1
failure ((out_of_heap, line) ∷ calls) = some 3

-- The code with which main halts, if it does.
abbrev pub verdict : Kernel → Option ℕ
verdict k = if bit_and k.handler 3 == 0 then failure (calls k) else some 1

-- A byte waits whose event was taken back.
abbrev pub is_stranded : {W : Type 0} → Devices W → Bool
is_stranded d = d.uart.rx_valid && d.irq_agg.pending == 0

module _ {W : Type 0} (host : Host W) (input : W → List ℕ) (laws : InputLaws host input) where
  -- What main keeps, whenever the clock ticks: the enable bit `on` once it is stored, no edge on the
  -- wire, and the bytes `p` of the terminal.
  record Keeps (on : ℕ) (p : List ℕ) (soc : Soc W) : Type 0 where
    running : IsRunning host soc
    enabled : soc.devices.irq_agg.enable ≡ on
    low : soc.devices.irq_agg.uart_rx_edge ≡ false
    piped : pipe host input laws soc ≡ p

  ticks-Keeps :
      (n on : ℕ) (p : List ℕ) (soc : Soc W)
      → Keeps on p soc
      → (soc' : Soc W) × (ticks n soc ≡ ret soc') × Keeps on p soc'
  unfolding ticks
  ticks-Keeps zero on p soc k = (soc, refl, k)
  ticks-Keeps (suc n) on p soc k =
      let d = soc.devices in
      let next : Soc W = record soc { devices = ticked host d } in
      let r =
        devices-IsRunning host soc (ticked host d) k.running
          (ticked-IsSound host d k.running.sound) in
      let same : ((ticked host d).irq_agg.enable ≡ on)
          × ((ticked host d).irq_agg.uart_rx_edge ≡ false) =
        elim (ticked_cases host d k.running.sound k.low) [
          | inl (u, a) ↦ rw a (k.enabled, k.low)
          | inr (empty, a) ↦ rw a (k.enabled, k.low)
        ] in
      let (last, calls, k') = ticks-Keeps n on p next (record {
        running = r;
        enabled = same.0;
        low = same.1;
        piped = pipe-ticked host input laws d ∙ k.piped;
      }) in
      (last, rw (tick_lem host soc k.running, ticks) calls, k')

  pause-Keeps :
      (on : ℕ) (p : List ℕ) (m : Timed W)
      → Keeps on p m.0
      → (m' : Timed W) × (pause m ≡ ret m') × Keeps on p m'.0
  unfolding pause
  pause-Keeps on p (soc, []) k = ((soc, []), refl, k)
  pause-Keeps on p (soc, n ∷ clock) k =
      let (soc', calls, k') = ticks-Keeps n on p soc k in ((soc', clock), rw calls, k')

  -- An access that keeps these, but for the enable bit, with the ticks before it.
  timed-Keeps :
      (access : Soc W → Exec (Soc W)) (on on' : ℕ) (p : List ℕ) (m : Timed W)
      → ((soc : Soc W)
          → Keeps on p soc
          → (soc' : Soc W) × (access soc ≡ ret soc') × Keeps on' p soc')
      → Keeps on p m.0
      → (m' : Timed W) × (timed access m ≡ ret m') × Keeps on' p m'.0
  unfolding timed
  timed-Keeps access on on' p m keeps k =
      let (m1, calls, k1) = pause-Keeps on p m k in
      let (soc', access_is, k2) = keeps m1.0 k1 in
      ((soc', m1.1), rw (calls, timed) (rw access_is), k2)

  putc-Keeps :
      (c on : ℕ) (p : List ℕ) (soc : Soc W)
      → Keeps on p soc
      → (soc' : Soc W) × (putc soc c ≡ ret soc') × Keeps on p soc'
  putc-Keeps c on p soc k = (
    after_putc host soc c,
    putc_lem host soc c k.running,
    record {
      running = after_putc-IsRunning host soc c k.running;
      enabled = k.enabled;
      low = k.low;
      piped = pipe-after_putc host input laws soc c ∙ k.piped;
    },
  )

  send-Keeps :
      (text : List ℕ) (on : ℕ) (p : List ℕ) (m : Timed W)
      → Keeps on p m.0
      → (m' : Timed W) × (send m text ≡ ret m') × Keeps on p m'.0
  unfolding send
  send-Keeps [] on p m k = (m, refl, k)
  send-Keeps (c ∷ text) on p m k =
      let (m1, calls, k1) = timed-Keeps (λ soc. putc soc c) on on p m (putc-Keeps c on p) k in
      let (m2, sends, k2) = send-Keeps text on p m1 k1 in (m2, rw (calls, send) sends, k2)

  print-Keeps :
      (format : List ℕ) (args : List Arg) (on : ℕ) (p : List ℕ) (m : Timed W)
      → Keeps on p m.0
      → (m' : Timed W) × (print m format args ≡ ret m') × Keeps on p m'.0
  unfolding print
  print-Keeps format args on p m k = send-Keeps (sent (printf format args)) on p m k

  enable-Keeps :
      (on : ℕ) (p : List ℕ) (soc : Soc W)
      → Keeps on p soc
      → (soc' : Soc W) × (store soc irq_agg_enable irq_bit_uart_rx ≡ ret soc') × Keeps 1 p soc'
  enable-Keeps on p soc k =
      let (calls, r) = store_enable host soc k.running in
      (_, calls, record { running = r; enabled = refl; low = k.low; piped = k.piped })

  stale-Keeps :
      (on : ℕ) (p : List ℕ) (soc : Soc W)
      → Keeps on p soc
      → (soc' : Soc W) × (store soc irq_agg_pending irq_bit_uart_rx ≡ ret soc') × Keeps on p soc'
  stale-Keeps on p soc k =
      let (calls, r) = store_stale host soc k.running in
      (_, calls, record { running = r; enabled = k.enabled; low = k.low; piped = k.piped })

  timed_enable-Keeps :
      (on : ℕ) (p : List ℕ) (m : Timed W)
      → Keeps on p m.0
      → (m' : Timed W) × (timed_enable m ≡ ret m') × Keeps 1 p m'.0
  unfolding timed_enable
  timed_enable-Keeps on p m k =
      let (m1, calls, k1) =
        timed-Keeps (λ soc. store soc irq_agg_enable irq_bit_uart_rx) on 1 p m (enable-Keeps on p)
          k in
      let (m2, calls', k2) =
        timed-Keeps (λ soc. store soc irq_agg_pending irq_bit_uart_rx) 1 1 p m1 (stale-Keeps 1 p)
          k1 in
      (m2, rw (calls, timed_enable) calls', k2)

  -- A halt with the code of a hook or of main, the value 1 from main, or the demo within its
  -- invariant, but for a byte that is stranded, with nothing taken and all that was to come still in
  -- the buffer or to come.
  abbrev pub Outcome : Soc W → Option ℕ → Bool → Booted W → Type 0
  Outcome soc (some code) runs b = (soc' : Soc W) × (b ≡ halted code soc') × IsRunning host soc'
  Outcome soc none true b =
      (soc' : Soc W) × (b ≡ scheduled (fresh soc'))
      × IsServed host (is_stranded soc'.devices) (fresh soc')
      × (pipe host input laws soc' ≡ pipe host input laws soc)
  Outcome soc none false b = (soc' : Soc W) × (b ≡ returned 1 soc') × IsRunning host soc'

  abbrev Ends : Exec (Booted W) → (Booted W → Type 0) → Type 0
  Ends call P = (b : Booted W) × (call ≡ ret b) × P b

  abbrev Halts : ℕ → Booted W → Type 0
  Halts code b = (soc' : Soc W) × (b ≡ halted code soc') × IsRunning host soc'

  v_assert_called_lem :
      (file : List ℕ) (line on : ℕ) (p : List ℕ) (m : Timed W)
      → Keeps on p m.0
      → Ends (v_assert_called m file line) (Halts 1)
  unfolding v_assert_called
  v_assert_called_lem file line on p m k =
      let (m', prints, k') =
        print-Keeps assert_format (pointer (some file) ∷ word line ∷ []) on p m k in
      (halted 1 m'.0, rw prints, (m'.0, refl, k'.running))

  malloc_failed_hook_lem :
      (on : ℕ) (p : List ℕ) (m : Timed W) → Keeps on p m.0 → Ends (malloc_failed_hook m) (Halts 3)
  unfolding malloc_failed_hook
  malloc_failed_hook_lem on p m k =
      let (m', prints, k') = print-Keeps malloc_format [] on p m k in
      (halted 3 m'.0, rw prints, (m'.0, refl, k'.running))

  create_lem :
      (file : List ℕ) (cs : List (Answer × ℕ)) (soc0 : Soc W) (m : Timed W) (runs : Bool) (on : ℕ)
      → (p : List ℕ) (rest : Timed W → Exec (Booted W)) → Keeps on p m.0
      → Ends (rest m) (Outcome soc0 none runs)
      → Ends (create file cs m rest) (Outcome soc0 (failure cs) runs)
  unfolding create config_assert
  create_lem file [] soc0 m runs on p rest k goes = goes
  create_lem file ((made, line) ∷ cs) soc0 m runs on p rest k goes =
      create_lem file cs soc0 m runs on p rest k goes
  create_lem file ((refused, line) ∷ cs) soc0 m runs on p rest k goes =
      v_assert_called_lem file line on p m k
  create_lem file ((out_of_heap, line) ∷ cs) soc0 m runs on p rest k goes =
      malloc_failed_hook_lem on p m k

  fresh-IsServed :
      (p : List ℕ) (soc : Soc W)
      → Keeps 1 p soc
      → IsServed host (is_stranded soc.devices) (fresh soc)
  fresh-IsServed p soc k = record {
    running = k.running;
    enabled = k.enabled;
    low = k.low;
    poised = tt;
    serving = tt;
    awake = ground (arith, k.running.sound.irq_agg.pending_bit);
  }

  start_lem :
      (soc0 : Soc W) (m : Timed W) (runs : Bool)
      → Keeps 1 (pipe host input laws soc0) m.0
      → Ends (start_scheduler m runs) (Outcome soc0 none runs)
  unfolding start_scheduler
  start_lem soc0 m true k =
      let p = pipe host input laws soc0 in
      let (m', prints, k') = print-Keeps (codes "[boot] scheduler starting\n") [] 1 p m k in
      (scheduled (fresh m'.0), rw prints, (m'.0, refl, fresh-IsServed p m'.0 k', k'.piped))
  start_lem soc0 m false k =
      let p = pipe host input laws soc0 in
      let (m', prints, k') = print-Keeps (codes "[boot] scheduler starting\n") [] 1 p m k in
      let (m'', prints', k'') = print-Keeps scheduler_format [] 1 p m' k' in
      (returned 1 m''.0, rw prints (rw prints'), (m''.0, refl, k''.running))

  pub main_lem :
      (soc : Soc W) (clock : List ℕ) (k : Kernel) (file : List ℕ)
      → IsRunning host soc
      → soc.devices.irq_agg.uart_rx_edge ≡ false
      → (b : Booted W) × (main file (soc, clock) k ≡ ret b) × Outcome soc (verdict k) k.scheduler b
  unfolding main install_mtvec config_assert
  main_lem soc clock k file r low =
      let on = soc.devices.irq_agg.enable in
      let p = pipe host input laws soc in
      let start : Keeps on p soc = record {
        running = r;
        enabled = refl;
        low = low;
        piped = refl;
      } in
      let (m1, prints, k1) =
        print-Keeps (codes "[boot] main entered\n") [] on p (soc, clock) start in
      elim (Bool-cases (bit_and k.handler 3 == 0)) [
        | inr odd ↦
            (let (b, halts, h) = v_assert_called_lem file 46 on p m1 k1 in
              (b, rw prints (rw odd halts), rw odd h))
        | inl aligned ↦
            (let (m3, set, k3) = timed_enable-Keeps on p m1 k1 in
              let ready = start_lem soc m3 k.scheduler k3 in
              let (b, runs, o) =
                create_lem file (calls k) soc m3 k.scheduler 1 p
                  (λ m4. start_scheduler m4 k.scheduler) k3 ready in
              (b, rw prints (rw aligned (rw set runs)), rw aligned o))
      ]
