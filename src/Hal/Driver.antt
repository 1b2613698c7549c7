-- ===== src/Hal/Driver.antt =====
-- The driver against the device.
use dae_pipeline_cpu.Prelude.{
  ℕ, ◌⊎◌, if◌then◌else◌, ◌%◌, ◌^◌, ◌≡◌, arith, inl, inr, Bool, true, false, none, some, Bool-cases,
  bit_and, suc, u8, refl,
}
use dae_pipeline_cpu.Bits.{bit_and_mask}
use dae_pipeline_cpu.Bus.{ret, Exec, ◌>>=◌}
use dae_pipeline_cpu.Host.{Host}
use dae_pipeline_cpu.Uart
use dae_pipeline_cpu.Uart.{sink}
use dae_pipeline_cpu.Uart.Registers.{emptied, buffer, write_lem}
use dae_pipeline_cpu.Soc.{Soc}
use dae_pipeline_cpu.Soc.Decode.{Window, window_lem}
use dae_pipeline_cpu.Soc.Run.{IsRunning}
use dae_pipeline_cpu.Soc.Interrupt.{read_uart}
use dae_pipeline_cpu.Hal.{load, store, putc, try_getc, getc}

module _ {W : Type 0} (host : Host W) where
  abbrev pub without_byte : Soc W → Soc W
  without_byte soc = record soc { devices = record soc.devices { uart = emptied soc.devices.uart } }

  pub load_status :
      (soc : Soc W) (v : Bool)
      → IsRunning host soc
      → soc.devices.uart.rx_valid ≡ v
      → load soc 0x10001004 ≡ ret ((if v then 2 else 0), soc)
  unfolding load Uart.read
  load_status soc v r e = rw (read_uart host soc 4 r.mapped (omega arith), load) (rw e)

  pub load_data :
      (soc : Soc W)
      → IsRunning host soc
      → soc.devices.uart.rx_valid ≡ true
      → load soc 0x10001008 ≡ ret (soc.devices.uart.rx_byte, soc)
  unfolding load Uart.read
  load_data soc r e = rw (read_uart host soc 8 r.mapped (omega arith), load) (rw e)

  pub store_status :
      (soc : Soc W) → IsRunning host soc → store soc 0x10001004 2 ≡ ret (without_byte soc)
  unfolding store Uart.write
  store_status soc r =
      let e =
        (window_lem host soc Window.uart 0x10001004 4 r.mapped (omega arith) (omega arith)).1 2
          0xf in
      rw (e, store)

  -- The SoC after a byte has been sent, whether the stream took it or not.
  abbrev pub after_putc : Soc W → ℕ → Soc W
  after_putc soc c =
      let d = soc.devices in
      record soc { devices = record d { world = (host.fputc d.world (sink d.uart.out) (u8 c)).1 } }

  pub putc_lem : (soc : Soc W) (c : ℕ) → IsRunning host soc → putc soc c ≡ ret (after_putc soc c)
  unfolding putc store
  putc_lem soc c r =
      let d = soc.devices in
      let routed =
        (window_lem host soc Window.uart 0x10001000 4 r.mapped (omega arith) (omega arith)).1 (u8 c)
          0xf in
      let answer = write_lem host d.uart d.world 0 4 (u8 c) 0xf (omega arith) (inr refl) in
      let low : u8 c % 256 ≡ u8 c = omega arith in rw (routed, putc) (rw answer (rw low))

  -- uart_try_getc returns the byte in the receive buffer and empties it, and touches nothing else,
  -- or returns -1 and changes nothing where the buffer is empty.
  pub try_getc_lem :
      (soc : Soc W)
      → IsRunning host soc
      → ((buffer soc.devices.uart ≡ none) × (try_getc soc ≡ ret (none, soc)))
        ⊎ ((b : ℕ) × (buffer soc.devices.uart ≡ some b)
            × (try_getc soc ≡ ret (some b, without_byte soc)))
  unfolding try_getc
  try_getc_lem soc r = elim (Bool-cases soc.devices.uart.rx_valid) [
    | inr empty ↦ inl (rw empty, rw (load_status soc false r empty, try_getc))
    | inl full ↦
        (let b = soc.devices.uart.rx_byte in
          let small = r.sound.rx_byte in
          let same : bit_and b 0xff % 2 ^ 8 ≡ b = ground (arith, bit_and_mask 8 b) in
          inr (
            b,
            rw full,
            rw (load_status soc true r full, try_getc)
                (rw (load_data soc r full) (rw (store_status soc r) (rw same))),
          ))
  ]

  pub try_getc_full :
      (soc : Soc W) (b : ℕ)
      → IsRunning host soc
      → buffer soc.devices.uart ≡ some b
      → try_getc soc ≡ ret (some b, without_byte soc)
  try_getc_full soc b r full = elim (try_getc_lem soc r) [
    | inl (empty, call) ↦ absurd cc
    | inr (c, held, call) ↦ let same : c ≡ b = cc in rw (← same) call
  ]

  -- The two outcomes of a poll of uart_getc.
  pub getc_empty :
      (n : ℕ) (between : Soc W → Exec (Soc W)) (soc : Soc W)
      → IsRunning host soc
      → buffer soc.devices.uart ≡ none
      → getc (suc n) between soc ≡ (between soc >>= getc n between)
  unfolding getc
  getc_empty n between soc r e = elim (Bool-cases soc.devices.uart.rx_valid) [
    | inr empty ↦ rw (load_status soc false r empty, getc) refl
    | inl full ↦ ground (arith, e, full)
  ]

  pub getc_full :
      (n : ℕ) (between : Soc W → Exec (Soc W)) (soc : Soc W) (b : ℕ)
      → IsRunning host soc
      → buffer soc.devices.uart ≡ some b
      → getc (suc n) between soc ≡ ret (some b, without_byte soc)
  unfolding getc
  getc_full n between soc b r e = elim (Bool-cases soc.devices.uart.rx_valid) [
    | inr empty ↦ ground (arith, e, empty)
    | inl full ↦
        (let same : bit_and soc.devices.uart.rx_byte 0xff % 2 ^ 8 ≡ b =
            ground (arith, bit_and_mask 8 soc.devices.uart.rx_byte, r.sound.rx_byte, e, full) in
          rw (load_status soc true r full, getc)
            (rw (load_data soc r full) (rw (store_status soc r) (rw same))))
  ]
