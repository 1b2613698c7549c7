-- ===== src/Terminal.antt =====
-- devices/common/src/terminal_backend.c: the host terminal as the receive side of the UART uses it.
-- The calls of POSIX are parameters; `W` is the state of the outside world and `T` a `struct
-- termios`.
pub mod Restore
use dae_pipeline_cpu.Prelude.{ℕ, Bool, true, false, Option, none, some, if◌then◌else◌, bit_or, ◌==◌}
use dae_pipeline_cpu.Bus.{Exec, ret, dev_assert}

-- isatty(STDIN_FILENO) == 1; tcgetattr, where some is the result 0; tcsetattr with TCSANOW, whose
-- result the code casts away;
-- cfmakeraw followed by the stores to VMIN and VTIME; fcntl with F_GETFL, where none is -1, and
-- with F_SETFL; read of one byte, where none is every result but 1; and atexit with the one
-- function that is registered.
pub record Posix (T W : Type 0) : Type 0 where
  pub isatty : W → Bool
  pub tcgetattr : W → Option T × W
  pub tcsetattr : T → W → W
  pub cfmakeraw : T → T
  pub set_cc : ℕ → ℕ → T → T
  pub get_flags : W → Option ℕ × W
  pub set_flags : ℕ → W → W
  pub read_byte : W → Option ℕ × W
  pub atexit : W → W

pub record TerminalBackend (T : Type 0) : Type 0 where
  pub initialized : Bool
  pub is_tty : Bool
  pub termios_saved : Bool
  pub saved_termios : T

module _ {T W : Type 0} (posix : Posix T W) (vmin vtime o_nonblock : ℕ) where
  -- g_backend at the start; the saved settings are zeroed memory.
  abbrev pub g_backend : T → TerminalBackend T
  g_backend zeroed = record {
    initialized = false;
    is_tty = false;
    termios_saved = false;
    saved_termios = zeroed;
  }

  pub destroy : TerminalBackend T → W → TerminalBackend T × W
  destroy b w =
      if b.termios_saved
      then (record b { termios_saved = false }, posix.tcsetattr b.saved_termios w)
      else (b, w)

  abbrev pub raw : T → T
  raw t = posix.set_cc vtime 0 (posix.set_cc vmin 0 (posix.cfmakeraw t))

  -- The settings of a terminal, which are left alone where they cannot be read.
  pub set_up : TerminalBackend T → W → TerminalBackend T × W
  set_up b w =
      let (read, w') = posix.tcgetattr w in
      elim read [
        | none ↦ (b, w')
        | some t ↦
            (record b { termios_saved = true; saved_termios = t }, posix.tcsetattr (raw t) w')
      ]

  pub unblock : W → W
  unblock w =
      let (flags, w') = posix.get_flags w in
      elim flags [ none ↦ w' | some n ↦ posix.set_flags (bit_or n o_nonblock) w' ]

  -- terminal_backend_init, which terminal_backend_get_singleton calls before it answers with the
  -- one object.
  pub init : TerminalBackend T → W → TerminalBackend T × W
  init b w =
      if b.initialized
      then (b, w)
      else (let tty = posix.isatty w in
          let b1 : TerminalBackend T = record b { initialized = true; is_tty = tty } in
          let r = if tty then set_up b1 w else (b1, w) in (r.0, posix.atexit (unblock r.1)))

  -- terminal_backend_try_read, for an object and a place of the byte that are not NULL.
  abbrev pub try_read : TerminalBackend T → W → Option ℕ × W
  try_read b w = posix.read_byte w
