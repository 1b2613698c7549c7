-- ===== src/Host.antt =====
-- The services of the host C library that the devices call. `W` is the state of the outside world.
use dae_pipeline_cpu.Prelude.{ℕ, Bool, Option}

-- A `FILE *`, by number.
abbrev pub File : Type 0
File = ℕ

abbrev pub stdout : File
stdout = 1

-- `fputc` answers whether the byte was written (false is EOF). `read_byte` is a `read` of one byte
-- from the non-blocking standard input: none is every result but 1.
pub record Host (W : Type 0) : Type 0 where
  pub fputc : W → File → ℕ → Bool × W
  pub read_byte : W → Option ℕ × W
