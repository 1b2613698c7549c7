-- ===== src/Tests/Console.antt =====
-- A terminal whose settings are a number, and which is raw with the number 0.
use dae_pipeline_cpu.Prelude.{ℕ, true, some, none}
use dae_pipeline_cpu.Terminal.{Posix}

-- the settings and the flags of the descriptor
abbrev Console : Type 0
Console = ℕ × ℕ

abbrev console : Posix ℕ Console
console = record {
  isatty = λ w. true;
  tcgetattr = λ w. (some w.0, w);
  tcsetattr = λ t w. (t, w.1);
  cfmakeraw = λ t. 0;
  set_cc = λ i v t. t;
  get_flags = λ w. (some w.1, w);
  set_flags = λ n w. (w.0, n);
  read_byte = λ w. (none, w);
  atexit = λ w. w;
}
