-- ===== src/Terminal/Restore.antt =====
-- The settings of the terminal that the backend hands back when the process ends.
use dae_pipeline_cpu.Prelude.{ℕ, ◌≡◌}
use dae_pipeline_cpu.Terminal.{Posix, TerminalBackend, g_backend, destroy, init}

module _ {T W : Type 0} (posix : Posix T W) (vmin vtime o_nonblock : ℕ) where
  abbrev pub started : T → W → TerminalBackend T × W
  started zeroed w =
      init posix vmin vtime o_nonblock (g_backend posix vmin vtime o_nonblock zeroed) w

  -- A second call of the function that runs at exit has no effect.
  abbrev pub Spent : TerminalBackend T → Type 0
  Spent b = (w : W) → destroy posix vmin vtime o_nonblock b w ≡ (b, w)
