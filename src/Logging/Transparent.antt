-- ===== src/Logging/Transparent.antt =====
-- "Transparent Decorator" (logging_mmio_device.h), for a device whose failed reads give 0.
use Prim.Native.String.{String}
use dae_pipeline_cpu.Prelude.{ℕ, ◌≡◌, Option, true, List, [], ◌∷◌, ◌++◌, ◌⊎◌, inl, inr, arith}
use dae_pipeline_cpu.Bus.{AxiResp, axi_resp_name, is_okay, ret, ◌>>=◌, MmioDevice}
use dae_pipeline_cpu.Host.{File}
use dae_pipeline_cpu.Logging.{Line, read_line, write_line, resolve_sink, ctor, read, write}

-- The store of the wrapped device beside the lines that have been written.
abbrev pub Logged : Type 0 → Type 0
Logged S = S × List (File × Line)

abbrev pub append_line : {S : Type 0} → Logged S → File → Line → Logged S
append_line (s, lines) f line = (s, lines ++ ((f, line) ∷ []))

module _ {S : Type 0} (dev : MmioDevice S) where
  -- The device over the larger store.
  abbrev pub lifted : MmioDevice (Logged S)
  lifted = record {
    read = λ s offset width. dev.read s.0 offset width >>= λ r. ret (r.0, r.1, (r.2, s.1));
    write = λ s offset width value strb.
        dev.write s.0 offset width value strb >>= λ r. ret (r.0, (r.1, s.1));
  }

module _ {S : Type 0} (dev : MmioDevice S) (tag : String) (sink : Option File) where
  -- The decorated device.
  abbrev pub logged : MmioDevice (Logged S)
  logged = ctor append_line (lifted dev) tag sink

  -- Where the wrapped device answers a read and a write, and gives the value 0 with every response
  -- but OKAY, the decorated device gives the same response, value and state, and one line more has
  -- gone to the sink.
  logged_lem :
      (s s1 s2 : S) (lines : List (File × Line)) (offset width value strb v : ℕ)
      (resp answer : AxiResp)
      → dev.read s offset width ≡ ret (resp, v, s1)
      → (is_okay resp ≡ true) ⊎ (v ≡ 0)
      → dev.write s offset width value strb ≡ ret (answer, s2)
      → let sent = read_line tag width offset v (axi_resp_name resp) in
        let got = write_line tag width offset value strb (axi_resp_name answer) in
        (logged.read (s, lines) offset width
          ≡ ret (resp, v, (s1, lines ++ ((resolve_sink sink, sent) ∷ []))))
        × (logged.write (s, lines) offset width value strb
            ≡ ret (answer, (s2, lines ++ ((resolve_sink sink, got) ∷ []))))
  unfolding ctor read write
  logged_lem s s1 s2 lines offset width value strb v resp answer e zero e' = (
    elim zero [ inl ok ↦ rw e (rw ok) | inr none_read ↦ rw (e, none_read) (ground arith) ],
    rw e',
  )
