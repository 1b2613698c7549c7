-- ===== src/Tests/World.antt =====
-- A host for the tests: the bytes that are still to arrive, and those that were written.
use dae_pipeline_cpu.Prelude.{
  ℕ, List, [], ◌∷◌, ◌++◌, true, Option, none, some, ◌≡◌, refl, arith, All, ◌<◌,
}
use dae_pipeline_cpu.Host.{Host}
use dae_pipeline_cpu.Uart.Stream.{InputLaws}

pub record World : Type 0 where
  pub coming : List ℕ
  pub sent : List ℕ
  pub bytes : All (λ b. b < 256) coming

abbrev take_byte : (l : List ℕ) → List ℕ → All (λ b. b < 256) l → Option ℕ × World
take_byte [] out h = (none, record { coming = []; sent = out; bytes = tt })
take_byte (b ∷ bs) out h = (some b, record { coming = bs; sent = out; bytes = h.1 })

abbrev pub test_host : Host World
test_host = record {
  fputc = λ w f b. (true, record w { sent = w.sent ++ (b ∷ []) });
  read_byte = λ w. take_byte w.coming w.sent w.bytes;
}

abbrev pub coming_of : World → List ℕ
coming_of w = w.coming

take_byte-arrives :
    (l out : List ℕ) (h : All (λ b. b < 256) l) (b : ℕ)
    → (take_byte l out h).0 ≡ some b
    → (l ≡ b ∷ (take_byte l out h).1.coming) × (b < 256)
take_byte-arrives [] out h b e = absurd cc
take_byte-arrives (c ∷ cs) out h b e = let q : c ≡ b = cc in (rw q, rw (← q) h.0)

take_byte-absent :
    (l out : List ℕ) (h : All (λ b. b < 256) l)
    → (take_byte l out h).0 ≡ none
    → (take_byte l out h).1.coming ≡ l
take_byte-absent [] out h e = refl
take_byte-absent (c ∷ cs) out h e = absurd cc

pub test_host-InputLaws : InputLaws test_host coming_of
test_host-InputLaws = record {
  arrives = λ w b. take_byte-arrives w.coming w.sent w.bytes b;
  absent = λ w. take_byte-absent w.coming w.sent w.bytes;
  output = λ w f b. refl;
}

-- Two bytes are on their way, and none.
abbrev pub ab : World
ab = record { coming = 0x41 ∷ 0x42 ∷ []; sent = []; bytes = (omega arith, (omega arith, tt)) }

abbrev pub silent : World
silent = record { coming = []; sent = []; bytes = tt }
