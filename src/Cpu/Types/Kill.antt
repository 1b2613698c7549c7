-- ===== src/Cpu/Types/Kill.antt =====
-- What a kill event does to tokens and rows.
use dae_pipeline_cpu.Prelude.{
  ℕ, ◌+◌, ◌%◌, ◌<◌, ◌≡◌, refl, arith, Bool, true, false, not, ◌&&◌, ◌||◌, if◌then◌else◌, ltb, ap,
  ◌∙◌,
}
use dae_pipeline_cpu.Cpu.Types.{
  KillEvent, zero_kill, InstToken, ScoreboardRow, seq_after, killed_by_event, kill_token_if_younger,
  kill_scoreboard_row_if_younger,
}

marked : (killed hit : Bool) → (if not killed && hit then true else killed) ≡ (killed || hit)
marked true true = refl
marked true false = refl
marked false true = refl
marked false false = refl

abbrev with_row : ScoreboardRow → Bool → ScoreboardRow
with_row row k = record row { killed = k }

abbrev with_token : InstToken → Bool → InstToken
with_token token k = record token { killed = k }

row_if :
    (row : ScoreboardRow) (c : Bool)
    → (if c then with_row row true else row) ≡ with_row row (if c then true else row.killed)
row_if row true = refl
row_if row false = refl

token_if :
    (token : InstToken) (c : Bool)
    → (if c then with_token token true else token)
      ≡ with_token token (if c then true else token.killed)
token_if token true = refl
token_if token false = refl

pub kill_row_lem :
    (row : ScoreboardRow) (kill : KillEvent)
    → kill_scoreboard_row_if_younger row kill
      ≡ record row { killed = row.killed || killed_by_event row.valid row.epoch row.seq_id kill }
unfolding kill_scoreboard_row_if_younger
kill_row_lem row kill =
    let hit = killed_by_event row.valid row.epoch row.seq_id kill in
    row_if row (not row.killed && hit) ∙ ap (with_row row) (marked row.killed hit)

pub kill_token_lem :
    (token : InstToken) (kill : KillEvent)
    → kill_token_if_younger token kill ≡ record token {
      killed = token.killed || killed_by_event token.valid token.epoch token.seq_id kill;
    }
unfolding kill_token_if_younger
kill_token_lem token kill =
    let hit = killed_by_event token.valid token.epoch token.seq_id kill in
    token_if token (not token.killed && hit) ∙ ap (with_token token) (marked token.killed hit)

pub no_kill :
    (valid : Bool) (epoch seq_id : ℕ) → killed_by_event valid epoch seq_id zero_kill ≡ false
unfolding killed_by_event
no_kill valid epoch seq_id = refl

pub invalid_spared :
    (epoch seq_id : ℕ) (kill : KillEvent) → killed_by_event false epoch seq_id kill ≡ false
unfolding killed_by_event
invalid_spared epoch seq_id kill = ground arith

-- Sequence numbers of `seq_id_w` bits, in their cyclic order.
pub seq_after_lem :
    (a k : ℕ) → a < 256 → k < 256 → seq_after ((a + k) % 256) a ≡ (ltb 0 k && ltb k 128)
unfolding seq_after
seq_after_lem a k ha hk = ground arith

-- No event that names an instruction kills it.
pub self_spared :
    (token : InstToken)
    → killed_by_event token.valid token.epoch token.seq_id
        (record { valid = true; epoch = token.epoch; seq_id = token.seq_id })
      ≡ false
unfolding killed_by_event seq_after
self_spared token = ground arith
