-- ===== src/Replay/Loop.antt =====
-- scripts/replay_dlq.py: the loop as a whole.
use log_foundry.Prelude.{ℕ, ◌+◌, ◌≤◌, ◌≡◌, Option, some, List, ◌++◌, Outcome, All}
use log_foundry.Consumers.Payload.{Reader}
use log_foundry.Replay.{Act, Services, Run}
use log_foundry.Replay.Moves.{published, IsValid, Moves}

module _ {S : Type 0} (v : Services S) (rd : Reader) (limit : ℕ) where
  -- What the loop has done when it ends.
  pub record Replays (r r' : Run S) : Type 0 where
    pub acts : List Act
    pub journal : r'.journal ≡ r.journal ++ acts
    pub count : r'.replayed ≡ r.replayed + published acts
    pub limited : r'.replayed ≤ limit
    pub valid : All (IsValid v rd) acts

  abbrev pub Ends : Run S → Option (Outcome (Unit {0}) × Run S) → Type 0
  Ends r x = (o : Outcome (Unit {0})) × (r' : Run S) × (x ≡ some (o, r')) × Replays r r'
