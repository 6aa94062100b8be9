-- ===== src/Replay.antt =====
-- scripts/replay_dlq.py: the replay of the dead-letter topic. What is known of the calls: a message
-- that is handed out is one fewer of those that are left.
pub mod Moves
pub mod Limits
pub mod Loop
pub mod Script
mod Envelope
pub mod Letters
mod LetterTests
mod Tests
use log_foundry.Prelude.{
  ℕ, zero, suc, ◌<◌, ◌≤◌, String, ◌≡◌, Bool, true, false, not, ltb, Option, none, some, List, [],
  ◌∷◌, ◌++◌, if◌then◌else◌, Outcome, ret, raise, json_error, type_error, Exc,
}
use log_foundry.Consumers.Kafka.{Bytes}
use log_foundry.Consumers.Payload.{Json, null, text, Reader, get, truthy}
use log_foundry.Consumers.Base.{succeeded}

-- The value of a message, which may be null.
abbrev pub Value : Type 0
Value = Option Bytes

-- What the script does, in order: a message published, a commit; and whether the call succeeded.
pub data Act : Type 0 where
  publish : Json → Bool → Act
  commit : Bool → Act

pub record Services (S : Type 0) : Type 0 where
  -- `getone`, `none` for the timeout
  pub getone : S → Outcome (Option Value) × S
  pub commit_offsets : S → Outcome (Unit {0}) × S
  pub send : Bytes → S → Outcome (Unit {0}) × S
  -- `json.loads` of a value, `LogEvent.model_validate_json`, and the encoding of a text
  pub loads : Value → Outcome Json
  pub validate : Json → Bool
  pub encode : String → Outcome Bytes
  -- the messages that the topic still has for this group
  pub left : S → ℕ
  pub getone-left : (s : S) (b : Value) → (getone s).0 ≡ ret (some b) → left (getone s).1 < left s
  pub getone-keeps : (s : S) → left (getone s).1 ≤ left s
  pub commit-left : (s : S) → left (commit_offsets s).1 ≡ left s
  pub send-left : (b : Bytes) (s : S) → left (send b s).1 ≡ left s

pub record Run (S : Type 0) : Type 0 where
  pub world : S
  pub replayed : ℕ
  pub journal : List Act

-- What follows a round: the end of the loop or another round.
pub data Next (S : Type 0) : Type 0 where
  over : Outcome (Unit {0}) → Run S → Next S
  again : Run S → Next S

module _ {S : Type 0} (v : Services S) (rd : Reader) where
  unfoldable pub commit_one : Run S → Outcome (Unit {0}) × Run S
  commit_one r =
      let (o, s) = v.commit_offsets r.world in
      (o, record r { world = s; journal = r.journal ++ commit (succeeded o) ∷ [] })

  -- `original_value.encode("utf-8") if isinstance(original_value, str) else original_value`; Kafka
  -- takes nothing but bytes.
  unfoldable pub payload_of : Json → Outcome Bytes
  payload_of (text t) = v.encode t
  payload_of _ = raise type_error

  -- `send_and_wait`, and what follows if it returns.
  unfoldable pub after_send : Json → Outcome (Unit {0}) × S → Run S → Outcome (Unit {0}) × Run S
  unfolding commit_one
  after_send value (ret _, s) r = commit_one (record {
    world = s;
    replayed = suc r.replayed;
    journal = r.journal ++ publish value true ∷ [];
  })
  after_send value (raise e, s) r =
      (raise e, record r { world = s; journal = r.journal ++ publish value false ∷ [] })

  unfoldable pub publish_value : Json → Run S → Outcome (Unit {0}) × Run S
  unfolding payload_of after_send
  publish_value value r = elim (payload_of value) [
    | raise e ↦ (raise e, r)
    | ret bytes ↦ after_send value (v.send bytes r.world) r
  ]

  -- An original value: one that is missing or is no log event is skipped.
  unfoldable pub replay_value : Json → Run S → Outcome (Unit {0}) × Run S
  unfolding commit_one publish_value
  replay_value value r =
      if not (truthy rd value)
      then commit_one r
      else if v.validate value
      then publish_value value r
      else commit_one r

  -- The `try` block.
  unfoldable pub replay_message : Value → Run S → Outcome (Unit {0}) × Run S
  unfolding replay_value
  replay_message payload r = elim (v.loads payload) [
    | raise e ↦ (raise e, r)
    | ret wrapper ↦ elim (get wrapper "original_value" null) [
      | raise e ↦ (raise e, r)
      | ret value ↦ replay_value value r
    ]
  ]

  -- `except json.JSONDecodeError`
  unfoldable pub skip_garbage : Outcome (Unit {0}) × Run S → Outcome (Unit {0}) × Run S
  unfolding commit_one
  skip_garbage (ret u, r) = (ret u, r)
  skip_garbage (raise json_error, r) = commit_one r
  skip_garbage (raise e, r) = (raise e, r)

  unfoldable pub after_message : Outcome (Unit {0}) × Run S → Next S
  after_message (ret u, r) = again r
  after_message (raise e, r) = over (raise e) r

  unfoldable pub after_getone : Outcome (Option Value) × S → Run S → Next S
  unfolding replay_message skip_garbage after_message
  after_getone (raise e, s) r = over (raise e) (record r { world = s })
  after_getone (ret none, s) r = over (ret tt) (record r { world = s })
  after_getone (ret (some payload), s) r =
      after_message (skip_garbage (replay_message payload (record r { world = s })))

  -- A round of the loop, its condition first.
  unfoldable pub replay_round : ℕ → Run S → Next S
  unfolding after_getone
  replay_round limit r =
      if ltb r.replayed limit then after_getone (v.getone r.world) r else over (ret tt) r

  -- The loop; `none` if the fuel, the number of its rounds, is not enough.
  unfoldable pub replay_loop : ℕ → ℕ → Run S → Option (Outcome (Unit {0}) × Run S)
  unfolding replay_round
  replay_loop zero limit r = none
  replay_loop (suc fuel) limit r = elim (replay_round limit r) [
    | over o r' ↦ some (o, r')
    | again r' ↦ replay_loop fuel limit r'
  ]
