-- ===== src/Consumers/Retry.antt =====
-- consumers/base_consumer.py: the schedule of `_run_with_retry`.
use log_foundry.Prelude.{
  ℕ, zero, suc, ◌-◌, ◌^◌, ◌<◌, ◌≡◌, ◌⊎◌, Bool, true, false, List, [], ◌∷◌, ◌++◌, ltb, if◌then◌else◌,
}
use log_foundry.Consumers.Kafka.{Message, Call, Kafka}
use log_foundry.Consumers.Base.{Act, attempt, sleep, dead_letter, Codec, Settings}

-- What `count` failed attempts leave, the first of which is attempt `n`: after each but the last of
-- all a wait that doubles.
abbrev pub failures : Message → ℕ → ℕ → ℕ → List Act
failures m n zero max_retries = []
failures m n (suc count) max_retries =
    let rest = failures m (suc n) count max_retries in
    attempt m false ∷ (if ltb n (max_retries - 1) then sleep (2 ^ n) ∷ rest else rest)

module _ {S : Type 0} (k : Kafka S) (c : Codec) (st : Settings)
    (process : Message → Call S (Unit {0})) (max_retries : ℕ) (m : Message) where
  -- Either some attempt succeeds and ends the retries, or all fail and the message goes to the
  -- dead-letter topic.
  abbrev pub Tried : List Act → List Act → ℕ → ℕ → Type 0
  Tried before after left n =
      ((f : ℕ) × (f < left)
        × (after ≡ before ++ (failures m n f max_retries ++ attempt m true ∷ [])))
      ⊎ ((b : Bool) × (after ≡ before ++ (failures m n left max_retries ++ dead_letter m b ∷ [])))
