-- ===== src/Consumers/Kafka.antt =====
-- What the consumers use of aiokafka: the messages, the calls of a consumer and a producer, and what
-- the client's documentation says of positions and committed offsets. The outside world, brokers
-- and databases, is a state `S`; a call returns a value or raises, and changes the world.
use log_foundry.Prelude.{ℕ, String, ◌≡◌, ◌⊎◌, Option, List, [], ◌∷◌, ◌++◌, Outcome, ret, raise, Exc}

abbrev pub Bytes : Type 0
Bytes = List ℕ

pub record Message : Type 0 where
  pub topic : String
  pub partition : ℕ
  pub offset : ℕ
  pub key : Option Bytes
  pub value : Option Bytes

abbrev pub Call : Type 0 → Type 0 → Type 0
Call S A = S → Outcome A × S

-- `messages.items()` of one `getmany`: the batch of each partition.
abbrev pub Batches : Type 0
Batches = List (ℕ × List Message)

abbrev pub messages_of : Batches → List Message
messages_of [] = []
messages_of ((tp, batch) ∷ batches) = batch ++ messages_of batches

pub record Kafka (S : Type 0) : Type 0 where
  pub getmany : Call S Batches
  pub commit : Call S (Unit {0})
  -- `send_and_wait(topic, key=…, value=…)`
  pub send : String → Option Bytes → Bytes → Call S (Unit {0})
  -- The messages that `getmany` has returned, which are those below the consumer's positions, and
  -- those below the committed offsets, from which a restarted consumer goes on.
  pub delivered : S → List Message
  pub committed : S → List Message
  -- `getmany` moves the positions past what it returns; where it raises they stay.
  pub getmany-delivered :
      (s : S) (b : Batches)
      → (getmany s).0 ≡ ret b
      → delivered (getmany s).1 ≡ delivered s ++ messages_of b
  pub getmany-raise :
      (s : S) (e : Exc) → (getmany s).0 ≡ raise e → delivered (getmany s).1 ≡ delivered s
  pub getmany-committed : (s : S) → committed (getmany s).1 ≡ committed s
  -- `commit()` without arguments commits the positions; one that raises may have done so.
  pub commit-delivered : (s : S) → delivered (commit s).1 ≡ delivered s
  pub commit-committed : (s : S) → (commit s).0 ≡ ret tt → committed (commit s).1 ≡ delivered s
  pub commit-raise :
      (s : S) (e : Exc)
      → (commit s).0 ≡ raise e
      → (committed (commit s).1 ≡ delivered s) ⊎ (committed (commit s).1 ≡ committed s)
  pub send-delivered :
      (t : String) (k : Option Bytes) (v : Bytes) (s : S) → delivered (send t k v s).1 ≡ delivered s
  pub send-committed :
      (t : String) (k : Option Bytes) (v : Bytes) (s : S) → committed (send t k v s).1 ≡ committed s

-- A call leaves the offsets alone.
pub record Quiet {S A : Type 0} (k : Kafka S) (f : Call S A) : Type 0 where
  pub delivered : (s : S) → Kafka.delivered k (f s).1 ≡ Kafka.delivered k s
  pub committed : (s : S) → Kafka.committed k (f s).1 ≡ Kafka.committed k s
