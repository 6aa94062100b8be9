-- ===== src/Consumers/Base.antt =====
-- consumers/base_consumer.py: retries, the dead-letter topic, the consume loop.
use log_foundry.Prelude.{
  ℕ, zero, suc, ◌-◌, ◌^◌, String, Bool, true, false, Option, none, some, List, [], ◌∷◌, ◌++◌, ltb,
  if◌then◌else◌, Outcome, ret, raise, unicode_error, ◌>>=◌,
}
use log_foundry.Consumers.Kafka.{Bytes, Message, Call, Batches, Kafka}

-- What a consumer does, in order: an attempt at a message and whether it succeeded, a wait in
-- seconds, a message handed to the dead-letter topic and whether that succeeded, a commit.
pub data Act : Type 0 where
  attempt : Message → Bool → Act
  sleep : ℕ → Act
  dead_letter : Message → Bool → Act
  commit : Bool → Act
  loop_error : Act

-- The world, with what the consumer has done.
pub record Run (S : Type 0) : Type 0 where
  pub world : S
  pub journal : List Act

-- The envelope of a message on the dead-letter topic.
pub record DeadLetter : Type 0 where
  pub original_topic : String
  pub original_partition : ℕ
  pub original_offset : ℕ
  pub original_key : Option String
  pub original_value : Option String
  pub consumer_class : String
  pub group_id : String

pub record Settings : Type 0 where
  pub dead_letter_topic : String
  pub consumer_class : String
  pub group_id : String

abbrev pub succeeded {ℓ} : {A : Type ℓ} → Outcome A → Bool
succeeded (ret a) = true
succeeded (raise e) = false

-- Python's codecs: `bytes.decode("utf-8")`, `none` where it raises, and `json.dumps` of the
-- envelope, encoded.
pub record Codec : Type 0 where
  pub decode : Bytes → Option String
  pub dump_letter : DeadLetter → Bytes

-- `x.decode("utf-8") if x else None`: no bytes at all count as none.
unfoldable pub decode_optional : Codec → Option Bytes → Outcome (Option String)
decode_optional c none = ret none
decode_optional c (some []) = ret none
decode_optional c (some (b ∷ bs)) = elim (Codec.decode c (b ∷ bs)) [
  | none ↦ raise unicode_error
  | some t ↦ ret (some t)
]

unfoldable pub letter_of : Codec → Settings → Message → Outcome DeadLetter
unfolding decode_optional
letter_of c st m = do
  k ← decode_optional c m.key
  v ← decode_optional c m.value
  ret (record {
    original_topic = m.topic;
    original_partition = m.partition;
    original_offset = m.offset;
    original_key = k;
    original_value = v;
    consumer_class = st.consumer_class;
    group_id = st.group_id;
  })

module _ {S : Type 0} where
  -- The wait after failed attempt `n`, unless it was the last.
  unfoldable pub wait : ℕ → ℕ → Run S → Run S
  wait n max_retries r =
      if ltb n (max_retries - 1) then record r { journal = r.journal ++ sleep (2 ^ n) ∷ [] } else r

  -- `except Exception`: one second of sleep.
  abbrev pub recover : Run S → Run S
  recover r = record r { journal = r.journal ++ loop_error ∷ sleep 1 ∷ [] }

module _ {S : Type 0} (k : Kafka S) where
  -- `if messages: commit()`
  unfoldable pub commit_if : Batches → Run S → Run S
  commit_if [] r = r
  commit_if (b ∷ bs) r =
      let (o, s) = k.commit r.world in
      let r' : Run S = record { world = s; journal = r.journal ++ commit (succeeded o) ∷ [] } in
      if succeeded o then r' else recover r'

module _ {S : Type 0} (k : Kafka S) (c : Codec) (st : Settings) where
  -- The `try` block of `_send_to_dead_letter`.
  unfoldable pub try_dead_letter : Message → Call S (Unit {0})
  unfolding letter_of
  try_dead_letter m s = elim (letter_of c st m) [
    | ret letter ↦ k.send st.dead_letter_topic m.key (c.dump_letter letter) s
    | raise e ↦ (raise e, s)
  ]

  -- An error of the dead-letter routing is logged and dropped.
  unfoldable pub send_to_dead_letter : Message → Run S → Run S
  unfolding try_dead_letter
  send_to_dead_letter m r =
      let (o, s) = try_dead_letter m r.world in
      record { world = s; journal = r.journal ++ dead_letter m (succeeded o) ∷ [] }

  module _ (process : Message → Call S (Unit {0})) where
    -- One attempt, and whether it succeeded.
    unfoldable pub attempt_once : Message → Run S → Bool × Run S
    attempt_once m r =
        let (o, s) = process m r.world in
        (succeeded o, record { world = s; journal = r.journal ++ attempt m (succeeded o) ∷ [] })

    -- The attempts that are left, from number `n` on.
    unfoldable pub retry : ℕ → ℕ → ℕ → Message → Run S → Run S
    retry zero n max_retries m r = send_to_dead_letter m r
    retry (suc left) n max_retries m r =
        let (done, tried) = attempt_once m r in
        let rest = retry left (suc n) max_retries m (wait n max_retries tried) in
        if done then tried else rest

    unfoldable pub run_with_retry : ℕ → Message → Run S → Run S
    run_with_retry max_retries m r = retry max_retries 0 max_retries m r

    -- `for message in batch`
    unfoldable pub run_batch : List Message → Run S → Run S
    run_batch [] r = r
    run_batch (m ∷ ms) r = run_batch ms (run_with_retry 3 m r)

    -- `for tp, batch in messages.items()`
    unfoldable pub run_batches : Batches → Run S → Run S
    run_batches [] r = r
    run_batches ((tp, batch) ∷ batches) r = run_batches batches (run_batch batch r)

    -- One round of `_consume_loop`.
    unfoldable pub round : Run S → Run S
    round r =
        let (o, s) = k.getmany r.world in
        elim o [
          | ret messages ↦ commit_if k messages (run_batches messages (record r { world = s }))
          | raise e ↦ recover (record r { world = s })
        ]

    -- `_consume_loop`, through the rounds that start before the shutdown signal clears `_running`.
    unfoldable pub consume_loop : ℕ → Run S → Run S
    consume_loop zero r = r
    consume_loop (suc rounds) r = consume_loop rounds (round r)
