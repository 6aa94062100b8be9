-- ===== src/Consumers/LogWriter/Insert.antt =====
-- consumers/log_writer.py: the batch loop.
use log_foundry.Prelude.{
  ℕ, zero, suc, String, ◌≡◌, Bool, true, Option, List, [], ◌∷◌, ◌++◌, if◌then◌else◌, Outcome, ret,
  raise, Exc, All,
}
use log_foundry.Consumers.Kafka.{Message, Call, Batches, Kafka, Quiet}
use log_foundry.Consumers.Payload.{Reader, load_payload}
use log_foundry.Consumers.Base.{
  Run, Codec, Settings, succeeded, send_to_dead_letter, recover, commit_if,
}
use log_foundry.Consumers.LogWriter.Row.{Row, parse, row_of}

-- The calls of the database pool and of Redis, and what is documented of them. `stored` says
-- whether the table has a row with the identifier and the timestamp of the given one.
pub record Database (S : Type 0) (k : Kafka S) : Type 0 where
  pub acquire : Call S (Unit {0})
  -- `conn.executemany(INSERT_SQL, rows)` in a transaction of its own
  pub executemany : List Row → Call S (Unit {0})
  -- `conn.execute(INSERT_SQL, *row)`
  pub execute : Row → Call S (Unit {0})
  -- `redis.incr(key)`
  pub incr : String → Call S (Unit {0})
  pub stored : S → Row → Bool
  -- An insert that returns has stored its row, or found one with its primary key.
  pub execute-stored :
      (s : S) (r : Row) → (execute r s).0 ≡ ret tt → stored (execute r s).1 r ≡ true
  pub executemany-stored :
      (s : S) (rs : List Row)
      → (executemany rs s).0 ≡ ret tt
      → All (λ r. stored (executemany rs s).1 r ≡ true) rs
  -- An insert that raises has stored nothing; that of a batch is rolled back as a whole.
  pub execute-raise :
      (s : S) (r q : Row) (e : Exc)
      → (execute r s).0 ≡ raise e
      → stored (execute r s).1 q ≡ stored s q
  pub executemany-raise :
      (s : S) (rs : List Row) (q : Row) (e : Exc)
      → (executemany rs s).0 ≡ raise e
      → stored (executemany rs s).1 q ≡ stored s q
  -- No insert removes a row.
  pub execute-keeps : (s : S) (r q : Row) → stored s q ≡ true → stored (execute r s).1 q ≡ true
  pub executemany-keeps :
      (s : S) (rs : List Row) (q : Row) → stored s q ≡ true → stored (executemany rs s).1 q ≡ true
  -- The other calls leave the table alone, and none of these the offsets.
  pub acquire-table : (s : S) (q : Row) → stored (acquire s).1 q ≡ stored s q
  pub incr-table : (key : String) (s : S) (q : Row) → stored (incr key s).1 q ≡ stored s q
  pub getmany-table : (s : S) (q : Row) → stored (k.getmany s).1 q ≡ stored s q
  pub commit-table : (s : S) (q : Row) → stored (k.commit s).1 q ≡ stored s q
  pub send-table :
      (t : String) (key : Option (List ℕ)) (v : List ℕ) (s : S) (q : Row)
      → stored (k.send t key v s).1 q ≡ stored s q
  pub acquire-Quiet : Quiet k acquire
  pub executemany-Quiet : (rs : List Row) → Quiet k (executemany rs)
  pub execute-Quiet : (r : Row) → Quiet k (execute r)
  pub incr-Quiet : (key : String) → Quiet k (incr key)

-- What a batch is sorted into: the rows, the messages that they come from, and the messages that
-- do not parse.
pub record Parsed : Type 0 where
  pub rows : List Row
  pub valid : List Message
  pub failed : List Message

unfoldable pub parse_batch : Reader → List Message → Parsed
parse_batch c [] = record { rows = []; valid = []; failed = [] }
parse_batch c (m ∷ ms) =
    let rest = parse_batch c ms in
    elim (parse c m) [
      | ret row ↦ record rest { rows = row ∷ rest.rows; valid = m ∷ rest.valid }
      | raise e ↦ record rest { failed = m ∷ rest.failed }
    ]

module _ {S : Type 0} (k : Kafka S) (db : Database S k) where
  -- `async with pool.acquire() as conn: async with conn.transaction(): executemany`
  unfoldable pub insert_many : List Row → Call S (Unit {0})
  insert_many rows s =
      let (o, s') = db.acquire s in
      elim o [ ret _ ↦ db.executemany rows s' | raise e ↦ (raise e, s') ]

  -- The rows one by one; a message whose insert raises joins the failed ones.
  unfoldable pub insert_each : List Row → List Message → List Message → S → List Message × S
  insert_each (row ∷ rows) (m ∷ ms) failed s =
      let (o, s') = db.execute row s in
      insert_each rows ms (if succeeded o then failed else failed ++ m ∷ []) s'
  insert_each _ _ failed s = (failed, s)

  -- After a batch that failed: count it, and insert the rows one by one. An error of `incr` is
  -- logged, one of the second `acquire` is not caught here.
  unfoldable pub fall_back : List Row → List Message → List Message → Call S (List Message)
  fall_back rows valid failed s =
      let (_, s₁) = db.incr "metrics:batch_insert_fallback_total" s in
      let (o, s₂) = db.acquire s₁ in
      elim o [
        | ret _ ↦ let (failed', s₃) = insert_each rows valid failed s₂ in (ret failed', s₃)
        | raise e ↦ (raise e, s₂)
      ]

  -- `except Exception as batch_err`
  unfoldable pub after_many : Parsed → Outcome (Unit {0}) × S → Outcome (List Message) × S
  after_many p (ret _, s) = (ret p.failed, s)
  after_many p (raise e, s) = fall_back p.rows p.valid p.failed s

  -- `if rows:` and the insert of the batch, with its fallback: the failed messages.
  unfoldable pub insert_batch : Parsed → Call S (List Message)
  insert_batch p s = elim p.rows [
    | [] ↦ (ret p.failed, s)
    | row ∷ rows ↦ after_many p (insert_many p.rows s)
  ]

  module _ (rd : Reader) (c : Codec) (st : Settings) where
    unfoldable pub dead_letters : List Message → Run S → Run S
    dead_letters [] r = r
    dead_letters (m ∷ ms) r = dead_letters ms (send_to_dead_letter k c st m r)

    -- `for msg in failed_messages`, unless the inserts raised.
    unfoldable pub after_insert : Outcome (List Message) × S → Run S → Outcome (Unit {0}) × Run S
    after_insert (ret failed, s) r = (ret tt, dead_letters failed (record r { world = s }))
    after_insert (raise e, s) r = (raise e, record r { world = s })

    -- One partition's batch: an empty one is skipped.
    unfoldable pub handle_batch : List Message → Run S → Outcome (Unit {0}) × Run S
    handle_batch [] r = (ret tt, r)
    handle_batch (m ∷ ms) r = after_insert (insert_batch (parse_batch rd (m ∷ ms)) r.world) r

    unfoldable pub handle_batches : Batches → Run S → Outcome (Unit {0}) × Run S
    handle_batches [] r = (ret tt, r)
    handle_batches ((tp, batch) ∷ batches) r =
        let (o, r') = handle_batch batch r in
        let rest = handle_batches batches r' in elim o [ ret _ ↦ rest | raise e ↦ (raise e, r') ]

    -- The commit of a round, which an exception from a batch skips.
    unfoldable pub after_batches : Batches → Outcome (Unit {0}) × Run S → Run S
    after_batches messages (ret _, r) = commit_if k messages r
    after_batches messages (raise e, r) = recover r

    -- One round of `_consume_loop`.
    unfoldable pub round : Run S → Run S
    round r =
        let (o, s) = k.getmany r.world in
        elim o [
          | ret messages ↦ after_batches messages (handle_batches messages (record r { world = s }))
          | raise e ↦ recover (record r { world = s })
        ]

    unfoldable pub consume_loop : ℕ → Run S → Run S
    consume_loop zero r = r
    consume_loop (suc rounds) r = consume_loop rounds (round r)

  -- `_insert_single`: what it raises is logged and raised again.
  unfoldable pub insert_single : Reader → Message → Call S (Unit {0})
  insert_single rd m s = elim (load_payload rd m) [
    | raise e ↦ (raise e, s)
    | ret payload ↦
        let (o, s') = db.acquire s in
        elim o [
          | raise e ↦ (raise e, s')
          | ret _ ↦ elim (row_of rd payload) [
            | raise e ↦ (raise e, s')
            | ret row ↦ db.execute row s'
          ]
        ]
  ]

  -- `process`
  unfoldable pub process : Reader → Message → Call S (Unit {0})
  unfolding insert_single
  process = insert_single
