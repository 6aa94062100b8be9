-- ===== src/Consumers/LogWriter/Loss.antt =====
-- consumers/log_writer.py: a batch whose inserts raise is lost.
use log_foundry.Prelude.{
  ℕ, String, ◌≡◌, refl, ap, ◌∙◌, inl, inr, List, [], ◌∷◌, ◌++◌, Outcome, Outcome-cases,
  ret-ne-raise, ret, raise, Exc, append-nil,
}
use log_foundry.Consumers.Kafka.{Message, Batches, Kafka}
use log_foundry.Consumers.Payload.{Reader}
use log_foundry.Consumers.Base.{loop_error, sleep, Run, Codec, Settings, recover}
use log_foundry.Consumers.LogWriter.Row.{Row}
use log_foundry.Consumers.LogWriter.Insert.{
  Database, Parsed, parse_batch, insert_many, fall_back, after_many, insert_batch, after_insert,
  handle_batch, handle_batches, after_batches, round,
}
use log_foundry.Consumers.LogWriter.Calm.{insert_batch-Calm}
use log_foundry.Consumers.LogWriter.Advance.{handle_batches-raise}

module _ {S : Type 0} (k : Kafka S) (db : Database S k) (rd : Reader) where
  insert_many-raise-table :
      (rows : List Row) (s : S) (e : Exc) (q : Row)
      → (insert_many k db rows s).0 ≡ raise e
      → db.stored (insert_many k db rows s).1 q ≡ db.stored s q
  unfolding insert_many
  insert_many-raise-table rows s e q h = elim (Outcome-cases (db.acquire s).0) [
    | inl (u, a) ↦
        rw (a, insert_many)
          (db.executemany-raise (db.acquire s).1 rows q e (rw (a, insert_many) at h)
            ∙ db.acquire-table s q)
    | inr (x, a) ↦ rw (a, insert_many) (db.acquire-table s q)
  ]

  fall_back-raise-table :
      (rows : List Row) (valid failed : List Message) (s : S) (e : Exc) (q : Row)
      → (fall_back k db rows valid failed s).0 ≡ raise e
      → db.stored (fall_back k db rows valid failed s).1 q ≡ db.stored s q
  unfolding fall_back
  fall_back-raise-table rows valid failed s e q h =
      let key : String = "metrics:batch_insert_fallback_total" in
      let s₁ = (db.incr key s).1 in
      elim (Outcome-cases (db.acquire s₁).0) [
        | inl (u, a) ↦ absurd (ret-ne-raise (rw (a, fall_back) at h))
        | inr (x, a) ↦ rw (a, fall_back) (db.acquire-table s₁ q ∙ db.incr-table key s q)
      ]

  after_many-raise-table :
      (p : Parsed) (x : Outcome (Unit {0}) × S) (s : S) (e : Exc) (q : Row)
      → ((o : Exc) → x.0 ≡ raise o → db.stored x.1 q ≡ db.stored s q)
      → (after_many k db p x).0 ≡ raise e
      → db.stored (after_many k db p x).1 q ≡ db.stored s q
  unfolding after_many
  after_many-raise-table p (ret u, t) s e q h out = absurd (ret-ne-raise out)
  after_many-raise-table p (raise o, t) s e q h out =
      fall_back-raise-table p.rows p.valid p.failed t e q out ∙ h o refl

  -- Inserts that raise have stored nothing.
  insert_batch-raise-table :
      (rows : List Row) (valid failed : List Message) (s : S) (e : Exc) (q : Row)
      → (insert_batch k db (record { rows = rows; valid = valid; failed = failed }) s).0 ≡ raise e
      → db.stored (insert_batch k db (record { rows = rows; valid = valid; failed = failed }) s).1 q
        ≡ db.stored s q
  unfolding insert_batch
  insert_batch-raise-table [] valid failed s e q out = absurd (ret-ne-raise out)
  insert_batch-raise-table (row ∷ rows) valid failed s e q out =
      after_many-raise-table _ (insert_many k db (row ∷ rows) s) s e q
        (λ o r. insert_many-raise-table (row ∷ rows) s o q r) out

  module _ (c : Codec) (st : Settings) where
    after_insert-raise :
        (x : Outcome (List Message) × S) (r : Run S) {e : Exc}
        → x.0 ≡ raise e
        → after_insert k db rd c st x r ≡ (raise e, record r { world = x.1 })
    unfolding after_insert
    after_insert-raise (ret f, s) r h = absurd (ret-ne-raise h)
    after_insert-raise (raise o, s) r h = cc

    after_batches-raise :
        (b : Batches) (x : Outcome (Unit {0}) × Run S) {e : Exc}
        → x.0 ≡ raise e
        → after_batches k db rd c st b x ≡ recover x.1
    unfolding after_batches
    after_batches-raise b (ret u, r) h = absurd (ret-ne-raise h)
    after_batches-raise b (raise o, r) h = refl

    handle_batch-raise :
        (m : Message) (ms : List Message) (r : Run S) (e : Exc)
        → (insert_batch k db (parse_batch rd (m ∷ ms)) r.world).0 ≡ raise e
        → handle_batch k db rd c st (m ∷ ms) r
          ≡ (raise e, record r { world = (insert_batch k db (parse_batch rd (m ∷ ms)) r.world).1 })
    unfolding handle_batch
    handle_batch-raise m ms r e h =
        after_insert-raise (insert_batch k db (parse_batch rd (m ∷ ms)) r.world) r h

    -- What a round leaves whose first batch raises.
    pub record Abandons (r : Run S) (ms : List Message) (r' : Run S) : Type 0 where
      pub table : (q : Row) → db.stored r'.world q ≡ db.stored r.world q
      pub delivered : k.delivered r'.world ≡ k.delivered r.world ++ ms
      pub committed : k.committed r'.world ≡ k.committed r.world
      pub journal : r'.journal ≡ r.journal ++ loop_error ∷ sleep 1 ∷ []
      pub next :
          (k.commit r'.world).0 ≡ ret tt
          → k.committed (k.commit r'.world).1 ≡ k.delivered r.world ++ ms

    -- A poll of one batch whose inserts raise, which they do where the pool hands out no connection
    -- for the fallback: nothing of it is in the table that was not there, none of it was handed to
    -- the dead-letter topic, the consumer only sleeps, and the next commit that succeeds commits
    -- all of it.
    pub round-Abandons :
        (m : Message) (ms : List Message) (tp : ℕ) (r : Run S) (e : Exc)
        → (k.getmany r.world).0 ≡ ret ((tp, m ∷ ms) ∷ [])
        → (insert_batch k db (parse_batch rd (m ∷ ms)) (k.getmany r.world).1).0 ≡ raise e
        → Abandons r (m ∷ ms) (round k db rd c st r)
    unfolding round
    round-Abandons m ms tp r e got out =
        let s = (k.getmany r.world).1 in
        let p = parse_batch rd (m ∷ ms) in
        let start : Run S = record r { world = s } in
        let calm = insert_batch-Calm k db p.rows p.valid p.failed s in
        let moved : k.delivered (insert_batch k db p s).1 ≡ k.delivered r.world ++ m ∷ ms =
          calm.delivered
          ∙ (k.getmany-delivered r.world ((tp, m ∷ ms) ∷ []) got
              ∙ ap (λ xs. k.delivered r.world ++ m ∷ xs) (append-nil ms)) in
        let left = handle_batch-raise m ms start e out in
        let over = handle_batches-raise k db rd c st tp (m ∷ ms) [] start e (ap (λ x. x.0) left) in
        let polled : Batches = (tp, m ∷ ms) ∷ [] in
        let end =
          after_batches-raise polled (handle_batches k db rd c st polled start)
            (ap (λ x. x.0) over) in
        rw (got, round, end, over, left)
          (record {
            table = λ q.
                insert_batch-raise-table p.rows p.valid p.failed s e q out
                ∙ db.getmany-table r.world q;
            delivered = moved;
            committed = calm.committed ∙ k.getmany-committed r.world;
            journal = refl;
            next = λ done. k.commit-committed _ done ∙ moved;
          })
