-- ===== src/Consumers/LogWriter/Calm.antt =====
-- consumers/log_writer.py: the inserts of a batch lose no row and move no offset.
use log_foundry.Prelude.{
  String, ◌≡◌, refl, ◌∙◌, inl, inr, true, List, [], ◌∷◌, Outcome, Outcome-cases, ret, raise,
}
use log_foundry.Consumers.Kafka.{Message, Kafka}
use log_foundry.Consumers.LogWriter.Row.{Row}
use log_foundry.Consumers.LogWriter.Insert.{
  Database, Parsed, insert_many, insert_each, fall_back, after_many, insert_batch,
}

module _ {S : Type 0} (k : Kafka S) (db : Database S k) where
  -- A change of the world that loses no row and moves no offset.
  pub record Calm (s s' : S) : Type 0 where
    pub keeps : (q : Row) → db.stored s q ≡ true → db.stored s' q ≡ true
    pub delivered : k.delivered s' ≡ k.delivered s
    pub committed : k.committed s' ≡ k.committed s

  Calm-refl : (s : S) → Calm s s
  Calm-refl s = record { keeps = λ q h. h; delivered = refl; committed = refl }

  Calm-trans : {s t u : S} → Calm s t → Calm t u → Calm s u
  Calm-trans p q = record {
    keeps = λ r h. q.keeps r (p.keeps r h);
    delivered = q.delivered ∙ p.delivered;
    committed = q.committed ∙ p.committed;
  }

  acquire-Calm : (s : S) → Calm s (db.acquire s).1
  acquire-Calm s = record {
    keeps = λ q h. db.acquire-table s q ∙ h;
    delivered = db.acquire-Quiet.delivered s;
    committed = db.acquire-Quiet.committed s;
  }

  incr-Calm : (key : String) (s : S) → Calm s (db.incr key s).1
  incr-Calm key s = record {
    keeps = λ q h. db.incr-table key s q ∙ h;
    delivered = (db.incr-Quiet key).delivered s;
    committed = (db.incr-Quiet key).committed s;
  }

  execute-Calm : (row : Row) (s : S) → Calm s (db.execute row s).1
  execute-Calm row s = record {
    keeps = db.execute-keeps s row;
    delivered = (db.execute-Quiet row).delivered s;
    committed = (db.execute-Quiet row).committed s;
  }

  executemany-Calm : (rows : List Row) (s : S) → Calm s (db.executemany rows s).1
  executemany-Calm rows s = record {
    keeps = db.executemany-keeps s rows;
    delivered = (db.executemany-Quiet rows).delivered s;
    committed = (db.executemany-Quiet rows).committed s;
  }

  insert_each-Calm :
      (rows : List Row) (ms failed : List Message) (s : S)
      → Calm s (insert_each k db rows ms failed s).1
  unfolding insert_each
  insert_each-Calm (row ∷ rows) (m ∷ ms) failed s =
      Calm-trans (execute-Calm row s) (insert_each-Calm rows ms _ (db.execute row s).1)
  insert_each-Calm [] ms failed s = Calm-refl s
  insert_each-Calm (row ∷ rows) [] failed s = Calm-refl s

  insert_many-Calm : (rows : List Row) (s : S) → Calm s (insert_many k db rows s).1
  unfolding insert_many
  insert_many-Calm rows s = elim (Outcome-cases (db.acquire s).0) [
    | inl (u, e) ↦ rw (e, insert_many) (Calm-trans (acquire-Calm s) (executemany-Calm rows _))
    | inr (x, e) ↦ rw (e, insert_many) (acquire-Calm s)
  ]

  fall_back-Calm :
      (rows : List Row) (ms failed : List Message) (s : S)
      → Calm s (fall_back k db rows ms failed s).1
  unfolding fall_back
  fall_back-Calm rows ms failed s =
      let s₁ = (db.incr "metrics:batch_insert_fallback_total" s).1 in
      let c = Calm-trans (incr-Calm "metrics:batch_insert_fallback_total" s) (acquire-Calm s₁) in
      elim (Outcome-cases (db.acquire s₁).0) [
        | inl (u, e) ↦
            rw (e, fall_back) (Calm-trans c (insert_each-Calm rows ms failed (db.acquire s₁).1))
        | inr (x, e) ↦ rw (e, fall_back) c
      ]

  after_many-Calm : (p : Parsed) (x : Outcome (Unit {0}) × S) → Calm x.1 (after_many k db p x).1
  unfolding after_many
  after_many-Calm p (ret u, s) = Calm-refl s
  after_many-Calm p (raise e, s) = fall_back-Calm p.rows p.valid p.failed s

  pub insert_batch-Calm :
      (rows : List Row) (valid failed : List Message) (s : S)
      → Calm s (insert_batch k db (record { rows = rows; valid = valid; failed = failed }) s).1
  unfolding insert_batch
  insert_batch-Calm [] valid failed s = Calm-refl s
  insert_batch-Calm (row ∷ rows) valid failed s = Calm-trans (insert_many-Calm (row ∷ rows) s) (
      after_many-Calm (record { rows = row ∷ rows; valid = valid; failed = failed })
        (insert_many k db (row ∷ rows) s))
