-- ===== src/Consumers/LogWriter/Settles.antt =====
-- consumers/log_writer.py: a batch that is handled to its end leaves no message behind.
use log_foundry.Prelude.{
  ◌≡◌, sym, ◌⊎◌, inl, inr, true, List, [], ◌∷◌, Outcome-cases, ret_inj, ret-ne-raise, ret, raise,
  Exc, All, arith,
}
use log_foundry.Consumers.Kafka.{Message, Kafka}
use log_foundry.Consumers.Payload.{Reader}
use log_foundry.Consumers.Base.{succeeded}
use log_foundry.Consumers.LogWriter.Row.{Row, parse}
use log_foundry.Consumers.LogWriter.Sorted.{In, In-last, In-more, Aligned, Sorted}
use log_foundry.Consumers.LogWriter.Insert.{
  Database, insert_many, insert_each, fall_back, after_many, insert_batch,
}

module _ {S : Type 0} (k : Kafka S) (db : Database S k) where
  -- The message was written, or its row is among those at hand.
  insert_each-keeps :
      (rows : List Row) (ms failed : List Message) (s : S) (q : Row)
      → db.stored s q ≡ true
      → db.stored (insert_each k db rows ms failed s).1 q ≡ true
  unfolding insert_each
  insert_each-keeps (row ∷ rows) (m ∷ ms) failed s q h =
      insert_each-keeps rows ms _ (db.execute row s).1 q (db.execute-keeps s row q h)
  insert_each-keeps [] ms failed s q h = h
  insert_each-keeps (row ∷ rows) [] failed s q h = h

  insert_each-failed :
      (rows : List Row) (ms failed : List Message) (s : S) (n : Message)
      → In n failed
      → In n (insert_each k db rows ms failed s).0
  unfolding insert_each
  insert_each-failed (row ∷ rows) (m ∷ ms) failed s n h =
      insert_each-failed rows ms _ (db.execute row s).1 n
        (In-more n m failed (succeeded (db.execute row s).0) h)
  insert_each-failed [] ms failed s n h = h
  insert_each-failed (row ∷ rows) [] failed s n h = h

  insert_each-Aligned :
      (rows : List Row) (ms failed : List Message) (s : S) (q : Row) (n : Message)
      → Aligned q n rows ms
      → (db.stored (insert_each k db rows ms failed s).1 q ≡ true)
        ⊎ In n (insert_each k db rows ms failed s).0
  unfolding insert_each
  insert_each-Aligned (row ∷ rows) (m ∷ ms) failed s q n (inl (e, f)) =
      elim (Outcome-cases (db.execute row s).0) [
        | inl (u, ok) ↦
            inl (
              insert_each-keeps rows ms _ (db.execute row s).1 q
                (rw e (db.execute-stored s row ok)))
        | inr (x, bad) ↦
            inr
              (insert_each-failed rows ms _ (db.execute row s).1 n (rw (f, bad) (In-last m failed)))
      ]
  insert_each-Aligned (row ∷ rows) (m ∷ ms) failed s q n (inr h) =
      insert_each-Aligned rows ms _ (db.execute row s).1 q n h
  insert_each-Aligned [] ms failed s q n h = elim h [ ]
  insert_each-Aligned (row ∷ rows) [] failed s q n h = elim h [ ]

  -- Where the message ended up, when the failed ones are at hand.
  abbrev pub Placed : Reader → Message → List Message × S → Type 0
  Placed rd m (failed, s) =
      ((row : Row) × (parse rd m ≡ ret row) × (db.stored s row ≡ true)) ⊎ In m failed

  -- What the fallback comes to.
  fall_back-cases :
      (rows : List Row) (valid failed : List Message) (s : S)
      → ((s' : S) × (fall_back k db rows valid failed s ≡ (
        ret (insert_each k db rows valid failed s').0,
        (insert_each k db rows valid failed s').1,
      )))
        ⊎ ((e : Exc) × (s' : S) × (fall_back k db rows valid failed s ≡ (raise e, s')))
  unfolding fall_back
  fall_back-cases rows valid failed s =
      let s₁ = (db.incr "metrics:batch_insert_fallback_total" s).1 in
      elim (Outcome-cases (db.acquire s₁).0) [
        | inl (u, e) ↦ inl ((db.acquire s₁).1, rw (e, fall_back))
        | inr (x, e) ↦ inr (x, (db.acquire s₁).1, rw (e, fall_back))
      ]

  insert_many-cases :
      (rows : List Row) (s : S)
      → ((s' : S) × (insert_many k db rows s ≡ (ret tt, s'))
          × All (λ r. db.stored s' r ≡ true) rows)
        ⊎ ((e : Exc) × (s' : S) × (insert_many k db rows s ≡ (raise e, s')))
  unfolding insert_many
  insert_many-cases rows s =
      let s₁ = (db.acquire s).1 in
      elim (Outcome-cases (db.acquire s).0) [
        | inr (x, e) ↦ inr (x, s₁, rw (e, insert_many))
        | inl (u, e) ↦ elim (Outcome-cases (db.executemany rows s₁).0) [
          | inl (v, f) ↦
              inl ((db.executemany rows s₁).1, ground arith, db.executemany-stored s₁ rows f)
          | inr (x, f) ↦ inr (x, (db.executemany rows s₁).1, ground arith)
        ]
      ]

  stored-Aligned :
      (rows : List Row) (ms : List Message) (s : S) (row : Row) (m : Message)
      → All (λ r. db.stored s r ≡ true) rows
      → Aligned row m rows ms
      → db.stored s row ≡ true
  stored-Aligned (r ∷ rows) (n ∷ ms) s row m h (inl (e, _)) = rw e h.0
  stored-Aligned (r ∷ rows) (n ∷ ms) s row m h (inr a) = stored-Aligned rows ms s row m h.1 a
  stored-Aligned [] ms s row m h a = elim a [ ]
  stored-Aligned (r ∷ rows) [] s row m h a = elim a [ ]

  -- A batch whose insert returns places every sorted message.
  pub insert_batch-Placed :
      (rd : Reader) (rows : List Row) (valid failed : List Message) (s : S) (out : List Message)
      (m : Message)
      → (insert_batch k db (record { rows = rows; valid = valid; failed = failed }) s).0 ≡ ret out
      → Sorted rd (record { rows = rows; valid = valid; failed = failed }) m
      → Placed rd m
          (out, (insert_batch k db (record { rows = rows; valid = valid; failed = failed }) s).1)
  unfolding insert_batch after_many
  insert_batch-Placed rd [] valid failed s out m done (inl (row, e, a)) = elim a [ ]
  insert_batch-Placed rd [] valid failed s out m done (inr h) =
      let same : failed ≡ out = cc in inr (rw (← same) h)
  insert_batch-Placed rd (r ∷ rows) valid failed s out m done h =
      elim (insert_many-cases (r ∷ rows) s) [
        | inl (s', e, all) ↦
            let same : failed ≡ out = ret_inj (rw (e, after_many) at done) in
            rw (e, after_many, ← same)
              (elim h [
                | inl (row, p, a) ↦ inl (row, p, stored-Aligned (r ∷ rows) valid s' row m all a)
                | inr f ↦ inr f
              ])
        | inr (x, s', e) ↦ elim (fall_back-cases (r ∷ rows) valid failed s') [
          | inl (s₂, f) ↦
              let same : (insert_each k db (r ∷ rows) valid failed s₂).0 ≡ out =
                ret_inj (rw (e, after_many, f) at done) in
              rw (e, after_many, f, ← same)
                (elim h [
                  | inl (row, p, a) ↦
                      elim (insert_each-Aligned (r ∷ rows) valid failed s₂ row m a) [
                        | inl there ↦ inl (row, p, there)
                        | inr g ↦ inr g
                      ]
                  | inr g ↦ inr (insert_each-failed (r ∷ rows) valid failed s₂ m g)
                ])
          | inr (y, s₂, f) ↦ absurd (ret-ne-raise (sym (rw (e, after_many, f) at done)))
        ]
      ]
