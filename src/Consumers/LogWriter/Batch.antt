-- ===== src/Consumers/LogWriter/Batch.antt =====
-- consumers/log_writer.py: what a batch leaves, when it is handled to its end and when not.
use log_foundry.Prelude.{
  ◌≡◌, refl, sym, ◌∙◌, ◌⊎◌, inl, inr, Bool, true, List, [], ◌∷◌, ◌++◌, Outcome, Outcome-cases,
  ret-ne-raise, ret, raise, All,
}
use log_foundry.Consumers.Kafka.{Message, Kafka}
use log_foundry.Consumers.Payload.{Reader}
use log_foundry.Consumers.Base.{
  Act, dead_letter, Run, Codec, Settings, succeeded, letter_of, try_dead_letter,
  send_to_dead_letter,
}
use log_foundry.Consumers.LogWriter.Row.{Row, parse}
use log_foundry.Consumers.LogWriter.Sorted.{In, In-left, In-last, All-map, parse_batch-Sorted}
use log_foundry.Consumers.LogWriter.Insert.{
  Database, parse_batch, insert_batch, dead_letters, after_insert, handle_batch,
}
use log_foundry.Consumers.LogWriter.Settles.{insert_batch-Placed, Placed}

In-right : {A : Type 0} (x : A) (xs ys : List A) → In x ys → In x (xs ++ ys)
In-right x [] ys h = h
In-right x (z ∷ xs) ys h = inr (In-right x xs ys h)

module _ {S : Type 0} (k : Kafka S) (db : Database S k) (rd : Reader) where
  -- The row of the message is in the table, or the message was handed to the dead-letter topic.
  abbrev pub Done : Run S → Message → Type 0
  Done r m =
      ((row : Row) × (parse rd m ≡ ret row) × (db.stored r.world row ≡ true))
      ⊎ ((b : Bool) × In (dead_letter m b) r.journal)

  module _ (c : Codec) (st : Settings) where
    pub dead_letter-table :
        (m : Message) (r : Run S) (q : Row)
        → db.stored (send_to_dead_letter k c st m r).world q ≡ db.stored r.world q
    unfolding send_to_dead_letter try_dead_letter
    dead_letter-table m r q = elim (Outcome-cases (letter_of c st m)) [
      | inl (letter, e) ↦ rw (e, try_dead_letter) (db.send-table _ _ _ r.world q)
      | inr (x, e) ↦ rw (e, try_dead_letter)
    ]

    dead_letter-In :
        (m : Message) (r : Run S)
        → (b : Bool) × In (dead_letter m b) (send_to_dead_letter k c st m r).journal
    unfolding send_to_dead_letter
    dead_letter-In m r = (succeeded (try_dead_letter k c st m r.world).0, In-last _ r.journal)

    pub dead_letter-keeps :
        (m : Message) (r : Run S) (a : Act)
        → In a r.journal
        → In a (send_to_dead_letter k c st m r).journal
    unfolding send_to_dead_letter
    dead_letter-keeps m r a h = In-left a r.journal _ h

    dead_letters-Done :
        (ms : List Message) (r : Run S) (m : Message)
        → Done r m ⊎ In m ms
        → Done (dead_letters k db rd c st ms r) m
    unfolding dead_letters
    dead_letters-Done [] r m (inl d) = d
    dead_letters-Done [] r m (inr h) = elim h [ ]
    dead_letters-Done (n ∷ ms) r m (inl (inl (row, p, s))) =
        dead_letters-Done ms _ m (inl (inl (row, p, dead_letter-table n r row ∙ s)))
    dead_letters-Done (n ∷ ms) r m (inl (inr (b, h))) =
        dead_letters-Done ms _ m (inl (inr (b, dead_letter-keeps n r _ h)))
    dead_letters-Done (n ∷ ms) r m (inr (inl e)) =
        dead_letters-Done ms _ m (inl (inr (rw e (dead_letter-In n r))))
    dead_letters-Done (n ∷ ms) r m (inr (inr h)) = dead_letters-Done ms _ m (inr h)

    Placed-Done :
        (failed : List Message) (s : S) (r : Run S) (m : Message)
        → Placed k db rd m (failed, s)
        → Done (record r { world = s }) m ⊎ In m failed
    Placed-Done failed s r m (inl w) = inl (inl w)
    Placed-Done failed s r m (inr f) = inr f

    after_insert-Done :
        (x : Outcome (List Message) × S) (r : Run S) (ms : List Message)
        → All (λ m. (out : List Message) → x.0 ≡ ret out → Placed k db rd m (out, x.1)) ms
        → (after_insert k db rd c st x r).0 ≡ ret tt
        → All (Done (after_insert k db rd c st x r).1) ms
    unfolding after_insert
    after_insert-Done (raise e, s) r ms h done = absurd (ret-ne-raise (sym done))
    after_insert-Done (ret failed, s) r ms h done =
        All-map ms
          (λ m p.
            dead_letters-Done failed (record r { world = s }) m
              (Placed-Done failed s r m (p failed refl)))
          h

    -- A batch that is handled to its end leaves no message behind: each is in the table under its
    -- primary key, or was handed to the dead-letter topic.
    pub handle_batch-Done :
        (ms : List Message) (r : Run S)
        → (handle_batch k db rd c st ms r).0 ≡ ret tt
        → All (Done (handle_batch k db rd c st ms r).1) ms
    unfolding handle_batch
    handle_batch-Done [] r done = tt
    handle_batch-Done (m ∷ ms) r done =
        let p = parse_batch rd (m ∷ ms) in
        after_insert-Done (insert_batch k db p r.world) r (m ∷ ms)
          (All-map (m ∷ ms)
            (λ n h out e. insert_batch-Placed k db rd p.rows p.valid p.failed r.world out n e h)
            (parse_batch-Sorted rd (m ∷ ms)))
          done
