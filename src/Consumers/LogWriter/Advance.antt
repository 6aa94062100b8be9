-- ===== src/Consumers/LogWriter/Advance.antt =====
-- consumers/log_writer.py: the handling of a poll undoes no message, and leaves none behind if it
-- comes to its end.
use log_foundry.Prelude.{
  ℕ, ◌≡◌, refl, sym, ◌∙◌, inl, inr, List, [], ◌∷◌, Outcome, Outcome-cases, ret-ne-raise, ret, raise,
  Exc, All, All-append,
}
use log_foundry.Consumers.Kafka.{Message, Batches, Kafka, messages_of}
use log_foundry.Consumers.Payload.{Reader}
use log_foundry.Consumers.Base.{Run, Codec, Settings, send_to_dead_letter}
use log_foundry.Consumers.Delivery.{dead_letter-Settling}
use log_foundry.Consumers.LogWriter.Sorted.{All-map}
use log_foundry.Consumers.LogWriter.Insert.{
  Database, parse_batch, insert_batch, dead_letters, after_insert, handle_batch, handle_batches,
}
use log_foundry.Consumers.LogWriter.Batch.{
  Done, dead_letter-table, dead_letter-keeps, handle_batch-Done,
}
use log_foundry.Consumers.LogWriter.Calm.{Calm, insert_batch-Calm}

module _ {S : Type 0} (k : Kafka S) (db : Database S k) (rd : Reader) where
  -- A part of a round that undoes no message and moves no offset.
  pub record Advance (r r' : Run S) : Type 0 where
    pub done : (m : Message) → Done k db rd r m → Done k db rd r' m
    pub delivered : k.delivered r'.world ≡ k.delivered r.world
    pub committed : k.committed r'.world ≡ k.committed r.world

  pub Advance-refl : (r : Run S) → Advance r r
  Advance-refl r = record { done = λ m h. h; delivered = refl; committed = refl }

  pub Advance-trans : {r r' r'' : Run S} → Advance r r' → Advance r' r'' → Advance r r''
  Advance-trans p q = record {
    done = λ m h. q.done m (p.done m h);
    delivered = q.delivered ∙ p.delivered;
    committed = q.committed ∙ p.committed;
  }

  Calm-Advance : (r : Run S) (s : S) → Calm k db r.world s → Advance r (record r { world = s })
  Calm-Advance r s c = record {
    done = λ m h. elim h [ inl (row, p, t) ↦ inl (row, p, c.keeps row t) | inr d ↦ inr d ];
    delivered = c.delivered;
    committed = c.committed;
  }

  module _ (c : Codec) (st : Settings) where
    dead_letter-Advance : (m : Message) (r : Run S) → Advance r (send_to_dead_letter k c st m r)
    dead_letter-Advance m r =
        let x = dead_letter-Settling k c st m r in
        record {
          done = λ n h. elim h [
            | inl (row, p, t) ↦ inl (row, p, dead_letter-table k db rd c st m r row ∙ t)
            | inr (b, i) ↦ inr (b, dead_letter-keeps k db rd c st m r _ i)
          ];
          delivered = x.delivered;
          committed = x.committed;
        }

    dead_letters-Advance :
        (ms : List Message) (r : Run S) → Advance r (dead_letters k db rd c st ms r)
    unfolding dead_letters
    dead_letters-Advance [] r = Advance-refl r
    dead_letters-Advance (m ∷ ms) r =
        Advance-trans (dead_letter-Advance m r) (dead_letters-Advance ms _)

    after_insert-Advance :
        (x : Outcome (List Message) × S) (r : Run S)
        → Calm k db r.world x.1
        → Advance r (after_insert k db rd c st x r).1
    unfolding after_insert
    after_insert-Advance (ret failed, s) r calm =
        Advance-trans (Calm-Advance r s calm) (dead_letters-Advance failed _)
    after_insert-Advance (raise e, s) r calm = Calm-Advance r s calm

    handle_batch-Advance :
        (ms : List Message) (r : Run S) → Advance r (handle_batch k db rd c st ms r).1
    unfolding handle_batch
    handle_batch-Advance [] r = Advance-refl r
    handle_batch-Advance (m ∷ ms) r =
        let p = parse_batch rd (m ∷ ms) in
        after_insert-Advance (insert_batch k db p r.world) r
          (insert_batch-Calm k db p.rows p.valid p.failed r.world)

    pub handle_batches-ret :
        (tp : ℕ) (ms : List Message) (b : Batches) (r : Run S)
        → (handle_batch k db rd c st ms r).0 ≡ ret tt
        → handle_batches k db rd c st ((tp, ms) ∷ b) r
          ≡ handle_batches k db rd c st b (handle_batch k db rd c st ms r).1
    unfolding handle_batches
    handle_batches-ret tp ms b r e = rw (e, handle_batches)

    pub handle_batches-raise :
        (tp : ℕ) (ms : List Message) (b : Batches) (r : Run S) (x : Exc)
        → (handle_batch k db rd c st ms r).0 ≡ raise x
        → handle_batches k db rd c st ((tp, ms) ∷ b) r
          ≡ (raise x, (handle_batch k db rd c st ms r).1)
    unfolding handle_batches
    handle_batches-raise tp ms b r x e = rw (e, handle_batches)

    pub handle_batches-Advance :
        (b : Batches) (r : Run S) → Advance r (handle_batches k db rd c st b r).1
    handle_batches-Advance [] r = unfold handle_batches in Advance-refl r
    handle_batches-Advance ((tp, ms) ∷ b) r =
        elim (Outcome-cases (handle_batch k db rd c st ms r).0) [
          | inl (u, e) ↦
              rw (handle_batches-ret tp ms b r e)
                (Advance-trans (handle_batch-Advance ms r) (handle_batches-Advance b _))
          | inr (x, e) ↦ rw (handle_batches-raise tp ms b r x e) (handle_batch-Advance ms r)
        ]

    -- Every message of a poll whose batches are all handled to their end is done.
    pub handle_batches-Done :
        (b : Batches) (r : Run S)
        → (handle_batches k db rd c st b r).0 ≡ ret tt
        → All (Done k db rd (handle_batches k db rd c st b r).1) (messages_of b)
    handle_batches-Done [] r ok = tt
    handle_batches-Done ((tp, ms) ∷ b) r ok =
        elim (Outcome-cases (handle_batch k db rd c st ms r).0) [
          | inl (u, e) ↦
              let next = (handle_batch k db rd c st ms r).1 in
              rw (handle_batches-ret tp ms b r e) (
                All-append _ ms (messages_of b)
                  (All-map ms (λ m h. (handle_batches-Advance b next).done m h)
                    (handle_batch-Done k db rd c st ms r e))
                  (handle_batches-Done b next (rw (handle_batches-ret tp ms b r e) at ok)))
          | inr (x, e) ↦ absurd (ret-ne-raise (sym (rw (handle_batches-raise tp ms b r x e) at ok)))
        ]
