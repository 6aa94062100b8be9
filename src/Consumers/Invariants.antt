-- ===== src/Consumers/Invariants.antt =====
-- consumers/base_consumer.py: what holds at every step of a consumer's loop, and is kept by the calls
-- of its clients, holds however the consumer ends.
use log_foundry.Prelude.{
  Bool, true, false, not, ◌&&◌, if◌then◌else◌, List, [], ◌∷◌, Outcome, ret, raise, inr, append-nil,
  sym,
}
use log_foundry.Consumers.Kafka.{Message, Call, Kafka, Quiet}
use log_foundry.Consumers.Base.{Run, Codec, Settings, round}
use log_foundry.Consumers.Loop.{IsSafe, IsSafe-moves, round-IsSafe}
use log_foundry.Consumers.Lifecycle.{
  Client, consumer, producer, redis, Life, Clients, Method, then_do, keep_error, finally_do,
  open_part, close_part, cleanup, consume_while, start, start_with_redis,
}

module _ {R : Type 0} (Holds : R → Type 0) where
  abbrev Keeps : Method R → Type 0
  Keeps f = (l : Life R) → Holds l.run → Holds (f l).1.run

  then_do-Holds :
      (x : Outcome (Unit {0}) × Life R) (f : Method R)
      → Keeps f
      → Holds x.1.run
      → Holds (then_do x f).1.run
  then_do-Holds (ret ok, l) f keeps h = keeps l h
  then_do-Holds (raise e, l) f keeps h = h

  keep_error-Holds :
      (o : Outcome (Unit {0})) (x : Outcome (Unit {0}) × Life R)
      → Holds x.1.run
      → Holds (keep_error o x).1.run
  keep_error-Holds o (ret ok, l) h = h
  keep_error-Holds o (raise e, l) h = h

  if-Holds : (b : Bool) (x y : Life R) → Holds x.run → Holds y.run → Holds (if b then x else y).run
  if-Holds true x y h g = h
  if-Holds false x y h g = g

  module _ (c : Clients R) (round : R → R)
      (starting : (p : Client) (r : R) → Holds r → Holds (c.start_client p r).1)
      (stopping : (p : Client) (r : R) → Holds r → Holds (c.stop_client p r).1)
      (rounding : (r : R) → Holds r → Holds (round r)) where
    open_part-Keeps : (p : Client) → Keeps (open_part c p)
    unfolding open_part
    open_part-Keeps p l h = starting p l.run h

    close_part-Keeps : (p : Client) → Keeps (close_part c p)
    unfolding close_part
    close_part-Keeps p l h = stopping p l.run h

    consume_while-Holds :
        (signals : List Bool) (l : Life R)
        → Holds l.run
        → Holds (consume_while c round signals l).run
    unfolding consume_while
    consume_while-Holds [] l h = h
    consume_while-Holds (signal ∷ signals) l h =
        let next : Life R = record l { run = round l.run; running = l.running && not signal } in
        if-Holds l.running (consume_while c round signals next) l
          (consume_while-Holds signals next (rounding l.run h)) h

    cleanup-Keeps : Keeps (cleanup c)
    unfolding cleanup
    cleanup-Keeps l h =
        then_do-Holds (close_part c consumer l) (close_part c producer) (close_part-Keeps producer)
          (close_part-Keeps consumer l h)

    start-Keeps : (early : Bool) (signals : List Bool) → Keeps (start c round early signals)
    unfolding start
    start-Keeps early signals l h =
        let consume : Method R = λ l.
          finally_do (ret tt, consume_while c round signals (record l { running = true }))
            (cleanup c) in
        let keeps : Keeps consume = λ l h. keep_error-Holds (ret tt) _ (
          cleanup-Keeps (consume_while c round signals (record l { running = true }))
            (consume_while-Holds signals (record l { running = true }) h)) in
        then_do-Holds (open_part c consumer (record l { running = l.running && not early }))
          (λ l. then_do (open_part c producer l) consume)
          (λ l h.
            then_do-Holds (open_part c producer l) consume keeps (open_part-Keeps producer l h))
          (open_part-Keeps consumer (record l { running = l.running && not early }) h)

    pub start_with_redis-Keeps :
        (early : Bool) (signals : List Bool) → Keeps (start_with_redis c round early signals)
    unfolding start_with_redis
    start_with_redis-Keeps early signals l h =
        let base : Method R =
          λ l. finally_do (start c round early signals l) (close_part c redis) in
        then_do-Holds (open_part c redis l) base
          (λ l h. keep_error-Holds (start c round early signals l).0 _ (
            close_part-Keeps redis (start c round early signals l).1
              (start-Keeps early signals l h)))
          (open_part-Keeps redis l h)

-- The calls of the clients, which the journal leaves out, on the state of the loop.
abbrev pub on_run : {S A : Type 0} → Call S A → Call (Run S) A
on_run f r = let (o, s) = f r.world in (o, record r { world = s })

module _ {S : Type 0} (k : Kafka S) where
  on_run-IsSafe :
      (f : Call S (Unit {0})) → Quiet k f → (r : Run S) → IsSafe k r → IsSafe k (on_run f r).1
  on_run-IsSafe f quiet r h =
      IsSafe-moves k r (on_run f r).1 h ([], sym (append-nil r.journal)) (quiet.delivered r.world)
        (inr (quiet.committed r.world))

  module _ (codec : Codec) (st : Settings) (starts stops : Client → Call S (Unit {0})) where
    abbrev pub clients_of : Clients (Run S)
    clients_of = record {
      start_client = λ p r. on_run (starts p) r;
      stop_client = λ p r. on_run (stops p) r;
    }

    -- At least once, to the end.
    pub start_with_redis-IsSafe :
        (process : Message → Call S (Unit {0}))
        → ((m : Message) → Quiet k (process m))
        → ((p : Client) → Quiet k (starts p))
        → ((p : Client) → Quiet k (stops p))
        → (early : Bool) (signals : List Bool) (l : Life (Run S)) → IsSafe k l.run
        → IsSafe k (start_with_redis clients_of (round k codec st process) early signals l).1.run
    start_with_redis-IsSafe process quiet starting stopping early signals l h =
        start_with_redis-Keeps (IsSafe k) clients_of (round k codec st process)
          (λ p r g. on_run-IsSafe (starts p) (starting p) r g)
          (λ p r g. on_run-IsSafe (stops p) (stopping p) r g)
          (round-IsSafe k codec st process quiet) early signals l h
