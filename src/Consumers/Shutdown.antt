-- ===== src/Consumers/Shutdown.antt =====
-- consumers/base_consumer.py: how a consumer ends.
use log_foundry.Prelude.{
  ℕ, zero, suc, ◌≡◌, refl, ap, ◌∙◌, Bool, true, false, not, ◌&&◌, List, [], ◌∷◌, ◌++◌, ret, raise,
  Exc,
}
use log_foundry.Consumers.Kafka.{Message, Call, Kafka}
use log_foundry.Consumers.Base.{Run, Codec, Settings, round, consume_loop}
use log_foundry.Consumers.Lifecycle.{
  Client, consumer, producer, pool, redis, opened, closed, Life, Clients, Method, then_do,
  keep_error, finally_do, open_part, close_part, cleanup, consume_while, start, start_log_writer,
}
use log_foundry.Consumers.Parts.{
  fresh, quiet, rounds, consume_while-quiet, begun, ended, after_open, after_close, open_part_ret,
  open_part_raise, close_both, all_begun,
}

module _ {R : Type 0} (c : Clients R) (round : R → R) where
  module _ (early : Bool) (r : R) (starts : (p : Client) (s : R) → (c.start_client p s).0 ≡ ret tt)
      (stops : (p : Client) (s : R) → (c.stop_client p s).0 ≡ ret tt) where
    abbrev drained : ℕ → Life R → Life R
    drained n l = record l {
      run = rounds c round (suc n) (begun c round producer (begun c round consumer l.run));
      running = false;
      acts = (l.acts ++ opened consumer true ∷ []) ++ opened producer true ∷ [];
    }

    abbrev cleaned : Life R → Life R
    cleaned l =
        after_close c round producer (ended c round producer (ended c round consumer l.run))
          (after_close c round consumer (ended c round consumer l.run) l)

    -- A consumer whose signal arrives in round `n`, counted from 0.
    start-ret :
        (n : ℕ) (signals : List Bool) (l : Life R)
        → start c round early (quiet n ++ true ∷ signals) l ≡ (ret tt, cleaned (drained n l))
    unfolding start cleanup
    start-ret n signals l =
        let l1 = record l { running = l.running && not early } in
        let l2 = after_open c round consumer true (begun c round consumer l.run) l1 in
        let l3 =
          after_open c round producer true (begun c round producer (begun c round consumer l.run))
            l2 in
        let consume : Method R = λ l.
          finally_do
            (
              ret tt,
              consume_while c round (quiet n ++ true ∷ signals) (record l { running = true }),
            )
            (cleanup c) in
        ap (λ x. then_do x (λ l. then_do (open_part c producer l) consume))
          (open_part_ret c round consumer l1 (starts consumer l.run))
        ∙ ap (λ x. then_do x consume)
            (open_part_ret c round producer l2 (starts producer (begun c round consumer l.run)))
        ∙ ap (λ m. finally_do (ret tt, m) (cleanup c))
            (consume_while-quiet c round n signals (record l3 { running = true }) refl)
        ∙ ap (λ x. keep_error (ret tt) x)
            (close_both c round consumer producer (drained n l) (stops _ _) (stops _ _))

    -- If every client starts and stops without an error, a consumer ends: when the signal arrives in
    -- a round, after however many rounds c round, LogWriterConsumer goes through that round and no other,
    -- closes the consumer, the producer, the pool and Redis, in this order and once each, and
    -- returns. A signal that arrives while the clients start changes nothing of this.
    pub start_log_writer-Drains :
        (n : ℕ) (signals : List Bool)
        → start_log_writer c round early (quiet n ++ true ∷ signals) (fresh r) ≡ (
          ret tt,
          record {
            run = ended c round redis (
                ended c round pool (
                  ended c round producer
                    (ended c round consumer (rounds c round (suc n) (all_begun c round r)))));
            running = false;
            acts =
                opened pool true
                ∷ opened redis true
                ∷ opened consumer true
                ∷ opened producer true
                ∷ closed consumer true
                ∷ closed producer true
                ∷ closed pool true
                ∷ closed redis true
                ∷ [];
          },
        )
    unfolding start_log_writer
    start_log_writer-Drains n signals =
        let run_it : Method R = λ l.
          finally_do (start c round early (quiet n ++ true ∷ signals) l)
            (λ l. then_do (close_part c pool l) (close_part c redis)) in
        let l1 = after_open c round pool true (begun c round pool r) (fresh r) in
        let l2 = after_open c round redis true (begun c round redis (begun c round pool r)) l1 in
        ap (λ x. then_do x (λ l. then_do (open_part c redis l) run_it))
          (open_part_ret c round pool (fresh r) (starts pool r))
        ∙ ap (λ x. then_do x run_it)
            (open_part_ret c round redis l1 (starts redis (begun c round pool r)))
        ∙ ap (λ x. finally_do x (λ l. then_do (close_part c pool l) (close_part c redis)))
            (start-ret n signals l2)
        ∙ ap (λ x. keep_error (ret tt) x)
            (close_both c round pool redis (cleaned (drained n l2)) (stops _ _) (stops _ _))

  -- If the producer does not start, LogWriterConsumer raises its error without a round, and closes
  -- the pool and Redis, but not the consumer, which has started.
  pub start_log_writer-leaks :
      (early : Bool) (signals : List Bool) (r : R) (e : Exc)
      → (c.start_client pool r).0 ≡ ret tt
      → (c.start_client redis (begun c round pool r)).0 ≡ ret tt
      → (c.start_client consumer (begun c round redis (begun c round pool r))).0 ≡ ret tt
      → (c.start_client producer
          (begun c round consumer (begun c round redis (begun c round pool r)))).0
        ≡ raise e
      → (c.stop_client pool (all_begun c round r)).0 ≡ ret tt
      → (c.stop_client redis (ended c round pool (all_begun c round r))).0 ≡ ret tt
      → start_log_writer c round early signals (fresh r) ≡ (
        raise e,
        record {
          run = ended c round redis (ended c round pool (all_begun c round r));
          running = false;
          acts =
              opened pool true
              ∷ opened redis true
              ∷ opened consumer true
              ∷ opened producer false
              ∷ closed pool true
              ∷ closed redis true
              ∷ [];
        },
      )
  unfolding start_log_writer start
  start_log_writer-leaks early signals r e h1 h2 h3 h4 h5 h6 =
      let base : Method R = λ l.
        finally_do (start c round early signals l)
          (λ l. then_do (close_part c pool l) (close_part c redis)) in
      let consume : Method R = λ l.
        finally_do (ret tt, consume_while c round signals (record l { running = true }))
          (cleanup c) in
      let l1 = after_open c round pool true (begun c round pool r) (fresh r) in
      let l2 = after_open c round redis true (begun c round redis (begun c round pool r)) l1 in
      let l3 = after_open c round consumer true (begun c round consumer l2.run) l2 in
      let started : start c round early signals l2
          ≡ (raise e, after_open c round producer false (begun c round producer l3.run) l3) =
        ap (λ x. then_do x (λ l. then_do (open_part c producer l) consume))
          (open_part_ret c round consumer l2 h3)
        ∙ ap (λ x. then_do x consume) (open_part_raise c round producer l3 e h4) in
      ap (λ x. then_do x (λ l. then_do (open_part c redis l) base))
        (open_part_ret c round pool (fresh r) h1)
      ∙ ap (λ x. then_do x base) (open_part_ret c round redis l1 h2)
      ∙ ap (λ x. finally_do x (λ l. then_do (close_part c pool l) (close_part c redis))) started
      ∙ ap (λ x. keep_error (raise e) x)
          (close_both c round pool redis
            (after_open c round producer false (begun c round producer l3.run) l3) h5 h6)

-- The rounds c round of a consumer are those of its loop.
rounds-consume_loop :
    {S : Type 0} (clients : Clients (Run S)) (k : Kafka S) (codec : Codec) (st : Settings)
    (process : Message → Call S (Unit {0})) (n : ℕ) (r : Run S)
    → rounds clients (round k codec st process) n r ≡ consume_loop k codec st process n r
unfolding consume_loop
rounds-consume_loop clients k codec st process zero r = refl
rounds-consume_loop clients k codec st process (suc n) r =
    rounds-consume_loop clients k codec st process n (round k codec st process r)
