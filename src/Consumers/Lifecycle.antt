-- ===== src/Consumers/Lifecycle.antt =====
-- consumers/base_consumer.py: `start`, the shutdown signal, `_cleanup`; and the `start` of
-- log_writer.py, alert_consumer.py and metrics_consumer.py, which open and close more clients.
use log_foundry.Prelude.{
  Bool, true, not, ◌&&◌, if◌then◌else◌, List, [], ◌∷◌, ◌++◌, Outcome, ret, raise,
}
use log_foundry.Consumers.Base.{succeeded}

-- The clients that a consumer holds.
pub data Client : Type 0 where
  consumer producer pool redis : Client

-- What is called of them, in order, and whether it succeeded.
pub data LifeAct : Type 0 where
  opened : Client → Bool → LifeAct
  closed : Client → Bool → LifeAct

-- The state `R` of the loop, the flag `_running`, and what was opened and closed.
pub record Life (R : Type 0) : Type 0 where
  pub run : R
  pub running : Bool
  pub acts : List LifeAct

-- `start`, `create_pool` or `from_url` of a client, and its `stop` or `close`.
pub record Clients (R : Type 0) : Type 0 where
  pub start_client : Client → R → Outcome (Unit {0}) × R
  pub stop_client : Client → R → Outcome (Unit {0}) × R

abbrev pub Method : Type 0 → Type 0
Method R = Life R → Outcome (Unit {0}) × Life R

module _ {R : Type 0} where
  -- One call after the other, up to one that raises.
  abbrev pub then_do : Outcome (Unit {0}) × Life R → Method R → Outcome (Unit {0}) × Life R
  then_do (ret ok, l) f = f l
  then_do (raise e, l) f = (raise e, l)

  -- What the `finally` block of a statement raises goes before what the statement raised.
  abbrev pub keep_error :
      Outcome (Unit {0}) → Outcome (Unit {0}) × Life R → Outcome (Unit {0}) × Life R
  keep_error o (ret ok, l) = (o, l)
  keep_error o (raise e, l) = (raise e, l)

  abbrev pub finally_do : Outcome (Unit {0}) × Life R → Method R → Outcome (Unit {0}) × Life R
  finally_do (o, l) f = keep_error o (f l)

module _ {R : Type 0} (c : Clients R) where
  unfoldable pub open_part : Client → Method R
  open_part p l =
      let (o, r) = c.start_client p l.run in
      (o, record l { run = r; acts = l.acts ++ opened p (succeeded o) ∷ [] })

  unfoldable pub close_part : Client → Method R
  close_part p l =
      let (o, r) = c.stop_client p l.run in
      (o, record l { run = r; acts = l.acts ++ closed p (succeeded o) ∷ [] })

  -- `_cleanup`: by then both clients are constructed.
  unfoldable pub cleanup : Method R
  unfolding close_part
  cleanup l = then_do (close_part consumer l) (close_part producer)

  module _ (round : R → R) where
    -- `_consume_loop`, by whether the signal arrives in each round; `_handle_shutdown_signal` clears
    -- the flag, and the round goes on. The list goes at least as far as the signal; one that ends
    -- before it stands for no run of the code.
    unfoldable pub consume_while : List Bool → Life R → Life R
    consume_while [] l = l
    consume_while (signal ∷ signals) l =
        let after = record l { run = round l.run; running = l.running && not signal } in
        let rest = consume_while signals after in if l.running then rest else l

    -- `BaseConsumer.start`, and whether the signal arrives while the two clients start: its handler
    -- is registered by then.
    unfoldable pub start : Bool → List Bool → Method R
    unfolding open_part consume_while cleanup
    start early signals l =
        then_do (open_part consumer (record l { running = l.running && not early })) (λ l.
          then_do (open_part producer l)
            (λ l. finally_do (ret tt, consume_while signals (record l { running = true })) cleanup))

    -- `LogWriterConsumer.start`
    unfoldable pub start_log_writer : Bool → List Bool → Method R
    unfolding start open_part close_part
    start_log_writer early signals l = then_do (open_part pool l) (λ l.
        then_do (open_part redis l) (λ l.
          finally_do (start early signals l) (λ l. then_do (close_part pool l) (close_part redis))))

    -- `MetricsConsumer.start`
    unfoldable pub start_with_redis : Bool → List Bool → Method R
    unfolding start open_part close_part
    start_with_redis early signals l =
        then_do (open_part redis l) (λ l. finally_do (start early signals l) (close_part redis))

    -- `AlertConsumer.start`: the rules are loaded first, and an error of that ends it.
    unfoldable pub start_alert : {A : Type 0} → Outcome A → Bool → List Bool → Method R
    unfolding start_with_redis
    start_alert (raise e) early signals l = (raise e, l)
    start_alert (ret rules) early signals l = start_with_redis early signals l
