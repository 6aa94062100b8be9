-- ===== src/Ingest/Producer.antt =====
-- api/producers/kafka_producer.py: `KafkaLogProducer`.
use log_foundry.Prelude.{
  ℕ, String, Bool, leb, length, if◌then◌else◌, List, [], ◌∷◌, ◌++◌, true, Outcome, raise,
  runtime_error,
}

-- A log event, by what the producer and the handlers read of it.
pub record Event : Type 0 where
  pub id : String
  pub service : String
  pub body : String

-- The producer, the world behind it, and the events that `send` was called with, in order. A task in
-- the background is known by its event; what stands there has not run yet.
pub record App (S : Type 0) : Type 0 where
  pub started : Bool
  pub max_tasks : ℕ
  pub background_tasks : List Event
  pub world : S
  pub sends : List Event

module _ {S : Type 0} where
  unfoldable pub is_queue_full : App S → Bool
  is_queue_full a = leb a.max_tasks (length a.background_tasks)

  unfoldable pub send_fire_and_forget : Event → App S → App S
  send_fire_and_forget event a = record a { background_tasks = a.background_tasks ++ event ∷ [] }

  -- `start`: the client is there from then on, whether it starts or not.
  unfoldable pub start : (S → Outcome (Unit {0}) × S) → App S → Outcome (Unit {0}) × App S
  start start_client a =
      let (o, s) = start_client a.world in (o, record a { started = true; world = s })

  -- The encoding of an event and `send_and_wait`, which may raise.
  module _ (produce : Event → S → Outcome (Unit {0}) × S) where
    unfoldable pub send : Event → App S → Outcome (Unit {0}) × App S
    send event a =
        let (o, s) = produce event a.world in
        let called = a.sends ++ event ∷ [] in
        if a.started
        then (o, record a { world = s; sends = called })
        else (raise runtime_error, record a { sends = called })

    -- A task of the background runs: what `send` raises is dropped, and the task leaves the set.
    unfoldable pub run_task : Event → List Event → App S → App S
    unfolding send
    run_task event others a = record ((send event a).1) { background_tasks = others }

    -- `stop`: it waits for all tasks, then stops the client.
    unfoldable pub run_tasks : List Event → App S → App S
    unfolding send
    run_tasks [] a = a
    run_tasks (event ∷ events) a = run_tasks events ((send event a).1)

    unfoldable pub stop : App S → App S
    unfolding run_tasks
    stop a = record (run_tasks a.background_tasks a) { background_tasks = [] }
