-- ===== src/Ingest/Flow.antt =====
-- api/routers/ingest.py and api/producers/kafka_producer.py: requests and tasks on one event loop.
-- What runs between two `await`s is one step: the acceptance of an event, that of a batch, and the
-- `send` of one event of either.
use mathlib.Core.List.{Perm, perm_middle}
use mathlib.Core.List.Perm
use log_foundry.Prelude.{
  ℕ, ◌≤◌, inl, inr, ◌≡◌, refl, ap, ◌∙◌, subst, List, [], ◌∷◌, ◌++◌, leb, length, length-append,
  append_assoc, append-nil, if◌then◌else◌, Outcome, arith, Bool-cases, Perm-move,
}
use log_foundry.Ingest.Producer.{Event, App, is_queue_full, send_fire_and_forget, send, run_task}
use log_foundry.Ingest.Router.{handle_ingest}

-- A new event goes anywhere.
Perm-new : (x y t : List Event) (e : Event) → Perm (x ++ y) t → Perm (x ++ e ∷ y) (t ++ e ∷ [])
Perm-new x y t e p =
    Perm.trans (perm_middle x y)
      (Perm.trans (Perm.cons e p) (Perm.symm (rw append-nil at (perm_middle {a = e} t []))))

-- Events come in at the end.
Perm-batch :
    (x y z t events : List Event)
    → Perm (x ++ (y ++ z)) t
    → Perm (x ++ (y ++ (z ++ events))) (t ++ events)
Perm-batch x y z t events p =
    subst (λ l. Perm l (t ++ events))
      (append_assoc x (y ++ z) events ∙ ap (λ l. x ++ l) (append_assoc y z events))
      (Perm.append_right events p)

tasks_left :
    (before after : List Event) (e : Event) {n : ℕ}
    → length (before ++ e ∷ after) ≤ n
    → length (before ++ after) ≤ n
tasks_left before after e h =
    omega (arith, length-append before (e ∷ after), length-append before after)

-- The producer, the events of batches that wait for their `send`, and all events that were taken in.
pub record System (S : Type 0) : Type 0 where
  pub app : App S
  pub waiting : List Event
  pub taken_in : List Event

module _ {S : Type 0} where
  unfoldable pub step_ingest : Event → System S → System S
  step_ingest event s =
      let full = is_queue_full s.app in
      record s {
        app = (handle_ingest event s.app).1;
        taken_in = if full then s.taken_in else s.taken_in ++ event ∷ [];
      }

  unfoldable pub step_batch : List Event → System S → System S
  step_batch events s =
      if is_queue_full s.app
      then s
      else record s { waiting = s.waiting ++ events; taken_in = s.taken_in ++ events }

  module _ (produce : Event → S → Outcome (Unit {0}) × S) where
    pub data Step : System S → System S → Type 0 where
      ingest : (event : Event) (s : System S) → Step s (step_ingest event s)
      batch : (events : List Event) (s : System S) → Step s (step_batch events s)
      run :
          (before after : List Event) (event : Event) (s : System S)
          → s.app.background_tasks ≡ before ++ event ∷ after
          → Step s (record s { app = run_task produce event (before ++ after) s.app })
      run_waiting :
          (before after : List Event) (event : Event) (s : System S)
          → s.waiting ≡ before ++ event ∷ after
          → Step s (record s { app = (send produce event s.app).1; waiting = before ++ after })

    pub data Reach (s : System S) : System S → Type 0 where
      start : Reach s s
      step : {t u : System S} → Reach s t → Step t u → Reach s u

  -- Each event that was taken in was sent, or stands in the background, or waits in a batch, once.
  pub record Accounts (s : System S) : Type 0 where
    pub events : Perm (s.app.sends ++ (s.app.background_tasks ++ s.waiting)) s.taken_in
    pub bound : length s.app.background_tasks ≤ s.app.max_tasks

  ingest-Accounts : (event : Event) {s : System S} → Accounts s → Accounts (step_ingest event s)
  unfolding step_ingest handle_ingest is_queue_full send_fire_and_forget
  ingest-Accounts event {s} c =
      elim (Bool-cases (leb s.app.max_tasks (length s.app.background_tasks))) [
        | inl full ↦ rw full (record { events = c.events; bound = c.bound })
        | inr room ↦ rw room (record {
          events =
              rw (append_assoc, ← append_assoc s.app.sends)
                (Perm-new (s.app.sends ++ s.app.background_tasks) s.waiting s.taken_in event
                  (rw append_assoc c.events));
          bound = ground (arith, length-append s.app.background_tasks (event ∷ []));
        })
      ]

  batch-Accounts :
      (events : List Event) {s : System S} → Accounts s → Accounts (step_batch events s)
  unfolding step_batch is_queue_full
  batch-Accounts events {s} c =
      elim (Bool-cases (leb s.app.max_tasks (length s.app.background_tasks))) [
        | inl full ↦ rw full c
        | inr room ↦ rw room (record {
          events =
              Perm-batch s.app.sends s.app.background_tasks s.waiting s.taken_in events c.events;
          bound = c.bound;
        })
      ]

  module _ (produce : Event → S → Outcome (Unit {0}) × S) where
    -- `send` appends to the sends and leaves the tasks alone.
    pub send_lem :
        (event : Event) (a : App S)
        → ((send produce event a).1.sends ≡ a.sends ++ event ∷ [])
          × ((send produce event a).1.background_tasks ≡ a.background_tasks)
          × ((send produce event a).1.max_tasks ≡ a.max_tasks)
    unfolding send
    send_lem event a = elim (Bool-cases a.started) [
      | inl e ↦ rw e (refl, refl, refl)
      | inr e ↦ rw e (refl, refl, refl)
    ]

    Step-Accounts : {s t : System S} → Step produce s t → Accounts s → Accounts t
    unfolding run_task
    Step-Accounts (ingest event s) c = ingest-Accounts event c
    Step-Accounts (batch events s) c = batch-Accounts events c
    Step-Accounts (run before after event s e) c =
        let l = send_lem event s.app in
        record {
          events =
              rw (l.0, append_assoc before after s.waiting)
                (Perm-move s.app.sends before (after ++ s.waiting) event
                  (rw (e, append_assoc) at c.events));
          bound = rw l.2 (tasks_left before after event (rw e at c.bound));
        }
    Step-Accounts (run_waiting before after event s e) c =
        let l = send_lem event s.app in
        record {
          events =
              rw (l.0, l.1, ← append_assoc s.app.background_tasks)
                (Perm-move s.app.sends (s.app.background_tasks ++ before) after event
                  (rw (e, ← append_assoc s.app.background_tasks) at c.events));
          bound = rw (l.1, l.2) c.bound;
        }

    -- However requests and tasks interleave, every event that was taken in, by either handler, was
    -- handed to `send` once, or stands in the background, or waits in a batch, and nothing else was
    -- sent; and the background never holds more tasks than `max_tasks`.
    pub Reach-Accounts : {s t : System S} → Reach produce s t → Accounts s → Accounts t
    Reach-Accounts start c = c
    Reach-Accounts (step r st) c = Step-Accounts st (Reach-Accounts r c)
