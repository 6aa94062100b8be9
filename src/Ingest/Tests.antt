-- ===== src/Ingest/Tests.antt =====
-- The handlers on concrete input.
use log_foundry.Prelude.{
  ℕ, suc, ◌⊎◌, String, ◌≡◌, refl, str_eq, true, false, List, [], ◌∷◌, if◌then◌else◌, Outcome, ret,
  raise, other, arith,
}
use mathlib.Core.List.Perm
use log_foundry.Ingest.Producer.{Event, App, is_queue_full, send_fire_and_forget, send}
use log_foundry.Ingest.Router.{
  accepted, unavailable, server_error, handle_ingest, send_all, handle_batch,
}
use log_foundry.Ingest.Flow.{System, Step, Reach, Accounts, step_ingest, step_batch, Reach-Accounts}
use log_foundry.Ingest.Answers.{Sent, handle_batch_lem}

abbrev event : String → Event
event id = record { id = id; service = "pay"; body = "{}" }

-- A broker that counts what it takes, and refuses the event "bad".
abbrev produce : Event → ℕ → Outcome (Unit {0}) × ℕ
produce e n = if str_eq e.id "bad" then (raise other, n) else (ret tt, suc n)

abbrev app : App ℕ
app = record { started = true; max_tasks = 1; background_tasks = []; world = 0; sends = [] }

-- The second event finds no room.
second_refused : (handle_ingest (event "e2") (handle_ingest (event "e1") app).1).0 ≡ unavailable 1
unfolding handle_ingest is_queue_full send_fire_and_forget
second_refused = refl

abbrev idle : System ℕ
idle = record { app = app; waiting = []; taken_in = [] }

abbrev after_batch : System ℕ
after_batch = step_batch (event "b1" ∷ event "bad" ∷ []) idle

abbrev busy : System ℕ
busy = step_ingest (event "e1") after_batch

two_requests : Reach produce idle busy
two_requests =
    Reach.step (Reach.step Reach.start (Step.batch (event "b1" ∷ event "bad" ∷ []) idle))
      (Step.ingest (event "e1") after_batch)

Reach-Accounts_example : Accounts busy
Reach-Accounts_example =
    Reach-Accounts produce two_requests (record { events = Perm.refl []; bound = omega arith })

abbrev batch : List Event
batch = event "b1" ∷ event "bad" ∷ event "b2" ∷ []

one_fails : (handle_batch produce batch app).0 ≡ server_error
unfolding handle_batch is_queue_full send_all send
one_fails = refl

has_room : is_queue_full app ≡ false
unfolding is_queue_full
has_room = refl

handle_batch_lem_example :
    ((handle_batch produce batch app).1.sends ≡ batch)
    × ((Sent produce batch app
          × ((handle_batch produce batch app).0 ≡ accepted ("b1" ∷ "bad" ∷ "b2" ∷ [])))
        ⊎ ((¬ (Sent produce batch app)) × ((handle_batch produce batch app).0 ≡ server_error)))
handle_batch_lem_example = handle_batch_lem produce batch app has_room
