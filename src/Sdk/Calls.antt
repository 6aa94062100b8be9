-- ===== src/Sdk/Calls.antt =====
-- sdk/logger.py: what a single call of `emit`, `flush`, `close` or the flush thread does, on every
-- branch, and when it lets an exception out.
use log_foundry.Prelude.{
  ℕ, String, ◌≡◌, refl, ◌↔◌, Bool, true, false, not, ◌&&◌, Option, none, some, List, [], ◌∷◌, ◌++◌,
  arith, if◌then◌else◌, Outcome, ret, raise, type_error, ap, sym, append-nil, inl, inr,
  Option-cases,
}
use log_foundry.Sdk.Event.{Event}
use log_foundry.Sdk.Handler.{Handler, Request, send_batch, emit, flush, background_round}
use log_foundry.Sdk.Threads.{accepts}

abbrev pub requested : List Request → List (List Event)
requested [] = []
requested (r ∷ rs) = r.events ∷ requested rs

requested-snoc :
    (rs : List Request) (r : Request) → requested (rs ++ r ∷ []) ≡ requested rs ++ r.events ∷ []
requested-snoc [] r = refl
requested-snoc (q ∷ rs) r = ap (◌∷◌ q.events) (requested-snoc rs r)

module _ (dumps : List Event → Option String) where
  -- The batches that `_send_batch` posts: none for no events, none for what JSON cannot hold.
  abbrev pub posted : List Event → List (List Event)
  posted [] = []
  posted (e ∷ es) = elim (dumps (e ∷ es)) [ none ↦ [] | some _ ↦ (e ∷ es) ∷ [] ]

  -- Whether the batch is one that `json.dumps` refuses.
  abbrev pub unserializable : List Event → Bool
  unserializable [] = false
  unserializable (e ∷ es) = elim (dumps (e ∷ es)) [ none ↦ true | some _ ↦ false ]

abbrev pub outcome_of : Bool → Outcome (Unit {0})
outcome_of true = raise type_error
outcome_of false = ret tt

module _ (dumps : List Event → Option String) (answer : Option String) where
  send_batch_lem :
      (events : List Event) (h : Handler)
      → ((send_batch dumps answer events h).0 ≡ outcome_of (unserializable dumps events))
        × (requested (send_batch dumps answer events h).1.requests
            ≡ requested h.requests ++ posted dumps events)
        × ((send_batch dumps answer events h).1.buffer ≡ h.buffer)
  unfolding send_batch
  send_batch_lem [] h = (refl, sym (append-nil (requested h.requests)), refl)
  send_batch_lem (e ∷ es) h = elim (Option-cases (dumps (e ∷ es))) [
    | inl bad ↦
        rw (bad, send_batch, unserializable, posted)
          (refl, sym (append-nil (requested h.requests)), refl)
    | inr (payload, good) ↦
        rw (good, send_batch, unserializable, posted) (refl, requested-snoc h.requests _, refl)
  ]

  -- `flush` empties the buffer and posts what was in it as one batch, and an exception gets out
  -- exactly when JSON cannot hold the batch: it is then lost.
  pub flush_lem :
      (h : Handler)
      → ((flush dumps answer h).1.buffer ≡ [])
        × (requested (flush dumps answer h).1.requests
            ≡ requested h.requests ++ posted dumps h.buffer)
        × ((flush dumps answer h).0 ≡ outcome_of (unserializable dumps h.buffer))
  unfolding flush
  flush_lem h =
      ground (
        arith,
        send_batch_lem h.buffer (record h { buffer = [] }),
        append-nil (requested h.requests),
      )

  pub emit_lem :
      (now : ℕ) (event : Event) (h : Handler)
      → ((emit dumps answer now event h).1.buffer
          ≡ (if accepts h then (if h.async_mode then h.buffer ++ event ∷ [] else []) else h.buffer))
        × (requested (emit dumps answer now event h).1.requests
            ≡ requested h.requests
              ++ (if accepts h && not h.async_mode
                  then posted dumps (h.buffer ++ event ∷ [])
                  else []))
        × ((emit dumps answer now event h).0
            ≡ outcome_of
                (accepts h && not h.async_mode && unserializable dumps (h.buffer ++ event ∷ [])))
  unfolding emit
  emit_lem now event h = ground (
    arith,
    send_batch_lem (h.buffer ++ event ∷ []) (record h { buffer = [] }),
    append-nil (requested h.requests),
  )

  -- `emit` raises into the host application exactly when the handler is synchronous, lets the event
  -- in, and JSON cannot hold the batch.
  pub emit-raises_iff :
      (now : ℕ) (event : Event) (h : Handler)
      → ((emit dumps answer now event h).0 ≡ raise type_error) ↔ (
          (h.async_mode ≡ false)
          × (accepts h ≡ true)
          × (unserializable dumps (h.buffer ++ event ∷ []) ≡ true))
  emit-raises_iff now event h = let (_, _, o) = emit_lem now event h in ground arith

  -- A round of the flush thread empties the buffer and posts what was in it as one batch, unless
  -- JSON cannot hold it: then the batch is dropped and the round goes on all the same.
  pub background_round_lem :
      (h : Handler)
      → ((background_round dumps answer h).buffer ≡ [])
        × (requested (background_round dumps answer h).requests
            ≡ requested h.requests ++ posted dumps h.buffer)
  unfolding background_round
  background_round_lem h = ground (arith, flush_lem (record h { flush_event = false }))
