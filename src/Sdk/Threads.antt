-- ===== src/Sdk/Threads.antt =====
-- sdk/logger.py: the threads that share a handler. The lock makes the locked part of each call one
-- step; the POST of a batch that was taken comes later, and any other step may come in between.
use mathlib.Core.List.{Perm}
use mathlib.Core.List.Perm
use log_foundry.Prelude.{
  ℕ, ◌⊎◌, inl, inr, String, ◌≡◌, Bool, true, false, not, ◌&&◌, Option, none, some, List, [], ◌∷◌,
  ◌++◌, length, concat, arith, ltb, if◌then◌else◌,
}
use log_foundry.Sdk.Event.{Event}
use log_foundry.Sdk.Handler.{Handler, emit_locked, flush_locked, send_taken}
use log_foundry.Sdk.Buffer.{
  IsBounded, emit_locked-IsBounded, flush_locked-IsBounded, send_taken-buffer, send_taken-settings,
}

-- The handler, the batches that a thread has taken and not yet handed to `_send_batch`, those that
-- it has, and what came before: the batches in the order in which they were taken, and the events
-- that `emit` let in.
pub record System : Type 0 where
  pub handler : Handler
  pub in_flight : List (List Event)
  pub sent : List (List Event)
  pub taken : List (List Event)
  pub accepted : List Event

-- `emit` lets an event in if the handler is open and there is room.
abbrev pub accepts : Handler → Bool
accepts h = not h.closed && ltb (length h.buffer) h.max_buffer_size

abbrev pub with_taken : Option (List Event) → System → System
with_taken none s = s
with_taken (some batch) s = record s {
  in_flight = s.in_flight ++ batch ∷ [];
  taken = s.taken ++ batch ∷ [];
}

unfoldable pub step_emit : ℕ → Event → System → System
step_emit now event s =
    let (o, h) = emit_locked now event s.handler in
    with_taken o (record s {
      handler = h;
      accepted = if accepts s.handler then s.accepted ++ event ∷ [] else s.accepted;
    })

unfoldable pub step_flush : System → System
step_flush s = let (o, h) = flush_locked s.handler in with_taken o (record s { handler = h })

module _ (dumps : List Event → Option String) where
  pub data Step : System → System → Type 0 where
    -- a thread logs an event
    emit : (now : ℕ) (event : Event) (s : System) → Step s (step_emit now event s)
    -- a thread calls `flush`, or `close` or the exit handler reaches it
    flush : (s : System) → Step s (step_flush s)
    -- a thread posts a batch that it has taken; the POST may fail
    send :
        (answer : Option String) (before after : List (List Event)) (batch : List Event)
        (s t : System)
        → s.in_flight ≡ before ++ batch ∷ after
        → t ≡ record s {
          handler = (send_taken dumps answer (some batch, s.handler)).1;
          in_flight = before ++ after;
          sent = s.sent ++ batch ∷ [];
        }
        → Step s t
    -- `self._closed = True`, which takes no lock
    shut : (s : System) → Step s (record s { handler = record s.handler { closed = true } })
    -- the flush thread clears its signal
    clear : (s : System) → Step s (record s { handler = record s.handler { flush_event = false } })

  pub data Reach (s : System) : System → Type 0 where
    here : Reach s s
    next : {t u : System} → Reach s t → Step t u → Reach s u

-- Each event that was let in is in exactly one batch or in the buffer, in the order of arrival;
-- each batch that was taken is under way or sent.
pub record Conserves (s : System) : Type 0 where
  pub order : concat s.taken ++ s.handler.buffer ≡ s.accepted
  pub batches : Perm (s.sent ++ s.in_flight) s.taken

-- What the locked part of `emit` does to the events at hand.
emit_locked-cases :
    (now : ℕ) (event : Event) (h : Handler)
    → ((emit_locked now event h).0 ≡ none)
        × ((emit_locked now event h).1.buffer
            ≡ (if accepts h then h.buffer ++ event ∷ [] else h.buffer))
      ⊎ ((emit_locked now event h).0 ≡ some (h.buffer ++ event ∷ []))
        × ((emit_locked now event h).1.buffer ≡ [])
        × (accepts h ≡ true)
unfolding emit_locked
emit_locked-cases now event h = ground arith

flush_locked-cases :
    (h : Handler)
    → ((flush_locked h).0 ≡ none) × ((flush_locked h).1 ≡ h)
      ⊎ ((flush_locked h).0 ≡ some h.buffer) × ((flush_locked h).1.buffer ≡ [])
unfolding flush_locked
flush_locked-cases h = ground arith

module _ (dumps : List Event → Option String) where
  Step-IsBounded : {s t : System} → Step dumps s t → IsBounded s.handler → IsBounded t.handler
  Step-IsBounded (emit now event s) b = elim (emit_locked-cases now event s.handler) [
    | inl (o, _) ↦ unfold step_emit in rw o (emit_locked-IsBounded now event s.handler b)
    | inr (o, _, _) ↦ unfold step_emit in rw o (emit_locked-IsBounded now event s.handler b)
  ]
  Step-IsBounded (flush s) b = elim (flush_locked-cases s.handler) [
    | inl (o, _) ↦ unfold step_flush in rw o (flush_locked-IsBounded s.handler b)
    | inr (o, _) ↦ unfold step_flush in rw o (flush_locked-IsBounded s.handler b)
  ]
  Step-IsBounded (send answer before after batch s t e u) b =
      rw
        (
          u,
          send_taken-buffer dumps answer (some batch) s.handler,
          (send_taken-settings dumps answer (some batch) s.handler).0,
        )
        b
  Step-IsBounded (shut s) b = b
  Step-IsBounded (clear s) b = b

  -- However the threads interleave, the buffer never holds more than `max_buffer_size` events.
  pub Reach-IsBounded : {s t : System} → Reach dumps s t → IsBounded s.handler → IsBounded t.handler
  Reach-IsBounded here b = b
  Reach-IsBounded (next r st) b = Step-IsBounded st (Reach-IsBounded r b)
