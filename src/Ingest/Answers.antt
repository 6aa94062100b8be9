-- ===== src/Ingest/Answers.antt =====
-- api/routers/ingest.py: what the handlers answer, and what they have done by then.
use log_foundry.Prelude.{
  ◌⊎◌, inl, inr, ◌≡◌, refl, sym, ap, ◌∙◌, false, List, [], ◌∷◌, ◌++◌, map, append_assoc, append-nil,
  Outcome, Outcome-cases, ret-ne-raise, ret, raise,
}
use log_foundry.Ingest.Producer.{Event, App, is_queue_full, send}
use log_foundry.Ingest.Router.{accepted, server_error, send_all, answer, handle_batch}
use log_foundry.Ingest.Flow.{send_lem}

module _ {S : Type 0} (produce : Event → S → Outcome (Unit {0}) × S) where
  -- Every `send` of a batch returns.
  abbrev pub Sent : List Event → App S → Type 0
  Sent [] a = Unit
  Sent (event ∷ events) a =
      ((send produce event a).0 ≡ ret tt) × Sent events (send produce event a).1

  send_all-sends :
      (events : List Event) (a : App S) → (send_all produce events a).1.sends ≡ a.sends ++ events
  unfolding send_all
  send_all-sends [] a = sym (append-nil a.sends)
  send_all-sends (event ∷ events) a =
      send_all-sends events (send produce event a).1
      ∙ ap (λ l. l ++ events) (send_lem produce event a).0
      ∙ append_assoc a.sends (event ∷ []) events

  send_all-Sent :
      (events : List Event) (a : App S) → (send_all produce events a).0 ≡ ret tt → Sent events a
  unfolding send_all
  send_all-Sent [] a h = tt
  send_all-Sent (event ∷ events) a h = elim (Outcome-cases (send produce event a).0) [
    | inl (u, e) ↦ (e, send_all-Sent events (send produce event a).1 (rw (e, send_all) at h))
    | inr (x, e) ↦ absurd (ret-ne-raise (sym (rw (e, send_all) at h)))
  ]

  Sent-send_all :
      (events : List Event) (a : App S) → Sent events a → (send_all produce events a).0 ≡ ret tt
  unfolding send_all
  Sent-send_all [] a h = refl
  Sent-send_all (event ∷ events) a (e, h) =
      rw (e, send_all) (Sent-send_all events (send produce event a).1 h)

  answer_cases :
      (events : List Event) (o : Outcome (Unit {0}))
      → ((o ≡ ret tt) × (answer produce events o ≡ accepted (map (λ event. event.id) events)))
        ⊎ ((¬ (o ≡ ret tt)) × (answer produce events o ≡ server_error))
  answer_cases events (ret u) = inl (refl, refl)
  answer_cases events (raise x) = inr ((λ h. ret-ne-raise (sym h)), refl)

  -- The answer to a batch that finds room. Every event of it is handed to `send`, in order and also
  -- after one that fails. It is answered with 202 and the identifiers of its events, in order, if
  -- every one of these calls returns, and with 500 if one raises.
  pub handle_batch_lem :
      (events : List Event) (a : App S)
      → is_queue_full a ≡ false
      → ((handle_batch produce events a).1.sends ≡ a.sends ++ events)
        × ((Sent events a
              × ((handle_batch produce events a).0 ≡ accepted (map (λ event. event.id) events)))
            ⊎ ((¬ (Sent events a)) × ((handle_batch produce events a).0 ≡ server_error)))
  unfolding handle_batch
  handle_batch_lem events a room = rw (room) (
    send_all-sends events a,
    elim (answer_cases events (send_all produce events a).0) [
      | inl (o, e) ↦ inl (send_all-Sent events a o, e)
      | inr (o, e) ↦ inr ((λ s. o (Sent-send_all events a s)), e)
    ],
  )
