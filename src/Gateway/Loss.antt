-- ===== src/Gateway/Loss.antt =====
-- sdk/logger.py and api/models.py: batches that are lost because the API refuses them.
use log_foundry.Prelude.{
  ℕ, ◌≤◌, ◌≡◌, ◌≢◌, refl, ap, ◌∙◌, inl, inr, String, Option, some, List, [], ◌∷◌, ◌++◌, length, All,
  Outcome, ret, raise, value_error,
}
use log_foundry.Sdk.Event.{Event}
use log_foundry.Sdk.Handler.{Handler, flush}
use log_foundry.Sdk.Calls.{flush_lem, posted, requested}
use log_foundry.Consumers.Payload.{Json}
use log_foundry.Gateway.Models.{Codecs}
use log_foundry.Gateway.Body.{body_json, dumps_by, validate_body}
use log_foundry.Gateway.Client.{IsPrinted, Fits, validate_body-posted}

pub posted_lem :
    (dumps : List Event → Option String) (events : List Event) (t : String)
    → events ≢ []
    → dumps events ≡ some t
    → posted dumps events ≡ events ∷ []
posted_lem dumps [] t full held = absurd (full refl)
posted_lem dumps (e ∷ events) t full held = rw (held, posted) refl

module _ (other_json : ℕ → Outcome Json) (print : Json → String) where
  pub held-dumps_by :
      (events : List Event) (j : Json)
      → body_json other_json events ≡ ret j
      → dumps_by other_json print events ≡ some (print j)
  unfolding dumps_by
  held-dumps_by events j held = rw (held, dumps_by) refl

module _ {B : Type 0} (c : Codecs B) (other_json : ℕ → Outcome Json) (print : Json → String)
    (answer : Option String) where
  -- A buffer that JSON can hold, but that has more than a thousand events or one that does not keep
  -- the limits of the API, is lost when it is flushed: the buffer is emptied, all of it is posted as
  -- one batch, and the API lets none of it in.
  pub flush-Loses :
      (new_id : ℕ → String) (now : ℕ) (h : Handler) (j : Json)
      → All (IsPrinted c other_json) h.buffer
      → h.buffer ≢ []
      → body_json other_json h.buffer ≡ ret j
      → ¬ ((length h.buffer ≤ 1000) × All (Fits c other_json) h.buffer)
      → ((flush (dumps_by other_json print) answer h).1.buffer ≡ [])
        × (requested (flush (dumps_by other_json print) answer h).1.requests
            ≡ requested h.requests ++ h.buffer ∷ [])
        × (validate_body c new_id now j ≡ raise value_error)
  flush-Loses new_id now h j p full held bad =
      let sent = flush_lem (dumps_by other_json print) answer h in
      let (decides, either) = validate_body-posted c other_json new_id now h.buffer j p held in
      (
        sent.0,
        sent.1
            ∙ ap (λ l. requested h.requests ++ l)
                (posted_lem (dumps_by other_json print) h.buffer (print j) full
                  (held-dumps_by other_json print h.buffer j held)),
        elim either [ inl ok ↦ absurd (bad ((decides.0 ok).1, (decides.0 ok).2)) | inr e ↦ e ],
      )
