-- ===== src/Ingest/Router.antt =====
-- api/routers/ingest.py: the two handlers and their rate limit.
use log_foundry.Prelude.{ℕ, String, List, [], ◌∷◌, map, if◌then◌else◌, Outcome, ret, raise}
use log_foundry.RateLimiter.Redis.{SortedSets}
use log_foundry.RateLimiter.Script.{RateLimiter, check}
use log_foundry.Ingest.Producer.{Event, App, is_queue_full, send_fire_and_forget, send}

-- 202 with the identifiers, 429 and 503 with their `Retry-After`, and 500 for an exception.
pub data Response : Type 0 where
  accepted : List String → Response
  too_many_requests : ℕ → Response
  unavailable : ℕ → Response
  server_error : Response

module _ {S : Type 0} where
  -- `ingest`, after the rate limit let it pass.
  unfoldable pub handle_ingest : Event → App S → Response × App S
  unfolding is_queue_full send_fire_and_forget
  handle_ingest event a =
      if is_queue_full a
      then (unavailable 1, a)
      else (accepted (event.id ∷ []), send_fire_and_forget event a)

  module _ (produce : Event → S → Outcome (Unit {0}) × S) where
    -- `asyncio.gather`: every event is sent; the first error comes out.
    unfoldable pub send_all : List Event → App S → Outcome (Unit {0}) × App S
    unfolding send
    send_all [] a = (ret tt, a)
    send_all (event ∷ events) a =
        let (o, a₁) = send produce event a in
        let (o', a₂) = send_all events a₁ in (elim o [ ret _ ↦ o' | raise e ↦ raise e ], a₂)

    abbrev pub answer : List Event → Outcome (Unit {0}) → Response
    answer events (ret _) = accepted (map (λ event. event.id) events)
    answer events (raise e) = server_error

    -- `ingest_batch`, after the rate limit let it pass.
    unfoldable pub handle_batch : List Event → App S → Response × App S
    unfolding is_queue_full send_all
    handle_batch events a =
        let (o, a') = send_all events a in
        if is_queue_full a then (unavailable 1, a) else (answer events o, a')

-- A request with the dependency `check_rate_limit`, which runs before its handler. The client is its
-- address, or "unknown".
module _ (r : SortedSets) (l : RateLimiter) {S : Type 0} where
  unfoldable pub limited :
      (App S → Response × App S)
      → String
      → ℕ
      → String
      → SortedSets.Store r × App S
      → Response × (SortedSets.Store r × App S)
  unfolding check
  limited handle client_ip now_ms suffix (store, a) =
      let (allowed, store') = check r l client_ip now_ms suffix store in
      let (response, a') = handle a in
      if allowed
      then (response, (store', a'))
      else (too_many_requests l.window_seconds, (store', a))
