-- ===== src/Sdk/Buffer.antt =====
-- sdk/logger.py: the bound on the buffer, and what a single call does.
use log_foundry.Prelude.{
  ℕ, ◌≤◌, String, ◌≡◌, refl, Option, none, some, List, [], ◌∷◌, length, length-append, arith,
}
use log_foundry.Sdk.Event.{Event}
use log_foundry.Sdk.Handler.{Handler, emit_locked, flush_locked, send_batch, send_taken}

-- The buffer never holds more than `max_buffer_size` events.
abbrev pub IsBounded : Handler → Type 0
IsBounded h = length h.buffer ≤ h.max_buffer_size

pub emit_locked-IsBounded :
    (now : ℕ) (event : Event) (h : Handler) → IsBounded h → IsBounded (emit_locked now event h).1
unfolding emit_locked
emit_locked-IsBounded now event h b = ground (arith, length-append h.buffer (event ∷ []))

pub flush_locked-IsBounded : (h : Handler) → IsBounded h → IsBounded (flush_locked h).1
unfolding flush_locked
flush_locked-IsBounded h b = ground arith

module _ (dumps : List Event → Option String) where
  pub send_taken-buffer :
      (answer : Option String) (o : Option (List Event)) (h : Handler)
      → (send_taken dumps answer (o, h)).1.buffer ≡ h.buffer
  unfolding send_taken send_batch
  send_taken-buffer answer none h = refl
  send_taken-buffer answer (some []) h = refl
  send_taken-buffer answer (some (e ∷ es)) h = ground arith

  pub send_taken-settings :
      (answer : Option String) (o : Option (List Event)) (h : Handler)
      → ((send_taken dumps answer (o, h)).1.max_buffer_size ≡ h.max_buffer_size)
        × ((send_taken dumps answer (o, h)).1.closed ≡ h.closed)
  unfolding send_taken send_batch
  send_taken-settings answer none h = (refl, refl)
  send_taken-settings answer (some []) h = (refl, refl)
  send_taken-settings answer (some (e ∷ es)) h = ground arith
