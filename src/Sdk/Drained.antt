-- ===== src/Sdk/Drained.antt =====
-- sdk/logger.py: what a closed handler keeps.

use log_foundry.Prelude.{String, ◌≡◌, refl, true, Option, some, List, [], arith}
use log_foundry.Sdk.Event.{Event}
use log_foundry.Sdk.Handler.{Handler, emit_locked, flush_locked}
use log_foundry.Sdk.Buffer.{send_taken-buffer, send_taken-settings}
use log_foundry.Sdk.Threads.{
  System, Step, emit, flush, send, shut, clear, Reach, here, next, step_emit, step_flush,
}

-- The handler is closed and nothing waits in its buffer.
abbrev pub IsDrained : Handler → Type 0
IsDrained h = (h.closed ≡ true) × (h.buffer ≡ [])

module _ (dumps : List Event → Option String) where
  Step-IsDrained : {s t : System} → Step dumps s t → IsDrained s.handler → IsDrained t.handler
  Step-IsDrained (emit now event s) d = unfold step_emit emit_locked in ground arith
  Step-IsDrained (flush s) d = unfold step_flush flush_locked in ground arith
  Step-IsDrained (send answer before after batch s t e u) d =
      let (_, c) = send_taken-settings dumps answer (some batch) s.handler in
      rw (u, send_taken-buffer dumps answer (some batch) s.handler, c) d
  Step-IsDrained (shut s) d = (refl, d.1)
  Step-IsDrained (clear s) d = d

  -- Once the handler is closed and its buffer empty it stays so, whatever the threads do: no event
  -- can be left behind in the buffer of a closed handler.
  pub Reach-IsDrained : {s t : System} → Reach dumps s t → IsDrained s.handler → IsDrained t.handler
  Reach-IsDrained here d = d
  Reach-IsDrained (next r st) d = Step-IsDrained st (Reach-IsDrained r d)
