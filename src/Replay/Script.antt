-- ===== src/Replay/Script.antt =====
-- scripts/replay_dlq.py: `replay_dlq`, from the start of its clients to their end.
use log_foundry.Prelude.{ℕ, Option, none, some, Outcome, ret, raise}
use log_foundry.Consumers.Payload.{Reader}
use log_foundry.Consumers.Lifecycle.{
  consumer, producer, Life, Clients, then_do, finally_do, open_part, close_part,
}
use log_foundry.Replay.{Services, Run, replay_loop}

module _ {S : Type 0} (v : Services S) (rd : Reader) (c : Clients (Run S)) where
  abbrev pub once_open :
      Outcome (Unit {0}) × Life (Run S)
      → (Life (Run S) → Option (Outcome (Unit {0}) × Life (Run S)))
      → Option (Outcome (Unit {0}) × Life (Run S))
  once_open (ret ok, l) f = f l
  once_open (raise e, l) f = some (raise e, l)

  -- The `finally` block; `none` if the fuel of the loop was not enough.
  abbrev pub finish :
      Life (Run S)
      → Option (Outcome (Unit {0}) × Run S)
      → Option (Outcome (Unit {0}) × Life (Run S))
  finish l none = none
  finish l (some (o, r)) = some (
      finally_do (o, record l { run = r })
        (λ l. then_do (close_part c producer l) (close_part c consumer)))

  unfoldable pub replay_dlq : ℕ → ℕ → Life (Run S) → Option (Outcome (Unit {0}) × Life (Run S))
  unfolding open_part close_part replay_loop
  replay_dlq fuel limit l =
      once_open (open_part c consumer l) (λ l.
        once_open (open_part c producer l) (λ l. finish l (replay_loop v rd fuel limit l.run)))
