-- ===== src/Consumers/Startup.antt =====
-- The start and the end of a consumer on concrete input.
use log_foundry.Prelude.{ℕ, suc, ◌+◌, ◌≡◌, refl, true, false, [], ◌∷◌, ret, raise, other}
use log_foundry.Consumers.Lifecycle.{
  consumer, producer, pool, redis, opened, closed, Clients, start_log_writer,
}
use log_foundry.Consumers.Parts.{fresh}
use log_foundry.Consumers.Shutdown.{start_log_writer-Drains, start_log_writer-leaks}

-- Clients that count their calls.
abbrev clients : Clients ℕ
clients = record { start_client = λ p n. (ret tt, suc n); stop_client = λ p n. (ret tt, suc n) }

-- The signal arrives in the third round; a round adds ten.
start_log_writer-Drains_example :
    start_log_writer clients (λ n. n + 10) true (false ∷ false ∷ true ∷ false ∷ []) (fresh 0) ≡ (
      ret tt,
      record {
        run = 38;
        running = false;
        acts =
            opened pool true
            ∷ opened redis true
            ∷ opened consumer true
            ∷ opened producer true
            ∷ closed consumer true
            ∷ closed producer true
            ∷ closed pool true
            ∷ closed redis true
            ∷ [];
      },
    )
start_log_writer-Drains_example =
    start_log_writer-Drains clients (λ n. n + 10) true 0 (λ p n. refl) (λ p n. refl) 2 (false ∷ [])

abbrev without_producer : Clients ℕ
without_producer = record {
  start_client = λ p n. elim p [ producer ↦ (raise other, n) | _ ↦ (ret tt, suc n) ];
  stop_client = λ p n. (ret tt, suc n);
}

start_log_writer-leaks_example :
    start_log_writer without_producer (λ n. n + 10) false (true ∷ []) (fresh 0) ≡ (
      raise other,
      record {
        run = 5;
        running = false;
        acts =
            opened pool true
            ∷ opened redis true
            ∷ opened consumer true
            ∷ opened producer false
            ∷ closed pool true
            ∷ closed redis true
            ∷ [];
      },
    )
start_log_writer-leaks_example =
    start_log_writer-leaks without_producer (λ n. n + 10) false (true ∷ []) 0 other refl refl refl
      refl refl refl
