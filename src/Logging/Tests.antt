-- ===== src/Logging/Tests.antt =====
-- The loggers on concrete input.
use log_foundry.Prelude.{◌≡◌, refl, none, some, [], ◌∷◌, ret, raise, value_error, insert, member}
use log_foundry.Logging.{
  Loggers, set_root_level, quiet, setup, setup_logging, setup_consumer_logging,
}

abbrev loggers : Loggers
loggers = record { handlers = 1 ∷ 2 ∷ []; level = "WARNING"; levels = [] }

one_handler : setup_logging 3 none loggers ≡ (
  ret tt,
  record {
    handlers = 3 ∷ [];
    level = "INFO";
    levels = ("aiokafka", "WARNING") ∷ ("asyncpg", "WARNING") ∷ [];
  },
)
unfolding setup_logging setup set_root_level quiet insert member
one_handler = refl

-- A level that is not in capitals ends the process.
small_letters :
    setup_consumer_logging 3 (some "debug") loggers
    ≡ (raise value_error, record loggers { handlers = 3 ∷ [] })
unfolding setup_consumer_logging setup set_root_level member
small_letters = refl
