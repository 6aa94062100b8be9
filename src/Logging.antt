-- ===== src/Logging.antt =====
-- api/main.py, `_setup_logging`, and consumers/base_consumer.py, `setup_consumer_logging`: the loggers
-- of a process, of which Python's `logging` keeps one set.
mod Tests
use log_foundry.Prelude.{
  ℕ, String, Option, none, some, List, [], ◌∷◌, Dict, insert, member, if◌then◌else◌, Outcome, ret,
  raise, value_error,
}

-- The handlers and the level of the root logger, and the levels of the named ones.
pub record Loggers : Type 0 where
  pub handlers : List ℕ
  pub level : String
  pub levels : Dict String

-- The names that `setLevel` knows.
abbrev pub level_names : List String
level_names = "CRITICAL" ∷ "FATAL" ∷ "ERROR" ∷ "WARN" ∷ "WARNING" ∷ "INFO" ∷ "DEBUG" ∷ "NOTSET" ∷ []

unfoldable pub set_root_level : String → Loggers → Outcome (Unit {0}) × Loggers
set_root_level name l =
    if member name level_names then (ret tt, record l { level = name }) else (raise value_error, l)

-- `logging.getLogger(name).setLevel(logging.WARNING)`
unfoldable pub quiet : List String → Loggers → Loggers
quiet [] l = l
quiet (name ∷ names) l = quiet names (record l { levels = insert name "WARNING" l.levels })

abbrev pub quiet_after : List String → Outcome (Unit {0}) × Loggers → Outcome (Unit {0}) × Loggers
quiet_after names (ret ok, l) = (ret ok, quiet names l)
quiet_after names (raise e, l) = (raise e, l)

-- `os.getenv("LOG_LEVEL", "INFO")`
abbrev pub or_info : Option String → String
or_info none = "INFO"
or_info (some name) = name

-- The handler that is made takes the place of all others.
unfoldable pub setup : List String → ℕ → Option String → Loggers → Outcome (Unit {0}) × Loggers
unfolding set_root_level quiet
setup noisy handler log_level l =
    quiet_after noisy (set_root_level (or_info log_level) (record l { handlers = handler ∷ [] }))

unfoldable pub setup_logging : ℕ → Option String → Loggers → Outcome (Unit {0}) × Loggers
unfolding setup
setup_logging = setup ("aiokafka" ∷ "asyncpg" ∷ [])

unfoldable pub setup_consumer_logging : ℕ → Option String → Loggers → Outcome (Unit {0}) × Loggers
unfolding setup
setup_consumer_logging = setup ("aiokafka" ∷ [])
