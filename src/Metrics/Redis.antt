-- ===== src/Metrics/Redis.antt =====
-- What the counting of events uses of Redis (redis-py's asyncio client): a pipeline of increments,
-- `get` and `hgetall`.
use log_foundry.Prelude.{
  ℕ, ◌+◌, ◌≡◌, String, Option, none, some, List, [], ◌∷◌, map, str_eq, if◌then◌else◌, decimal, Dict,
  lookup, Outcome, ret,
}
use mathlib.Core.List.{Perm}

-- A queued command of the pipeline, its arguments encoded.
pub data Command : Type 0 where
  incr : String → Command
  hincrby : String → String → ℕ → Command

-- The counters that Redis holds: those under a key, and those under a field of a hash.
pub record Counters : Type 0 where
  pub keys : Dict ℕ
  pub hashes : String → Dict ℕ

unfoldable pub raise_by : String → ℕ → Dict ℕ → Dict ℕ
raise_by name n [] = (name, n) ∷ []
raise_by name n ((other, held) ∷ rest) =
    if str_eq other name then (other, held + n) ∷ rest else (other, held) ∷ raise_by name n rest

unfoldable pub obey : Command → Counters → Counters
unfolding raise_by
obey (incr key) c = record c { keys = raise_by key 1 c.keys }
obey (hincrby key name n) c = record c {
  hashes = λ k. if str_eq key k then raise_by name n (c.hashes k) else c.hashes k;
}

unfoldable pub obey_all : List Command → Counters → Counters
unfolding obey
obey_all [] c = c
obey_all (command ∷ commands) c = obey_all commands (obey command c)

-- A counter as a client reads it.
abbrev pub shown : String × ℕ → String × String
shown (name, n) = (name, decimal n)

abbrev pub shown_key : Option ℕ → Option String
shown_key none = none
shown_key (some n) = some (decimal n)

-- A pipeline that returns has done all its commands; of one that raises nothing is assumed. Reading
-- changes no counter, and a hash is read in any order.
pub record Redis (S : Type 0) : Type 0 where
  pub execute : List Command → S → Outcome (Unit {0}) × S
  pub get : String → S → Outcome (Option String) × S
  pub hgetall : String → S → Outcome (Dict String) × S
  pub counters : S → Counters
  pub execute-counters :
      (commands : List Command) (s : S)
      → (execute commands s).0 ≡ ret tt
      → counters (execute commands s).1 ≡ obey_all commands (counters s)
  pub get-counters : (key : String) (s : S) → counters (get key s).1 ≡ counters s
  pub get-ret :
      (key : String) (s : S) (o : Option String)
      → (get key s).0 ≡ ret o
      → o ≡ shown_key (lookup key (counters s).keys)
  pub hgetall-counters : (key : String) (s : S) → counters (hgetall key s).1 ≡ counters s
  pub hgetall-ret :
      (key : String) (s : S) (dict : Dict String)
      → (hgetall key s).0 ≡ ret dict
      → Perm dict (map shown ((counters s).hashes key))
