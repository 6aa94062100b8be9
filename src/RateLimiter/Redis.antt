-- ===== src/RateLimiter/Redis.antt =====
-- The sorted sets of Redis that api/middleware/rate_limiter.py uses. The server is not part of the
-- repository: its commands are an interface, with what its documentation says of them as laws.
use log_foundry.Prelude.{
  ℕ, ◌+◌, ◌*◌, ◌≤◌, String, ◌≡◌, ◌⊎◌, Bool, true, false, not, ◌&&◌, Option, none, some, List, [],
  ◌∷◌, leb, if◌then◌else◌, str_eq,
}
use log_foundry.Prelude.Int.{ℤ, pos, leb_ℤ}

-- A member with its score, a time in milliseconds.
pub record Entry : Type 0 where
  pub name : String
  pub score : ℕ

abbrev pub bit : Bool → ℕ
bit true = 1
bit false = 0

-- How many entries pass the test.
abbrev pub tally : (Entry → Bool) → List Entry → ℕ
tally p [] = 0
tally p (e ∷ es) = bit (p e) + tally p es

abbrev pub any : Entry → Bool
any e = true

abbrev pub named : String → Entry → Bool
named m e = str_eq e.name m

-- min ≤ score ≤ max, as ZREMRANGEBYSCORE reads its bounds.
abbrev pub within_range : ℕ → ℤ → Entry → Bool
within_range lo hi e = leb lo e.score && leb_ℤ (pos e.score) hi

pub record SortedSets : Type 1 where
  pub Store : Type 0
  -- the commands
  pub zremrangebyscore : String → ℕ → ℤ → Store → Store
  pub zcard : String → Store → ℕ
  pub zadd : String → ℕ → String → Store → Store
  pub expire : String → ℕ → Store → Store
  -- the server's clock comes to a time: a key whose time to live is over is deleted
  pub advance : ℕ → Store → Store
  -- what can be observed: ZRANGE key 0 -1 WITHSCORES, EXPIRETIME, TIME
  pub entries : String → Store → List Entry
  pub deadline : String → Store → Option ℕ
  pub clock : Store → ℕ
  pub zcard-tally : (k : String) (s : Store) → zcard k s ≡ tally any (entries k s)
  pub tally-zremrangebyscore :
      (k j : String) (lo : ℕ) (hi : ℤ) (p : Entry → Bool) (s : Store)
      → tally p (entries j (zremrangebyscore k lo hi s)) ≡ (
          if str_eq k j
          then tally (λ e. p e && not (within_range lo hi e)) (entries j s)
          else tally p (entries j s))
  -- a member that is there already is written anew
  pub tally-zadd :
      (k j : String) (score : ℕ) (m : String) (p : Entry → Bool) (s : Store)
      → tally p (entries j (zadd k score m s)) ≡ (
          if str_eq k j
          then bit (p (record { name = m; score = score }))
            + tally (λ e. p e && not (named m e)) (entries j s)
          else tally p (entries j s))
  pub entries-expire :
      (k j : String) (seconds : ℕ) (s : Store) → entries j (expire k seconds s) ≡ entries j s
  pub entries-advance :
      (j : String) (t : ℕ) (s : Store)
      → (entries j (advance t s) ≡ entries j s)
        ⊎ ((d : ℕ) × (deadline j s ≡ some d) × (d ≤ t) × (entries j (advance t s) ≡ []))
  -- an emptied set is deleted, and its time to live with it
  pub deadline-zremrangebyscore :
      (k j : String) (lo : ℕ) (hi : ℤ) (s : Store)
      → (deadline j (zremrangebyscore k lo hi s) ≡ deadline j s)
        ⊎ (deadline j (zremrangebyscore k lo hi s) ≡ none)
  pub deadline-zadd :
      (k j : String) (score : ℕ) (m : String) (s : Store)
      → deadline j (zadd k score m s) ≡ deadline j s
  pub deadline-expire :
      (k j : String) (seconds : ℕ) (s : Store)
      → deadline j (expire k seconds s)
        ≡ (if str_eq k j then some (clock s + seconds * 1000) else deadline j s)
  pub deadline-advance :
      (j : String) (t : ℕ) (s : Store)
      → (deadline j (advance t s) ≡ deadline j s) ⊎ (deadline j (advance t s) ≡ none)
  pub clock-zremrangebyscore :
      (k : String) (lo : ℕ) (hi : ℤ) (s : Store) → clock (zremrangebyscore k lo hi s) ≡ clock s
  pub clock-zadd :
      (k : String) (score : ℕ) (m : String) (s : Store) → clock (zadd k score m s) ≡ clock s
  pub clock-expire : (k : String) (seconds : ℕ) (s : Store) → clock (expire k seconds s) ≡ clock s
  pub clock-advance : (t : ℕ) (s : Store) → clock s ≤ t → clock (advance t s) ≡ t
