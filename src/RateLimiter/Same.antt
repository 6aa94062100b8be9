-- ===== src/RateLimiter/Same.antt =====
-- api/middleware/rate_limiter.py: a command on one key leaves the agreement on the others alone.

use log_foundry.Prelude.{ℕ, String, ◌≡◌, ◌∙◌, Bool, false, some, List, ◌∷◌, arith, str_eq, member}
use log_foundry.Prelude.Int.{ℤ}
use log_foundry.RateLimiter.Redis.{SortedSets, Entry, tally}
use log_foundry.RateLimiter.Tracks.{Tracks, stays}

module _ (r : SortedSets) where
  open r use {
    Store, zremrangebyscore, zcard, zadd, expire, advance, entries, deadline, clock, zcard-tally,
    tally-zremrangebyscore, tally-zadd, entries-expire, entries-advance, deadline-zremrangebyscore,
    deadline-zadd, deadline-expire, deadline-advance, clock-zremrangebyscore, clock-zadd,
    clock-expire, clock-advance,
  }

  module _ (key : String) where
    pub widen-Tracks :
        (W : ℕ) (m : String) {s : Store} {passed : List ℕ} {used : List String}
        → Tracks r W key s passed used
        → Tracks r W key s passed (m ∷ used)
    unfolding member
    widen-Tracks W m h = record {
      exact = h.exact;
      fits = h.fits;
      past = h.past;
      fresh = λ n f. h.fresh n (ground arith);
    }

    -- The two stores look the same from the key.
    pub record Same (s s' : Store) : Type 0 where
      pub counts : (p : Entry → Bool) → tally p (entries key s') ≡ tally p (entries key s)
      pub due : (d : ℕ) → deadline key s' ≡ some d → deadline key s ≡ some d
      pub time : clock s' ≡ clock s

    pub Same-Tracks :
        (W : ℕ) {s s' : Store} {passed : List ℕ} {used : List String}
        → Same s s'
        → Tracks r W key s passed used
        → Tracks r W key s' passed used
    Same-Tracks W same h = record {
      exact = λ u v. same.counts _ ∙ h.exact u (rw same.time at v);
      fits = λ d e. same.counts _ ∙ h.fits d (same.due d e);
      past = λ u v. same.counts _ ∙ h.past u (rw same.time at v);
      fresh = λ n f. same.counts _ ∙ h.fresh n f;
    }

    module _ (k : String) (other : str_eq k key ≡ false) (s : Store) where
      pub prune-Same : (hi : ℤ) → Same s (zremrangebyscore k 0 hi s)
      prune-Same hi = record {
        counts = λ p. rw (tally-zremrangebyscore, other);
        due = λ d e. stays (deadline-zremrangebyscore k key 0 hi s) e;
        time = clock-zremrangebyscore k 0 hi s;
      }

      pub admit-Same : (seconds now : ℕ) (m : String) → Same s (expire k seconds (zadd k now m s))
      admit-Same seconds now m = record {
        counts = λ p. rw (entries-expire, tally-zadd, other);
        due = λ d e. rw (deadline-expire, other, deadline-zadd) at e;
        time = rw (clock-expire, clock-zadd);
      }
