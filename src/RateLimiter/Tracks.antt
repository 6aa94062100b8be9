-- ===== src/RateLimiter/Tracks.antt =====
-- api/middleware/rate_limiter.py: when a Redis store agrees with the times at which requests of one
-- key passed, and what each command does to the agreement.

use text.Mathlib.TextPositions.{eq_refl}
use log_foundry.Prelude.{
  ℕ, ◌+◌, ◌*◌, ◌≤◌, String, ◌≡◌, refl, sym, ap, ◌∙◌, true, false, not, ◌&&◌, ◌⊎◌, inl, inr, Option,
  none, some, List, ◌∷◌, arith, ltb, leb, member,
}
use log_foundry.Prelude.Int.{sub_ℕ}
use log_foundry.RateLimiter.Redis.{SortedSets, Entry, bit, tally, named, within_range}
use log_foundry.RateLimiter.Window.{count, live}
use log_foundry.RateLimiter.Tally.{tally-cong, tally_mono, tally-and-le, tally-and_not}

-- What the script prunes at a time is what lies a whole window back, also where `now_ms` is less
-- than the window and `window_start` negative.
within_range-window :
    (W now : ℕ) (e : Entry) → within_range 0 (sub_ℕ now W) e ≡ leb (e.score + W) now
within_range-window W now e = ground arith

live-pruned :
    (W now u : ℕ) (e : Entry)
    → now ≤ u
    → (live W u e.score && not (within_range 0 (sub_ℕ now W) e)) ≡ live W u e.score
live-pruned W now u e le = ground (arith, within_range-window W now e)

live-past : (W d u : ℕ) (e : Entry) → d ≤ u → live W u e.score ≡ true → ltb d (e.score + W) ≡ true
live-past W d u e le h = ground arith

beyond :
    (W now d : ℕ) (es : List Entry)
    → d ≡ now + W
    → tally (λ e. ltb now e.score) es ≡ 0
    → tally (λ e. ltb d (e.score + W)) es ≡ 0
beyond W now d es e h =
    omega
      (arith, tally_mono (λ x. ltb d (x.score + W)) (λ x. ltb now x.score) es (λ x p. ground arith))

bit-ltb : (a b : ℕ) → b ≤ a → bit (ltb a b) ≡ 0
bit-ltb a b h = ground arith

pub stays : {x y : Option ℕ} {d : ℕ} → (x ≡ y) ⊎ (x ≡ none) → x ≡ some d → y ≡ some d
stays (inl p) e = sym p ∙ e
stays (inr p) e = cc

module _ (r : SortedSets) where
  open r use {
    Store, zremrangebyscore, zcard, zadd, expire, advance, entries, deadline, clock, zcard-tally,
    tally-zremrangebyscore, tally-zadd, entries-expire, entries-advance, deadline-zremrangebyscore,
    deadline-zadd, deadline-expire, deadline-advance, clock-zremrangebyscore, clock-zadd,
    clock-expire, clock-advance,
  }

  module _ (W : ℕ) (key : String) where
    -- The store agrees with the times at which requests of the key passed: on every window that
    -- ends now or later. `used` are the members that were made up so far.
    pub record Tracks (s : Store) (passed : List ℕ) (used : List String) : Type 0 where
      pub exact :
          (u : ℕ)
          → clock s ≤ u
          → tally (λ e. live W u e.score) (entries key s) ≡ count (live W u) passed
      pub fits :
          (d : ℕ) → deadline key s ≡ some d → tally (λ e. ltb d (e.score + W)) (entries key s) ≡ 0
      pub past : (u : ℕ) → clock s ≤ u → tally (λ e. ltb u e.score) (entries key s) ≡ 0
      pub fresh : (m : String) → member m used ≡ false → tally (named m) (entries key s) ≡ 0

    module _ {s : Store} {passed : List ℕ} {used : List String} (h : Tracks s passed used) where
      -- A key that outlived its time to live holds nothing that still counts.
      pub advance-Tracks : (t : ℕ) → clock s ≤ t → Tracks (advance t s) passed used
      advance-Tracks t le = elim (entries-advance key t s) [
        | inl kept ↦ record {
          exact = λ u v. rw kept (h.exact u (omega (arith, clock-advance t s le)));
          fits = λ d e. rw kept (h.fits d (stays (deadline-advance key t s) e));
          past = λ u v. rw kept (h.past u (omega (arith, clock-advance t s le)));
          fresh = λ m f. rw kept (h.fresh m f);
        }
        | inr (d, e, past, gone) ↦ record {
          exact = λ u v. rw gone (
              omega (
                arith,
                clock-advance t s le,
                h.exact u (omega (arith, clock-advance t s le)),
                h.fits d e,
                tally_mono (λ x. live W u x.score) (λ x. ltb d (x.score + W)) (entries key s)
                    (λ x p. live-past W d u x (omega (arith, clock-advance t s le)) p),
              ));
          fits = λ d' e'. rw gone refl;
          past = λ u v. rw gone refl;
          fresh = λ m f. rw gone refl;
        }
      ]

      -- Pruning takes away exactly what counts no more.
      pub prune-Tracks :
          (now : ℕ) → clock s ≡ now → Tracks (zremrangebyscore key 0 (sub_ℕ now W) s) passed used
      prune-Tracks now at = record {
        exact = λ u v.
            rw (tally-zremrangebyscore, eq_refl)
              (tally-cong _ _ _ (λ e.
                  live-pruned W now u e
                    (omega (arith, clock-zremrangebyscore key 0 (sub_ℕ now W) s)))
                ∙ h.exact u (omega (arith, clock-zremrangebyscore key 0 (sub_ℕ now W) s)));
        fits = λ d e.
            rw (tally-zremrangebyscore, eq_refl)
              (omega (
                arith,
                h.fits d (stays (deadline-zremrangebyscore key key 0 (sub_ℕ now W) s) e),
                tally-and-le (λ x. ltb d (x.score + W)) (λ x. not (within_range 0 (sub_ℕ now W) x))
                    (entries key s),
              ));
        fresh = λ m f.
            rw (tally-zremrangebyscore, eq_refl)
              (omega (
                arith,
                h.fresh m f,
                tally-and-le (named m) (λ x. not (within_range 0 (sub_ℕ now W) x)) (entries key s),
              ));
        past = λ u v.
            rw (tally-zremrangebyscore, eq_refl)
              (omega (
                arith,
                clock-zremrangebyscore key 0 (sub_ℕ now W) s,
                h.past u,
                tally-and-le (λ x. ltb u x.score) (λ x. not (within_range 0 (sub_ℕ now W) x))
                    (entries key s),
              ));
      }

      -- Once pruned, the set counts the requests of the current window.
      pub zcard-prune :
          (now : ℕ)
          → clock s ≡ now
          → zcard key (zremrangebyscore key 0 (sub_ℕ now W) s) ≡ count (live W now) passed
      zcard-prune now at =
          rw (zcard-tally, tally-zremrangebyscore, eq_refl)
            (tally-cong _ _ _ (λ e. ground (arith, within_range-window W now e))
              ∙ h.exact now (omega arith))

  module _ (key m : String) (seconds now : ℕ) (s : Store) where
    clock-admit : clock (expire key seconds (zadd key now m s)) ≡ clock s
    clock-admit = rw (clock-expire, clock-zadd)

    deadline-admit :
        deadline key (expire key seconds (zadd key now m s)) ≡ some (clock s + seconds * 1000)
    deadline-admit = rw (deadline-expire, eq_refl, clock-zadd)

  -- A request that passes is remembered: the member is new, so the set grows.
  pub admit-Tracks :
      (seconds : ℕ) (key m : String) {s : Store} {passed : List ℕ} {used : List String} (now : ℕ)
      → Tracks (seconds * 1000) key s passed used
      → clock s ≡ now
      → member m used ≡ false
      → Tracks
          (seconds * 1000)
          key
          (expire key seconds (zadd key now m s))
          (now ∷ passed)
          (m ∷ used)
  unfolding member
  admit-Tracks seconds key m {s} {passed} {used} now h at new = record {
    exact = λ u v.
        rw (entries-expire, tally-zadd, eq_refl)
          (ap (λ n. bit (live (seconds * 1000) u now) + n)
            (tally-and_not _ _ _ (h.fresh m new)
              ∙ h.exact u (omega (arith, clock-admit key m seconds now s))));
    fits = λ d e.
        rw (entries-expire, tally-zadd, eq_refl)
          (let due : d ≡ now + seconds * 1000 =
              ground (arith, deadline-admit key m seconds now s) in
            omega (
              arith,
              bit-ltb d (now + seconds * 1000),
              beyond (seconds * 1000) now d (entries key s) due (h.past now (omega arith)),
              tally-and-le (λ x. ltb d (x.score + seconds * 1000)) (λ x. not (named m x))
                  (entries key s),
            ));
    past = λ u v.
        rw (entries-expire, tally-zadd, eq_refl)
          (omega (
            arith,
            clock-admit key m seconds now s,
            bit-ltb u now,
            h.past u,
            tally-and-le (λ x. ltb u x.score) (λ x. not (named m x)) (entries key s),
          ));
    fresh = λ n f.
        rw (entries-expire, tally-zadd, eq_refl)
          (ground
            (arith, h.fresh n, tally-and-le (named n) (λ x. not (named m x)) (entries key s)));
  }
