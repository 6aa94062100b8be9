-- ===== src/RateLimiter/Answers.antt =====
-- The Lua script of `check`, in api/middleware/rate_limiter.py, answers as the sliding window.

use log_foundry.Prelude.{
  ℕ, ◌*◌, String, ◌≡◌, refl, ◌∙◌, Bool, true, false, not, inl, inr, List, ◌∷◌, arith, ltb, leb,
  str_eq, member, Bool-cases, ◌==◌,
}
use log_foundry.Prelude.Int.{ℤ, sub_ℕ}
use log_foundry.RateLimiter.Redis.{SortedSets}
use log_foundry.RateLimiter.Script.{check_script}
use log_foundry.RateLimiter.Window.{count, live, admit}
use log_foundry.RateLimiter.Tracks.{Tracks, prune-Tracks, zcard-prune, admit-Tracks}
use log_foundry.RateLimiter.Same.{widen-Tracks, Same-Tracks, prune-Same, admit-Same}

leb-ltb : (a b : ℕ) (t : Bool) → ltb b a ≡ t → leb a b ≡ not t
leb-ltb a b t h = ground arith

module _ (r : SortedSets) where
  open r use {
    Store, zremrangebyscore, zcard, zadd, expire, advance, entries, deadline, clock, zcard-tally,
    tally-zremrangebyscore, tally-zadd, entries-expire, entries-advance, deadline-zremrangebyscore,
    deadline-zadd, deadline-expire, deadline-advance, clock-zremrangebyscore, clock-zadd,
    clock-expire, clock-advance,
  }

  module _ (key : String) where
    -- The script on the key: it answers as the sliding window does, and the store still agrees.
    pub script-admit :
        (limit seconds now : ℕ) (m : String) {s : Store} {passed : List ℕ} {used : List String}
        → Tracks r (seconds * 1000) key s passed used
        → clock s ≡ now
        → member m used ≡ false
        → (not ((check_script r key (sub_ℕ now (seconds * 1000)) now limit m seconds s).0 == 0)
            ≡ (admit limit (seconds * 1000) now passed).0)
          × Tracks r
              (seconds * 1000)
              key
              (check_script r key (sub_ℕ now (seconds * 1000)) now limit m seconds s).1
              (admit limit (seconds * 1000) now passed).1
              (m ∷ used)
    unfolding check_script admit
    script-admit limit seconds now m {s} {passed} {used} h at new =
        let W : ℕ = seconds * 1000 in
        let pruned = prune-Tracks r W key h now at in
        let counted = zcard-prune r W key h now at in
        elim (Bool-cases (ltb (count (live W now) passed) limit)) [
          | inl room ↦
              rw (counted, room, leb-ltb limit (count (live W now) passed) true room)
                (
                  refl,
                  admit-Tracks r seconds key m now pruned (clock-zremrangebyscore _ _ _ _ ∙ at) new,
                )
          | inr full ↦
              rw (counted, full, leb-ltb limit (count (live W now) passed) false full)
                (refl, widen-Tracks r key W m pruned)
        ]

    -- The script on another key.
    pub script-other :
        (W limit seconds now : ℕ) (k m : String) {s : Store} {passed : List ℕ} {used : List String}
        → Tracks r W key s passed used
        → str_eq k key ≡ false
        → Tracks r W key
            (check_script r k (sub_ℕ now (seconds * 1000)) now limit m seconds s).1
            passed
            (m ∷ used)
    unfolding check_script
    script-other W limit seconds now k m {s} h other =
        let window_start = sub_ℕ now (seconds * 1000) in
        let pruned = Same-Tracks r key W (prune-Same r key k other s window_start) h in
        widen-Tracks r key W m
          (elim (Bool-cases (leb limit (zcard k (zremrangebyscore k 0 window_start s)))) [
            | inl full ↦ rw full pruned
            | inr room ↦
                rw room (Same-Tracks r key W (admit-Same r key k other _ seconds now m) pruned)
          ])

  pub clock-script :
      (k : String) (start : ℤ) (now limit : ℕ) (m : String) (seconds : ℕ) (s : Store)
      → clock (check_script r k start now limit m seconds s).1 ≡ clock s
  unfolding check_script
  clock-script k start now limit m seconds s =
      elim (Bool-cases (leb limit (zcard k (zremrangebyscore k 0 start s)))) [
        | inl full ↦ rw full (clock-zremrangebyscore k 0 start s)
        | inr room ↦ rw (room, clock-expire, clock-zadd) (clock-zremrangebyscore k 0 start s)
      ]
