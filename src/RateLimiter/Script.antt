-- ===== src/RateLimiter/Script.antt =====
-- api/middleware/rate_limiter.py: `RateLimiter` and its two Lua scripts.
use log_foundry.Prelude.{ℕ, ◌-◌, ◌*◌, String, Bool, not, leb, if◌then◌else◌, ◌^^◌, decimal, ◌==◌}
use log_foundry.Prelude.Int.{ℤ, sub_ℕ}
use log_foundry.RateLimiter.Redis.{SortedSets}

-- The limiter's parameters; `_window_ms` is always the window in milliseconds.
pub record RateLimiter : Type 0 where
  pub limit : ℕ
  pub window_seconds : ℕ

abbrev pub window_ms : RateLimiter → ℕ
window_ms l = l.window_seconds * 1000

unfoldable pub key_of : RateLimiter → String → String
key_of l client_id = "ratelimit:" ^^ client_id ^^ ":" ^^ decimal l.window_seconds

-- `f"{now_ms}:{uuid.uuid4().hex[:8]}"`, from the eight hexadecimal digits.
unfoldable pub member_of : ℕ → String → String
member_of now_ms suffix = decimal now_ms ^^ ":" ^^ suffix

module _ (r : SortedSets) where
  open r use {Store, zremrangebyscore, zcard, zadd, expire, advance}

  -- The script of `check`: its answer, and the store that it leaves.
  unfoldable pub check_script : String → ℤ → ℕ → ℕ → String → ℕ → Store → ℕ × Store
  check_script key window_start now_ms limit name window_seconds s =
      let pruned = zremrangebyscore key 0 window_start s in
      if leb limit (zcard key pruned)
      then (0, pruned)
      else (1, expire key window_seconds (zadd key now_ms name pruned))

  -- The script of `get_remaining`.
  unfoldable pub read_script : String → ℤ → Store → ℕ × Store
  read_script key window_start s =
      let pruned = zremrangebyscore key 0 window_start s in (zcard key pruned, pruned)

  unfoldable pub check : RateLimiter → String → ℕ → String → Store → Bool × Store
  unfolding check_script key_of member_of
  check l client_id now_ms suffix s =
      let (allowed, s') =
        check_script (key_of l client_id) (sub_ℕ now_ms (window_ms l)) now_ms l.limit
          (member_of now_ms suffix) l.window_seconds s in
      (not (allowed == 0), s')

  -- `max(0, limit - count)`: subtraction on ℕ stops at 0.
  unfoldable pub get_remaining : RateLimiter → String → ℕ → Store → ℕ × Store
  unfolding read_script key_of
  get_remaining l client_id now_ms s =
      let (current_count, s') = read_script (key_of l client_id) (sub_ℕ now_ms (window_ms l)) s in
      (l.limit - current_count, s')
