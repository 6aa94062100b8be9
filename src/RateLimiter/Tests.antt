-- ===== src/RateLimiter/Tests.antt =====
-- The limiter on a concrete server.
use log_foundry.Prelude.{◌≤◌, ◌≡◌, refl, ◌↔◌, false, List, [], ◌∷◌, arith, member, decimal, lookup}
use log_foundry.RateLimiter.Simple.{Server, simple, zremrangebyscore, zadd, expire, advance}
use log_foundry.RateLimiter.Script.{RateLimiter, check, get_remaining, member_of}
use log_foundry.RateLimiter.Window.{count, admit_all, in_window}
use log_foundry.RateLimiter.Refines.{
  Request, Ordered, Fresh, times_of, passed_of, serve, serve-admit_all, serve-bound,
  get_remaining-check,
}

abbrev two_a_second : RateLimiter
two_a_second = record { limit = 2; window_seconds = 1 }

abbrev idle : Server
idle = record { items = []; dues = []; clock = 1000 }

-- The third request of "a" comes within a second of two others, the fourth does not.
abbrev calls : List Request
calls =
    record { client = "a"; now = 1000; suffix = "0a" }
    ∷ record { client = "a"; now = 1500; suffix = "0b" }
    ∷ record { client = "b"; now = 1500; suffix = "0c" }
    ∷ record { client = "a"; now = 1600; suffix = "0d" }
    ∷ record { client = "a"; now = 2000; suffix = "0e" }
    ∷ []

calls-Ordered : Ordered 1000 calls
calls-Ordered = omega arith

calls-Fresh : Fresh [] calls
unfolding member member_of decimal
calls-Fresh = (refl, (refl, (refl, (refl, (refl, tt)))))

passed_calls : passed_of "a" (serve simple two_a_second calls idle []) ≡ 2000 ∷ 1500 ∷ 1000 ∷ []
unfolding serve check zremrangebyscore zadd expire advance decimal lookup
passed_calls = refl

serve-admit_all_example :
    passed_of "a" (serve simple two_a_second calls idle [])
    ≡ admit_all 2 1000 (times_of "a" calls) []
serve-admit_all_example =
    serve-admit_all simple two_a_second "a" calls idle refl calls-Ordered calls-Fresh

serve-bound_example :
    count (in_window 1000 1999) (passed_of "a" (serve simple two_a_second calls idle [])) ≤ 2
serve-bound_example =
    serve-bound simple two_a_second "a" calls idle 1999 refl calls-Ordered calls-Fresh

get_remaining-check_example :
    ((get_remaining simple two_a_second "a" 1000 idle).0 ≡ 0)
    ↔ ((check simple two_a_second "a" 1000 "0a" idle).0 ≡ false)
get_remaining-check_example = get_remaining-check simple two_a_second "a" 1000 "0a" idle
