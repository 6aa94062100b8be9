-- ===== src/RateLimiter/Refines.antt =====
-- The limiter of api/middleware/rate_limiter.py on the Redis server implements the sliding window.
use text.Mathlib.TextLemmas.{append_cancel_left, append_cancel_right}
use log_foundry.Prelude.{
  ℕ, ◌-◌, ◌↔◌, ◌≤◌, String, ◌≡◌, refl, ap, ◌∙◌, Bool, false, not, inl, inr, List, [], ◌∷◌, arith,
  leb, if◌then◌else◌, str_eq, eq_iff, ◌^^◌, decimal, member, Bool-cases, ◌==◌,
}
use log_foundry.Prelude.Int.{sub_ℕ}
use log_foundry.RateLimiter.Redis.{SortedSets}
use log_foundry.RateLimiter.Script.{RateLimiter, window_ms, key_of, member_of, check, get_remaining}
use log_foundry.RateLimiter.Window.{count, admit, admit_all, in_window, admit_all-bound}
use log_foundry.RateLimiter.Answers.{script-admit, script-other, clock-script}
use log_foundry.RateLimiter.Tracks.{Tracks, advance-Tracks}

-- Two clients never share a key.
pub key_of-injective : (l : RateLimiter) (c d : String) → key_of l c ≡ key_of l d → c ≡ d
unfolding key_of
key_of-injective l c d h = append_cancel_right c d (":" ^^ decimal l.window_seconds) (
    append_cancel_left "ratelimit:" (c ^^ ":" ^^ decimal l.window_seconds)
      (d ^^ ":" ^^ decimal l.window_seconds) h)

keys_differ :
    (l : RateLimiter) (c d : String) → str_eq c d ≡ false → str_eq (key_of l c) (key_of l d) ≡ false
keys_differ l c d h =
    ground (arith, eq_iff c d, eq_iff (key_of l c) (key_of l d), key_of-injective l c d)

-- The two forms of the test of the scripts.
remaining-zero :
    {A : Type 0} (limit n : ℕ) (x y : A)
    → (limit - n ≡ 0)
      ↔ (not ((if◌then◌else◌ {A = ℕ × A} (leb limit n) (0, x) (1, y)).0 == 0) ≡ false)
remaining-zero limit n x y = ground arith

pub record Request : Type 0 where
  pub client : String
  pub now : ℕ
  pub suffix : String

-- The clock does not go back.
abbrev pub Ordered : ℕ → List Request → Type 0
Ordered t [] = Unit
Ordered t (q ∷ qs) = (t ≤ q.now) × Ordered q.now qs

-- No member is made up twice.
abbrev pub Fresh : List String → List Request → Type 0
Fresh used [] = Unit
Fresh used (q ∷ qs) =
    (member (member_of q.now q.suffix) used ≡ false) × Fresh (member_of q.now q.suffix ∷ used) qs

-- When the client's requests came.
abbrev pub times_of : String → List Request → List ℕ
times_of c [] = []
times_of c (q ∷ qs) = if str_eq q.client c then q.now ∷ times_of c qs else times_of c qs

-- When they passed.
abbrev pub passed_of : String → List (String × ℕ) → List ℕ
passed_of c [] = []
passed_of c ((d, t) ∷ log) = if str_eq d c then t ∷ passed_of c log else passed_of c log

module _ (r : SortedSets) where
  open r use {
    Store, zremrangebyscore, zcard, zadd, expire, advance, entries, deadline, clock, zcard-tally,
    tally-zremrangebyscore, tally-zadd, entries-expire, entries-advance, deadline-zremrangebyscore,
    deadline-zadd, deadline-expire, deadline-advance, clock-zremrangebyscore, clock-zadd,
    clock-expire, clock-advance,
  }

  -- Requests as they reach the server, each at the time at which it checks; what passed is noted, the
  -- latest first.
  unfoldable pub serve : RateLimiter → List Request → Store → List (String × ℕ) → List (String × ℕ)
  serve l [] s log = log
  serve l (q ∷ qs) s log =
      let (allowed, s') = check r l q.client q.now q.suffix (advance q.now s) in
      serve l qs s' (if allowed then (q.client, q.now) ∷ log else log)

  module _ (l : RateLimiter) (c : String) where
    abbrev W : ℕ
    W = window_ms l

    module _ (now : ℕ) (suffix : String) {s : Store} {passed : List ℕ} {used : List String} where
      -- A call of `check` by the client has the answer of the sliding window, and by another client
      -- it changes nothing.
      pub check-admit :
          Tracks r W (key_of l c) s passed used
          → clock s ≡ now
          → member (member_of now suffix) used ≡ false
          → ((check r l c now suffix s).0 ≡ (admit l.limit W now passed).0)
            × Tracks r W
                (key_of l c)
                (check r l c now suffix s).1
                (admit l.limit W now passed).1
                (member_of now suffix ∷ used)
      unfolding check
      check-admit h at new =
          script-admit r (key_of l c) l.limit l.window_seconds now (member_of now suffix) h at new

      check-other :
          (d : String)
          → str_eq d c ≡ false
          → Tracks r W (key_of l c) s passed used
          → Tracks r W
              (key_of l c)
              (check r l d now suffix s).1
              passed
              (member_of now suffix ∷ used)
      unfolding check
      check-other d other h =
          script-other r (key_of l c) W l.limit l.window_seconds now (key_of l d)
            (member_of now suffix) h (keys_differ l d c other)

    clock-check :
        (d : String) (now : ℕ) (suffix : String) (s : Store)
        → clock (check r l d now suffix s).1 ≡ clock s
    unfolding check
    clock-check d now suffix s = clock-script r (key_of l d) _ now l.limit _ l.window_seconds s

    -- The same, for a client that is named otherwise, and what is noted of the answer.
    own-step :
        (d : String) (now : ℕ) (suffix : String) {s : Store} (log : List (String × ℕ))
        {used : List String}
        → d ≡ c
        → Tracks r W (key_of l c) s (passed_of c log) used
        → clock s ≡ now
        → member (member_of now suffix) used ≡ false
        → (passed_of c (if (check r l d now suffix s).0 then (d, now) ∷ log else log)
            ≡ (admit l.limit W now (passed_of c log)).1)
          × Tracks r W
              (key_of l c)
              (check r l d now suffix s).1
              (admit l.limit W now (passed_of c log)).1
              (member_of now suffix ∷ used)
    unfolding admit
    own-step d now suffix {s} log e h at new =
        let (answer, tracks) = check-admit now suffix h at new in
        rw e (rw answer (ground (arith, eq_iff c c)), tracks)

    other-step :
        (d : String) (now : ℕ) (b : Bool) (log : List (String × ℕ))
        → str_eq d c ≡ false
        → passed_of c (if b then (d, now) ∷ log else log) ≡ passed_of c log
    other-step d now b log h = ground arith

    -- What passes of the client's requests, whatever others send, is what the sliding window lets
    -- pass.
    serve-Tracks :
        (qs : List Request) {s : Store} (log : List (String × ℕ)) (used : List String)
        → Tracks r W (key_of l c) s (passed_of c log) used
        → Ordered (clock s) qs
        → Fresh used qs
        → passed_of c (serve l qs s log) ≡ admit_all l.limit W (times_of c qs) (passed_of c log)
    unfolding serve admit_all
    serve-Tracks [] log used h o f = refl
    serve-Tracks (q ∷ qs) {s} log used h o f =
        let t = q.now in
        let at = clock-advance t s o.0 in
        let ready = advance-Tracks r W (key_of l c) h t o.0 in
        let name = member_of t q.suffix in
        let ordered : Ordered (clock (check r l q.client t q.suffix (advance t s)).1) qs =
          rw (clock-check, at) o.1 in
        elim (Bool-cases (str_eq q.client c)) [
          | inl same ↦
              let (noted, tracks) =
                own-step q.client t q.suffix log ((eq_iff q.client c).0 same) ready at f.0 in
              rw same (
                serve-Tracks qs _ (name ∷ used) (rw noted tracks) ordered f.1
                ∙ ap (admit_all l.limit W (times_of c qs)) noted)
          | inr other ↦
              let noted =
                other-step q.client t (check r l q.client t q.suffix (advance t s)).0 log other in
              let tracks = check-other t q.suffix q.client other ready in
              rw other (
                serve-Tracks qs _ (name ∷ used) (rw noted tracks) ordered f.1
                ∙ ap (admit_all l.limit W (times_of c qs)) noted)
        ]

    start-Tracks : (s : Store) → entries (key_of l c) s ≡ [] → Tracks r W (key_of l c) s [] []
    start-Tracks s empty = record {
      exact = λ u v. rw empty;
      fits = λ d e. rw empty;
      past = λ u v. rw empty;
      fresh = λ m f. rw empty;
    }

    -- The limiter implements the sliding window: from a store that holds nothing of the client, if
    -- the clock does not go back and no member is made up twice, the client's requests that pass
    -- are those that the sliding window lets pass, whatever other clients send in between.
    pub serve-admit_all :
        (qs : List Request) (s : Store)
        → entries (key_of l c) s ≡ []
        → Ordered (clock s) qs
        → Fresh [] qs
        → passed_of c (serve l qs s []) ≡ admit_all l.limit W (times_of c qs) []
    serve-admit_all qs s empty o f = serve-Tracks qs [] [] (start-Tracks s empty) o f

    -- No window, wherever it ends, sees more of the client's requests pass than the limit, under
    -- the same conditions.
    pub serve-bound :
        (qs : List Request) (s : Store) (end : ℕ)
        → entries (key_of l c) s ≡ []
        → Ordered (clock s) qs
        → Fresh [] qs
        → count (in_window W end) (passed_of c (serve l qs s [])) ≤ l.limit
    serve-bound qs s end empty o f =
        rw (serve-admit_all qs s empty o f) (admit_all-bound l.limit W (times_of c qs) end)

    -- `get_remaining` says 0 exactly when `check` at that moment would refuse.
    pub get_remaining-check :
        (now : ℕ) (suffix : String) (s : Store)
        → ((get_remaining r l c now s).0 ≡ 0) ↔ ((check r l c now suffix s).0 ≡ false)
    unfolding get_remaining check
    get_remaining-check now suffix s =
        remaining-zero l.limit
          (zcard (key_of l c) (zremrangebyscore (key_of l c) 0 (sub_ℕ now (window_ms l)) s)) _ _
