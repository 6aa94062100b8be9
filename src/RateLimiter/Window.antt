-- ===== src/RateLimiter/Window.antt =====
-- What a sliding-window limiter should do: it remembers when it let a request pass, and lets one
-- pass if fewer than the limit did so within the last window.
use log_foundry.Prelude.{
  ℕ, ◌+◌, ◌≤◌, ◌≡◌, Bool, true, false, ◌&&◌, List, [], ◌∷◌, Bool-cases, inl, inr, ltb, leb,
  if◌then◌else◌, arith,
}
use log_foundry.RateLimiter.Redis.{bit}

-- How many of the times pass a test.
abbrev pub count : (ℕ → Bool) → List ℕ → ℕ
count p [] = 0
count p (t ∷ ts) = bit (p t) + count p ts

-- A request at time `t` counts at time `now`.
abbrev pub live : ℕ → ℕ → ℕ → Bool
live window now t = ltb now (t + window)

-- A time within the window that ends at `end`.
abbrev pub in_window : ℕ → ℕ → ℕ → Bool
in_window window end t = leb t end && live window end t

module _ (limit window : ℕ) where
  -- The times at which a request passed, the latest first.
  unfoldable pub admit : ℕ → List ℕ → Bool × List ℕ
  admit now passed =
      if ltb (count (live window now) passed) limit then (true, now ∷ passed) else (false, passed)

  -- Requests at these times, one after the other.
  unfoldable pub admit_all : List ℕ → List ℕ → List ℕ
  admit_all [] passed = passed
  admit_all (now ∷ nows) passed = admit_all nows (admit now passed).1

  count_mono :
      (p q : ℕ → Bool) (ts : List ℕ) → ((t : ℕ) → p t ≡ true → q t ≡ true) → count p ts ≤ count q ts
  count_mono p q [] h = omega arith
  count_mono p q (t ∷ ts) h = ground (arith, h t, count_mono p q ts h)

  -- Each request that passed found fewer than the limit in its own window.
  abbrev pub IsRated : List ℕ → Type 0
  IsRated [] = Unit
  IsRated (t ∷ ts) = (count (live window t) (t ∷ ts) ≤ limit) × IsRated ts

  in_window-bound : (end : ℕ) (ts : List ℕ) → IsRated ts → count (in_window window end) ts ≤ limit
  in_window-bound end [] h = omega arith
  in_window-bound end (t ∷ ts) h = elim (Bool-cases (in_window window end t)) [
    | inl here ↦
        let le = count_mono (in_window window end) (live window t) ts (λ u p. ground arith) in
        ground arith
    | inr away ↦ rw away (omega (arith, in_window-bound end ts h.1))
  ]

  admit-IsRated : (now : ℕ) (ts : List ℕ) → IsRated ts → IsRated (admit now ts).1
  unfolding admit
  admit-IsRated now ts h = ground arith

  admit_all-IsRated : (nows ts : List ℕ) → IsRated ts → IsRated (admit_all nows ts)
  unfolding admit_all
  admit_all-IsRated [] ts h = h
  admit_all-IsRated (now ∷ nows) ts h =
      admit_all-IsRated nows (admit now ts).1 (admit-IsRated now ts h)

  -- In the window that ends at any time no more requests pass than the limit.
  pub admit_all-bound :
      (nows : List ℕ) (end : ℕ) → count (in_window window end) (admit_all nows []) ≤ limit
  admit_all-bound nows end = in_window-bound end (admit_all nows []) (admit_all-IsRated nows [] tt)
