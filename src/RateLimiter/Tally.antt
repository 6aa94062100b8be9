-- ===== src/RateLimiter/Tally.antt =====
-- Facts on how many entries of a sorted set pass a test.
use log_foundry.Prelude.{◌≤◌, ◌≡◌, refl, Bool, true, not, ◌&&◌, List, [], ◌∷◌, arith}
use log_foundry.RateLimiter.Redis.{Entry, tally}

module _ (p q : Entry → Bool) where
  pub tally-cong : (es : List Entry) → ((e : Entry) → p e ≡ q e) → tally p es ≡ tally q es
  tally-cong [] h = refl
  tally-cong (e ∷ es) h = ground (arith, h e, tally-cong es h)

  pub tally_mono :
      (es : List Entry) → ((e : Entry) → p e ≡ true → q e ≡ true) → tally p es ≤ tally q es
  tally_mono [] h = omega arith
  tally_mono (e ∷ es) h = ground (arith, h e, tally_mono es h)

  pub tally-and-le : (es : List Entry) → tally (λ e. p e && q e) es ≤ tally p es
  tally-and-le [] = omega arith
  tally-and-le (e ∷ es) = ground (arith, tally-and-le es)

  -- Taking away what no entry is changes no count.
  pub tally-and_not :
      (es : List Entry) → tally q es ≡ 0 → tally (λ e. p e && not (q e)) es ≡ tally p es
  tally-and_not [] h = refl
  tally-and_not (e ∷ es) h = ground (arith, tally-and_not es)
