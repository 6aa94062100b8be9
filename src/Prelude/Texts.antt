-- ===== src/Prelude/Texts.antt =====
-- `str` of a number that is not negative, and the joining of texts.
use Prim.Native.Nat.{ℕ, zero, suc, ◌/◌, ◌%◌}
use Prim.Native.String.{String}
use Prim.Native.String
use mathlib.Core.List.{List, [], ◌∷◌}
use log_foundry.Prelude.Tests.{ltb, if◌then◌else◌}

infixr 65 ◌^^◌
abbrev pub ◌^^◌ : String → String → String
s ^^ t = String.◌++◌ s t

abbrev pub nth_or : List String → ℕ → String → String
nth_or [] n d = d
nth_or (s ∷ l) zero d = s
nth_or (s ∷ l) (suc n) d = nth_or l n d

abbrev pub digit_text : ℕ → String
digit_text d = nth_or ("0" ∷ "1" ∷ "2" ∷ "3" ∷ "4" ∷ "5" ∷ "6" ∷ "7" ∷ "8" ∷ "9" ∷ []) d "?"

-- The fuel is never short: a number has at most as many digits as it counts, and one.
unfoldable pub decimal_fuel : ℕ → ℕ → String
decimal_fuel zero n = ""
decimal_fuel (suc fuel) n =
    let more = decimal_fuel fuel (n / 10) ^^ digit_text (n % 10) in
    if ltb n 10 then digit_text n else more

unfoldable pub decimal : ℕ → String
unfolding decimal_fuel
decimal n = decimal_fuel (suc n) n
