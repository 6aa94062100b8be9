-- ===== src/Cli/Since.antt =====
-- sdk/cli.py: `_parse_since`.
use log_foundry.Prelude.{
  ℕ, suc, ◌+◌, ◌-◌, ◌*◌, ◌≡◌, refl, ap, ◌∙◌, String, ◌^^◌, decimal, Option, none, some, leb, ltb,
  ◌==◌, ◌||◌, if◌then◌else◌, Outcome, ret, raise, value_error, other,
}
use log_foundry.Prelude.Int.{ℤ, pos, negsuc}
use Prim.Native.Char.{Char, code}
use text.Mathlib.TextLemmas.{nil-append, cons-append}

-- `since[:-1]` and `since[-1]`, unless the text is empty.
abbrev pub behind : Char → Option (String × Char) → Option (String × Char)
behind c none = some ("", c)
behind c (some (front, last)) = some (String.◌∷◌ c front, last)

unfoldable pub unsnoc : String → Option (String × Char)
unsnoc String.[] = none
unsnoc (String.◌∷◌ c t) = behind c (unsnoc t)

-- The microseconds of a unit: an h, an m, a d or a w, `lower` making it small.
unfoldable pub unit_of : Char → Option ℕ
unit_of c =
    if (code c == 104) || (code c == 72)
    then some 3600000000
    else if (code c == 109) || (code c == 77)
    then some 60000000
    else if (code c == 100) || (code c == 68)
    then some 86400000000
    else if (code c == 119) || (code c == 87)
    then some 604800000000
    else none

-- The microseconds of the years 1 to 9999, which a datetime counts.
abbrev pub end_of_time : ℕ
end_of_time = 315537897600000000

-- `now - timedelta(…=value)`: out of these years it raises an OverflowError.
unfoldable pub go_back : ℕ → ℤ → ℕ → Outcome ℕ
go_back now (pos n) unit = if leb (n * unit) now then ret (now - n * unit) else raise other
go_back now (negsuc n) unit =
    if ltb (now + suc n * unit) end_of_time then ret (now + suc n * unit) else raise other

abbrev pub with_unit : Option ℕ → (ℕ → Outcome ℕ) → Outcome ℕ
with_unit none f = raise value_error
with_unit (some unit) f = f unit

-- `int(t)`
module _ (int : String → Outcome ℤ) where
  -- `value_error` stands for click's BadParameter.
  unfoldable pub parse_since : ℕ → String → Outcome ℕ
  unfolding unsnoc unit_of go_back
  parse_since now since = elim (unsnoc since) [
    | none ↦ raise other
    | some parts ↦ elim (int parts.0) [
      | raise e ↦ raise value_error
      | ret value ↦ with_unit (unit_of parts.1) (λ unit. go_back now value unit)
    ]
  ]

unsnoc-append : (t : String) (c : Char) → unsnoc (t ^^ String.◌∷◌ c "") ≡ some (t, c)
unfolding unsnoc
unsnoc-append String.[] c = ap unsnoc (nil-append (String.◌∷◌ c ""))
unsnoc-append (String.◌∷◌ d t) c =
    ap unsnoc (cons-append d t (String.◌∷◌ c "")) ∙ ap (behind d) (unsnoc-append t c)

-- The moment that many microseconds ago.
abbrev pub ago : ℕ → ℕ → Outcome ℕ
ago now m = if leb m now then ret (now - m) else raise other

module _ (int : String → Outcome ℤ) (int-decimal : (n : ℕ) → int (decimal n) ≡ ret (pos n)) where
  parse_since-unit :
      (now n : ℕ) (c : Char)
      → parse_since int now (decimal n ^^ String.◌∷◌ c "")
        ≡ with_unit (unit_of c) (λ unit. ago now (n * unit))
  unfolding parse_since go_back
  parse_since-unit now n c = rw (unsnoc-append (decimal n) c, int-decimal n, parse_since) refl

  -- If int reads what str writes: a number and an h, an m, a d or a w is the moment that many hours,
  -- minutes, days or weeks ago, in microseconds, an OverflowError if that is before the year 1; and
  -- with any other letter it is a BadParameter.
  pub parse_since-decimal :
      (now n : ℕ) (c : Char)
      → unit_of c ≡ none
      → (parse_since int now (decimal n ^^ "h") ≡ ago now (n * 3600000000))
        × (parse_since int now (decimal n ^^ "m") ≡ ago now (n * 60000000))
        × (parse_since int now (decimal n ^^ "d") ≡ ago now (n * 86400000000))
        × (parse_since int now (decimal n ^^ "w") ≡ ago now (n * 604800000000))
        × (parse_since int now (decimal n ^^ String.◌∷◌ c "") ≡ raise value_error)
  unfolding unit_of
  parse_since-decimal now n c unknown = (
    parse_since-unit now n "h",
    parse_since-unit now n "m",
    parse_since-unit now n "d",
    parse_since-unit now n "w",
    parse_since-unit now n c ∙ ap (λ o. with_unit o (λ unit. ago now (n * unit))) unknown,
  )
