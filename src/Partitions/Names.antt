-- ===== src/Partitions/Names.antt =====
-- scripts/manage_partitions.py: the names of partitions, as they are written and read. A text is a
-- list of code points.
use log_foundry.Prelude.{
  ℕ, zero, suc, ◌+◌, ◌*◌, ◌/◌, ◌%◌, ◌≤◌, ◌<◌, ◌≡◌, Bool, true, false, ◌==◌, leb, if◌then◌else◌, inl,
  inr, Bool-cases, leb→le, Option, none, some, List, [], ◌∷◌, ◌++◌, arith,
}
use log_foundry.Partitions.Calendar.{Date}

abbrev pub Text : Type 0
Text = List ℕ

-- "logs_", "_" and "-"
abbrev pub logs : Text
logs = 108 ∷ 111 ∷ 103 ∷ 115 ∷ 95 ∷ []

abbrev pub underscore : Text
underscore = 95 ∷ []

abbrev pub hyphen : Text
hyphen = 45 ∷ []

-- `%m` and `%d`
abbrev pub two : ℕ → Text
two n = (48 + n / 10) ∷ (48 + n % 10) ∷ []

-- `%Y`, which the C library does not pad; a year has at most four digits.
unfoldable pub year_text : ℕ → Text
year_text y =
    if leb 1000 y
    then (48 + y / 1000) ∷ (48 + y / 100 % 10) ∷ two (y % 100)
    else if leb 100 y
    then (48 + y / 100) ∷ two (y % 100)
    else if leb 10 y
    then two y
    else (48 + y) ∷ []

-- `f"logs_{d.strftime('%Y_%m')}"`
unfoldable pub name_of : Date → Text
unfolding year_text
name_of d = logs ++ (year_text d.year ++ (underscore ++ two d.month))

-- `d.strftime('%Y-%m-%d')`
unfoldable pub day_text : Date → Text
unfolding year_text
day_text d = year_text d.year ++ (hyphen ++ (two d.month ++ (hyphen ++ two d.day)))

-- The rest of a text after a given beginning.
unfoldable pub strip : Text → Text → Option Text
strip [] t = some t
strip (c ∷ cs) [] = none
strip (c ∷ cs) (d ∷ t) = let rest = strip cs t in if c == d then rest else none

-- What `$` takes to be the end: a last line feed may stand before it.
abbrev pub ends : Text → Bool
ends [] = true
ends (c ∷ []) = c == 10
ends (c ∷ d ∷ t) = false

abbrev some_pair : ℕ → Text → Option (ℕ × Text)
some_pair a t = some (a, t)

zero_add : (n : ℕ) → 0 + n ≡ n
zero_add n = omega arith

pub lt→leb : (a b : ℕ) → a ≤ b → leb a b ≡ true
lt→leb a b h = ground arith

-- `\d`: Python's digits, those of other scripts too, and their values.
module _ (digit : ℕ → Option ℕ) where
  -- `\d{n}`, and the number that `int` reads there.
  unfoldable pub digits : ℕ → ℕ → Text → Option (ℕ × Text)
  digits zero value t = some (value, t)
  digits (suc n) value [] = none
  digits (suc n) value (c ∷ t) = elim (digit c) [
    | none ↦ none
    | some d ↦ digits n (10 * value + d) t
  ]

  abbrev pub after_digits : ℕ → Option (ℕ × Text) → (ℕ → Text → Option (ℕ × ℕ)) → Option (ℕ × ℕ)
  after_digits n none f = none
  after_digits n (some (value, t)) f = f value t

  abbrev pub after_strip : Option Text → (Text → Option (ℕ × ℕ)) → Option (ℕ × ℕ)
  after_strip none f = none
  after_strip (some t) f = f t

  -- `re.match(r"^logs_\d{4}_\d{2}$", name)`, and the numbers that its split by "_" then holds.
  unfoldable pub name_parts : Text → Option (ℕ × ℕ)
  unfolding strip digits
  name_parts name = after_strip (strip logs name) (λ t. after_digits 4 (digits 4 0 t) (λ year t.
      after_strip (strip underscore t) (λ t.
        after_digits 2 (digits 2 0 t) (λ month t. if ends t then some (year, month) else none))))

  -- `re.match(r"^\d{4}-\d{2}-\d{2}$", day)`
  unfoldable pub is_day : Text → Bool
  unfolding strip digits
  is_day day =
      elim (after_digits 4 (digits 4 0 day) (λ year t. after_strip (strip hyphen t) (λ t.
        after_digits 2 (digits 2 0 t) (λ month t. after_strip (strip hyphen t) (λ t.
          after_digits 2 (digits 2 0 t) (λ d t. if ends t then some (month, d) else none)))))) [
            | none ↦ false
            | some _ ↦ true
          ]

  -- The digits of ASCII are digits, and the underscore is none.
  module _ (ascii : (d : ℕ) → d < 10 → digit (48 + d) ≡ some d) (no_digit : digit 95 ≡ none) where
    some_ext : {a b : ℕ} (t : Text) → a ≡ b → some_pair a t ≡ some_pair b t
    some_ext t e = cc

    digits-two :
        (value n : ℕ) (t : Text) → n < 100 → digits 2 value (two n ++ t) ≡ some (100 * value + n, t)
    unfolding digits
    digits-two value n t h =
        rw (ascii (n / 10) (omega arith), ascii (n % 10) (omega arith)) (some_ext t (omega arith))

    digits-year :
        (y : ℕ) (t : Text) → 1000 ≤ y → y ≤ 9999 → digits 4 0 (year_text y ++ t) ≡ some (y, t)
    unfolding digits year_text
    digits-year y t low high =
        rw
          (
            lt→leb 1000 y low,
            ascii (y / 1000) (omega arith),
            ascii (y / 100 % 10) (omega arith),
            ascii (y % 100 / 10) (omega arith),
            ascii (y % 100 % 10) (omega arith),
          )
          (some_ext t (omega arith))

    digits-short :
        (y : ℕ) (t : Text) → y < 1000 → digits 4 0 (year_text y ++ (underscore ++ t)) ≡ none
    unfolding digits year_text
    digits-short y t low = ground (
      arith,
      no_digit,
      ascii (y / 100),
      ascii (y % 100 / 10),
      ascii (y % 100 % 10),
      ascii (y / 10),
      ascii (y % 10),
      ascii y,
    )

    -- The drop path reads back the name that the create path writes, in a year of four digits, and
    -- refuses it in an earlier one. It takes a digit test that knows the digits of ASCII and does not
    -- take the underscore for one.
    pub name_parts-name_of :
        (d : Date)
        → d.year ≤ 9999
        → d.month < 100
        → name_parts (name_of d) ≡ (if leb 1000 d.year then some (d.year, d.month) else none)
    unfolding name_parts name_of strip
    name_parts-name_of d high m = elim (Bool-cases (leb 1000 d.year)) [
      | inl long ↦ rw (
        digits-year d.year (underscore ++ two d.month) (leb→le 1000 d.year long) high,
        long,
        digits-two 0 d.month [] m,
        zero_add,
      )
      | inr short ↦ rw (digits-short d.year (two d.month) (ground arith), short)
    ]

    pub is_day-day_text :
        (d : Date)
        → 1000 ≤ d.year
        → d.year ≤ 9999
        → d.month < 100
        → d.day < 100
        → is_day (day_text d) ≡ true
    unfolding is_day day_text strip
    is_day-day_text d low high m n = rw (
      digits-year d.year (hyphen ++ (two d.month ++ (hyphen ++ two d.day))) low high,
      digits-two 0 d.month (hyphen ++ two d.day) m,
      digits-two 0 d.day [] n,
      is_day,
    )
