-- ===== src/Partitions/Calendar.antt =====
-- scripts/manage_partitions.py: `add_months`, and the dates that it makes.
use log_foundry.Prelude.{
  ℕ, ◌+◌, ◌-◌, ◌*◌, ◌/◌, ◌%◌, ◌≤◌, ◌<◌, ◌≡◌, refl, ◌∙◌, ◌⊎◌, inl, inr, ◌&&◌, leb, if◌then◌else◌,
  Outcome, ret, raise, value_error, arith,
}
use log_foundry.Prelude.Int.{ℤ, pos, negsuc, pos_part, neg_part, sub_ℕ, ◌+ℤ◌, ◌≤ℤ◌, leb_ℤ, +ℤ_parts}

-- A `datetime` whose time is midnight, as all are that the code compares or prints.
pub record Date : Type 0 where
  pub year : ℕ
  pub month : ℕ
  pub day : ℕ

-- Python's `//` and `%`, which round down.
abbrev pub floor_div : ℤ → ℕ → ℤ
floor_div (pos n) d = pos (n / d)
floor_div (negsuc n) d = negsuc (n / d)

abbrev pub floor_mod : ℤ → ℕ → ℕ
floor_mod (pos n) d = n % d
floor_mod (negsuc n) d = d - 1 - n % d

-- `datetime(year, month, 1)`
unfoldable pub datetime : ℤ → ℕ → Outcome Date
datetime year month =
    if leb_ℤ (pos 1) year && leb_ℤ year (pos 9999) && leb 1 month && leb month 12
    then ret (record { year = pos_part year; month = month; day = 1 })
    else raise value_error

unfoldable pub add_months : Date → ℤ → Outcome Date
unfolding datetime
add_months sourcedate months =
    let month = sub_ℕ sourcedate.month 1 +ℤ months in
    datetime (pos sourcedate.year +ℤ floor_div month 12) (floor_mod month 12 + 1)

-- The months since the year 0.
abbrev pub index : Date → ℕ
index d = 12 * d.year + (d.month - 1)

abbrev pub month_at : ℕ → Date
month_at i = record { year = i / 12; month = i % 12 + 1; day = 1 }

abbrev pub IsMonth : Date → Type 0
IsMonth d = (1 ≤ d.month) × (d.month ≤ 12)

-- The years that Python has.
abbrev pub InRange : ℤ → Type 0
InRange i = (pos 12 ≤ℤ i) × (i ≤ℤ pos 119999)

-- `floor_div` and `floor_mod` take an integer apart.
floor_parts :
    (z : ℤ)
    → (pos_part z + 12 * neg_part (floor_div z 12)
        ≡ 12 * pos_part (floor_div z 12) + floor_mod z 12 + neg_part z)
      × (floor_mod z 12 < 12)
floor_parts (pos n) = ground arith
floor_parts (negsuc n) = ground arith

abbrev datetime_of : ℕ → ℕ → Outcome Date
datetime_of year month = ret (record { year = year; month = month; day = 1 })

datetime-ret :
    (y : ℤ) (m : ℕ)
    → (pos 1 ≤ℤ y)
    → (y ≤ℤ pos 9999)
    → 1 ≤ m
    → m ≤ 12
    → datetime y m ≡ ret (record { year = pos_part y; month = m; day = 1 })
unfolding datetime
datetime-ret y m a b c d = ground arith

parts_cases : (z : ℤ) → (pos_part z ≡ 0) ⊎ (neg_part z ≡ 0)
parts_cases (pos n) = inr refl
parts_cases (negsuc n) = inl refl

datetime-raise :
    (y : ℤ) (m : ℕ) → ¬ ((pos 1 ≤ℤ y) × (y ≤ℤ pos 9999)) → datetime y m ≡ raise value_error
unfolding datetime
datetime-raise y m h = ground arith

date_ext : {a b m n : ℕ} → a ≡ b → m ≡ n → datetime_of a m ≡ datetime_of b n
date_ext p q = cc

sub_parts : (a b : ℕ) → pos_part (sub_ℕ a b) + b ≡ neg_part (sub_ℕ a b) + a
sub_parts a b = ground arith

module _ (d : Date) (k : ℤ) (h : IsMonth d) where
  -- The year and the month that `add_months` makes, and the month that it should make.
  add_months_parts :
      (z y i : ℤ)
      → z ≡ sub_ℕ d.month 1 +ℤ k
      → y ≡ pos d.year +ℤ floor_div z 12
      → i ≡ pos (index d) +ℤ k
      → (pos_part i + 12 * neg_part y ≡ 12 * pos_part y + floor_mod z 12 + neg_part i)
        × (floor_mod z 12 < 12)
  add_months_parts z y i ez ey ei =
      let fz = floor_parts z in
      let sz = sub_parts d.month 1 in
      let pz = rw (← ez) at (+ℤ_parts (sub_ℕ d.month 1) k) in
      let py = rw (← ey) at (+ℤ_parts (pos d.year) (floor_div z 12)) in
      let pi = rw (← ei) at (+ℤ_parts (pos (index d)) k) in (omega arith, fz.1)

  pub add_months-ret :
      InRange (pos (index d) +ℤ k) → add_months d k ≡ ret (month_at (pos_part (pos (index d) +ℤ k)))
  unfolding add_months
  add_months-ret r =
      let z = sub_ℕ d.month 1 +ℤ k in
      let y = pos d.year +ℤ floor_div z 12 in
      let i = pos (index d) +ℤ k in
      let parts = add_months_parts z y i refl refl refl in
      let cy = parts_cases y in
      let ci = parts_cases i in
      datetime-ret y (floor_mod z 12 + 1) (omega arith) (omega arith) (omega arith) (omega arith)
      ∙ date_ext (ground arith) (ground arith)

  pub add_months-raise : ¬ InRange (pos (index d) +ℤ k) → add_months d k ≡ raise value_error
  unfolding add_months
  add_months-raise r =
      let z = sub_ℕ d.month 1 +ℤ k in
      let y = pos d.year +ℤ floor_div z 12 in
      let i = pos (index d) +ℤ k in
      let parts = add_months_parts z y i refl refl refl in
      datetime-raise y (floor_mod z 12 + 1) (λ c. r (ground arith, ground arith))

  -- `add_months` counts in months. Of a date with a month between 1 and 12 and any number of months,
  -- negative ones too, it makes the first of the month that lies that many months later, if the
  -- year of that month is between 1 and 9999, and raises if not.
  pub add_months_lem :
      (InRange (pos (index d) +ℤ k)
        → add_months d k ≡ ret (month_at (pos_part (pos (index d) +ℤ k))))
      × (¬ InRange (pos (index d) +ℤ k) → add_months d k ≡ raise value_error)
  add_months_lem = (add_months-ret, add_months-raise)
