-- ===== src/Metrics/Worth.antt =====
-- api/routers/query.py: what the samples of a hash add up to.
use log_foundry.Prelude.{
  ℕ, ◌+◌, ◌≡◌, refl, sym, ap, ◌∙◌, String, List, [], ◌∷◌, ◌++◌, map, arith, Dict, Outcome, ret,
  raise, value_error, Outcome-cases, inl, inr, ret-ne-raise, ret_inj, Option, some, none,
  if◌then◌else◌, str_eq, eq_iff, Bool, false, decimal, Bool-cases, Option-cases,
}
use mathlib.Core.List.{Perm, foldr}
use mathlib.Core.List.Perm
use log_foundry.Metrics.Redis.{shown}
use log_foundry.Metrics.Totals.{weigh}
use log_foundry.Metrics.Exposition.{Line, plain, sample, put, sorted, int_or_0, samples}

-- Which samples one looks at, by their name and labels; their sum.
abbrev pub Choice : Type 0
Choice = String → Dict String → Bool

abbrev pub value_of : Choice → Line → ℕ
value_of w (plain t) = 0
value_of w (sample name labels n) = if w name labels then n else 0

abbrev pub printed : Choice → List Line → ℕ
printed w [] = 0
printed w (line ∷ lines) = value_of w line + printed w lines

pub printed-append : (w : Choice) (a b : List Line) → printed w (a ++ b) ≡ printed w a + printed w b
printed-append w [] b = omega arith
printed-append w (line ∷ a) b = omega (arith, printed-append w a b)

pub header_value :
    {a n m : ℕ} (b : Bool) → a ≡ 0 → n ≡ m → a + ((if b then n else 0) + 0) ≡ (if b then m else 0)
header_value b e f = ground arith

-- The keys of a hash whose entries are looked at.
abbrev pub chosen : Choice → String → (String → Option (Dict String)) → String → Bool
chosen w name labels key = elim (labels key) [ none ↦ false | some found ↦ w name found ]

abbrev or_0 : Outcome ℕ → ℕ
or_0 (ret n) = n
or_0 (raise e) = 0

-- `int` reads what `str` writes, and raises an error on an empty text.
pub record Reads (int : String → Outcome ℕ) : Type 0 where
  pub int-decimal : (n : ℕ) → int (decimal n) ≡ ret n
  pub int_empty : int "" ≡ raise value_error

module _ (int : String → Outcome ℕ) (reads : Reads int) where
  pub int_or_0-decimal : (n : ℕ) → int_or_0 int (some (decimal n)) ≡ ret n
  unfolding int_or_0
  int_or_0-decimal n = elim (Bool-cases (str_eq (decimal n) "")) [
    | inl e ↦ absurd (
        ret-ne-raise
          (sym (reads.int-decimal n) ∙ ap int ((eq_iff (decimal n) "").0 e) ∙ reads.int_empty))
    | inr e ↦ rw e (reads.int-decimal n)
  ]

  module _ (w : Choice) (name : String) (labels : String → Option (Dict String)) where
    worth : String × String → ℕ
    worth (key, val) = if chosen w name labels key then or_0 (int_or_0 int (some val)) else 0

    abbrev plus : String × String → ℕ → ℕ
    plus item n = worth item + n

    pub worth_all : Dict String → ℕ
    worth_all items = foldr plus 0 items

    worth_all-put :
        (item : String × String) (items : Dict String)
        → worth_all (put item items) ≡ worth item + worth_all items
    unfolding put worth_all
    worth_all-put item [] = refl
    worth_all-put item (first ∷ rest) = ground (arith, worth_all-put item rest)

    pub worth_all-sorted : (items : Dict String) → worth_all (sorted items) ≡ worth_all items
    unfolding sorted worth_all
    worth_all-sorted [] = refl
    worth_all-sorted (item ∷ items) =
        omega (arith, worth_all-put item (sorted items), worth_all-sorted items)

    pub worth_all-shown : (d : Dict ℕ) → worth_all (map shown d) ≡ weigh (chosen w name labels) d
    unfolding worth_all worth
    worth_all-shown [] = refl
    worth_all-shown ((key, n) ∷ d) = ground (arith, int_or_0-decimal n, worth_all-shown d)

    pub worth_all-Perm : (a b : Dict String) → Perm a b → worth_all a ≡ worth_all b
    unfolding worth_all Perm.foldr-eq
    worth_all-Perm a b h = Perm.foldr-eq (hlevel) plus (λ x y n. omega arith) h 0

    -- One entry's worth.
    abbrev entry_worth : Option (Dict String) → Outcome ℕ → ℕ
    entry_worth none o = 0
    entry_worth (some found) o = if w name found then or_0 o else 0

    worth_lem :
        (key val : String) → worth (key, val) ≡ entry_worth (labels key) (int_or_0 int (some val))
    unfolding worth
    worth_lem key val = elim (Option-cases (labels key)) [
      | inl e ↦ rw (e, chosen) refl
      | inr (found, e) ↦ rw (e, chosen) refl
    ]

    pub samples-printed :
        (items : Dict String) (lines : List Line)
        → samples int name labels items ≡ ret lines
        → printed w lines ≡ worth_all items
    unfolding samples worth_all
    samples-printed [] lines h = ap (printed w) (sym (ret_inj h))
    samples-printed ((key, val) ∷ items) lines h =
        let one = worth_lem key val in
        elim (Option-cases (labels key)) [
          | inl e ↦ omega (arith, rw e at one, samples-printed items lines (rw (e, samples) at h))
          | inr (found, e) ↦ elim (Outcome-cases (int_or_0 int (some val))) [
            | inr (x, f) ↦ absurd (ret-ne-raise (sym (rw (e, f, samples) at h)))
            | inl (n, f) ↦ elim (Outcome-cases (samples int name labels items)) [
              | inr (x, g) ↦ absurd (ret-ne-raise (sym (rw (e, f, g, samples) at h)))
              | inl (more, g) ↦
                  ap (printed w) (sym (ret_inj (rw (e, f, g, samples) at h)))
                  ∙ omega (arith, rw (e, f) at one, samples-printed items more g)
            ]
          ]
        ]
