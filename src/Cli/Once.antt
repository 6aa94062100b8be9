-- ===== src/Cli/Once.antt =====
-- sdk/cli.py: which entries `tail` prints, and how often.
use log_foundry.Prelude.{
  ℕ, zero, suc, ◌+◌, ◌-◌, ◌≤◌, ◌≡◌, ◌≢◌, refl, sym, ap, ◌∙◌, subst, String, true, false, Option,
  none, some, List, [], ◌∷◌, ◌++◌, length, length-append, str_eq, eq_iff, member, if◌then◌else◌,
  arith, Bool-cases, inl, inr,
}
use log_foundry.Cli.Tail.{LogEntry, is_new, id_or_empty, filter_new, reversed, drop, trim}

-- How often a text occurs.
abbrev pub times : String → List String → ℕ
times x [] = 0
times x (y ∷ ys) = (if str_eq y x then 1 else 0) + times x ys

abbrev pub ids : List LogEntry → List String
ids [] = []
ids (entry ∷ entries) = id_or_empty entry.id ∷ ids entries

times-append : (x : String) (ys zs : List String) → times x (ys ++ zs) ≡ times x ys + times x zs
times-append x [] zs = omega arith
times-append x (y ∷ ys) zs = omega (arith, times-append x ys zs)

ids-append : (a b : List LogEntry) → ids (a ++ b) ≡ ids a ++ ids b
ids-append [] b = refl
ids-append (entry ∷ a) b = ap (λ l. id_or_empty entry.id ∷ l) (ids-append a b)

pub times-ids-append :
    (x : String) (a b : List LogEntry) → times x (ids (a ++ b)) ≡ times x (ids a) + times x (ids b)
times-ids-append x a b = ap (times x) (ids-append a b) ∙ times-append x (ids a) (ids b)

pub times-ids-reversed :
    (x : String) (a : List LogEntry) → times x (ids (reversed a)) ≡ times x (ids a)
times-ids-reversed x [] = refl
times-ids-reversed x (entry ∷ a) =
    omega (arith, times-ids-append x (reversed a) (entry ∷ []), times-ids-reversed x a)

pub length-reversed : {A : Type 0} (xs : List A) → length (reversed xs) ≡ length xs
length-reversed [] = refl
length-reversed (x ∷ xs) = omega (arith, length-append (reversed xs) (x ∷ []), length-reversed xs)

times_of_member : (x : String) (ys : List String) → member x ys ≡ true → 1 ≤ times x ys
unfolding member
times_of_member x [] h = ground arith
times_of_member x (y ∷ ys) h = ground (arith, times_of_member x ys)

times_of_no_member : (x : String) (ys : List String) → member x ys ≡ false → times x ys ≡ 0
unfolding member
times_of_no_member x [] h = refl
times_of_no_member x (y ∷ ys) h = ground (arith, times_of_no_member x ys)

times-drop : (x : String) (n : ℕ) (ys : List String) → times x (drop n ys) ≤ times x ys
times-drop x zero ys = omega arith
times-drop x (suc n) [] = omega arith
times-drop x (suc n) (y ∷ ys) = omega (arith, times-drop x n ys)

pub times-trim : (x : String) (ys : List String) → times x (trim ys) ≤ times x ys
unfolding trim
times-trim x ys = ground (arith, times-drop x (length ys - 5000) ys)

pub trim_short : (ys : List String) → length ys ≤ 10000 → trim ys ≡ ys
unfolding trim
trim_short ys h = ground arith

-- What the loop over the results leaves in the dictionary, and what it keeps.
pub filter_new-length :
    (seen : List String) (entries : List LogEntry)
    → length (filter_new seen entries).0 ≡ length seen + length (filter_new seen entries).1
unfolding filter_new
filter_new-length seen [] = omega arith
filter_new-length seen (entry ∷ entries) = ground (
  arith,
  filter_new-length (seen ++ id_or_empty entry.id ∷ []) entries,
  filter_new-length seen entries,
  length-append seen (id_or_empty entry.id ∷ []),
)

module _ (x : String) where
  pub filter_new-times :
      (seen : List String) (entries : List LogEntry)
      → times x (filter_new seen entries).0
        ≡ times x seen + times x (ids (filter_new seen entries).1)
  unfolding filter_new
  filter_new-times seen [] = omega arith
  filter_new-times seen (entry ∷ entries) = ground (
    arith,
    filter_new-times (seen ++ id_or_empty entry.id ∷ []) entries,
    filter_new-times seen entries,
    times-append x seen (id_or_empty entry.id ∷ []),
  )

  pub filter_new-le :
      (seen : List String) (entries : List LogEntry)
      → times x (ids (filter_new seen entries).1) ≤ times x (ids entries)
  unfolding filter_new
  filter_new-le seen [] = omega arith
  filter_new-le seen (entry ∷ entries) =
      ground (
        arith,
        filter_new-le (seen ++ id_or_empty entry.id ∷ []) entries,
        filter_new-le seen entries,
      )

  is_new-times :
      (seen : List String) (id : Option String)
      → is_new seen id ≡ true
      → times x seen ≤ 1
      → times x (seen ++ id_or_empty id ∷ []) ≤ 1
  is_new-times seen none h g = ground arith
  is_new-times seen (some id) h g = elim (Bool-cases (member id seen)) [
    | inl e ↦ ground arith
    | inr e ↦
        ground (arith, times-append x seen (id ∷ []), times_of_no_member id seen e, eq_iff id x)
  ]

  -- A name that is not new was seen.
  is_old-times :
      (seen : List String) (id : Option String)
      → is_new seen id ≡ false
      → id_or_empty id ≡ x
      → x ≢ ""
      → 1 ≤ times x seen
  is_old-times seen none h e named = absurd (named (sym e))
  is_old-times seen (some id) h e named = elim (Bool-cases (member id seen)) [
    | inl f ↦ subst (λ y. 1 ≤ times y seen) e (times_of_member id seen f)
    | inr f ↦ absurd (named (sym e ∙ (eq_iff id "").0 (ground arith)))
  ]

  pub filter_new-once :
      (seen : List String) (entries : List LogEntry)
      → times x seen ≤ 1
      → times x (filter_new seen entries).0 ≤ 1
  unfolding filter_new
  filter_new-once seen [] h = h
  filter_new-once seen (entry ∷ entries) h = elim (Bool-cases (is_new seen entry.id)) [
    | inl e ↦ rw e (
        filter_new-once (seen ++ id_or_empty entry.id ∷ []) entries
          (is_new-times seen entry.id e h))
    | inr e ↦ rw e (filter_new-once seen entries h)
  ]

  -- Every identifier of the results is seen then.
  pub filter_new-all :
      (seen : List String) (entries : List LogEntry)
      → x ≢ ""
      → 1 ≤ times x (ids entries)
      → 1 ≤ times x (filter_new seen entries).0
  unfolding filter_new
  filter_new-all seen [] named h = absurd (omega arith)
  filter_new-all seen (entry ∷ entries) named h = elim (Bool-cases (is_new seen entry.id)) [
    | inl e ↦ rw e (
        ground (
          arith,
          filter_new-all (seen ++ id_or_empty entry.id ∷ []) entries named,
          filter_new-times (seen ++ id_or_empty entry.id ∷ []) entries,
          times-append x seen (id_or_empty entry.id ∷ []),
        ))
    | inr e ↦ rw e (
        ground (
          arith,
          filter_new-all seen entries named,
          filter_new-times seen entries,
          is_old-times seen entry.id e,
          eq_iff (id_or_empty entry.id) x,
        ))
  ]

length-drop : {A : Type 0} (n : ℕ) (ys : List A) → length (drop n ys) ≤ length ys
length-drop zero ys = omega arith
length-drop (suc n) [] = omega arith
length-drop (suc n) (y ∷ ys) = omega (arith, length-drop n ys)

pub length-trim : (ys : List String) → length (trim ys) ≤ length ys
unfolding trim
length-trim ys = ground (arith, length-drop (length ys - 5000) ys)
