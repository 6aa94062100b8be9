-- ===== src/Partitions/Retention.antt =====
-- scripts/manage_partitions.py: which partitions are dropped.
use log_foundry.Prelude.{
  ℕ, zero, suc, ◌+◌, ◌-◌, ◌≤◌, ◌≡◌, refl, sym, ap, ◌∙◌, inl, inr, Bool, true, false, ltb,
  if◌then◌else◌, Option, none, some, Option-cases, List, [], ◌∷◌, ◌++◌, append_assoc, append-nil,
  keep, Outcome, ret, Outcome-cases, arith,
}
use log_foundry.Prelude.Int.{ℤ, pos, ◌+ℤ◌}
use log_foundry.Partitions.Calendar.{
  Date, datetime, add_months, index, month_at, IsMonth, add_months-ret,
}
use log_foundry.Partitions.Names.{Text, name_parts}
use log_foundry.Partitions.Manage.{
  Act, create, drop, Connection, Run, before, date_of, drop_partition, drop_partitions, negate,
  enforce_retention,
}

-- The names in the `DROP TABLE` statements.
abbrev pub drops_of : List Act → List Text
drops_of [] = []
drops_of (create name start end ok ∷ acts) = drops_of acts
drops_of (drop name ok ∷ acts) = name ∷ drops_of acts

drops_of-append : (a b : List Act) → drops_of (a ++ b) ≡ drops_of a ++ drops_of b
drops_of-append [] b = refl
drops_of-append (create name start end ok ∷ a) b = drops_of-append a b
drops_of-append (drop name ok ∷ a) b = ap (λ l. name ∷ l) (drops_of-append a b)

abbrev IsFirst : Date → Type 0
IsFirst d = IsMonth d × (d.day ≡ 1)

abbrev ret_date : Date → Outcome Date
ret_date d = ret d

ret_ext : (a b : Date) → some a ≡ some b → ret_date a ≡ ret_date b
ret_ext a b h = cc

datetime-IsFirst : (y : ℤ) (m : ℕ) (d : Date) → datetime y m ≡ ret d → IsFirst d
unfolding datetime
datetime-IsFirst y m d h = ground arith

before-month_at : (d : Date) (k : ℕ) → IsFirst d → before d (month_at k) ≡ ltb (index d) k
unfolding before
before-month_at d k h = ground arith

none-ne-some : {A : Type 0} {a : A} → ¬ (none ≡ some a)
none-ne-some h = cc

if-append :
    (b : Bool) (x : Text) (xs : List Text)
    → (if b then x ∷ [] else []) ++ xs ≡ (if b then x ∷ xs else xs)
if-append true x xs = refl
if-append false x xs = refl

-- Months back.
back : (i n : ℕ) → n ≤ i → pos i +ℤ negate n ≡ pos (i - n)
unfolding ◌+ℤ◌
back i zero h = ground arith
back i (suc n) h = ground arith

earlier :
    (d : Date) (n : ℕ)
    → IsMonth d
    → 12 + n ≤ index d
    → index d ≤ 119999
    → add_months d (negate n) ≡ ret (month_at (index d - n))
earlier d n m low high =
    let b = back (index d) n (omega arith) in
    rw b at (add_months-ret d (negate n) m (rw b (omega arith, omega arith)))

module _ (digit : ℕ → Option ℕ) where
  -- A name in the form that the code gives them, of a month before `k`.
  abbrev pub is_before : ℕ → Text → Bool
  is_before k name = elim (date_of digit name) [ none ↦ false | some d ↦ ltb (index d) k ]

  date_of-IsFirst : (name : Text) (d : Date) → date_of digit name ≡ some d → IsFirst d
  unfolding date_of
  date_of-IsFirst name d h = elim (Option-cases (name_parts digit name)) [
    | inl e ↦ absurd (none-ne-some (rw (e, date_of) at h))
    | inr (ym, e) ↦ elim (Outcome-cases (datetime (pos ym.0) ym.1)) [
      | inl (x, q) ↦ datetime-IsFirst (pos ym.0) ym.1 d (q ∙ ret_ext x d (rw (e, q, date_of) at h))
      | inr (x, q) ↦ absurd (none-ne-some (rw (e, q, date_of) at h))
    ]
  ]

  drops_if :
      {S : Type 0} (b : Bool) (r r' : Run S) (name : Text)
      → drops_of r'.journal ≡ drops_of r.journal ++ name ∷ []
      → drops_of (if b then r' else r).journal ≡ drops_of r.journal ++ (if b then name ∷ [] else [])
  drops_if true r r' name e = e
  drops_if false r r' name e = sym (append-nil (drops_of r.journal))

  keep-step :
      (k : ℕ) (name : Text) (names : List Text)
      → (if is_before k name then name ∷ [] else []) ++ keep (is_before k) names
        ≡ keep (is_before k) (name ∷ names)
  keep-step k name names = if-append (is_before k name) name (keep (is_before k) names)

  module _ {S : Type 0} (c : Connection S) where
    drop_partition-drops :
        (k : ℕ) (name : Text) (r : Run S)
        → drops_of (drop_partition c digit (month_at k) name r).journal
          ≡ drops_of r.journal ++ (if is_before k name then name ∷ [] else [])
    unfolding drop_partition
    drop_partition-drops k name r = elim (Option-cases (date_of digit name)) [
      | inl e ↦ rw (e, drop_partition, append-nil)
      | inr (d, e) ↦
          rw (e, drop_partition, before-month_at d k (date_of-IsFirst name d e))
            (drops_if _ r _ name (drops_of-append r.journal _))
    ]

    pub drop_partitions-drops :
        (k : ℕ) (names : List Text) (r : Run S)
        → drops_of (drop_partitions c digit (month_at k) names r).journal
          ≡ drops_of r.journal ++ keep (is_before k) names
    unfolding drop_partitions
    drop_partitions-drops k [] r = sym (append-nil (drops_of r.journal))
    drop_partitions-drops k (name ∷ names) r =
        drop_partitions-drops k names (drop_partition c digit (month_at k) name r)
        ∙ ap (λ l. l ++ keep (is_before k) names) (drop_partition-drops k name r)
        ∙ append_assoc (drops_of r.journal) _ _
        ∙ ap (λ l. drops_of r.journal ++ l) (keep-step k name names)

    -- If the month that lies `retain` months before `now` is in the calendar and the partitions can
    -- be listed, then exactly those of them are dropped, in their order, that have a name of the
    -- form that the code gives them for a month before that one; an error of the database does not
    -- keep the others from being dropped.
    pub enforce_retention_lem :
        (now : Date) (retain : ℕ) (r : Run S) (names : List Text)
        → IsMonth now
        → 12 + retain ≤ index now
        → index now ≤ 119999
        → (c.fetch r.world).0 ≡ ret names
        → drops_of (enforce_retention c digit now retain r).1.journal
          ≡ drops_of r.journal ++ keep (is_before (index now - retain)) names
    unfolding enforce_retention
    enforce_retention_lem now retain r names m low high listed =
        let cutoff : add_months now (negate retain) ≡ ret (month_at (index now - retain)) =
          earlier now retain m low high in
        rw (cutoff, listed, enforce_retention)
          (drop_partitions-drops (index now - retain) names
            (record r { world = (c.fetch r.world).1 }))
