-- ===== src/Partitions/Plan.antt =====
-- scripts/manage_partitions.py: which partitions are created.
use log_foundry.Prelude.{
  ℕ, zero, suc, ◌+◌, ◌/◌, ◌≤◌, ◌<◌, ◌≡◌, refl, sym, ap, ◌∙◌, subst, ◌⊎◌, inl, inr, Bool, true,
  false, Option, none, some, List, [], ◌∷◌, ◌++◌, append_assoc, append-nil, Outcome, ret, raise,
  Exc, arith,
}
use log_foundry.Prelude.Int.{pos, ◌+ℤ◌}
use log_foundry.Partitions.Calendar.{Date, add_months, index, month_at, IsMonth, add_months-ret}
use log_foundry.Partitions.Names.{name_of, day_text, lt→leb, name_parts-name_of, is_day-day_text}
use log_foundry.Partitions.Manage.{
  Act, create, Connection, Run, succeeded, before, Result, create_checked, create_partition,
  create_month, create_months,
}

-- The statement for month `j`: from its first day to that of the next month.
abbrev pub create_at : ℕ → Bool → Act
create_at j = create (name_of (month_at j)) (day_text (month_at j)) (day_text (month_at (suc j)))

-- The months from `j` on, `count` of them.
abbrev pub plan : ℕ → ℕ → List Act
plan zero j = []
plan (suc count) j = create_at j true ∷ plan count (suc j)

abbrev ret_month : ℕ → Outcome Date
ret_month j = ret (month_at j)

add_pos : (a b : ℕ) → pos a +ℤ pos b ≡ pos (a + b)
unfolding ◌+ℤ◌
add_pos a b = ground arith

index-month_at : (j : ℕ) → index (month_at j) ≡ j
index-month_at j = omega arith

month_at-IsMonth : (j : ℕ) → IsMonth (month_at j)
month_at-IsMonth j = (omega arith, omega arith)

later :
    (d : Date) (i : ℕ)
    → IsMonth d
    → 12 ≤ index d + i
    → index d + i ≤ 119999
    → add_months d (pos i) ≡ ret (month_at (index d + i))
later d i m low high =
    rw (add_pos (index d) i) at
      (add_months-ret d (pos i) m (rw (add_pos (index d) i) (omega arith, omega arith)))

module _ {S : Type 0} (c : Connection S) (digit : ℕ → Option ℕ)
    (ascii : (d : ℕ) → d < 10 → digit (48 + d) ≡ some d) (no_digit : digit 95 ≡ none) where
  create_partition-checked :
      (j : ℕ) (r : Run S)
      → 12000 ≤ j
      → j < 119999
      → create_partition c digit
          (name_of (month_at j))
          (day_text (month_at j))
          (day_text (month_at (suc j)))
          r
        ≡ create_checked c digit
            (name_of (month_at j))
            (day_text (month_at j))
            (day_text (month_at (suc j)))
            r
  unfolding create_partition
  create_partition-checked j r low high = rw (
    name_parts-name_of digit ascii no_digit (month_at j) (omega arith) (omega arith),
    lt→leb 1000 (j / 12) (omega arith),
    is_day-day_text digit ascii no_digit (month_at j) (omega arith) (omega arith) (omega arith)
        (omega arith),
    is_day-day_text digit ascii no_digit (month_at (suc j)) (omega arith) (omega arith)
        (omega arith) (omega arith),
    create_partition,
  )

  create_month-checked :
      (now : Date) (i : ℕ) (r : Run S)
      → IsMonth now
      → 12000 ≤ index now + i
      → index now + i < 119999
      → create_month c digit now i r
        ≡ create_checked c digit
            (name_of (month_at (index now + i)))
            (day_text (month_at (index now + i)))
            (day_text (month_at (suc (index now + i))))
            r
  unfolding create_month
  create_month-checked now i r m low high =
      let j = index now + i in
      let next : add_months (month_at j) (pos 1) ≡ ret (month_at (suc j)) =
        later (month_at j) 1 (month_at-IsMonth j) (omega arith) (omega arith)
        ∙ ap (λ n. ret_month n) (omega arith) in
      rw (
        later now i m (omega arith) (omega arith),
        next,
        create_partition-checked j r low high,
        create_month,
      )

  -- Either all months are created, or one statement fails and ends the run, and those before it are.
  abbrev pub Planned : ℕ → ℕ → List Act → Result c digit → Type 0
  Planned count j before x =
      ((x.0 ≡ ret tt) × (x.1.journal ≡ before ++ plan count j))
      ⊎ ((n : ℕ) × (e : Exc) × (n < count)
          × (x.0 ≡ raise e)
          × (x.1.journal ≡ before ++ (plan n j ++ create_at (j + n) false ∷ [])))

  Planned-next :
      (count j : ℕ) (journal : List Act) (x : Result c digit)
      → Planned count (suc j) (journal ++ create_at j true ∷ []) x
      → Planned (suc count) j journal x
  Planned-next count j journal x (inl (o, e)) = inl (o, e ∙ append_assoc journal _ _)
  Planned-next count j journal x (inr (n, e, lt, o, q)) =
      let shift : suc j + n ≡ j + suc n = omega arith in
      inr (
        suc n,
        e,
        omega arith,
        o,
        q
            ∙ append_assoc journal _ _
            ∙ ap (λ i. journal ++ create_at j true ∷ (plan n (suc j) ++ create_at i false ∷ []))
                shift,
      )

  after_checked :
      (count j : ℕ) (o : Outcome (Unit {0})) (r' : Run S) (journal : List Act)
      (rest : Result c digit)
      → r'.journal ≡ journal ++ create_at j (succeeded o) ∷ []
      → (o ≡ ret tt → Planned count (suc j) (journal ++ create_at j true ∷ []) rest)
      → Planned (suc count) j journal (elim o [ ret _ ↦ rest | raise e ↦ (raise e, r') ])
  after_checked count j (ret u) r' journal rest left next =
      Planned-next count j journal rest (next refl)
  after_checked count j (raise e) r' journal rest left next =
      let same : j ≡ j + 0 = omega arith in
      inr (0, e, omega arith, refl, left ∙ ap (λ i. journal ++ create_at i false ∷ []) same)

  checked-journal :
      (j : ℕ) (r : Run S) (count : ℕ) (rest : Result c digit)
      → let (o, r') =
          create_checked c digit
            (name_of (month_at j))
            (day_text (month_at j))
            (day_text (month_at (suc j)))
            r in
        Planned count (suc j) r'.journal rest
        → Planned (suc count) j r.journal (elim o [ ret _ ↦ rest | raise e ↦ (raise e, r') ])
  unfolding create_checked
  checked-journal j r count rest next =
      let (o, s) =
        c.create_table (name_of (month_at j)) (day_text (month_at j)) (day_text (month_at (suc j)))
          r.world in
      let r' : Run S = record {
        world = s;
        journal = r.journal ++ create_at j (succeeded o) ∷ [];
      } in
      after_checked count j o r' r.journal rest refl (λ ok. rw ok at next)

  create_months-step :
      (now : Date) (left i : ℕ) (r : Run S) (x : Result c digit)
      → create_month c digit now i r ≡ x
      → create_months c digit now (suc left) i r
        ≡ elim x.0 [ ret _ ↦ create_months c digit now left (suc i) x.1 | raise e ↦ (raise e, x.1) ]
  unfolding create_months
  create_months-step now left i r x e =
      ap
        (λ (y : Result c digit). elim y.0 [
          | ret _ ↦ create_months c digit now left (suc i) y.1
          | raise e ↦ (raise e, y.1)
        ])
        e

  -- The months of `range(create_months + 1)` get their partitions, one after the other and without
  -- a gap: the end of each is the start of the next. The run stops early only at a statement that
  -- the database refuses. It takes a `now` whose year has four digits, a last month before that of
  -- December 9999, and a digit test that knows the digits of ASCII and not the underscore.
  pub create_months-Planned :
      (now : Date) (left i : ℕ) (r : Run S)
      → IsMonth now
      → 1000 ≤ now.year
      → index now + i + left ≤ 119999
      → Planned left (index now + i) r.journal (create_months c digit now left i r)
  create_months-Planned now zero i r m low high =
      unfold create_months in inl (refl, sym (append-nil r.journal))
  create_months-Planned now (suc left) i r m low high =
      let j = index now + i in
      let x =
        create_checked c digit (name_of (month_at j)) (day_text (month_at j))
          (day_text (month_at (suc j))) r in
      let shift : index now + suc i ≡ suc j = omega arith in
      let ih = rw shift at (create_months-Planned now left (suc i) x.1 m low (omega arith)) in
      let step =
        create_months-step now left i r x
          (create_month-checked now i r m (omega arith) (omega arith)) in
      subst (λ y. Planned (suc left) j r.journal y) (sym step) (checked-journal j r left _ ih)
