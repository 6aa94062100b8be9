-- ===== src/Partitions/Manage.antt =====
-- scripts/manage_partitions.py: `manage_partitions`.
use log_foundry.Prelude.{
  ℕ, zero, suc, Bool, true, false, ◌&&◌, ◌||◌, ltb, ◌==◌, if◌then◌else◌, Option, none, some, List,
  [], ◌∷◌, ◌++◌, Outcome, ret, raise, value_error,
}
use log_foundry.Prelude.Int.{ℤ, pos, negsuc}
use log_foundry.Partitions.Calendar.{Date, datetime, add_months}
use log_foundry.Partitions.Names.{Text, name_of, day_text, name_parts, is_day}

-- What is done to the tables: a partition is created from a day to another one, or dropped, and
-- whether the statement succeeded.
pub data Act : Type 0 where
  create : Text → Text → Text → Bool → Act
  drop : Text → Bool → Act

-- The calls of the connection. Nothing is assumed of them.
pub record Connection (S : Type 0) : Type 0 where
  pub connect : S → Outcome (Unit {0}) × S
  -- `CREATE TABLE IF NOT EXISTS … PARTITION OF logs FOR VALUES FROM … TO …`
  pub create_table : Text → Text → Text → S → Outcome (Unit {0}) × S
  -- the names of the partitions of `logs`
  pub fetch : S → Outcome (List Text) × S
  -- `DROP TABLE IF EXISTS …`
  pub drop_table : Text → S → Outcome (Unit {0}) × S
  pub close : S → Outcome (Unit {0}) × S

pub record Run (S : Type 0) : Type 0 where
  pub world : S
  pub journal : List Act

abbrev pub succeeded {ℓ} : {A : Type ℓ} → Outcome A → Bool
succeeded (ret a) = true
succeeded (raise e) = false

-- `p_date < cutoff`
unfoldable pub before : Date → Date → Bool
before a b =
    ltb a.year b.year
    || ((a.year == b.year) && (ltb a.month b.month || ((a.month == b.month) && ltb a.day b.day)))

-- `-z`
abbrev pub negate : ℕ → ℤ
negate zero = pos zero
negate (suc n) = negsuc n

module _ (digit : ℕ → Option ℕ) where
  -- The date that a name stands for; an error is only logged.
  unfoldable pub date_of : Text → Option Date
  unfolding name_parts datetime
  date_of name = elim (name_parts digit name) [
    | none ↦ none
    | some (year, month) ↦ elim (datetime (pos year) month) [ raise e ↦ none | ret d ↦ some d ]
  ]

module _ {S : Type 0} (c : Connection S) (digit : ℕ → Option ℕ) where
  abbrev pub Result : Type 0
  Result = Outcome (Unit {0}) × Run S

  -- The statement for one month, once its name and days are checked.
  unfoldable pub create_checked : Text → Text → Text → Run S → Result
  create_checked name start end r =
      let (o, s) = c.create_table name start end r.world in
      (o, record { world = s; journal = r.journal ++ create name start end (succeeded o) ∷ [] })

  unfoldable pub create_partition : Text → Text → Text → Run S → Result
  unfolding create_checked name_parts is_day
  create_partition name start end r = elim (name_parts digit name) [
    | none ↦ (raise value_error, r)
    | some _ ↦
        if is_day digit start && is_day digit end
        then create_checked name start end r
        else (raise value_error, r)
  ]

  -- One round of the loop over the months from `now` on.
  unfoldable pub create_month : Date → ℕ → Run S → Result
  unfolding create_partition add_months name_of day_text
  create_month now i r = elim (add_months now (pos i)) [
    | raise e ↦ (raise e, r)
    | ret start ↦ elim (add_months start (pos 1)) [
      | raise e ↦ (raise e, r)
      | ret end ↦ create_partition (name_of start) (day_text start) (day_text end) r
    ]
  ]

  -- `for i in range(create_months + 1)`: the rounds that are left, from number `i` on.
  unfoldable pub create_months : Date → ℕ → ℕ → Run S → Result
  unfolding create_month
  create_months now zero i r = (ret tt, r)
  create_months now (suc left) i r =
      let (o, r') = create_month now i r in
      let rest = create_months now left (suc i) r' in
      elim o [ ret _ ↦ rest | raise e ↦ (raise e, r') ]

  -- One row of the partitions: an error of the statement is only logged.
  unfoldable pub drop_partition : Date → Text → Run S → Run S
  unfolding date_of before
  drop_partition cutoff name r = elim (date_of digit name) [
    | none ↦ r
    | some d ↦
        let (o, s) = c.drop_table name r.world in
        if before d cutoff
        then record { world = s; journal = r.journal ++ drop name (succeeded o) ∷ [] }
        else r
  ]

  unfoldable pub drop_partitions : Date → List Text → Run S → Run S
  unfolding drop_partition
  drop_partitions cutoff [] r = r
  drop_partitions cutoff (name ∷ names) r =
      drop_partitions cutoff names (drop_partition cutoff name r)

  -- The second part: the cutoff, and the partitions that are there.
  unfoldable pub enforce_retention : Date → ℕ → Run S → Result
  unfolding drop_partitions
  enforce_retention now retain r = elim (add_months now (negate retain)) [
    | raise e ↦ (raise e, r)
    | ret cutoff ↦
        let (o, s) = c.fetch r.world in
        elim o [
          | raise e ↦ (raise e, record r { world = s })
          | ret names ↦ (ret tt, drop_partitions cutoff names (record r { world = s }))
        ]
  ]

  abbrev pub after_create : Date → ℕ → Result → Result
  after_create now retain (ret _, r) = enforce_retention now retain r
  after_create now retain (raise e, r) = (raise e, r)

  -- `finally: await conn.close()`, whose own error comes out before the one of the body.
  abbrev pub close_connection : Result → Result
  close_connection (o, r) =
      let (o', s) = c.close r.world in
      (elim o' [ ret _ ↦ o | raise e ↦ raise e ], record r { world = s })

  abbrev pub after_connect : Date → ℕ → ℕ → Result → Result
  after_connect now ahead retain (raise e, r) = (raise e, r)
  after_connect now ahead retain (ret _, r) =
      close_connection (after_create now retain (create_months now (suc ahead) 0 r))

  unfoldable pub manage_partitions : ℤ → ℤ → Date → Run S → Result
  unfolding create_months enforce_retention
  manage_partitions (negsuc n) retain now r = (raise value_error, r)
  manage_partitions (pos ahead) (negsuc n) now r = (raise value_error, r)
  manage_partitions (pos ahead) (pos retain) now r =
      let (o, s) = c.connect r.world in after_connect now ahead retain (o, record r { world = s })
