-- ===== src/Partitions/Tests.antt =====
-- The partitions on concrete input.
use log_foundry.Prelude.{
  ℕ, ◌+◌, ◌-◌, ◌<◌, ◌≡◌, refl, leb, ◌&&◌, if◌then◌else◌, Option, none, some, List, [], ◌∷◌, keep,
  ret, raise, value_error, arith,
}
use log_foundry.Prelude.Int.{pos, negsuc, pos_part, ◌+ℤ◌}
use log_foundry.Partitions.Calendar.{
  Date, add_months, datetime, index, month_at, InRange, add_months_lem,
}
use log_foundry.Partitions.Names.{Text, logs, name_of, name_parts, name_parts-name_of}
use log_foundry.Partitions.Manage.{Connection, Run, create_months, enforce_retention}
use log_foundry.Partitions.Plan.{Planned, create_months-Planned}
use log_foundry.Partitions.Retention.{drops_of, is_before, enforce_retention_lem}

-- The digits of ASCII.
abbrev digit : ℕ → Option ℕ
digit c = if leb 48 c && leb c 57 then some (c - 48) else none

digit-ascii : (d : ℕ) → d < 10 → digit (48 + d) ≡ some d
digit-ascii d h = ground arith

abbrev today : Date
today = record { year = 2024; month = 11; day = 30 }

abbrev old : Text
old = name_of (record { year = 2024; month = 4; day = 1 })

abbrev recent : Text
recent = name_of (record { year = 2024; month = 5; day = 1 })

-- A database with two partitions and a table of another name.
abbrev database : Connection (List Text)
database = record {
  connect = λ s. (ret tt, s);
  create_table = λ name start end s. (ret tt, name ∷ s);
  fetch = λ s. (ret (old ∷ logs ∷ recent ∷ []), s);
  drop_table = λ name s. (raise value_error, s);
  close = λ s. (ret tt, s);
}

abbrev fresh : Run (List Text)
fresh = record { world = []; journal = [] }

two_years_ago : add_months today (negsuc 23) ≡ ret (record { year = 2022; month = 11; day = 1 })
unfolding add_months datetime ◌+ℤ◌
two_years_ago = refl

too_long_ago : add_months today (negsuc 24290) ≡ raise value_error
unfolding add_months datetime ◌+ℤ◌
too_long_ago = refl

add_months_lem_example :
    (InRange (pos (index today) +ℤ negsuc 23)
      → add_months today (negsuc 23) ≡ ret (month_at (pos_part (pos (index today) +ℤ negsuc 23))))
    × (¬ InRange (pos (index today) +ℤ negsuc 23)
        → add_months today (negsuc 23) ≡ raise value_error)
add_months_lem_example = add_months_lem today (negsuc 23) (omega arith, omega arith)

name_parts-name_of_example : name_parts digit (name_of today) ≡ some (2024, 11)
name_parts-name_of_example =
    name_parts-name_of digit digit-ascii refl today (omega arith) (omega arith)

create_months-Planned_example :
    Planned database digit digit-ascii refl 7
      (index today + 0)
      []
      (create_months database digit today 7 0 fresh)
create_months-Planned_example =
    create_months-Planned database digit digit-ascii refl today 7 0 fresh (omega arith, omega arith)
      (omega arith) (omega arith)

enforce_retention_lem_example :
    drops_of (enforce_retention database digit today 6 fresh).1.journal
    ≡ keep (is_before digit (index today - 6)) (old ∷ logs ∷ recent ∷ [])
enforce_retention_lem_example =
    enforce_retention_lem digit database today 6 fresh (old ∷ logs ∷ recent ∷ [])
      (omega arith, omega arith) (omega arith) (omega arith) refl
