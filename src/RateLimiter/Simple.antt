-- ===== src/RateLimiter/Simple.antt =====
-- A server that meets the laws of `SortedSets`: a list of members with their keys, and the times
-- at which keys fall due.
use log_foundry.Prelude.{
  ℕ, ◌+◌, ◌*◌, ◌≤◌, String, ◌≡◌, refl, ap, ◌⊎◌, inl, inr, Bool, false, not, ◌&&◌, none, some, List,
  [], ◌∷◌, leb, if◌then◌else◌, str_eq, eq_iff, arith, lookup, Dict, keep, Bool-cases, Option-cases,
}
use log_foundry.Prelude.Int.{ℤ}
use log_foundry.RateLimiter.Redis.{SortedSets, Entry, bit, tally, any, named, within_range}

pub record Item : Type 0 where
  pub key : String
  pub entry : Entry

pub record Server : Type 0 where
  pub items : List Item
  pub dues : Dict ℕ
  pub clock : ℕ

abbrev pub entries_of : String → List Item → List Entry
entries_of j [] = []
entries_of j (i ∷ is) =
    let rest = entries_of j is in if str_eq i.key j then i.entry ∷ rest else rest

abbrev is_due : Dict ℕ → ℕ → String → Bool
is_due dues t k = elim (lookup k dues) [ none ↦ false | some d ↦ leb d t ]

unfoldable pub zremrangebyscore : String → ℕ → ℤ → Server → Server
zremrangebyscore k lo hi s = record s {
  items = keep (λ i. not (str_eq i.key k && within_range lo hi i.entry)) s.items;
}

unfoldable pub zadd : String → ℕ → String → Server → Server
zadd k score m s = record s {
  items =
      record { key = k; entry = record { name = m; score = score } }
      ∷ keep (λ i. not (str_eq i.key k && named m i.entry)) s.items;
}

unfoldable pub expire : String → ℕ → Server → Server
expire k seconds s = record s { dues = (k, s.clock + seconds * 1000) ∷ s.dues }

unfoldable pub advance : ℕ → Server → Server
advance t s = record s { items = keep (λ i. not (is_due s.dues t i.key)) s.items; clock = t }

tally-keep :
    (k j : String) (q p : Entry → Bool) (is : List Item)
    → tally p (entries_of j (keep (λ i. not (str_eq i.key k && q i.entry)) is)) ≡ (
        if str_eq k j
        then tally (λ e. p e && not (q e)) (entries_of j is)
        else tally p (entries_of j is))
tally-keep k j q p [] = ground arith
tally-keep k j q p (i ∷ is) =
    ground (arith, eq_iff i.key k, eq_iff i.key j, eq_iff k j, tally-keep k j q p is)

tally-add :
    (k j : String) (score : ℕ) (m : String) (p : Entry → Bool) (is : List Item)
    → tally p (
        entries_of j (
          record { key = k; entry = record { name = m; score = score } }
          ∷ keep (λ i. not (str_eq i.key k && named m i.entry)) is))
      ≡ (if str_eq k j
          then bit (p (record { name = m; score = score }))
            + tally (λ e. p e && not (named m e)) (entries_of j is)
          else tally p (entries_of j is))
tally-add k j score m p is = ground (arith, tally-keep k j (named m) p is)

entries-due :
    (j : String) (dues : Dict ℕ) (t : ℕ) (is : List Item)
    → entries_of j (keep (λ i. not (is_due dues t i.key)) is)
      ≡ (if is_due dues t j then [] else entries_of j is)
entries-due j dues t [] = ground arith
entries-due j dues t (i ∷ is) = ground (arith, eq_iff i.key j, entries-due j dues t is)

pub entries-advance :
    (j : String) (t : ℕ) (s : Server)
    → (entries_of j (advance t s).items ≡ entries_of j s.items)
      ⊎ ((d : ℕ) × (lookup j s.dues ≡ some d) × (d ≤ t) × (entries_of j (advance t s).items ≡ []))
unfolding advance
entries-advance j t s = elim (Option-cases (lookup j s.dues)) [
  | inl never ↦ inl (ground (arith, entries-due j s.dues t s.items))
  | inr (d, due) ↦ elim (Bool-cases (leb d t)) [
    | inl past ↦ inr (d, due, ground arith, ground (arith, entries-due j s.dues t s.items))
    | inr later ↦ inl (ground (arith, entries-due j s.dues t s.items))
  ]
]

pub tally-zremrangebyscore :
    (k j : String) (lo : ℕ) (hi : ℤ) (p : Entry → Bool) (s : Server)
    → tally p (entries_of j (zremrangebyscore k lo hi s).items) ≡ (
        if str_eq k j
        then tally (λ e. p e && not (within_range lo hi e)) (entries_of j s.items)
        else tally p (entries_of j s.items))
unfolding zremrangebyscore
tally-zremrangebyscore k j lo hi p s = tally-keep k j (within_range lo hi) p s.items

pub tally-zadd :
    (k j : String) (score : ℕ) (m : String) (p : Entry → Bool) (s : Server)
    → tally p (entries_of j (zadd k score m s).items) ≡ (
        if str_eq k j
        then bit (p (record { name = m; score = score }))
          + tally (λ e. p e && not (named m e)) (entries_of j s.items)
        else tally p (entries_of j s.items))
unfolding zadd
tally-zadd k j score m p s = tally-add k j score m p s.items

-- What each command does to the other parts of the server.
pub zremrangebyscore-rest :
    (k : String) (lo : ℕ) (hi : ℤ) (s : Server)
    → ((zremrangebyscore k lo hi s).dues ≡ s.dues) × ((zremrangebyscore k lo hi s).clock ≡ s.clock)
unfolding zremrangebyscore
zremrangebyscore-rest k lo hi s = (refl, refl)

pub zadd-rest :
    (k : String) (score : ℕ) (m : String) (s : Server)
    → ((zadd k score m s).dues ≡ s.dues) × ((zadd k score m s).clock ≡ s.clock)
unfolding zadd
zadd-rest k score m s = (refl, refl)

pub expire-rest :
    (k : String) (seconds : ℕ) (s : Server)
    → ((expire k seconds s).items ≡ s.items) × ((expire k seconds s).clock ≡ s.clock)
unfolding expire
expire-rest k seconds s = (refl, refl)

pub lookup-expire :
    (k j : String) (seconds : ℕ) (s : Server)
    → lookup j (expire k seconds s).dues
      ≡ (if str_eq k j then some (s.clock + seconds * 1000) else lookup j s.dues)
unfolding expire lookup
lookup-expire k j seconds s = refl

pub advance-rest : (t : ℕ) (s : Server) → ((advance t s).dues ≡ s.dues) × ((advance t s).clock ≡ t)
unfolding advance
advance-rest t s = (refl, refl)

-- The commands meet the laws.
abbrev pub simple : SortedSets
simple = record {
  Store = Server;
  zremrangebyscore = zremrangebyscore;
  zcard = λ k s. tally any (entries_of k s.items);
  zadd = zadd;
  expire = expire;
  advance = advance;
  entries = λ k s. entries_of k s.items;
  deadline = λ k s. lookup k s.dues;
  clock = λ s. s.clock;
  zcard-tally = λ k s. refl;
  tally-zremrangebyscore = tally-zremrangebyscore;
  tally-zadd = tally-zadd;
  entries-expire = λ k j seconds s. ap (entries_of j) (expire-rest k seconds s).0;
  entries-advance = entries-advance;
  deadline-zremrangebyscore =
      λ k j lo hi s. inl (ap (lookup j) (zremrangebyscore-rest k lo hi s).0);
  deadline-zadd = λ k j score m s. ap (lookup j) (zadd-rest k score m s).0;
  deadline-expire = lookup-expire;
  deadline-advance = λ j t s. inl (ap (lookup j) (advance-rest t s).0);
  clock-zremrangebyscore = λ k lo hi s. (zremrangebyscore-rest k lo hi s).1;
  clock-zadd = λ k score m s. (zadd-rest k score m s).1;
  clock-expire = λ k seconds s. (expire-rest k seconds s).1;
  clock-advance = λ t s le. (advance-rest t s).1;
}
