-- ===== src/Metrics/Totals.antt =====
-- consumers/metrics_consumer.py: what the counters come to after many messages.
use log_foundry.Prelude.{
  ℕ, ◌+◌, ◌≡◌, sym, subst, String, List, [], ◌∷◌, map, length, arith, Dict, Outcome, ret, raise,
  Outcome-cases, inl, inr, ret-ne-raise, lookup, Option, some, none, if◌then◌else◌, str_eq, eq_iff,
  Bool, keep,
}
use log_foundry.Consumers.Kafka.{Message}
use log_foundry.Consumers.Payload.{Reader}
use log_foundry.Metrics.Redis.{Redis, raise_by, obey, obey_all, Counters}
use log_foundry.Metrics.Count.{names_of, pipeline, process}

-- What a name counts, 0 if it was never raised.
abbrev pub held_or_0 : Option ℕ → ℕ
held_or_0 none = 0
held_or_0 (some n) = n

abbrev pub held : String → Dict ℕ → ℕ
held name d = held_or_0 (lookup name d)

-- The sum of the counters whose names pass a test.
abbrev pub weigh : (String → Bool) → Dict ℕ → ℕ
weigh p [] = 0
weigh p ((name, n) ∷ rest) = let more = weigh p rest in if p name then n + more else more

pub weigh-raise_by :
    (p : String → Bool) (name : String) (n : ℕ) (d : Dict ℕ)
    → weigh p (raise_by name n d) ≡ weigh p d + (if p name then n else 0)
unfolding raise_by
weigh-raise_by p name n [] = ground arith
weigh-raise_by p name n ((other, old) ∷ rest) =
    ground (arith, eq_iff other name, weigh-raise_by p name n rest)

held-raise_by :
    (name asked : String) (n : ℕ) (d : Dict ℕ)
    → held asked (raise_by name n d) ≡ held asked d + (if str_eq name asked then n else 0)
unfolding raise_by lookup
held-raise_by name asked n [] = ground (arith, eq_iff name asked)
held-raise_by name asked n ((other, old) ∷ rest) = ground (
  arith,
  eq_iff other asked,
  eq_iff other name,
  eq_iff name asked,
  held-raise_by name asked n rest,
)

abbrev pub total : Counters → ℕ
total c = held "metrics:total" c.keys

-- A hash that counts each of some names once more, whichever names one looks at.
abbrev pub Grows : List String → Dict ℕ → Dict ℕ → Type 0
Grows names before after =
    (p : String → Bool) → weigh p after ≡ weigh p before + length (keep p names)

pub record Counted (names : List (String × String × String)) (before after : Counters)
    : Type 0 where
  pub events : total after ≡ total before + length names
  pub services :
      Grows
        (map (λ n. n.0) names)
        (before.hashes "metrics:services")
        (after.hashes "metrics:services")
  pub levels :
      Grows (map (λ n. n.1) names) (before.hashes "metrics:levels") (after.hashes "metrics:levels")
  pub service_levels :
      Grows
        (map (λ n. n.2) names)
        (before.hashes "metrics:service_levels")
        (after.hashes "metrics:service_levels")

Grows-nil : (d : Dict ℕ) → Grows [] d d
Grows-nil d p = omega arith

Grows-cons :
    (name : String) (names : List String) (before after : Dict ℕ)
    → Grows names (raise_by name 1 before) after
    → Grows (name ∷ names) before after
Grows-cons name names before after h p = ground (arith, h p, weigh-raise_by p name 1 before)

Counted-cons :
    (n : String × String × String) (ns : List (String × String × String)) (before after : Counters)
    → Counted ns (obey_all (pipeline n) before) after
    → Counted (n ∷ ns) before after
unfolding pipeline obey_all obey raise_by
Counted-cons n ns before after h = record {
  events = omega (arith, h.events, held-raise_by "metrics:total" "metrics:total" 1 before.keys);
  services = Grows-cons n.0 _ _ _ h.services;
  levels = Grows-cons n.1 _ _ _ h.levels;
  service_levels = Grows-cons n.2 _ _ _ h.service_levels;
}

module _ {S : Type 0} (rd : Reader) (redis : Redis S) where
  -- The messages one after the other, up to one that raises.
  abbrev pub process_all : List Message → S → Outcome (Unit {0}) × S
  process_all [] s = (ret tt, s)
  process_all (m ∷ ms) s =
      let (o, s') = process rd redis m s in
      let rest = process_all ms s' in elim o [ ret done ↦ rest | raise e ↦ (raise e, s') ]

  -- The names that the messages count under.
  abbrev pub all_names : List Message → List (String × String × String)
  all_names [] = []
  all_names (m ∷ ms) =
      let rest = all_names ms in elim (names_of rd m) [ ret n ↦ n ∷ rest | raise e ↦ rest ]

  process-obeys :
      (m : Message) (s : S)
      → (process rd redis m s).0 ≡ ret tt
      → (n : String × String × String) × (names_of rd m ≡ ret n)
        × (redis.counters (process rd redis m s).1 ≡ obey_all (pipeline n) (redis.counters s))
  unfolding process
  process-obeys m s h = elim (Outcome-cases (names_of rd m)) [
    | inl (n, e) ↦
        (n, e, rw (e, process) (redis.execute-counters (pipeline n) s (rw (e, process) at h)))
    | inr (x, e) ↦ absurd (ret-ne-raise (sym (rw (e, process) at h)))
  ]

  -- After messages that are all processed without an error, the total has gone up by their number,
  -- and in each of the three hashes the counters of any selection of names have gone up, together,
  -- by the number of messages with such a name: so each of the hashes by the number of messages.
  pub process_all-Counted :
      (ms : List Message) (s : S)
      → (process_all ms s).0 ≡ ret tt
      → Counted (all_names ms) (redis.counters s) (redis.counters (process_all ms s).1)
  process_all-Counted [] s h = record {
    events = omega arith;
    services = Grows-nil _;
    levels = Grows-nil _;
    service_levels = Grows-nil _;
  }
  process_all-Counted (m ∷ ms) s h = elim (Outcome-cases (process rd redis m s).0) [
    | inl (done, e) ↦
        let (n, f, obeyed) = process-obeys m s e in
        rw (f, e, all_names, process_all)
          (Counted-cons n _ _ _ (
            subst
              (λ c.
                Counted (all_names ms) c
                  (redis.counters (process_all ms (process rd redis m s).1).1))
              obeyed (process_all-Counted ms (process rd redis m s).1 (rw (e, process_all) at h))))
    | inr (x, e) ↦ absurd (ret-ne-raise (sym (rw (e, process_all) at h)))
  ]
