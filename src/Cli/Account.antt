-- ===== src/Cli/Account.antt =====
-- sdk/cli.py: `tail` over its polls.
use log_foundry.Prelude.{
  ℕ, zero, suc, ◌+◌, ◌≤◌, ◌≡◌, ◌≢◌, refl, sym, ap, ◌∙◌, subst, String, false, Option, List, [], ◌∷◌,
  ◌++◌, length, length-append, append_assoc, append-nil, arith, Bool-cases, inl, inr, ltb, ltb→lt,
  Outcome, ret, raise, ret-ne-raise, Outcome-cases,
}
use log_foundry.Cli.Tail.{
  LogEntry, Options, Services, Run, filter_new, reversed, trim, api_request, next_since,
  print_entries, show_results, after_request, poll_once, tail_loop,
}
use log_foundry.Cli.Once.{
  times, ids, times-ids-append, times-ids-reversed, length-reversed, times-trim, trim_short,
  filter_new-length, filter_new-times, filter_new-le, filter_new-once, filter_new-all, length-trim,
}

from_results :
    (all before results : ℕ) → all ≡ before + results → 1 ≤ all → ltb 0 before ≡ false → 1 ≤ results
from_results all before results e h f = ground arith

module _ {S : Type 0} where
  -- The printed entries with an identifier, beside those that came in and those that are seen.
  pub record Accounts (x : String) (r : Run S) : Type 0 where
    pub once : times x r.seen_ids ≤ 1
    pub seen : times x r.seen_ids ≤ times x (ids r.printed)
    pub from_answers : times x (ids r.printed) ≤ times x (ids r.received)
    pub shown : x ≢ "" → 1 ≤ times x (ids r.received) → 1 ≤ times x (ids r.printed)
    pub all_seen : length r.printed ≤ 10000 → times x (ids r.printed) ≤ times x r.seen_ids
    pub few_seen : length r.seen_ids ≤ length r.printed

  Accounts-world :
      (x : String) (r : Run S) (s : S) → Accounts x r → Accounts x (record r { world = s })
  Accounts-world x r s a = record {
    once = a.once;
    seen = a.seen;
    from_answers = a.from_answers;
    shown = a.shown;
    all_seen = a.all_seen;
    few_seen = a.few_seen;
  }

  Accounts-trim :
      (x : String) (r : Run S) → Accounts x r → Accounts x (record r { seen_ids = trim r.seen_ids })
  Accounts-trim x r a = record {
    once = omega (arith, a.once, times-trim x r.seen_ids);
    seen = omega (arith, a.seen, times-trim x r.seen_ids);
    from_answers = a.from_answers;
    shown = a.shown;
    all_seen = λ h.
        subst (λ l. times x (ids r.printed) ≤ times x l)
          (sym (trim_short r.seen_ids (omega (arith, a.few_seen)))) (a.all_seen h);
    few_seen = omega (arith, a.few_seen, length-trim r.seen_ids);
  }

module _ {S : Type 0} (v : Services S) (o : Options) where
  -- A printing that goes through prints everything, and leaves the rest alone.
  pub record Prints (entries : List LogEntry) (r r' : Run S) : Type 0 where
    pub printed : r'.printed ≡ r.printed ++ entries
    pub seen_ids : r'.seen_ids ≡ r.seen_ids
    pub received : r'.received ≡ r.received

  print_entries-Prints :
      (entries : List LogEntry) (r : Run S)
      → (print_entries v o entries r).0 ≡ ret tt
      → Prints entries r (print_entries v o entries r).1
  unfolding print_entries
  print_entries-Prints [] r h = record {
    printed = sym (append-nil r.printed);
    seen_ids = refl;
    received = refl;
  }
  print_entries-Prints (entry ∷ entries) r h =
      elim (Outcome-cases (next_since v o r.since_dt entry.timestamp)) [
        | inr (x, e) ↦ absurd (ret-ne-raise (sym (rw (e, print_entries) at h)))
        | inl (since_dt, e) ↦
            let p =
              print_entries-Prints entries
                (record r { since_dt = since_dt; printed = r.printed ++ entry ∷ [] })
                (rw (e, print_entries) at h) in
            rw (e, print_entries)
              (record {
                printed = p.printed ∙ append_assoc r.printed (entry ∷ []) entries;
                seen_ids = p.seen_ids;
                received = p.received;
              })
      ]

  module _ (x : String) where
    -- One answer.
    show_results-Accounts :
        (results : List LogEntry) (r : Run S)
        → Accounts x r
        → (show_results v o results r).0 ≡ ret tt
        → Accounts x (show_results v o results r).1
    unfolding show_results
    show_results-Accounts results r a h =
        let (seen, entries) = filter_new r.seen_ids results in
        let r' = (show_results v o results r).1 in
        let p =
          print_entries-Prints (reversed entries)
            (record r { seen_ids = seen; received = r.received ++ results }) h in
        let printed : times x (ids r'.printed) ≡ times x (ids r.printed) + times x (ids entries) =
          ap (λ l. times x (ids l)) p.printed
          ∙ times-ids-append x r.printed (reversed entries)
          ∙ ap (λ n. times x (ids r.printed) + n) (times-ids-reversed x entries) in
        let received : times x (ids r'.received)
            ≡ times x (ids r.received) + times x (ids results) =
          ap (λ l. times x (ids l)) p.received ∙ times-ids-append x r.received results in
        let seen_ids = ap (times x) p.seen_ids ∙ filter_new-times x r.seen_ids results in
        let count =
          ap (λ l. length l) p.printed
          ∙ length-append r.printed (reversed entries)
          ∙ ap (λ n. length r.printed + n) (length-reversed entries) in
        let size = ap (λ l. length l) p.seen_ids ∙ filter_new-length r.seen_ids results in
        record {
          once =
              omega (arith, ap (times x) p.seen_ids, filter_new-once x r.seen_ids results a.once);
          seen = omega (arith, a.seen, seen_ids, printed);
          from_answers =
              omega (arith, a.from_answers, printed, received, filter_new-le x r.seen_ids results);
          shown = λ named here. elim (Bool-cases (ltb 0 (times x (ids r.received)))) [
            | inl e ↦ omega (arith, printed, a.shown named (ltb→lt 0 _ e))
            | inr e ↦ omega (
              arith,
              printed,
              a.seen,
              filter_new-times x r.seen_ids results,
              filter_new-all x r.seen_ids results named (from_results _ _ _ received here e),
            )
          ];
          all_seen = λ few. omega (arith, a.all_seen (omega (arith, count)), seen_ids, printed);
          few_seen = omega (arith, a.few_seen, size, count);
        }

    after_request-Accounts :
        (results : Outcome (List LogEntry)) (r : Run S)
        → Accounts x r
        → (after_request v o results r).0 ≡ ret tt
        → Accounts x (after_request v o results r).1
    after_request-Accounts (ret results) r a h = show_results-Accounts results r a h
    after_request-Accounts (raise e) r a h = a

    poll_once-Accounts :
        (r : Run S) → Accounts x r → (poll_once v o r).0 ≡ ret tt → Accounts x (poll_once v o r).1
    unfolding poll_once
    poll_once-Accounts r a h =
        let (results, s) = api_request v o r.since_dt r.world in
        after_request-Accounts results (record r { world = s }) (Accounts-world x r s a) h

    tail_loop-Accounts :
        (polls : ℕ) (r : Run S)
        → Accounts x r
        → (tail_loop v o polls r).0 ≡ ret tt
        → Accounts x (tail_loop v o polls r).1
    unfolding tail_loop show_results
    tail_loop-Accounts zero r a h = a
    tail_loop-Accounts (suc polls) r a h = elim (Outcome-cases (poll_once v o r).0) [
      | inr (e, f) ↦ absurd (ret-ne-raise (sym (rw (f, tail_loop) at h)))
      | inl (ok, f) ↦
          let r' = (poll_once v o r).1 in
          let after = poll_once-Accounts r a f in
          elim (Bool-cases o.follow) [
            | inl g ↦
                rw (f, g, tail_loop)
                  (tail_loop-Accounts polls (record r' { seen_ids = trim r'.seen_ids })
                    (Accounts-trim x r' after) (rw (f, g, tail_loop) at h))
            | inr g ↦ rw (f, g, tail_loop) after
          ]
    ]

-- The variables at the start.
abbrev pub start : {S : Type 0} → S → Option ℕ → Run S
start s since_dt = record {
  world = s;
  since_dt = since_dt;
  seen_ids = [];
  received = [];
  printed = [];
}

module _ {S : Type 0} (v : Services S) (o : Options) (polls : ℕ) (s : S) (since_dt : Option ℕ) where
  start-Accounts : (x : String) → Accounts x (start s since_dt)
  start-Accounts x = record {
    once = omega arith;
    seen = omega arith;
    from_answers = omega arith;
    shown = λ named here. here;
    all_seen = λ h. omega arith;
    few_seen = omega arith;
  }

  -- If no error stops the command and at most 10000 entries were printed, an entry with an
  -- identifier that came in any answer was printed exactly once, however often it came.
  pub tail_loop-once :
      (x : String)
      → x ≢ ""
      → (tail_loop v o polls (start s since_dt)).0 ≡ ret tt
      → 1 ≤ times x (ids (tail_loop v o polls (start s since_dt)).1.received)
      → length (tail_loop v o polls (start s since_dt)).1.printed ≤ 10000
      → times x (ids (tail_loop v o polls (start s since_dt)).1.printed) ≡ 1
  tail_loop-once x named h here few =
      let a = tail_loop-Accounts v o x polls (start s since_dt) (start-Accounts x) h in
      omega (arith, a.shown named here, a.all_seen few, a.once)
