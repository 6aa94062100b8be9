-- ===== src/Benchmark/Tests.antt =====
-- The benchmark on concrete input.
use mathlib.Core.List.{Perm}
use log_foundry.Prelude.{
  ℕ, ◌+◌, ◌≤◌, ◌≡◌, refl, ◌⊎◌, true, List, [], ◌∷◌, length, ret, raise, other, ◌^^◌, suc, arith,
  decimal, none,
}
use log_foundry.Benchmark.Workers.{
  Event, World, fire_request, random_ip, post_and_read, events_from, workers_of, start, System,
  Step, begins, answers, Reach, here, next, begin_worker, end_request, get_nowait,
}
use log_foundry.Benchmark.Account.{all_done}
use log_foundry.Benchmark.Main.{report-Reach}
use log_foundry.Benchmark.Turns.{Reach-Ends}
use log_foundry.Benchmark.Report.{
  Report, report, get_count, count_statuses, set_count, sort, latencies_of, insert_sorted,
  percentile, get_elem, arguments, argument,
}
use log_foundry.Benchmark.Rank.{IsPercentile, with_status}

-- Two requests and one worker.
abbrev begun : System
begun = start (λ i. decimal i) 2 1

abbrev event : ℕ → Event
event i = record {
  id = decimal i;
  service = "benchmark";
  level = "INFO";
  message = "Benchmark event " ^^ decimal i;
  timestamp = "2026-06-20T10:00:00+00:00";
}

abbrev first : System
first = begin_worker [] [] begun

abbrev second : System
second = end_request [] [] (event 0) (202, 5) first

abbrev last : System
last = end_request [] [] (event 1) (0, 9) second

run : Reach begun 3 last
unfolding start events_from workers_of begin_worker end_request get_nowait
run =
    next (next (next here (begins [] [] begun refl)) (answers [] [] (event 0) (202, 5) first refl))
      (answers [] [] (event 1) (0, 9) second refl)

ended : all_done last.workers ≡ true
unfolding start events_from workers_of begin_worker end_request get_nowait
ended = refl

report-Reach_example :
    Perm last.answered (events_from (λ i. decimal i) 0 2)
    × (length last.results ≡ 2)
    × ((r : Report) × (report last.results ≡ ret r)
        × IsPercentile 50 (latencies_of last.results) r.p50
        × IsPercentile 95 (latencies_of last.results) r.p95
        × IsPercentile 99 (latencies_of last.results) r.p99
        × ((status : ℕ) → get_count status r.statuses ≡ with_status status last.results))
report-Reach_example = report-Reach (λ i. decimal i) 2 1 run (omega arith) (omega arith) ended

Reach-Ends_example : (3 ≤ 1 + 2) × ((all_done last.workers ≡ true) ⊎ ((u : System) × Step last u))
Reach-Ends_example = Reach-Ends (λ i. decimal i) 2 1 run

abbrev results : List (ℕ × ℕ)
results = (202, 5) ∷ (429, 2) ∷ (202, 9) ∷ []

reported :
    report results
    ≡ ret (record { statuses = (202, 2) ∷ (429, 1) ∷ []; p50 = 5000; p95 = 9000; p99 = 9000 })
unfolding report percentile get_elem sort insert_sorted latencies_of count_statuses set_count
    get_count
reported = refl

-- No request, no report: an IndexError.
nothing_to_report : report [] ≡ raise other
unfolding report percentile get_elem sort latencies_of
nothing_to_report = refl

defaults : arguments (λ t. raise other) none none ≡ ret (10000, 100)
unfolding arguments argument
defaults = refl

-- A clock that ticks at each reading, a server that answers 202.
abbrev world : World ℕ
world = record {
  randint = λ lo hi n. (lo, n);
  monotonic = λ n. (n, suc n);
  post = λ ip e n. (ret 202, n);
  read = λ n. (ret tt, n);
}

fired : (fire_request world (event 0) 3).0 ≡ (202, 1)
unfolding fire_request random_ip post_and_read
fired = refl
