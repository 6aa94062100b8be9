-- ===== src/Benchmark/Main.antt =====
-- scripts/benchmark_throughput.py, `main`: the report after the workers have ended.
use mathlib.Core.List.{Perm}
use log_foundry.Prelude.{ℕ, ◌<◌, ◌≡◌, String, true, length, ret, arith}
use log_foundry.Benchmark.Workers.{System, events_from, start, Reach}
use log_foundry.Benchmark.Account.{all_done}
use log_foundry.Benchmark.Ends.{Reach-Counts}
use log_foundry.Benchmark.Report.{get_count, latencies_of, Report, report}
use log_foundry.Benchmark.Rank.{IsPercentile, with_status, report-IsPercentile}

-- With a request and a worker at least, and whatever the order in which the answers come: when all
-- workers have ended, every event was answered once, there is a result for each, and the report is
-- made. Its three numbers are the percentiles of the latencies, and each status is counted as often
-- as it stands in the results.
pub report-Reach :
    (uuid : ℕ → String) (num_requests concurrency : ℕ) {n : ℕ} {t : System}
    → Reach (start uuid num_requests concurrency) n t
    → 0 < num_requests
    → 0 < concurrency
    → all_done t.workers ≡ true
    → Perm t.answered (events_from uuid 0 num_requests)
      × (length t.results ≡ num_requests)
      × ((r : Report) × (report t.results ≡ ret r)
          × IsPercentile 50 (latencies_of t.results) r.p50
          × IsPercentile 95 (latencies_of t.results) r.p95
          × IsPercentile 99 (latencies_of t.results) r.p99
          × ((status : ℕ) → get_count status r.statuses ≡ with_status status t.results))
report-Reach uuid num_requests concurrency {t = t} run some_request some_worker ended =
    let (answered, size, tasks) =
      Reach-Counts uuid num_requests concurrency run some_worker ended in
    (answered, size, report-IsPercentile t.results (omega arith))
