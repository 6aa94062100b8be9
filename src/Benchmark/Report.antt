-- ===== src/Benchmark/Report.antt =====
-- scripts/benchmark_throughput.py: what `main` makes of the results. A latency is a number of some
-- small part of a second; the printed one, a thousand times as many, is in the same part of a
-- millisecond. `int(n * 0.95)` is `n * 95 / 100`, which floating point numbers agree with below 2^48.
use log_foundry.Prelude.{
  ℕ, zero, suc, ◌+◌, ◌*◌, ◌/◌, ◌==◌, leb, if◌then◌else◌, String, Option, none, some, List, [], ◌∷◌,
  length, Outcome, ◌>>=◌, ret, raise, other,
}
use log_foundry.Prelude.Int.{ℤ, pos, pos_part}

-- `statuses.get(status, 0)`
unfoldable pub get_count : ℕ → List (ℕ × ℕ) → ℕ
get_count status [] = 0
get_count status ((key, n) ∷ rest) = if key == status then n else get_count status rest

-- `statuses[status] = n`
unfoldable pub set_count : ℕ → ℕ → List (ℕ × ℕ) → List (ℕ × ℕ)
set_count status n [] = (status, n) ∷ []
set_count status n ((key, m) ∷ rest) =
    if key == status then (key, n) ∷ rest else (key, m) ∷ set_count status n rest

-- The loop over the results.
unfoldable pub count_statuses : List (ℕ × ℕ) → List (ℕ × ℕ) → List (ℕ × ℕ)
unfolding get_count set_count
count_statuses statuses [] = statuses
count_statuses statuses ((status, latency) ∷ results) =
    count_statuses (set_count status (get_count status statuses + 1) statuses) results

unfoldable pub latencies_of : List (ℕ × ℕ) → List ℕ
latencies_of [] = []
latencies_of ((status, latency) ∷ results) = latency ∷ latencies_of results

-- `latencies.sort()`
unfoldable pub insert_sorted : ℕ → List ℕ → List ℕ
insert_sorted x [] = x ∷ []
insert_sorted x (y ∷ ys) = if leb x y then x ∷ y ∷ ys else y ∷ insert_sorted x ys

unfoldable pub sort : List ℕ → List ℕ
unfolding insert_sorted
sort [] = []
sort (x ∷ xs) = insert_sorted x (sort xs)

-- `l[i]`, an IndexError out of range.
unfoldable pub get_elem : List ℕ → ℕ → Outcome ℕ
get_elem [] i = raise other
get_elem (x ∷ xs) zero = ret x
get_elem (x ∷ xs) (suc i) = get_elem xs i

-- `latencies[int(len(latencies) * percent / 100)] * 1000`
unfoldable pub percentile : ℕ → List ℕ → Outcome ℕ
unfolding get_elem
percentile percent latencies = do
  x ← get_elem latencies (length latencies * percent / 100)
  ret (x * 1000)

pub record Report : Type 0 where
  pub statuses : List (ℕ × ℕ)
  pub p50 : ℕ
  pub p95 : ℕ
  pub p99 : ℕ

unfoldable pub report : List (ℕ × ℕ) → Outcome Report
unfolding count_statuses latencies_of sort percentile
report results = do
  p50 ← percentile 50 (sort (latencies_of results))
  p95 ← percentile 95 (sort (latencies_of results))
  p99 ← percentile 99 (sort (latencies_of results))
  ret (record { statuses = count_statuses [] results; p50 = p50; p95 = p95; p99 = p99 })

-- `int(sys.argv[i]) if len(sys.argv) > i else default`, with Python's `int`.
unfoldable pub argument : (String → Outcome ℤ) → Option String → ℕ → Outcome ℤ
argument int none default = ret (pos default)
argument int (some t) default = int t

-- The number of requests and of workers: `range` of a negative number is empty.
unfoldable pub arguments : (String → Outcome ℤ) → Option String → Option String → Outcome (ℕ × ℕ)
unfolding argument
arguments int first second = do
  num_requests ← argument int first 10000
  concurrency ← argument int second 100
  ret (pos_part num_requests, pos_part concurrency)
