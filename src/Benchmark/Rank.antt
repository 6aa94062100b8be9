-- ===== src/Benchmark/Rank.antt =====
-- scripts/benchmark_throughput.py: the percentiles and the counts of the report.
use log_foundry.Prelude.{
  ℕ, zero, suc, ◌+◌, ◌*◌, ◌/◌, ◌≤◌, ◌<◌, ◌≡◌, refl, sym, ap, ltb, leb, ◌==◌, if◌then◌else◌, List,
  [], ◌∷◌, length, All, ret, arith, subst, ret_inj, ret-ne-raise,
}
use log_foundry.Benchmark.Sorted.{
  count_by, count_by-sort, IsSorted, sort-IsSorted, length-sort, get_elem_total,
}
use log_foundry.Benchmark.Report.{
  get_count, set_count, count_statuses, latencies_of, sort, get_elem, percentile, Report, report,
}

none_below : (x : ℕ) (ys : List ℕ) → All (λ y. x ≤ y) ys → count_by (λ z. ltb z x) ys ≡ 0
none_below x [] a = refl
none_below x (y ∷ ys) (h, a) = ground (arith, none_below x ys a)

All-get_elem : (b x : ℕ) (ys : List ℕ) (i : ℕ) → All (λ y. b ≤ y) ys → get_elem ys i ≡ ret x → b ≤ x
unfolding get_elem
All-get_elem b x [] i a e = absurd (ret-ne-raise (sym e))
All-get_elem b x (y ∷ ys) zero (h, a) e = subst (λ z. b ≤ z) (ret_inj e) h
All-get_elem b x (y ∷ ys) (suc i) (h, a) e = All-get_elem b x ys i a e

at_most_below :
    (x : ℕ) (ys : List ℕ) (i : ℕ)
    → IsSorted ys
    → get_elem ys i ≡ ret x
    → count_by (λ z. ltb z x) ys ≤ i
unfolding get_elem
at_most_below x [] i s e = absurd (ret-ne-raise (sym e))
at_most_below x (y ∷ ys) zero (a, s) e =
    let same = ret_inj e in
    let rest = none_below x ys (subst (λ z. All (λ w. z ≤ w) ys) same a) in ground arith
at_most_below x (y ∷ ys) (suc i) (a, s) e = ground (arith, at_most_below x ys i s e)

more_within :
    (x : ℕ) (ys : List ℕ) (i : ℕ)
    → IsSorted ys
    → get_elem ys i ≡ ret x
    → i < count_by (λ z. leb z x) ys
unfolding get_elem
more_within x [] i s e = absurd (ret-ne-raise (sym e))
more_within x (y ∷ ys) zero (a, s) e = let same = ret_inj e in ground arith
more_within x (y ∷ ys) (suc i) (a, s) e =
    ground (arith, more_within x ys i s e, All-get_elem y x ys i a e)

-- A percentile as it is printed: a latency times a thousand, with at most that share of the latencies
-- below it, and more of them at most as large.
pub record IsPercentile (percent : ℕ) (latencies : List ℕ) (printed : ℕ) : Type 0 where
  pub latency : ℕ
  pub same : printed ≡ latency * 1000
  pub below : count_by (λ z. ltb z latency) latencies ≤ length latencies * percent / 100
  pub within : length latencies * percent / 100 < count_by (λ z. leb z latency) latencies

share_lt : (n percent : ℕ) → 0 < n → percent < 100 → n * percent / 100 < n
share_lt n percent h k = let most : n * percent < n * 100 = grind arith in omega arith

percentile-IsPercentile :
    (percent : ℕ) (latencies : List ℕ)
    → 0 < length latencies
    → percent < 100
    → (p : ℕ) × (percentile percent (sort latencies) ≡ ret p) × IsPercentile percent latencies p
unfolding percentile
percentile-IsPercentile percent latencies some_latency small =
    let n = length latencies in
    let i = n * percent / 100 in
    let (x, e) =
      get_elem_total (sort latencies) i
        (omega (arith, length-sort latencies, share_lt n percent some_latency small)) in
    (
      x * 1000,
      rw (length-sort latencies, e) refl,
      record {
        latency = x;
        same = refl;
        below = omega (
          arith,
          count_by-sort (λ z. ltb z x) latencies,
          at_most_below x (sort latencies) i (sort-IsSorted latencies) e,
        );
        within = omega (
          arith,
          count_by-sort (λ z. leb z x) latencies,
          more_within x (sort latencies) i (sort-IsSorted latencies) e,
        );
      },
    )

get_count-set_count :
    (asked status n : ℕ) (dict : List (ℕ × ℕ))
    → get_count asked (set_count status n dict)
      ≡ (if status == asked then n else get_count asked dict)
unfolding get_count set_count
get_count-set_count asked status n [] = refl
get_count-set_count asked status n ((key, m) ∷ rest) =
    ground (arith, get_count-set_count asked status n rest)

-- The results with a status.
abbrev pub with_status : ℕ → List (ℕ × ℕ) → ℕ
with_status asked [] = 0
with_status asked ((status, latency) ∷ results) =
    (if status == asked then 1 else 0) + with_status asked results

get_count-count_statuses :
    (asked : ℕ) (results dict : List (ℕ × ℕ))
    → get_count asked (count_statuses dict results)
      ≡ get_count asked dict + with_status asked results
unfolding count_statuses
get_count-count_statuses asked [] dict = omega arith
get_count-count_statuses asked ((status, latency) ∷ results) dict = ground (
  arith,
  get_count-count_statuses asked results (set_count status (get_count status dict + 1) dict),
  get_count-set_count asked status (get_count status dict + 1) dict,
)

length-latencies_of : (results : List (ℕ × ℕ)) → length (latencies_of results) ≡ length results
unfolding latencies_of
length-latencies_of [] = refl
length-latencies_of ((status, latency) ∷ results) = ap suc (length-latencies_of results)

-- If there is a result, the report is made. The three numbers are percentiles of the latencies, and
-- each status is counted as often as it stands in the results.
pub report-IsPercentile :
    (results : List (ℕ × ℕ))
    → 0 < length results
    → (r : Report) × (report results ≡ ret r)
      × IsPercentile 50 (latencies_of results) r.p50
      × IsPercentile 95 (latencies_of results) r.p95
      × IsPercentile 99 (latencies_of results) r.p99
      × ((status : ℕ) → get_count status r.statuses ≡ with_status status results)
unfolding report get_count
report-IsPercentile results some_result =
    let some_latency : 0 < length (latencies_of results) =
      omega (arith, length-latencies_of results) in
    let (p50, e50, a) =
      percentile-IsPercentile 50 (latencies_of results) some_latency (omega arith) in
    let (p95, e95, b) =
      percentile-IsPercentile 95 (latencies_of results) some_latency (omega arith) in
    let (p99, e99, d) =
      percentile-IsPercentile 99 (latencies_of results) some_latency (omega arith) in
    (
      record { statuses = count_statuses [] results; p50 = p50; p95 = p95; p99 = p99 },
      rw (e50, e95, e99) refl,
      a,
      b,
      d,
      λ status. omega (arith, get_count-count_statuses status results []),
    )
