-- ===== src/Benchmark/Ends.antt =====
-- scripts/benchmark_throughput.py: what is there when all workers have ended.
use mathlib.Core.List.{Perm}
use log_foundry.Prelude.{
  false-ne-true, ℕ, zero, suc, ◌+◌, ◌<◌, ◌≡◌, refl, ap, ◌∙◌, String, true, List, [], ◌∷◌, ◌++◌,
  length, length-append, append-nil, arith, length-perm,
}
use log_foundry.Benchmark.Account.{
  under_way, some_done, all_done, Accounts, Reach-Accounts, start-Accounts, length-events_from,
}
use log_foundry.Benchmark.Workers.{
  Event, Worker, ready, busy, done, System, events_from, workers_of, start, get_nowait,
  begin_worker, end_request, Step, begins, answers, Reach, here, next,
}

-- All workers have ended, and there is one.
all_done-idle : (workers : List Worker) → all_done workers ≡ true → under_way workers ≡ []
all_done-idle [] h = refl
all_done-idle (ready ∷ workers) h = absurd (false-ne-true h)
all_done-idle (busy e ∷ workers) h = absurd (false-ne-true h)
all_done-idle (done ∷ workers) h = all_done-idle workers h

all_done-some :
    (workers : List Worker)
    → 0 < length workers
    → all_done workers ≡ true
    → some_done workers ≡ true
all_done-some [] few h = absurd (omega arith)
all_done-some (ready ∷ workers) few h = absurd (false-ne-true h)
all_done-some (busy e ∷ workers) few h = absurd (false-ne-true h)
all_done-some (done ∷ workers) few h = refl

length-middle :
    (before after : List Worker) (w : Worker)
    → length (before ++ w ∷ after) ≡ suc (length before + length after)
length-middle before after w = omega (arith, length-append before (w ∷ after))

Step-length : {s t : System} → Step s t → length t.workers ≡ length s.workers
unfolding end_request begin_worker
Step-length (begins before after s e) = omega (
  arith,
  length-middle before after ready,
  length-middle before after (get_nowait s.queue).0,
  ap length e,
)
Step-length (answers before after event result s e) = omega (
  arith,
  length-middle before after (busy event),
  length-middle before after (get_nowait s.queue).0,
  ap length e,
)

Reach-length : {s : System} {n : ℕ} {t : System} → Reach s n t → length t.workers ≡ length s.workers
Reach-length here = refl
Reach-length (next r st) = Step-length st ∙ Reach-length r

length-workers_of : (n : ℕ) → length (workers_of n) ≡ n
unfolding workers_of
length-workers_of zero = refl
length-workers_of (suc n) = ap suc (length-workers_of n)

-- Whatever the order in which the answers come, when all workers have ended, and there was one,
-- every event of the benchmark was answered once, there is a result for each, and no task is
-- unfinished.
pub Reach-Counts :
    (uuid : ℕ → String) (num_requests concurrency : ℕ) {n : ℕ} {t : System}
    → Reach (start uuid num_requests concurrency) n t
    → 0 < concurrency
    → all_done t.workers ≡ true
    → Perm t.answered (events_from uuid 0 num_requests)
      × (length t.results ≡ num_requests)
      × (t.unfinished ≡ 0)
unfolding start
Reach-Counts uuid num_requests concurrency {n} {t} r some_worker ended =
    let all : List Event = events_from uuid 0 num_requests in
    let a : Accounts all t = Reach-Accounts all r (start-Accounts uuid num_requests concurrency) in
    let idle = all_done-idle t.workers ended in
    let one : 0 < length t.workers = omega (arith, Reach-length r, length-workers_of concurrency) in
    let empty = a.drained (all_done-some t.workers one ended) in
    let answers : Perm t.answered all = rw append-nil at (rw (idle, empty) at a.events) in
    (
      answers,
      omega (arith, a.results, length-perm answers, length-events_from uuid 0 num_requests),
      omega (arith, a.tasks, ap length idle, ap length empty),
    )
