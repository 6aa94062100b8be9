-- ===== src/Benchmark/Turns.antt =====
-- scripts/benchmark_throughput.py: how many steps the workers take.
use log_foundry.Prelude.{
  ℕ, zero, suc, ◌+◌, ◌-◌, ◌≤◌, ◌≡◌, ◌⊎◌, inl, inr, refl, ap, String, true, List, [], ◌∷◌, ◌++◌,
  length, arith,
}
use log_foundry.Benchmark.Workers.{
  Event, Worker, ready, busy, done, System, workers_of, start, get_nowait, begin_worker,
  end_request, Step, begins, answers, Reach, here, next,
}
use log_foundry.Benchmark.Account.{all_done, length-events_from}

abbrev turns : Worker → ℕ
turns ready = 1
turns (busy event) = 1
turns done = 0

abbrev turns_left : List Worker → ℕ
turns_left [] = 0
turns_left (w ∷ workers) = turns w + turns_left workers

turns_left-middle :
    (before after : List Worker) (w : Worker)
    → turns_left (before ++ w ∷ after) ≡ turns w + (turns_left before + turns_left after)
turns_left-middle [] after w = omega arith
turns_left-middle (v ∷ before) after w = omega (arith, turns_left-middle before after w)

-- The turns that are left.
abbrev pub left : System → ℕ
left s = turns_left s.workers + length s.queue

begin_at-left :
    (before after : List Worker) (queue : List Event)
    → suc (turns_left (before ++ (get_nowait queue).0 ∷ after) + length (get_nowait queue).1)
      ≡ 1 + (turns_left before + turns_left after) + length queue
unfolding get_nowait
begin_at-left before after [] = omega (arith, turns_left-middle before after done)
begin_at-left before after (event ∷ queue) =
    omega (arith, turns_left-middle before after (busy event))

begin-left :
    (before after : List Worker) (s : System)
    → suc (left (begin_worker before after s))
      ≡ 1 + (turns_left before + turns_left after) + length s.queue
unfolding begin_worker
begin-left before after s = begin_at-left before after s.queue

Step-left : {s t : System} → Step s t → suc (left t) ≡ left s
unfolding end_request
Step-left (begins before after s e) =
    omega (arith, begin-left before after s, turns_left-middle before after ready, ap turns_left e)
Step-left (answers before after event result s e) = omega (
  arith,
  begin-left before after (record s {
    results = s.results ++ result ∷ [];
    unfinished = s.unfinished - 1;
    answered = s.answered ++ event ∷ [];
  }),
  turns_left-middle before after (busy event),
  ap turns_left e,
)

Reach-left : {s : System} {n : ℕ} {t : System} → Reach s n t → n + left t ≡ left s
Reach-left {s} here = omega arith
Reach-left (next r st) = omega (arith, Step-left st, Reach-left r)

turns_left-workers_of : (n : ℕ) → turns_left (workers_of n) ≡ n
unfolding workers_of
turns_left-workers_of zero = refl
turns_left-workers_of (suc n) = omega (arith, turns_left-workers_of n)

-- A worker that has not ended, between two lists.
data Unfinished : List Worker → Type 0 where
  waits : (before after : List Worker) → Unfinished (before ++ ready ∷ after)
  asks : (before after : List Worker) (event : Event) → Unfinished (before ++ busy event ∷ after)

Unfinished-cons :
    (w : Worker) {workers : List Worker} → Unfinished workers → Unfinished (w ∷ workers)
Unfinished-cons w (waits before after) = waits (w ∷ before) after
Unfinished-cons w (asks before after event) = asks (w ∷ before) after event

find-Unfinished : (workers : List Worker) → (all_done workers ≡ true) ⊎ Unfinished workers
find-Unfinished [] = inl refl
find-Unfinished (ready ∷ workers) = inr (waits [] workers)
find-Unfinished (busy event ∷ workers) = inr (asks [] workers event)
find-Unfinished (done ∷ workers) = elim (find-Unfinished workers) [
  | inl e ↦ inl e
  | inr u ↦ inr (Unfinished-cons done u)
]

step_of :
    (s : System) {workers : List Worker}
    → Unfinished workers
    → s.workers ≡ workers
    → (u : System) × Step s u
step_of s (waits before after) e = (_, begins before after s e)
step_of s (asks before after event) e = (_, answers before after event (0, 0) s e)

-- The benchmark ends: it takes at most a step for each worker and one for each request, and as long
-- as a worker has not ended there is a next step.
pub Reach-Ends :
    (uuid : ℕ → String) (num_requests concurrency : ℕ) {n : ℕ} {t : System}
    → Reach (start uuid num_requests concurrency) n t
    → (n ≤ concurrency + num_requests) × ((all_done t.workers ≡ true) ⊎ ((u : System) × Step t u))
unfolding start
Reach-Ends uuid num_requests concurrency {n} {t} r = (
  omega (
    arith,
    Reach-left r,
    turns_left-workers_of concurrency,
    length-events_from uuid 0 num_requests,
  ),
  elim (find-Unfinished t.workers) [ inl e ↦ inl e | inr u ↦ inr (step_of t u refl) ],
)
