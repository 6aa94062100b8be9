-- ===== src/Benchmark/Account.antt =====
-- scripts/benchmark_throughput.py: whatever the order of the answers, each event is posted once.
use mathlib.Core.List.{Perm}
use mathlib.Core.List.Perm
use log_foundry.Prelude.{
  false-ne-true, ℕ, zero, suc, ◌+◌, ◌-◌, ◌≡◌, refl, sym, ap, ◌∙◌, String, Bool, true, false, ◌&&◌,
  ◌||◌, List, [], ◌∷◌, ◌++◌, length, length-append, append_assoc, arith, Perm-take, Perm-answer,
}
use log_foundry.Benchmark.Workers.{
  Event, Worker, ready, busy, done, System, events_from, workers_of, start, get_nowait,
  begin_worker, end_request, Step, begins, answers, Reach, here, next,
}

-- The events that a worker holds.
abbrev pub events_held : Worker → List Event
events_held ready = []
events_held (busy event) = event ∷ []
events_held done = []

abbrev pub under_way : List Worker → List Event
under_way [] = []
under_way (w ∷ workers) = events_held w ++ under_way workers

abbrev pub is_done : Worker → Bool
is_done ready = false
is_done (busy event) = false
is_done done = true

abbrev pub some_done : List Worker → Bool
some_done [] = false
some_done (w ∷ workers) = is_done w || some_done workers

-- `asyncio.gather` returns.
abbrev pub all_done : List Worker → Bool
all_done [] = true
all_done (w ∷ workers) = is_done w && all_done workers

under_way-middle :
    (before after : List Worker) (w : Worker)
    → under_way (before ++ w ∷ after) ≡ under_way before ++ (events_held w ++ under_way after)
under_way-middle [] after w = refl
under_way-middle (v ∷ before) after w =
    ap (λ l. events_held v ++ l) (under_way-middle before after w)
    ∙ sym (append_assoc (events_held v) (under_way before) (events_held w ++ under_way after))

some_done-middle :
    (before after : List Worker) (w : Worker)
    → some_done (before ++ w ∷ after) ≡ (some_done before || (is_done w || some_done after))
some_done-middle [] after w = refl
some_done-middle (v ∷ before) after w = ground (arith, some_done-middle before after w)

-- Each event is answered, under way or in the queue, once.
pub record Accounts (all : List Event) (s : System) : Type 0 where
  pub events : Perm (s.answered ++ (under_way s.workers ++ s.queue)) all
  pub results : length s.results ≡ length s.answered
  pub tasks : s.unfinished ≡ length (under_way s.workers) + length s.queue
  pub drained : some_done s.workers ≡ true → s.queue ≡ []

-- The same while the worker between `before` and `after` holds no event and has not ended.
record Idle (all : List Event) (before after : List Worker) (s : System) : Type 0 where
  events : Perm (s.answered ++ ((under_way before ++ under_way after) ++ s.queue)) all
  results : length s.results ≡ length s.answered
  tasks : s.unfinished ≡ length (under_way before) + length (under_way after) + length s.queue
  drained : (some_done before || some_done after) ≡ true → s.queue ≡ []

not_empty : {e : Event} {l : List Event} → ¬ (e ∷ l ≡ [])
not_empty h = cc

held_lem :
    (before after : List Worker) (w : Worker)
    → length (under_way (before ++ w ∷ after))
      ≡ length (under_way before) + (length (events_held w) + length (under_way after))
held_lem before after w = omega (
  arith,
  ap length (under_way-middle before after w),
  length-append (under_way before) (events_held w ++ under_way after),
  length-append (events_held w) (under_way after),
)

-- A worker takes the next event, or ends.
begin_at :
    (all : List Event) (before after : List Worker) (answered : List Event) (results : List (ℕ × ℕ))
    (unfinished : ℕ) (queue : List Event)
    → Perm (answered ++ ((under_way before ++ under_way after) ++ queue)) all
    → length results ≡ length answered
    → unfinished ≡ length (under_way before) + length (under_way after) + length queue
    → ((some_done before || some_done after) ≡ true → queue ≡ [])
    → Accounts all (record {
      queue = (get_nowait queue).1;
      unfinished = unfinished;
      workers = before ++ (get_nowait queue).0 ∷ after;
      results = results;
      answered = answered;
    })
unfolding get_nowait
begin_at all before after answered results unfinished [] p r t d = record {
  events = rw (under_way-middle before after done) p;
  results = r;
  tasks = omega (arith, t, held_lem before after done);
  drained = λ h. refl;
}
begin_at all before after answered results unfinished (event ∷ queue) p r t d = record {
  events =
      rw (under_way-middle before after (busy event))
        (Perm-take answered (under_way before) (under_way after) queue event p);
  results = r;
  tasks = omega (arith, t, held_lem before after (busy event));
  drained = λ h. absurd (not_empty (d (sym (some_done-middle before after (busy event)) ∙ h)));
}

begin_worker-Accounts :
    (all : List Event) (before after : List Worker) (s : System)
    → Idle all before after s
    → Accounts all (begin_worker before after s)
unfolding begin_worker
begin_worker-Accounts all before after s i =
    begin_at all before after s.answered s.results s.unfinished s.queue i.events i.results i.tasks
      i.drained

-- The state when an answer is there, before the next round of its worker.
abbrev pub answered_state : Event → ℕ × ℕ → System → System
answered_state event result s = record s {
  results = s.results ++ result ∷ [];
  unfinished = s.unfinished - 1;
  answered = s.answered ++ event ∷ [];
}

Step-Accounts : (all : List Event) {s t : System} → Step s t → Accounts all s → Accounts all t
unfolding end_request
Step-Accounts all (begins before after s e) a = begin_worker-Accounts all before after s (record {
  events = rw (e, under_way-middle before after ready) at a.events;
  results = a.results;
  tasks = omega (arith, a.tasks, held_lem before after ready, ap (λ w. length (under_way w)) e);
  drained = λ h. a.drained (ap some_done e ∙ some_done-middle before after ready ∙ h);
})
Step-Accounts all (answers before after event result s e) a =
    begin_worker-Accounts all before after (answered_state event result s) (record {
      events =
          Perm-answer s.answered (under_way before) (under_way after) s.queue event
            (rw (e, under_way-middle before after (busy event)) at a.events);
      results = omega (
        arith,
        a.results,
        length-append s.results (result ∷ []),
        length-append s.answered (event ∷ []),
      );
      tasks =
          omega
            (arith, a.tasks, held_lem before after (busy event), ap (λ w. length (under_way w)) e);
      drained = λ h. a.drained (ap some_done e ∙ some_done-middle before after (busy event) ∙ h);
    })

pub Reach-Accounts :
    (all : List Event) {s : System} {n : ℕ} {t : System}
    → Reach s n t
    → Accounts all s
    → Accounts all t
Reach-Accounts all here a = a
Reach-Accounts all (next r st) a = Step-Accounts all st (Reach-Accounts all r a)

no_worker_begun : (n : ℕ) → (under_way (workers_of n) ≡ []) × (some_done (workers_of n) ≡ false)
unfolding workers_of
no_worker_begun zero = (refl, refl)
no_worker_begun (suc n) = no_worker_begun n

pub length-events_from : (uuid : ℕ → String) (i n : ℕ) → length (events_from uuid i n) ≡ n
unfolding events_from
length-events_from uuid i zero = refl
length-events_from uuid i (suc n) = ap suc (length-events_from uuid (i + 1) n)

pub start-Accounts :
    (uuid : ℕ → String) (num_requests concurrency : ℕ)
    → Accounts (events_from uuid 0 num_requests) (start uuid num_requests concurrency)
unfolding start
start-Accounts uuid num_requests concurrency =
    let (idle, none_done) = no_worker_begun concurrency in
    record {
      events = rw idle (Perm.refl (events_from uuid 0 num_requests));
      results = refl;
      tasks = rw (idle, length-events_from uuid 0 num_requests) (omega arith);
      drained = λ h. absurd (false-ne-true (sym none_done ∙ h));
    }
