-- ===== src/Benchmark/Workers.antt =====
-- scripts/benchmark_throughput.py: `fire_request`, the queue that `main` fills, and `worker`. What a
-- worker does between two `await`s is one step.
use log_foundry.Prelude.{
  ℕ, zero, suc, ◌+◌, ◌-◌, ◌≡◌, String, ◌^^◌, decimal, List, [], ◌∷◌, ◌++◌, Outcome, ret, raise,
}

-- The dictionary that is posted.
pub record Event : Type 0 where
  pub id : String
  pub service : String
  pub level : String
  pub message : String
  pub timestamp : String

-- What the world does: `random.randint`, `time.monotonic`, which never goes back, and the POST with
-- a client address in its header, with the reading of its answer.
pub record World (S : Type 0) : Type 0 where
  pub randint : ℕ → ℕ → S → ℕ × S
  pub monotonic : S → ℕ × S
  pub post : String → Event → S → Outcome ℕ × S
  pub read : S → Outcome (Unit {0}) × S

module _ {S : Type 0} (w : World S) where
  unfoldable pub random_ip : S → String × S
  random_ip s =
      let (a, s1) = w.randint 1 254 s in
      let (b, s2) = w.randint 1 254 s1 in
      let (c, s3) = w.randint 1 254 s2 in
      let (d, s4) = w.randint 1 254 s3 in
      (decimal a ^^ "." ^^ decimal b ^^ "." ^^ decimal c ^^ "." ^^ decimal d, s4)

  -- `resp.read()` after the status is there.
  unfoldable pub post_and_read : String → Event → S → Outcome ℕ × S
  post_and_read ip event s =
      let (answer, s1) = w.post ip event s in
      elim answer [
        | raise e ↦ (raise e, s1)
        | ret status ↦
            let (body, s2) = w.read s1 in (elim body [ ret _ ↦ ret status | raise e ↦ raise e ], s2)
      ]

  -- The status of the answer, 0 if there was none, and the time that it took.
  unfoldable pub fire_request : Event → S → (ℕ × ℕ) × S
  unfolding random_ip post_and_read
  fire_request event s =
      let (ip, s1) = random_ip s in
      let (start_time, s2) = w.monotonic s1 in
      let (answer, s3) = post_and_read ip event s2 in
      let (end_time, s4) = w.monotonic s3 in
      ((elim answer [ ret status ↦ status | raise e ↦ 0 ], end_time - start_time), s4)

-- The events of `for i in range(num_requests)`, from `i` on; `uuid i` is the identifier of event `i`.
unfoldable pub events_from : (ℕ → String) → ℕ → ℕ → List Event
events_from uuid i zero = []
events_from uuid i (suc left) =
    record {
      id = uuid i;
      service = "benchmark";
      level = "INFO";
      message = "Benchmark event " ^^ decimal i;
      timestamp = "2026-06-20T10:00:00+00:00";
    }
    ∷ events_from uuid (i + 1) left

-- A worker that has not begun, one that waits for the answer to an event, and one that has ended.
pub data Worker : Type 0 where
  ready : Worker
  busy : Event → Worker
  done : Worker

-- The queue with its count of unfinished tasks, and the list that the workers share. `answered` is
-- the events that the results are of.
pub record System : Type 0 where
  pub queue : List Event
  pub unfinished : ℕ
  pub workers : List Worker
  pub results : List (ℕ × ℕ)
  pub answered : List Event

unfoldable pub workers_of : ℕ → List Worker
workers_of zero = []
workers_of (suc n) = ready ∷ workers_of n

unfoldable pub start : (ℕ → String) → ℕ → ℕ → System
unfolding events_from workers_of
start uuid num_requests concurrency = record {
  queue = events_from uuid 0 num_requests;
  unfinished = num_requests;
  workers = workers_of concurrency;
  results = [];
  answered = [];
}

-- `queue.get_nowait()`, and `break` where the queue is empty.
unfoldable pub get_nowait : List Event → Worker × List Event
get_nowait [] = (done, [])
get_nowait (event ∷ queue) = (busy event, queue)

-- A worker, which stands between `before` and `after`, begins.
unfoldable pub begin_worker : List Worker → List Worker → System → System
unfolding get_nowait
begin_worker before after s =
    let (w, queue) = get_nowait s.queue in record s { workers = before ++ w ∷ after; queue = queue }

-- Its request comes back: `results.append`, `queue.task_done()`, and the next round.
unfoldable pub end_request : List Worker → List Worker → Event → ℕ × ℕ → System → System
unfolding begin_worker
end_request before after event result s = begin_worker before after (record s {
  results = s.results ++ result ∷ [];
  unfinished = s.unfinished - 1;
  answered = s.answered ++ event ∷ [];
})

pub data Step : System → System → Type 0 where
  begins :
      (before after : List Worker) (s : System)
      → s.workers ≡ before ++ ready ∷ after
      → Step s (begin_worker before after s)
  answers :
      (before after : List Worker) (event : Event) (result : ℕ × ℕ) (s : System)
      → s.workers ≡ before ++ busy event ∷ after
      → Step s (end_request before after event result s)

-- The states that are reached, with the number of steps.
pub data Reach (s : System) : ℕ → System → Type 0 where
  here : Reach s zero s
  next : {n : ℕ} {t u : System} → Reach s n t → Step t u → Reach s (suc n) u
