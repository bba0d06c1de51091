-- ===== src/MapReduce/WorkerLaws.antt =====
-- mit6.824/src/mapreduce/worker.go: what a worker's counters count.
use distribute_system_lab.Prelude.{
  ℕ, suc, ◌+◌, ◌≡◌, ◌≤◌, ◌<◌, inl, inr, Bool-cases, List, [], ◌∷◌, Option, none, some, >>=-eq-some,
  arith, ltb,
}
use distribute_system_lab.Prelude.Text.{Str}
use distribute_system_lab.MapReduce.Worker.{
  Parallelism, Worker, count_task, count_parallel, begin_task, leave_parallel, end_task, shutdown,
  accept, run_worker, WorkerEvent, task_begins, task_ends, connected, accept_error, shut_down,
  other_task_begins, other_task_ends, accept_fails, other_begins, other_ends, worker_step,
  worker_run,
}

-- How many tasks have begun, and how many have ended.
abbrev pub begun : List WorkerEvent → ℕ
begun [] = 0
begun (task_begins ∷ es) = suc (begun es)
begun (task_ends ∷ es) = begun es
begun (connected ∷ es) = begun es
begun (accept_error ∷ es) = begun es
begun (shut_down ∷ es) = begun es
begun (other_task_begins ∷ es) = begun es
begun (other_task_ends ∷ es) = begun es

abbrev pub ended : List WorkerEvent → ℕ
ended [] = 0
ended (task_begins ∷ es) = ended es
ended (task_ends ∷ es) = suc (ended es)
ended (connected ∷ es) = ended es
ended (accept_error ∷ es) = ended es
ended (shut_down ∷ es) = ended es
ended (other_task_begins ∷ es) = ended es
ended (other_task_ends ∷ es) = ended es

abbrev now_of : Option Parallelism → ℕ
now_of none = 0
now_of (some p) = p.now

abbrev started : Option Parallelism → ℕ
started none = 0
started (some p) = 1

-- What the rest of a run adds to the counters.
record Counted (w w' : Worker) (es : List WorkerEvent) : Type 0 where
  total : w'.n_tasks ≡ w.n_tasks + begun es
  running : w'.concurrent + ended es ≡ w.concurrent + begun es
  single : w.concurrent ≤ 1 → w'.concurrent ≤ 1

worker_step-Counted :
    (w : Worker) (e : WorkerEvent) {w' : Worker} → worker_step w e ≡ some w' → Counted w w' (e ∷ [])
unfolding worker_step begin_task count_task count_parallel end_task leave_parallel accept
    accept_fails shutdown other_begins other_ends
worker_step-Counted w task_begins h = elim (Bool-cases (ltb 1 (w.concurrent + 1))) [
  | inl t ↦ absurd (ground (arith, t))
  | inr f ↦ record {
    total = ground (arith, f);
    running = ground (arith, f);
    single = λ k. ground (arith, f);
  }
]
worker_step-Counted w task_ends h = record {
  total = ground arith;
  running = ground arith;
  single = λ k. ground arith;
}
worker_step-Counted w connected h = record {
  total = ground arith;
  running = ground arith;
  single = λ k. ground arith;
}
worker_step-Counted w accept_error h = record {
  total = ground arith;
  running = ground arith;
  single = λ k. ground arith;
}
worker_step-Counted w shut_down h = record {
  total = ground arith;
  running = ground arith;
  single = λ k. ground arith;
}
worker_step-Counted w other_task_begins h = record {
  total = ground arith;
  running = ground arith;
  single = λ k. ground arith;
}
worker_step-Counted w other_task_ends h = record {
  total = ground arith;
  running = ground arith;
  single = λ k. ground arith;
}

begun_cons :
    (e : WorkerEvent) (es : List WorkerEvent)
    → (begun (e ∷ es) ≡ begun (e ∷ []) + begun es) × (ended (e ∷ es) ≡ ended (e ∷ []) + ended es)
begun_cons task_begins es = (omega arith, omega arith)
begun_cons task_ends es = (omega arith, omega arith)
begun_cons connected es = (omega arith, omega arith)
begun_cons accept_error es = (omega arith, omega arith)
begun_cons shut_down es = (omega arith, omega arith)
begun_cons other_task_begins es = (omega arith, omega arith)
begun_cons other_task_ends es = (omega arith, omega arith)

worker_run-Counted :
    (w : Worker) (es : List WorkerEvent) {w' : Worker} → worker_run w es ≡ some w' → Counted w w' es
unfolding worker_run
worker_run-Counted w [] h = record {
  total = ground arith;
  running = ground arith;
  single = λ k. ground arith;
}
worker_run-Counted w (e ∷ es) {w'} h =
    let (w1, q, h') = >>=-eq-some (worker_step w e) _ h in
    let a = worker_step-Counted w e q in
    let b = worker_run-Counted w1 es h' in
    let (p, r) = begun_cons e es in
    record {
      total = omega (arith, a.total, b.total, p);
      running = omega (arith, a.running, b.running, p, r);
      single = λ k. b.single (a.single k);
    }

-- As long as no task is fatal to it, a worker runs at most one task at a time, its counter of
-- tasks, which `Shutdown` replies, is the number of tasks that have begun, and those that have
-- not ended are the ones that it runs.
pub worker_counts :
    (me : Str) (n_rpc : Option ℕ) (p : Option Parallelism) (es : List WorkerEvent) {w : Worker}
    → worker_run (run_worker me n_rpc p) es ≡ some w
    → (w.concurrent ≤ 1) × ((shutdown w).1 ≡ begun es) × (begun es ≡ ended es + w.concurrent)
unfolding run_worker shutdown
worker_counts me n_rpc p es h =
    let c = worker_run-Counted (run_worker me n_rpc p) es h in
    (c.single (omega arith), omega (arith, c.total), omega (arith, c.running))

-- A task is fatal exactly if the worker still runs another one.
pub begin_task-fatal_iff :
    (w : Worker)
    → (begin_task w ≡ none → 0 < w.concurrent) × (0 < w.concurrent → begin_task w ≡ none)
unfolding begin_task count_task
begin_task-fatal_iff w = (λ h. ground arith, λ h. ground arith)
