-- ===== src/MapReduce/Worker.antt =====
-- mit6.824/src/mapreduce/worker.go: a worker, and its tasks in the order of their steps.
use distribute_system_lab.Prelude.{
  ℕ, zero, suc, ◌+◌, ◌-◌, Bool, true, false, ◌&&◌, List, [], ◌∷◌, Option, none, some, ◌>>=◌, ltb,
  ◌==◌, if◌then◌else◌,
}
use distribute_system_lab.Prelude.Text.{Str}
use distribute_system_lab.MapReduce.Names.{
  KeyValue, JobPhase, map_phase, reduce_phase, Itoa, merge_name,
}
use distribute_system_lab.MapReduce.Files.{Files, Os, Json}
use distribute_system_lab.MapReduce.Map.{do_map}
use distribute_system_lab.MapReduce.Reduce.{KeySort, do_reduce}
use distribute_system_lab.MapReduce.Schedule.{DoTaskArgs}

pub record Parallelism : Type 0 where
  pub now : ℕ
  pub max : ℕ

-- `Map` and `Reduce` are parameters of the task. `n_rpc` is `none` for a number that is below 0,
-- which no decrement makes 0. Of the accept loop the model keeps that no `Accept` has failed. The
-- source shares `parallelism` among workers; here the counters change with the tasks
-- of this worker and with `other_begins` and `other_ends` below.
pub record Worker : Type 0 where
  pub name : Str
  pub n_rpc : Option ℕ
  pub n_tasks : ℕ
  pub concurrent : ℕ
  pub parallelism : Option Parallelism
  pub accepting : Bool

-- The section of `DoTask` that counts the task.
unfoldable pub count_task : Worker → Worker
count_task w = record w { n_tasks = w.n_tasks + 1; concurrent = w.concurrent + 1 }

-- The section of the test's counter, and whether the worker is to pause.
unfoldable pub count_parallel : Option Parallelism → Option Parallelism × Bool
count_parallel none = (none, false)
count_parallel (some p) =
    let most = if ltb p.max (p.now + 1) then p.now + 1 else p.max in
    (some (record { now = p.now + 1; max = most }), ltb most 2)

-- `DoTask` up to the task itself; a second task at a time is fatal. The pause only takes time.
unfoldable pub begin_task : Worker → Option Worker
unfolding count_task count_parallel
begin_task w =
    let counted = count_task w in
    let parallel = (count_parallel counted.parallelism).0 in
    if ltb 1 counted.concurrent then none else some (record counted { parallelism = parallel })

unfoldable pub leave_parallel : Option Parallelism → Option Parallelism
leave_parallel none = none
leave_parallel (some p) = some (record p { now = p.now - 1 })

-- `DoTask` after the task.
unfoldable pub end_task : Worker → Worker
unfolding leave_parallel
end_task w = record w { concurrent = w.concurrent - 1; parallelism = leave_parallel w.parallelism }

-- `Shutdown`, and the number that it replies.
unfoldable pub shutdown : Worker → Worker × ℕ
shutdown w = (record w { n_rpc = some 1 }, w.n_tasks)

-- The head of the loop of `RunWorker`: does it wait for one more connection?
unfoldable pub accepts : Worker → Bool
accepts w = w.accepting && elim w.n_rpc [ none ↦ true | some zero ↦ false | some (suc n) ↦ true ]

-- `wk.nRPC--`, after a connection.
unfoldable pub use_up : Option ℕ → Option ℕ
use_up none = none
use_up (some zero) = none
use_up (some (suc n)) = some n

unfoldable pub accept : Worker → Worker
unfolding use_up
accept w = record w { n_rpc = use_up w.n_rpc }

-- `else { break }`: `Accept` gives an error.
unfoldable pub accept_fails : Worker → Worker
accept_fails w = record w { accepting = false }

-- The shared counters, when another worker begins or ends a task. No worker ends a task that it has
-- not begun, so the number of tasks never falls below 0.
unfoldable pub other_begins : Worker → Worker
unfolding count_parallel
other_begins w = record w { parallelism = (count_parallel w.parallelism).0 }

unfoldable pub other_ends : Worker → Worker
unfolding leave_parallel
other_ends w = record w { parallelism = leave_parallel w.parallelism }

-- `RunWorker` before its loop.
unfoldable pub run_worker : Str → Option ℕ → Option Parallelism → Worker
run_worker me n_rpc p = record {
  name = me;
  n_rpc = n_rpc;
  n_tasks = 0;
  concurrent = 0;
  parallelism = p;
  accepting = true;
}

module _ ⦃os : Os⦄ (i : Itoa) (j : Json) (s : KeySort) (sum32 : Str → ℕ)
    (map_f : Str → Str → List KeyValue) (reduce_f : Str → List Str → Str) where
  -- The `switch` of `DoTask`.
  unfoldable pub run_phase : JobPhase → DoTaskArgs → Files → Option Files
  run_phase map_phase a fs =
      do_map i j sum32 a.job_name a.task_number a.file a.num_other_phase map_f fs
  run_phase reduce_phase a fs =
      do_reduce i j s a.job_name a.task_number (merge_name i a.job_name a.task_number)
        a.num_other_phase reduce_f fs

  -- `DoTask`, when nothing comes between its sections.
  unfoldable pub do_task : Worker → DoTaskArgs → Files → Option (Worker × Files)
  unfolding begin_task end_task run_phase
  do_task w a fs = do busy ← begin_task w; fs' ← run_phase a.phase a fs; some (end_task busy, fs')

-- What the goroutines of a worker do: a task begins or ends, the accept loop takes a connection or
-- is left because `Accept` fails, and the master's `Shutdown` comes; and what other workers do with
-- the counters that are shared with them.
pub data WorkerEvent : Type 0 where
  task_begins task_ends connected accept_error shut_down : WorkerEvent
  other_task_begins other_task_ends : WorkerEvent

unfoldable pub worker_step : Worker → WorkerEvent → Option Worker
unfolding begin_task end_task accept accept_fails accepts shutdown other_begins other_ends
worker_step w task_begins = begin_task w
worker_step w task_ends = if w.concurrent == 0 then none else some (end_task w)
worker_step w connected = if accepts w then some (accept w) else none
worker_step w accept_error = if accepts w then some (accept_fails w) else none
worker_step w shut_down = some (shutdown w).0
worker_step w other_task_begins = some (other_begins w)
worker_step w other_task_ends = some (other_ends w)

unfoldable pub worker_run : Worker → List WorkerEvent → Option Worker
unfolding worker_step
worker_run w [] = some w
worker_run w (e ∷ es) = do w' ← worker_step w e; worker_run w' es
