-- ===== src/MapReduce/Schedule.antt =====
-- mit6.824/src/mapreduce/schedule.go: the tasks of one phase, handed out to workers.
use distribute_system_lab.Prelude.{
  ℕ, zero, suc, ◌+◌, Bool, true, false, List, [], ◌∷◌, ◌++◌, Option, none, some, ◌>>=◌, length,
  ◌==◌, if◌then◌else◌,
}
use distribute_system_lab.Prelude.Text.{Str}
use distribute_system_lab.MapReduce.Names.{JobPhase, map_phase, reduce_phase}

-- `DoTaskArgs`, of common_rpc.go.
pub record DoTaskArgs : Type 0 where
  pub job_name : Str
  pub file : Str
  pub phase : JobPhase
  pub task_number : ℕ
  pub num_other_phase : ℕ

pub record DoTaskResult : Type 0 where
  pub result_ok : Bool
  pub task_idx : ℕ
  pub worker : Str

-- A task under way: a goroutine that waits in `call`, or to report on `doneChan`.
pub record Call : Type 0 where
  pub args : DoTaskArgs
  pub worker : Str

-- The locals of `schedule`. `tasks` is `taskQu` from `taskHead` on, and `idle` is `idleWorkers`
-- from `idleHead` on: what stands before the heads is never read again.
pub record Sched : Type 0 where
  pub done_map : List ℕ
  pub done_n : ℕ
  pub tasks : List ℕ
  pub idle : List Str
  pub calls : List Call
  pub finished : Bool

-- `ntasks` and `n_other`.
unfoldable pub phase_tasks : JobPhase → List Str → ℕ → ℕ
phase_tasks map_phase files n_reduce = length files
phase_tasks reduce_phase files n_reduce = n_reduce

unfoldable pub phase_others : JobPhase → List Str → ℕ → ℕ
phase_others map_phase files n_reduce = n_reduce
phase_others reduce_phase files n_reduce = length files

-- 0, …, n - 1.
unfoldable pub iota : ℕ → ℕ → List ℕ
iota from zero = []
iota from (suc n) = from ∷ iota (from + 1) n

unfoldable pub begin : ℕ → Sched
begin n = record {
  done_map = [];
  done_n = 0;
  tasks = iota 0 n;
  idle = [];
  calls = [];
  finished = false;
}

unfoldable pub member : ℕ → List ℕ → Bool
member t [] = false
member t (u ∷ us) = if u == t then true else member t us

-- The file of a map task; out of range it panics.
unfoldable pub task_file : JobPhase → List Str → ℕ → Option Str
task_file reduce_phase files t = some []
task_file map_phase [] t = none
task_file map_phase (f ∷ files) zero = some f
task_file map_phase (f ∷ files) (suc t) = task_file map_phase files t

-- The parameters of `schedule`.
pub record Job : Type 0 where
  pub job_name : Str
  pub files : List Str
  pub n_reduce : ℕ
  pub phase : JobPhase

abbrev pub ntasks : Job → ℕ
ntasks j = phase_tasks j.phase j.files j.n_reduce

-- Task `t`, with its file, goes to a worker; `tasks` are left.
unfoldable pub assign : Job → Sched → Str → ℕ → Str → List ℕ → Sched
assign j s w t file tasks = record s {
  tasks = tasks;
  calls =
      record {
        args = record {
          job_name = j.job_name;
          file = file;
          phase = j.phase;
          task_number = t;
          num_other_phase = phase_others j.phase j.files j.n_reduce;
        };
        worker = w;
      }
      ∷ s.calls;
}

-- With a worker at hand: the next task goes to it, or it is set aside; `tasks` is `s.tasks`.
unfoldable pub give_work : Job → Sched → Str → List ℕ → Option Sched
unfolding assign
give_work j s w [] = some (record s { idle = s.idle ++ w ∷ [] })
give_work j s w (t ∷ tasks) = do
  file ← task_file j.phase j.files t
  some (assign j s w t file tasks)

-- A failed task is queued again, for an idle worker if there is one; its worker is given up.
unfoldable pub retry : Job → Sched → ℕ → List Str → Option Sched
retry j s t [] = some (record s { tasks = s.tasks ++ t ∷ [] })
retry j s t (w ∷ idle) =
    give_work j (record s { tasks = s.tasks ++ t ∷ []; idle = idle }) w (s.tasks ++ t ∷ [])

-- A task that is done is counted once, and the last one ends the phase.
unfoldable pub complete : Job → Sched → ℕ → Str → Option Sched
complete j s t w =
    let counted = record s { done_map = t ∷ s.done_map; done_n = s.done_n + 1 } in
    let go_on = give_work j counted w counted.tasks in
    let again = give_work j s w s.tasks in
    if member t s.done_map
    then again
    else if s.done_n + 1 == ntasks j
    then some (record counted { finished = true })
    else go_on

-- A report on `doneChan`.
unfoldable pub on_result : Job → Sched → DoTaskResult → Option Sched
on_result j s r =
    let fine = complete j s r.task_idx r.worker in
    let failed = retry j s r.task_idx s.idle in if r.result_ok then fine else failed

-- What the `select` receives: a new worker, or the report of call number `i`, which succeeded or
-- failed.
pub data Receive : Type 0 where
  registered : Str → Receive
  reported : ℕ → Bool → Receive

-- The call is over; the calls that are left, and it.
unfoldable pub take_call : ℕ → List Call → Option (Call × List Call)
take_call i [] = none
take_call zero (c ∷ cs) = some (c, cs)
take_call (suc i) (c ∷ cs) = do (found, rest) ← take_call i cs; some (found, c ∷ rest)

unfoldable pub on_report : Job → Sched → ℕ → Bool → Option Sched
on_report j s i ok = do
  (c, rest) ← take_call i s.calls
  on_result j (record s { calls = rest })
      (record { result_ok = ok; task_idx = c.args.task_number; worker = c.worker })

-- One round of the `select` and of the loops around it; none after the last task is done.
unfoldable pub sched_step : Job → Sched → Receive → Option Sched
sched_step j s (registered w) = if s.finished then none else give_work j s w s.tasks
sched_step j s (reported i ok) = if s.finished then none else on_report j s i ok

-- `schedule`, over the receives of one run.
unfoldable pub schedule : Job → Sched → List Receive → Option Sched
schedule j s [] = some s
schedule j s (r ∷ rs) = do s' ← sched_step j s r; schedule j s' rs
