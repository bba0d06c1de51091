-- ===== src/MapReduce/Master.antt =====
-- mit6.824/src/mapreduce/master.go: the master of a job, and the whole job in sequence.
use distribute_system_lab.Prelude.{
  ℕ, zero, suc, ◌+◌, List, [], ◌∷◌, ◌++◌, Option, none, some, ◌>>=◌, length, get_elem?,
}
use distribute_system_lab.Prelude.Text.{Str}
use distribute_system_lab.MapReduce.Names.{
  KeyValue, JobPhase, map_phase, reduce_phase, Itoa, merge_name,
}
use distribute_system_lab.MapReduce.Files.{Files, Os, Json}
use distribute_system_lab.MapReduce.Map.{do_map}
use distribute_system_lab.MapReduce.Reduce.{KeySort, do_reduce}
use distribute_system_lab.MapReduce.Merge.{StrSort, merge}

-- Without the channels and the listener.
pub record Master : Type 0 where
  pub address : Str
  pub workers : List Str
  pub job_name : Str
  pub files : List Str
  pub n_reduce : ℕ
  pub stats : List ℕ

-- `newMaster`.
unfoldable pub new_master : Str → Master
new_master address = record {
  address = address;
  workers = [];
  job_name = [];
  files = [];
  n_reduce = 0;
  stats = [];
}

-- `Register`; a registration is kept even if the worker has registered before.
unfoldable pub register : Master → Str → Master
register mr w = record mr { workers = mr.workers ++ w ∷ [] }

-- A round of `forwardRegistrations`, whose local is `i`: the worker it sends on, or it waits.
unfoldable pub forward : Master → ℕ → Option (Str × ℕ)
forward mr i = do w ← get_elem? mr.workers i; some (w, i + 1)

-- `killWorkers`: the replies of the workers that answered. `call` is the RPC `Worker.Shutdown`.
unfoldable pub kill_workers : (Str → Option ℕ) → List Str → List ℕ
kill_workers call [] = []
kill_workers call (w ∷ ws) = elim (call w) [
  | none ↦ kill_workers call ws
  | some n ↦ n ∷ kill_workers call ws
]

-- What the master's goroutines do: `Register` is called, `forwardRegistrations` goes round, and
-- `schedule` receives from one of the goroutines that wait to send to it.
pub data MasterEvent : Type 0 where
  register_call : Str → MasterEvent
  forward_round : MasterEvent
  received : ℕ → MasterEvent

-- The master, the local `i` of `forwardRegistrations`, the workers whose goroutine
-- `ch <- w` still waits to send, and what `schedule` has received.
pub record Forwarding : Type 0 where
  pub master : Master
  pub next : ℕ
  pub sending : List Str
  pub sent : List Str

-- The goroutine that sends next, of those that wait, and the others; the order is up to the run.
unfoldable pub take_sending : ℕ → List Str → Option (Str × List Str)
take_sending k [] = none
take_sending zero (w ∷ ws) = some (w, ws)
take_sending (suc k) (w ∷ ws) = do (v, rest) ← take_sending k ws; some (v, w ∷ rest)

unfoldable pub master_step : Forwarding → MasterEvent → Forwarding
unfolding register forward take_sending
master_step f (register_call w) = record f { master = register f.master w }
master_step f forward_round = elim (forward f.master f.next) [
  | none ↦ f
  | some (w, i) ↦ record f { next = i; sending = f.sending ++ w ∷ [] }
]
master_step f (received k) = elim (take_sending k f.sending) [
  | none ↦ f
  | some (w, rest) ↦ record f { sending = rest; sent = f.sent ++ w ∷ [] }
]

unfoldable pub master_run : Forwarding → List MasterEvent → Forwarding
unfolding master_step
master_run f [] = f
master_run f (e ∷ es) = master_run (master_step f e) es

module _ ⦃os : Os⦄ (i : Itoa) (j : Json) (s : KeySort) (ss : StrSort) (sum32 : Str → ℕ)
    (map_f : Str → Str → List KeyValue) (reduce_f : Str → List Str → Str) where
  -- `for i, f := range mr.files` of `Sequential`, from map task `m` on.
  unfoldable pub map_all : Str → ℕ → ℕ → List Str → Files → Option Files
  map_all job n_reduce m [] fs = some fs
  map_all job n_reduce m (f ∷ files) fs = do
    fs' ← do_map i j sum32 job m f n_reduce map_f fs
    map_all job n_reduce (m + 1) files fs'

  -- The reduce tasks `r`, …, `r + n - 1` of `Sequential`.
  unfoldable pub reduce_all : Str → ℕ → ℕ → ℕ → Files → Option Files
  reduce_all job n_map zero r fs = some fs
  reduce_all job n_map (suc n) r fs = do
    fs' ← do_reduce i j s job r (merge_name i job r) n_map reduce_f fs
    reduce_all job n_map n (r + 1) fs'

  -- The function that `Sequential` passes for a phase.
  unfoldable pub sequential_phase : Master → JobPhase → Files → Option Files
  unfolding map_all reduce_all
  sequential_phase mr map_phase fs = map_all mr.job_name mr.n_reduce 0 mr.files fs
  sequential_phase mr reduce_phase fs = reduce_all mr.job_name (length mr.files) mr.n_reduce 0 fs

  -- `run`, with the phases and the end as its arguments.
  unfoldable pub run_job :
      Str
      → List Str
      → ℕ
      → (Master → JobPhase → Files → Option Files)
      → (Master → Master)
      → Master
      → Files
      → Option (Master × Files)
  run_job job files n_reduce phase finish mr fs =
      let started = record mr { job_name = job; files = files; n_reduce = n_reduce } in
      do
        mapped ← phase started map_phase fs
        reduced ← phase started reduce_phase mapped
        merged ← merge i j ss job n_reduce reduced
        some (finish started, merged)

  -- `Sequential`; its name for the master is "master".
  unfoldable pub sequential : Str → List Str → ℕ → Files → Option (Master × Files)
  unfolding run_job sequential_phase new_master
  sequential job files n_reduce fs =
      let name = b'm' ∷ b'a' ∷ b's' ∷ b't' ∷ b'e' ∷ b'r' ∷ [] in
      let finish = λ (mr : Master). record mr { stats = (length files + n_reduce) ∷ [] } in
      run_job job files n_reduce sequential_phase finish (new_master name) fs
