-- ===== src/MapReduce/WorkerExit.antt =====
-- mit6.824/src/mapreduce/worker.go: when the accept loop of `RunWorker` ends.
use distribute_system_lab.Prelude.{
  ℕ, zero, suc, ◌≡◌, ◌≤◌, refl, ◌∙◌, Bool, true, false, List, [], ◌∷◌, some, >>=-eq-some, arith,
  count, ltb, if◌then◌else◌, ◌&&◌, not, ◌==◌,
}
use distribute_system_lab.MapReduce.Worker.{
  Worker, begin_task, end_task, use_up, accept, accept_fails, accepts, other_begins, other_ends,
  WorkerEvent, task_begins, task_ends, connected, accept_error, shut_down, other_task_begins,
  other_task_ends, worker_step, worker_run,
}

abbrev pub is_connected : WorkerEvent → Bool
is_connected connected = true
is_connected e = false

abbrev pub is_accept_error : WorkerEvent → Bool
is_accept_error accept_error = true
is_accept_error e = false

abbrev pub is_shut_down : WorkerEvent → Bool
is_shut_down shut_down = true
is_shut_down e = false

-- The connections that are left, with which of the events an `Accept` is.
record Stepped (w w' : Worker) (e : WorkerEvent) (n : ℕ) : Type 0 where
  left : ℕ
  rest : w'.n_rpc ≡ some left
  taken : (if is_connected e then suc left else left) ≡ n
  listening : w'.accepting ≡ w.accepting && not (is_accept_error e)

-- What an event leaves of the accept loop.
worker_step-Stepped :
    (w : Worker) (e : WorkerEvent) (n : ℕ) {w' : Worker}
    → is_shut_down e ≡ false
    → w.n_rpc ≡ some n
    → worker_step w e ≡ some w'
    → Stepped w w' e n
unfolding worker_step begin_task end_task accept accept_fails accepts use_up other_begins other_ends
worker_step-Stepped w task_begins n q l h = record {
  left = n;
  rest = ground (arith, l);
  taken = refl;
  listening = ground (arith, h);
}
worker_step-Stepped w task_ends n q l h = record {
  left = n;
  rest = ground (arith, l);
  taken = refl;
  listening = ground (arith, h);
}
worker_step-Stepped w connected zero q l h = absurd (ground (arith, rw l at h))
worker_step-Stepped w connected (suc n) q l h = record {
  left = n;
  rest = ground (arith, l, h);
  taken = refl;
  listening = ground (arith, l, h);
}
worker_step-Stepped w accept_error n q l h = record {
  left = n;
  rest = ground (arith, l);
  taken = refl;
  listening = ground (arith, h);
}
worker_step-Stepped w shut_down n q l h = absurd (ground (arith, q))
worker_step-Stepped w other_task_begins n q l h = record {
  left = n;
  rest = ground (arith, l);
  taken = refl;
  listening = ground (arith, h);
}
worker_step-Stepped w other_task_ends n q l h = record {
  left = n;
  rest = ground (arith, l);
  taken = refl;
  listening = ground (arith, h);
}

-- While no `Shutdown` comes, a worker in its accept loop that may still take `n` connections takes
-- no more than that; and the loop waits for another one exactly as long as it has taken fewer and no
-- `Accept` has failed. (A `Shutdown` leaves one connection to take.)
pub accept_loop_ends :
    (w : Worker) (es : List WorkerEvent) (n : ℕ) {w' : Worker}
    → w.n_rpc ≡ some n
    → count is_shut_down es ≡ 0
    → worker_run w es ≡ some w'
    → (count is_connected es ≤ n)
      × (accepts w'
          ≡ w.accepting && (count is_accept_error es == 0) && ltb (count is_connected es) n)
unfolding worker_run accepts
accept_loop_ends w [] zero l q h = (omega arith, ground (arith, l, h))
accept_loop_ends w [] (suc n) l q h = (omega arith, ground (arith, l, h))
accept_loop_ends w (e ∷ es) n l q h =
    let (w1, q1, h') = >>=-eq-some (worker_step w e) _ h in
    let v = worker_step-Stepped w e n (ground (arith, q)) l q1 in
    let (le, more) = accept_loop_ends w1 es v.left v.rest (ground (arith, q)) h' in
    (ground (arith, v.taken, le), more ∙ ground (arith, v.taken, v.listening, le))
