-- ===== src/MapReduce/Tests/Service.antt =====
-- The theorems about the master, its workers and the merge at concrete inputs.
use distribute_system_lab.Prelude.{
  ℕ, ◌≡◌, ◌≢◌, ◌≤◌, ◌+◌, Bool, ◌&&◌, ◌==◌, true, refl, false, List, [], ◌∷◌, none, some, arith,
  count, drop, if◌then◌else◌,
}
use distribute_system_lab.Prelude.Text.{Str, str_eq}
use distribute_system_lab.MapReduce.Names.{KeyValue, reduce_phase, reduce_name, merge_name}
use distribute_system_lab.MapReduce.Files.{Files, get_file, decode_loop, decode_all}
use distribute_system_lab.MapReduce.Reduce.{collect, do_reduce}
use distribute_system_lab.MapReduce.ReduceLaws.{has_key}
use distribute_system_lab.MapReduce.Merge.{Ascends, result_name, merge}
use distribute_system_lab.MapReduce.MergeLaws.{
  last_value, read_pairs, Report, merge_lem, empty_reduce_stops_merge,
}
use distribute_system_lab.MapReduce.Schedule.{
  Job, ntasks, phase_tasks, begin, iota, sched_step, schedule, registered, give_work, task_file,
  assign, phase_others,
}
use distribute_system_lab.MapReduce.ScheduleWorkers.{schedule_one_each}
use distribute_system_lab.MapReduce.Worker.{
  count_task, count_parallel, begin_task, shutdown, run_worker, accepts, use_up, accept,
  task_begins, connected, shut_down, worker_step, worker_run,
}
use distribute_system_lab.MapReduce.WorkerExit.{is_connected, is_accept_error, accept_loop_ends}
use distribute_system_lab.Prelude.{count, ltb}
use distribute_system_lab.MapReduce.Worker.{Worker}
use distribute_system_lab.MapReduce.WorkerLaws.{worker_counts}
use distribute_system_lab.MapReduce.Master.{
  new_master, forward, register_call, forward_round, received, Forwarding, master_run,
}
use distribute_system_lab.MapReduce.MasterLaws.{forwards_all}
use distribute_system_lab.MapReduce.Samples.{
  open_disk, numerals, plain_json, sort_pairs, str_sort, zeros, write_text, read_text, write_pair,
  read_pair,
}

abbrev job_b : Str
job_b = b'b' ∷ []

abbrev pair_z : KeyValue
pair_z = record { key = b'k' ∷ []; value = b'z' ∷ [] }

-- The one reduce task has written one pair.
abbrev one_output : Files
one_output = (merge_name numerals job_b 0, write_pair pair_z) ∷ []

one_output-read : read_pairs numerals plain_json one_output job_b 1 0 ≡ some (pair_z ∷ [])
unfolding read_pairs get_file str_eq decode_all decode_loop read_pair read_text write_pair
    write_text merge_name zeros
one_output-read = refl

merge_lem_example :
    (fs' : Files) × (ks : List Str) × (content : Str) × (merge numerals plain_json str_sort job_b 1
        one_output
      ≡ some fs')
    × (get_file fs' (result_name job_b) ≡ some content)
    × Report (λ k. last_value k (pair_z ∷ [])) ks content
    × Ascends ks
    × ((k : Str) → count (λ (x : Str). str_eq x k) ks ≡ (if has_key k (pair_z ∷ []) then 1 else 0))
    × ((other : Str) → result_name job_b ≢ other → get_file fs' other ≡ get_file one_output other)
merge_lem_example =
    merge_lem numerals plain_json str_sort job_b 1 one_output (pair_z ∷ []) (refl, refl)
      one_output-read

abbrev keep_key : Str → List Str → Str
keep_key k vs = k

-- One map task, which has left an empty file for the only reduce task.
abbrev empty_input : Files
empty_input = (reduce_name numerals job_b 0 0, []) ∷ []

empty_input-collect : collect numerals plain_json sort_pairs empty_input job_b 0 1 0 ≡ some []
unfolding collect get_file str_eq decode_all decode_loop reduce_name zeros
empty_input-collect = refl

no_output_yet : get_file empty_input (merge_name numerals job_b 0) ≡ none
unfolding get_file str_eq reduce_name merge_name zeros
no_output_yet = refl

empty_reduce_stops_merge_example :
    (do_reduce numerals plain_json sort_pairs job_b 0
        (merge_name numerals job_b 0)
        1
        keep_key
        empty_input
      ≡ some empty_input)
    × (merge numerals plain_json str_sort job_b 1 empty_input ≡ none)
empty_reduce_stops_merge_example =
    empty_reduce_stops_merge numerals plain_json sort_pairs str_sort job_b 0 1 1 keep_key
      empty_input (omega arith) empty_input-collect no_output_yet

abbrev one_task : Job
one_task = record { job_name = job_b; files = []; n_reduce = 1; phase = reduce_phase }

one_task_run :
    schedule one_task
      (begin (ntasks one_task))
      (registered (b'w' ∷ []) ∷ registered (b'v' ∷ []) ∷ [])
    ≡ some (record {
      done_map = [];
      done_n = 0;
      tasks = [];
      idle = (b'v' ∷ []) ∷ [];
      calls =
          record {
            args = record {
              job_name = job_b;
              file = [];
              phase = reduce_phase;
              task_number = 0;
              num_other_phase = 0;
            };
            worker = b'w' ∷ [];
          }
          ∷ [];
      finished = false;
    })
unfolding schedule begin iota sched_step give_work task_file assign phase_tasks phase_others
one_task_run = refl

schedule_one_each_example : ◌≤◌ 1 1
unfolding str_eq
schedule_one_each_example =
    schedule_one_each one_task (registered (b'w' ∷ []) ∷ registered (b'v' ∷ []) ∷ []) (b'w' ∷ [])
      one_task_run

-- A worker that takes a task and is told to shut down while it runs.
busy_run :
    worker_run
      (run_worker (b'w' ∷ []) none none)
      (connected ∷ task_begins ∷ connected ∷ shut_down ∷ [])
    ≡ some (record {
      name = b'w' ∷ [];
      n_rpc = some 1;
      n_tasks = 1;
      concurrent = 1;
      parallelism = none;
      accepting = true;
    })
unfolding worker_run worker_step run_worker begin_task count_task count_parallel accepts accept
    use_up shutdown
busy_run = refl

worker_counts_example : ◌≤◌ 1 1 × ◌≡◌ {A = ℕ} 1 1 × ◌≡◌ {A = ℕ} 1 1
unfolding shutdown
worker_counts_example = worker_counts (b'w' ∷ []) none none _ busy_run

abbrev two_registrations : Forwarding
two_registrations =
    master_run (record { master = new_master (b'm' ∷ []); next = 0; sending = []; sent = [] })
      (register_call (b'w' ∷ [])
        ∷ register_call (b'v' ∷ [])
        ∷ forward_round
        ∷ forward_round
        ∷ received 1
        ∷ [])

forwards_all_example :
    ((p : Str → Bool)
      → count p two_registrations.sent
          + count p two_registrations.sending
          + count p (drop two_registrations.next two_registrations.master.workers)
        ≡ count p ((b'w' ∷ []) ∷ (b'v' ∷ []) ∷ []))
    × (forward two_registrations.master two_registrations.next ≡ none
        → two_registrations.sending ≡ []
        → (p : Str → Bool)
        → count p two_registrations.sent ≡ count p ((b'w' ∷ []) ∷ (b'v' ∷ []) ∷ []))
forwards_all_example = forwards_all (b'm' ∷ []) (
    register_call (b'w' ∷ [])
    ∷ register_call (b'v' ∷ [])
    ∷ forward_round
    ∷ forward_round
    ∷ received 1
    ∷ [])

-- A worker without a limit that has been told to stop takes one more connection.
abbrev stopping : Worker
unfolding shutdown run_worker
stopping = (shutdown (run_worker (b'w' ∷ []) none none)).0

abbrev stopped : Worker
unfolding shutdown run_worker
stopped = record stopping { n_rpc = some 0 }

accept_loop_ends_example :
    (count is_connected (connected ∷ []) ≤ 1)
    × (accepts stopped
        ≡ true
          && (count is_accept_error (connected ∷ []) == 0)
          && ltb (count is_connected (connected ∷ [])) 1)
unfolding worker_run worker_step accepts accept use_up shutdown run_worker
accept_loop_ends_example =
    accept_loop_ends stopping (connected ∷ []) 1 {w' = stopped} refl refl refl
