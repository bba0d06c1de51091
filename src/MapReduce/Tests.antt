-- ===== src/MapReduce/Tests.antt =====
-- The theorems about a MapReduce job at concrete inputs.
mod Service
mod Whole
use distribute_system_lab.Prelude.{
  ℕ, ◌≡◌, ◌≢◌, ◌<◌, refl, true, false, List, [], ◌∷◌, ◌++◌, none, some, arith, if◌then◌else◌,
}
use distribute_system_lab.Prelude.Text.{Str, str_eq, str_lt}
use distribute_system_lab.MapReduce.Names.{
  KeyValue, reduce_phase, reduce_name, merge_name, reduce_name-injective, reduce_name-ne-merge_name,
}
use distribute_system_lab.MapReduce.Files.{Files, get_file, encode_all, decode_all-encode_all}
use distribute_system_lab.MapReduce.Map.{do_map, bucket}
use distribute_system_lab.MapReduce.MapLaws.{Foreign, do_map_lem}
use distribute_system_lab.MapReduce.Reduce.{ByKey, group_loop}
use distribute_system_lab.MapReduce.ReduceLaws.{values_of, has_key, find_key, group_sorted}
use distribute_system_lab.MapReduce.Schedule.{
  Sched, Job, ntasks, phase_tasks, begin, iota, member, take_call, sched_step, schedule, registered,
  reported, give_work, task_file, assign, phase_others, on_report, on_result, complete, retry,
}
use distribute_system_lab.MapReduce.ScheduleInv.{SchedInv}
use distribute_system_lab.MapReduce.ScheduleDone.{
  begin-SchedInv, sched_step_keeps, schedule_done, schedule_no_tasks,
}
use distribute_system_lab.MapReduce.ScheduleEnds.{schedule_ends}
use distribute_system_lab.MapReduce.Samples.{open_disk, numerals, plain_json, sum, write_pair}

-- A job "a", and two pairs with the key "k".
abbrev job_a : Str
job_a = b'a' ∷ []

abbrev key_k : Str
key_k = b'k' ∷ []

abbrev pair_x : KeyValue
pair_x = record { key = key_k; value = b'x' ∷ [] }

abbrev pair_y : KeyValue
pair_y = record { key = key_k; value = b'y' ∷ [] }

reduce_name-injective_example : ◌≡◌ {A = ℕ} 1 1 × ◌≡◌ {A = ℕ} 2 2
reduce_name-injective_example = reduce_name-injective numerals job_a 1 2 1 2 refl

reduce_name-ne-merge_name_example : reduce_name numerals job_a 1 2 ≢ merge_name numerals job_a 2
reduce_name-ne-merge_name_example = reduce_name-ne-merge_name numerals job_a 1 2 2

-- The map function gives a pair with the content under the key "k", and one under the name.
abbrev two_pairs : Str → Str → List KeyValue
two_pairs name content =
    record { key = key_k; value = content } ∷ record { key = name; value = [] } ∷ []

abbrev one_file : Files
one_file = (b'f' ∷ [], b'x' ∷ []) ∷ []

one_file-get : get_file one_file (b'f' ∷ []) ≡ some (b'x' ∷ [])
unfolding get_file str_eq
one_file-get = refl

do_map_lem_example :
    (fs' : Files) × (do_map numerals plain_json sum job_a 0 (b'f' ∷ []) 2 two_pairs one_file
      ≡ some fs')
    × ((r : ℕ)
        → r < 2
        → get_file fs' (reduce_name numerals job_a 0 r)
          ≡ some (encode_all plain_json (bucket sum 2 r (two_pairs (b'f' ∷ []) (b'x' ∷ [])))))
    × ((name : Str)
        → Foreign numerals plain_json sum job_a 0 name
        → get_file fs' name ≡ get_file one_file name)
do_map_lem_example =
    do_map_lem numerals plain_json sum job_a 0 (b'f' ∷ []) (b'x' ∷ []) 2 two_pairs one_file
      (omega arith) (λ r lt. (refl, refl)) one_file-get

-- The reduce function joins the values.
abbrev join : List Str → Str
join [] = []
join (v ∷ vs) = v ++ join vs

abbrev join_values : Str → List Str → Str
join_values k vs = join vs

pairs-ByKey : ByKey (pair_x ∷ pair_y ∷ [])
unfolding str_lt
pairs-ByKey = ((refl, tt), (tt, tt))

group_sorted_example : find_key key_k (group_loop join_values key_k [] (pair_x ∷ pair_y ∷ [])) ≡ (
    if has_key key_k (pair_x ∷ pair_y ∷ [])
    then some (join_values key_k (values_of key_k (pair_x ∷ pair_y ∷ [])))
    else none)
group_sorted_example = group_sorted join_values pair_x (pair_y ∷ []) key_k pairs-ByKey

-- What two map tasks have left for reduce task 0.
abbrev two_files : Files
two_files =
    (reduce_name numerals job_a 0 0, write_pair pair_x)
    ∷ (reduce_name numerals job_a 1 0, write_pair pair_y)
    ∷ []

-- Two reduce tasks, and two workers.
abbrev two_tasks : Job
two_tasks = record { job_name = job_a; files = []; n_reduce = 2; phase = reduce_phase }

sched_step_keeps_example :
    (s' : Sched) × (sched_step two_tasks (begin (ntasks two_tasks)) (registered (b'w' ∷ []))
      ≡ some s')
    × SchedInv two_tasks s'
unfolding begin
sched_step_keeps_example =
    sched_step_keeps two_tasks (begin (ntasks two_tasks)) (registered (b'w' ∷ []))
      (begin-SchedInv two_tasks) refl tt

abbrev both_done : Sched
both_done = record {
  done_map = 0 ∷ 1 ∷ [];
  done_n = 2;
  tasks = [];
  idle = (b'v' ∷ []) ∷ [];
  calls = [];
  finished = true;
}

-- A worker loses task 0, and the other does both tasks.
both_run :
    schedule two_tasks (begin (ntasks two_tasks)) (
      registered (b'w' ∷ [])
      ∷ registered (b'v' ∷ [])
      ∷ reported 1 false
      ∷ reported 0 true
      ∷ reported 0 true
      ∷ [])
    ≡ some (record both_done { idle = [] })
unfolding schedule begin iota sched_step give_work task_file assign on_report on_result complete
    retry take_call member phase_tasks phase_others
both_run = refl

schedule_done_example :
    ((t : ℕ) → t < ntasks two_tasks → member t (0 ∷ 1 ∷ []) ≡ true)
    × ◌≡◌ {A = ℕ} 0 0
    × ◌≡◌ {A = ℕ} 0 0
schedule_done_example = schedule_done two_tasks _ both_run refl

no_tasks_run :
    schedule
      (record two_tasks { n_reduce = 0 })
      (begin (ntasks (record two_tasks { n_reduce = 0 })))
      (registered (b'w' ∷ []) ∷ [])
    ≡ some
        (record both_done { done_map = []; done_n = 0; idle = (b'w' ∷ []) ∷ []; finished = false })
unfolding schedule begin iota sched_step give_work phase_tasks
no_tasks_run = refl

schedule_no_tasks_example : false ≡ false
unfolding phase_tasks
schedule_no_tasks_example =
    schedule_no_tasks (record two_tasks { n_reduce = 0 }) _ refl no_tasks_run

schedule_ends_example : true ≡ true
unfolding phase_tasks
schedule_ends_example = schedule_ends two_tasks _ (omega arith) both_run refl
