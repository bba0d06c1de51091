-- ===== src/MapReduce/ScheduleInv.antt =====
-- mit6.824/src/mapreduce/schedule.go: no task is lost or doubled, and no step panics.
use distribute_system_lab.Prelude.{
  ℕ, zero, suc, ◌+◌, ◌≡◌, ◌<◌, refl, ◌⊎◌, inl, inr, true, false, List, [], ◌∷◌, ◌++◌, Option, some,
  >>=-eq-some, arith, length, count, ltb, ◌==◌, if◌then◌else◌,
}
use distribute_system_lab.Prelude.Text.{Str}
use distribute_system_lab.MapReduce.Names.{JobPhase, map_phase, reduce_phase}
use distribute_system_lab.MapReduce.Schedule.{
  Call, Sched, Job, ntasks, phase_tasks, task_file, give_work, retry, take_call, assign,
}

-- How often a task stands in a list, and among the calls.
abbrev pub occ : ℕ → List ℕ → ℕ
occ t us = count (λ u. u == t) us

abbrev pub occ_calls : ℕ → List Call → ℕ
occ_calls t cs = count (λ (c : Call). c.args.task_number == t) cs

pub occ-append : (t : ℕ) (us vs : List ℕ) → occ t (us ++ vs) ≡ occ t us + occ t vs
occ-append t [] vs = omega arith
occ-append t (u ∷ us) vs = ground (arith, occ-append t us vs)

-- Each task of the phase is queued, under way or done, once; a worker idles only while no task
-- is queued; and the loop is left when all tasks are done.
pub record SchedInv (j : Job) (s : Sched) : Type 0 where
  pub each :
      (t : ℕ)
      → occ t s.tasks + occ_calls t s.calls + occ t s.done_map ≡ (if ltb t (ntasks j) then 1 else 0)
  pub total : length s.tasks + length s.calls + s.done_n ≡ ntasks j
  pub busy : (s.idle ≡ []) ⊎ (s.tasks ≡ [])
  pub left : s.finished ≡ true → (s.done_n ≡ ntasks j) × (0 < s.done_n)

task_file-total :
    (p : JobPhase) (files : List Str) (n t : ℕ)
    → t < phase_tasks p files n
    → (f : Str) × (task_file p files t ≡ some f)
unfolding task_file phase_tasks
task_file-total reduce_phase files n t h = ([], refl)
task_file-total map_phase [] n t h = absurd (omega arith)
task_file-total map_phase (f ∷ files) n zero h = (f, refl)
task_file-total map_phase (f ∷ files) n (suc t) h =
    task_file-total map_phase files n t (omega arith)

-- What holds while a worker is at hand, before it gets work.
pub record Ready (j : Job) (s : Sched) (tasks : List ℕ) : Type 0 where
  pub each :
      (t : ℕ)
      → occ t tasks + occ_calls t s.calls + occ t s.done_map ≡ (if ltb t (ntasks j) then 1 else 0)
  pub total : length tasks + length s.calls + s.done_n ≡ ntasks j
  pub quiet : (s.idle ≡ []) ⊎ ((t : ℕ) × (tasks ≡ t ∷ [])) ⊎ (tasks ≡ [])
  pub unfinished : s.finished ≡ false
  pub same : s.tasks ≡ tasks

abbrev pub Stepped : Job → Option Sched → Type 0
Stepped j out = (s : Sched) × (out ≡ some s) × SchedInv j s

pub give_work-Stepped :
    (j : Job) (s : Sched) (w : Str) (tasks : List ℕ)
    → Ready j s tasks
    → Stepped j (give_work j s w tasks)
unfolding give_work
give_work-Stepped j s w [] r = (
  record s { idle = s.idle ++ w ∷ [] },
  refl,
  record {
    each = λ t. rw r.same (r.each t);
    total = rw r.same r.total;
    busy = inr r.same;
    left = λ h. absurd (ground (arith, r.unfinished));
  },
)
give_work-Stepped j s w (t ∷ tasks) r =
    let in_range : t < ntasks j = ground (arith, r.each t) in
    let (f, hf) = task_file-total j.phase j.files j.n_reduce t in_range in
    (
      assign j s w t f tasks,
      rw hf,
      record {
        each = λ u. ground (arith, r.each u);
        total = omega (arith, r.total);
        busy = ground arith;
        left = λ h. absurd (ground (arith, r.unfinished));
      },
    )

pub retry-Stepped :
    (j : Job) (s : Sched) (t : ℕ) (idle : List Str)
    → s.idle ≡ idle
    → s.finished ≡ false
    → (idle ≡ []) ⊎ (s.tasks ≡ [])
    → ((u : ℕ)
        → occ u (s.tasks ++ t ∷ []) + occ_calls u s.calls + occ u s.done_map
          ≡ (if ltb u (ntasks j) then 1 else 0))
    → length (s.tasks ++ t ∷ []) + length s.calls + s.done_n ≡ ntasks j
    → Stepped j (retry j s t idle)
unfolding retry
retry-Stepped j s t [] e f b h k = (
  record s { tasks = s.tasks ++ t ∷ [] },
  refl,
  record { each = h; total = k; busy = inl e; left = λ q. absurd (ground (arith, f)) },
)
retry-Stepped j s t (w ∷ idle) e f b h k =
    give_work-Stepped j (record s { tasks = s.tasks ++ t ∷ []; idle = idle }) w (s.tasks ++ t ∷ [])
      (record {
        each = h;
        total = k;
        quiet = inr (inl (t, ground (arith, b)));
        unfinished = f;
        same = refl;
      })

pub take_call-lem :
    (i : ℕ) (cs : List Call) {c : Call} {rest : List Call}
    → take_call i cs ≡ some (c, rest)
    → (length cs ≡ suc (length rest)) × ((t : ℕ) → occ_calls t cs ≡ occ_calls t (c ∷ rest))
unfolding take_call
take_call-lem i [] h = absurd (ground arith)
take_call-lem zero (d ∷ cs) h = (ground arith, λ t. ground arith)
take_call-lem (suc i) (d ∷ cs) {c} {rest} h =
    let ((c', rest'), e, h') = >>=-eq-some (take_call i cs) _ h in
    let (l, o) = take_call-lem i cs e in (ground (arith, l), λ t. ground (arith, o t))
