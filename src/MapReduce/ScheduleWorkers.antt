-- ===== src/MapReduce/ScheduleWorkers.antt =====
-- mit6.824/src/mapreduce/schedule.go: how many tasks a worker has at a time.
use distribute_system_lab.Prelude.{
  ℕ, zero, suc, ◌+◌, ◌≡◌, ◌≤◌, refl, sym, ◌∙◌, inl, inr, Bool, true, false, Bool-cases, List, [],
  ◌∷◌, ◌++◌, some, >>=-eq-some, arith, count, ◌==◌, if◌then◌else◌, if_false,
}
use distribute_system_lab.Prelude.Text.{Str, str_eq}
use distribute_system_lab.MapReduce.Schedule.{
  Call, Sched, Job, ntasks, begin, member, task_file, assign, give_work, retry, complete, on_result,
  Receive, registered, reported, take_call, on_report, sched_step, schedule,
}

-- How often a worker has a task, idles, and has registered.
abbrev pub at_work : Str → List Call → ℕ
at_work w cs = count (λ (c : Call). str_eq c.worker w) cs

abbrev pub idling : Str → List Str → ℕ
idling w ws = count (λ v. str_eq v w) ws

abbrev pub registrations : Str → List Receive → ℕ
registrations w [] = 0
registrations w (registered v ∷ rs) = (if str_eq v w then 1 else 0) + registrations w rs
registrations w (reported i ok ∷ rs) = registrations w rs

abbrev held : Str → Sched → ℕ
held w s = at_work w s.calls + idling w s.idle

idling-append :
    (w v : Str) (ws : List Str) → idling w (ws ++ v ∷ []) ≡ idling w ws + idling w (v ∷ [])
idling-append w v [] = omega arith
idling-append w v (u ∷ ws) = ground (arith, idling-append w v ws)

give_work-held :
    (w : Str) (j : Job) (s : Sched) (v : Str) (tasks : List ℕ) {s' : Sched}
    → give_work j s v tasks ≡ some s'
    → held w s' ≡ held w s + idling w (v ∷ [])
unfolding give_work assign
give_work-held w j s v [] h = ground (arith, idling-append w v s.idle)
give_work-held w j s v (t ∷ tasks) h =
    let (f, e, h') = >>=-eq-some (task_file j.phase j.files t) _ h in ground arith

retry-held :
    (w : Str) (j : Job) (s : Sched) (t : ℕ) (idle : List Str) {s' : Sched}
    → s.idle ≡ idle
    → retry j s t idle ≡ some s'
    → held w s' ≡ held w s
unfolding retry
retry-held w j s t [] e h = ground arith
retry-held w j s t (v ∷ idle) e h =
    give_work-held w j (record s { tasks = s.tasks ++ t ∷ []; idle = idle }) v (s.tasks ++ t ∷ []) h
    ∙ ground (arith, e)

complete-held :
    (w : Str) (j : Job) (s : Sched) (t : ℕ) (v : Str) {s' : Sched}
    → complete j s t v ≡ some s'
    → held w s' ≤ held w s + idling w (v ∷ [])
unfolding complete
complete-held w j s t v h = elim (Bool-cases (member t s.done_map)) [
  | inl again ↦ omega (arith, give_work-held w j s v s.tasks (rw again at h))
  | inr first ↦ elim (Bool-cases (s.done_n + 1 == ntasks j)) [
    | inl last ↦ ground (arith, first, last)
    | inr more ↦
        let counted = record s { done_map = t ∷ s.done_map; done_n = s.done_n + 1 } in
        omega (arith, give_work-held w j counted v s.tasks (rw more at (rw first at h)))
  ]
]

take_call-at_work :
    (w : Str) (i : ℕ) (cs : List Call) {c : Call} {rest : List Call}
    → take_call i cs ≡ some (c, rest)
    → at_work w cs ≡ at_work w (c ∷ rest)
unfolding take_call
take_call-at_work w i [] h = absurd (ground arith)
take_call-at_work w zero (d ∷ cs) h = ground arith
take_call-at_work w (suc i) (d ∷ cs) h =
    let ((c', rest'), e, h') = >>=-eq-some (take_call i cs) _ h in
    ground (arith, take_call-at_work w i cs e)

on_report-held :
    (w : Str) (j : Job) (s : Sched) (i : ℕ) (ok : Bool) {s' : Sched}
    → on_report j s i ok ≡ some s'
    → held w s' ≤ held w s
unfolding on_report on_result
on_report-held w j s i true h =
    let ((c, rest), e, h') = >>=-eq-some (take_call i s.calls) _ h in
    ground (
      arith,
      take_call-at_work w i s.calls e,
      complete-held w j (record s { calls = rest }) c.args.task_number c.worker h',
    )
on_report-held w j s i false h =
    let ((c, rest), e, h') = >>=-eq-some (take_call i s.calls) _ h in
    ground (
      arith,
      take_call-at_work w i s.calls e,
      retry-held w j (record s { calls = rest }) c.args.task_number s.idle refl h',
    )

sched_step-held :
    (w : Str) (j : Job) (s : Sched) (r : Receive) {s' : Sched}
    → sched_step j s r ≡ some s'
    → held w s' ≤ held w s + registrations w (r ∷ [])
unfolding sched_step
sched_step-held w j s (registered v) h = elim (Bool-cases s.finished) [
  | inl t ↦ absurd (ground (arith, t))
  | inr f ↦ ground (arith, give_work-held w j s v s.tasks (sym (if_false s.finished _ _ f) ∙ h))
]
sched_step-held w j s (reported i ok) h = elim (Bool-cases s.finished) [
  | inl t ↦ absurd (ground (arith, t))
  | inr f ↦ omega (arith, on_report-held w j s i ok (sym (if_false s.finished _ _ f) ∙ h))
]

schedule-held :
    (w : Str) (j : Job) (s : Sched) (rs : List Receive) {s' : Sched}
    → schedule j s rs ≡ some s'
    → held w s' ≤ held w s + registrations w rs
unfolding schedule
schedule-held w j s [] h = ground arith
schedule-held w j s (r ∷ rs) h =
    let (s1, e, h') = >>=-eq-some (sched_step j s r) _ h in
    let first = sched_step-held w j s r e in
    let later = schedule-held w j s1 rs h' in
    elim r [
      | registered v ↦ ground (arith, first, later)
      | reported i ok ↦ ground (arith, first, later)
    ]

-- At any time a worker has at most as many tasks under way as it has registered, so a worker that
-- has registered once never has two; what it idles counts too.
pub schedule_one_each :
    (j : Job) (rs : List Receive) (w : Str) {s : Sched}
    → schedule j (begin (ntasks j)) rs ≡ some s
    → at_work w s.calls + idling w s.idle ≤ registrations w rs
unfolding begin
schedule_one_each j rs w h = omega (arith, schedule-held w j (begin (ntasks j)) rs h)
