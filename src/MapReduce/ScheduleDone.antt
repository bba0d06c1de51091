-- ===== src/MapReduce/ScheduleDone.antt =====
-- mit6.824/src/mapreduce/schedule.go: a phase that ends has done all its tasks.
use distribute_system_lab.Prelude.{
  ℕ, zero, suc, ◌+◌, ◌≡◌, ◌<◌, refl, ap, subst, ◌∙◌, ◌⊎◌, inl, inr, Bool, true, false, Bool-cases,
  List, [], ◌∷◌, some, ◌>>=◌, >>=-eq-some, arith, length, length-append, ltb, ◌==◌, ==_iff,
  if◌then◌else◌, if_false, Option-cases,
}
use distribute_system_lab.Prelude.Text.{Str}
use distribute_system_lab.MapReduce.Schedule.{
  DoTaskResult, Call, Sched, Job, ntasks, iota, begin, member, give_work, complete, on_result,
  Receive, registered, reported, take_call, sched_step, schedule, on_report,
}
use distribute_system_lab.MapReduce.ScheduleInv.{
  occ, occ_calls, occ-append, SchedInv, Stepped, give_work-Stepped, retry-Stepped, take_call-lem,
}

pub member-occ : (t : ℕ) (us : List ℕ) → member t us ≡ ltb 0 (occ t us)
unfolding member
member-occ t [] = refl
member-occ t (u ∷ us) = ground (arith, member-occ t us)

-- A call of task `t` has just ended, and is no longer among the calls.
pub record Ended (j : Job) (s : Sched) (t : ℕ) : Type 0 where
  pub each :
      (u : ℕ)
      → occ u s.tasks + occ_calls u s.calls + (if t == u then 1 else 0) + occ u s.done_map
        ≡ (if ltb u (ntasks j) then 1 else 0)
  pub total : length s.tasks + length s.calls + 1 + s.done_n ≡ ntasks j
  pub busy : (s.idle ≡ []) ⊎ (s.tasks ≡ [])
  pub unfinished : s.finished ≡ false

complete-Stepped :
    (j : Job) (s : Sched) (t : ℕ) (w : Str) → Ended j s t → Stepped j (complete j s t w)
unfolding complete
complete-Stepped j s t w v = elim (Bool-cases (member t s.done_map)) [
  | inl again ↦ absurd (ground (arith, member-occ t s.done_map, v.each t))
  | inr first ↦ elim (Bool-cases (s.done_n + 1 == ntasks j)) [
    | inl last ↦ (
      record s { done_map = t ∷ s.done_map; done_n = s.done_n + 1; finished = true },
      rw (first, last),
      record {
        each = λ u. ground (arith, v.each u);
        total = omega (arith, v.total);
        busy = v.busy;
        left = λ h. ((==_iff _ _).0 last, omega arith);
      },
    )
    | inr more ↦
        let counted = record s { done_map = t ∷ s.done_map; done_n = s.done_n + 1 } in
        let (s', e, i) = give_work-Stepped j counted w s.tasks (record {
          each = λ u. ground (arith, v.each u);
          total = omega (arith, v.total);
          quiet = ground (arith, v.busy);
          unfinished = v.unfinished;
          same = refl;
        }) in
        (s', rw (first, more) e, i)
  ]
]

on_result-Stepped :
    (j : Job) (s : Sched) (r : DoTaskResult) → Ended j s r.task_idx → Stepped j (on_result j s r)
unfolding on_result
on_result-Stepped j s r v = elim (Bool-cases r.result_ok) [
  | inl fine ↦ let (s', e, i) = complete-Stepped j s r.task_idx r.worker v in (s', rw fine e, i)
  | inr failed ↦
      let (s', e, i) =
        retry-Stepped j s r.task_idx s.idle refl v.unfinished v.busy
          (λ u. ground (arith, v.each u, occ-append u s.tasks (r.task_idx ∷ [])))
          (omega (arith, v.total, length-append s.tasks (r.task_idx ∷ []))) in
      (s', rw failed e, i)
]

registered-Stepped :
    (j : Job) (s : Sched) (w : Str)
    → SchedInv j s
    → s.finished ≡ false
    → Stepped j (give_work j s w s.tasks)
registered-Stepped j s w v f = give_work-Stepped j s w s.tasks (record {
  each = v.each;
  total = v.total;
  quiet = ground (arith, v.busy);
  unfinished = f;
  same = refl;
})

reported-Stepped :
    (j : Job) (s : Sched) (i : ℕ) (ok : Bool) {c : Call} {rest : List Call}
    → SchedInv j s
    → s.finished ≡ false
    → take_call i s.calls ≡ some (c, rest)
    → Stepped j (on_report j s i ok)
unfolding on_report
reported-Stepped j s i ok {c} {rest} v f e =
    let (len, at) = take_call-lem i s.calls e in
    let r : DoTaskResult = record {
      result_ok = ok;
      task_idx = c.args.task_number;
      worker = c.worker;
    } in
    let (s', q, inv) =
      on_result-Stepped j (record s { calls = rest }) r
        (record {
          each = λ u. ground (arith, v.each u, at u);
          total = omega (arith, v.total, len);
          busy = v.busy;
          unfinished = f;
        }) in
    (s', rw (e, ◌>>=◌) q, inv)

-- What can be received: any registration, and the report of a call that is under way.
abbrev pub Possible : Sched → Receive → Type 0
Possible s (registered w) = Unit {0}
Possible s (reported i ok) =
    (c : Call) × (rest : List Call) × (take_call i s.calls ≡ some (c, rest))

-- While the phase lasts, whatever is received is handled without a panic, and afterwards it holds
-- again that each task is queued, under way or done, exactly once, that the lengths add up, that
-- a worker is idle only while no task is queued, and that the loop is left only when all tasks are
-- counted as done.
pub sched_step_keeps :
    (j : Job) (s : Sched) (r : Receive)
    → SchedInv j s
    → s.finished ≡ false
    → Possible s r
    → (s' : Sched) × (sched_step j s r ≡ some s') × SchedInv j s'
unfolding sched_step
sched_step_keeps j s (registered w) v f p =
    let (s', e, i) = registered-Stepped j s w v f in (s', if_false s.finished _ _ f ∙ e, i)
sched_step_keeps j s (reported i ok) v f (c, rest, e) =
    let (s', q, inv) = reported-Stepped j s i ok v f e in (s', if_false s.finished _ _ f ∙ q, inv)

occ_nil : (t : ℕ) (us : List ℕ) → length us ≡ 0 → occ t us ≡ 0
occ_nil t [] h = refl
occ_nil t (u ∷ us) h = absurd (omega arith)

calls_nil : (t : ℕ) (cs : List Call) → length cs ≡ 0 → occ_calls t cs ≡ 0
calls_nil t [] h = refl
calls_nil t (c ∷ cs) h = absurd (omega arith)

pub step-SchedInv :
    (j : Job) (s : Sched) (r : Receive) {s' : Sched}
    → SchedInv j s
    → sched_step j s r ≡ some s'
    → SchedInv j s'
unfolding sched_step on_report
step-SchedInv j s (registered w) v h = elim (Bool-cases s.finished) [
  | inl t ↦ absurd (ground (arith, t))
  | inr f ↦
      let (s1, e, i) = sched_step_keeps j s (registered w) v f tt in
      subst (SchedInv j) (ground (arith, e, h)) i
]
step-SchedInv j s (reported k ok) v h = elim (Bool-cases s.finished) [
  | inl t ↦ absurd (ground (arith, t))
  | inr f ↦ elim (Option-cases (take_call k s.calls)) [
    | inl n ↦ absurd (ground (arith, f, n))
    | inr ((c, rest), e) ↦
        let (s1, q, i) = sched_step_keeps j s (reported k ok) v f (c, rest, e) in
        subst (SchedInv j) (ground (arith, q, h)) i
  ]
]

schedule-SchedInv :
    (j : Job) (s : Sched) (rs : List Receive) {s' : Sched}
    → SchedInv j s
    → schedule j s rs ≡ some s'
    → SchedInv j s'
unfolding schedule
schedule-SchedInv j s [] v h = subst (SchedInv j) (ground arith) v
schedule-SchedInv j s (r ∷ rs) v h =
    let (s1, e, h') = >>=-eq-some (sched_step j s r) _ h in
    schedule-SchedInv j s1 rs (step-SchedInv j s r v e) h'

occ-iota :
    (t from n : ℕ)
    → occ t (iota from n) ≡ (if ltb t from then 0 else if ltb t (from + n) then 1 else 0)
unfolding iota
occ-iota t from zero = ground arith
occ-iota t from (suc n) = ground (arith, occ-iota t (from + 1) n)

length-iota : (from n : ℕ) → length (iota from n) ≡ n
unfolding iota
length-iota from zero = refl
length-iota from (suc n) = ap suc (length-iota (from + 1) n)

pub begin-SchedInv : (j : Job) → SchedInv j (begin (ntasks j))
unfolding begin
begin-SchedInv j = record {
  each = λ t. ground (arith, occ-iota t 0 (ntasks j));
  total = omega (arith, length-iota 0 (ntasks j));
  busy = inl refl;
  left = λ h. absurd (ground arith);
}

-- When the loop of `schedule` is left, after whatever registrations, successes and failures,
-- every task of the phase has been reported done, no task is queued, and no call is under way.
pub schedule_done :
    (j : Job) (rs : List Receive) {s : Sched}
    → schedule j (begin (ntasks j)) rs ≡ some s
    → s.finished ≡ true
    → ((t : ℕ) → t < ntasks j → member t s.done_map ≡ true)
      × (length s.tasks ≡ 0)
      × (length s.calls ≡ 0)
schedule_done j rs {s} h f =
    let v = schedule-SchedInv j _ rs (begin-SchedInv j) h in
    let no_tasks : length s.tasks ≡ 0 = omega (arith, v.total, (v.left f).0) in
    let no_calls : length s.calls ≡ 0 = omega (arith, v.total, (v.left f).0) in
    (
      λ t lt. ground (
        arith,
        member-occ t s.done_map,
        v.each t,
        occ_nil t s.tasks no_tasks,
        calls_nil t s.calls no_calls,
      ),
      no_tasks,
      no_calls,
    )

-- A phase with no task never ends: `schedule` waits for a last task that does not come.
pub schedule_no_tasks :
    (j : Job) (rs : List Receive) {s : Sched}
    → ntasks j ≡ 0
    → schedule j (begin (ntasks j)) rs ≡ some s
    → s.finished ≡ false
schedule_no_tasks j rs {s} z h = elim (Bool-cases s.finished) [
  | inl t ↦
      let (a, b) = (schedule-SchedInv j _ rs (begin-SchedInv j) h).left t in absurd (omega arith)
  | inr f ↦ f
]
