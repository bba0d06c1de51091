-- ===== src/MapReduce/ScheduleEnds.antt =====
-- mit6.824/src/mapreduce/schedule.go: as many successes as there are tasks end the phase.
use distribute_system_lab.Prelude.{
  ℕ, zero, suc, ◌+◌, ◌≡◌, ◌≢◌, ◌<◌, refl, sym, subst, ◌∙◌, ◌⊎◌, inl, inr, Bool, true, false,
  Bool-cases, List, [], ◌∷◌, ◌++◌, some, >>=-eq-some, arith, ◌==◌, if_false,
}
use distribute_system_lab.Prelude.Text.{Str}
use distribute_system_lab.MapReduce.Schedule.{
  Sched, Job, ntasks, begin, member, task_file, assign, give_work, retry, complete, on_result,
  Receive, registered, reported, take_call, on_report, sched_step, schedule,
}
use distribute_system_lab.MapReduce.ScheduleInv.{SchedInv, take_call-lem}
use distribute_system_lab.MapReduce.ScheduleDone.{Ended, member-occ, step-SchedInv, begin-SchedInv}

abbrev pub successes : List Receive → ℕ
successes [] = 0
successes (registered w ∷ rs) = successes rs
successes (reported i true ∷ rs) = suc (successes rs)
successes (reported i false ∷ rs) = successes rs

-- The loop has been left if all tasks are counted.
abbrev Prompt : Job → Sched → Type 0
Prompt j s = (s.finished ≡ true) ⊎ (s.done_n ≢ ntasks j) ⊎ (ntasks j ≡ 0)

give_work-same :
    (j : Job) (s : Sched) (w : Str) (tasks : List ℕ) {s' : Sched}
    → give_work j s w tasks ≡ some s'
    → (s'.done_n ≡ s.done_n) × (s'.finished ≡ s.finished)
unfolding give_work assign
give_work-same j s w [] h = (ground arith, ground arith)
give_work-same j s w (t ∷ tasks) h =
    let (f, e, h') = >>=-eq-some (task_file j.phase j.files t) _ h in (ground arith, ground arith)

retry-same :
    (j : Job) (s : Sched) (t : ℕ) (idle : List Str) {s' : Sched}
    → retry j s t idle ≡ some s'
    → (s'.done_n ≡ s.done_n) × (s'.finished ≡ s.finished)
unfolding retry
retry-same j s t [] h = (ground arith, ground arith)
retry-same j s t (v ∷ idle) h =
    give_work-same j (record s { tasks = s.tasks ++ t ∷ []; idle = idle }) v (s.tasks ++ t ∷ []) h

complete-Prompt :
    (j : Job) (s : Sched) (t : ℕ) (w : Str) {s' : Sched}
    → Ended j s t
    → complete j s t w ≡ some s'
    → (s'.done_n ≡ s.done_n + 1) × Prompt j s'
unfolding complete
complete-Prompt j s t w v h = elim (Bool-cases (member t s.done_map)) [
  | inl again ↦ absurd (ground (arith, member-occ t s.done_map, v.each t))
  | inr first ↦ elim (Bool-cases (s.done_n + 1 == ntasks j)) [
    | inl last ↦ (ground (arith, first, last), inl (ground (arith, first, last)))
    | inr more ↦
        let counted = record s { done_map = t ∷ s.done_map; done_n = s.done_n + 1 } in
        let (d, f) = give_work-same j counted w s.tasks (rw more at (rw first at h)) in
        (d, inr (inl (λ e. ground (arith, more, d))))
  ]
]

-- A step that counts nothing.
kept-Prompt :
    (j : Job) (s s' : Sched)
    → Prompt j s
    → (s'.done_n ≡ s.done_n) × (s'.finished ≡ s.finished)
    → Prompt j s'
kept-Prompt j s s' (inl t) (d, f) = inl (f ∙ t)
kept-Prompt j s s' (inr (inl n)) (d, f) = inr (inl (λ e. n (sym d ∙ e)))
kept-Prompt j s s' (inr (inr z)) (d, f) = inr (inr z)

reported-Prompt :
    (j : Job) (s : Sched) (i : ℕ) (ok : Bool) {s' : Sched}
    → SchedInv j s
    → s.finished ≡ false
    → Prompt j s
    → on_report j s i ok ≡ some s'
    → (s'.done_n ≡ s.done_n + successes (reported i ok ∷ [])) × Prompt j s'
unfolding on_report on_result
reported-Prompt j s i true v f p h =
    let ((c, rest), e, h') = >>=-eq-some (take_call i s.calls) _ h in
    let (len, at) = take_call-lem i s.calls e in
    complete-Prompt j (record s { calls = rest }) c.args.task_number c.worker
      (record {
        each = λ u. ground (arith, v.each u, at u);
        total = omega (arith, v.total, len);
        busy = v.busy;
        unfinished = f;
      })
      h'
reported-Prompt j s i false {s'} v f p h =
    let ((c, rest), e, h') = >>=-eq-some (take_call i s.calls) _ h in
    let (d, g) = retry-same j (record s { calls = rest }) c.args.task_number s.idle h' in
    (omega (arith, d), kept-Prompt j s s' p (d, g))

step-Prompt :
    (j : Job) (s : Sched) (r : Receive) {s' : Sched}
    → SchedInv j s
    → Prompt j s
    → sched_step j s r ≡ some s'
    → (s'.done_n ≡ s.done_n + successes (r ∷ [])) × Prompt j s'
unfolding sched_step
step-Prompt j s (registered w) {s'} v p h = elim (Bool-cases s.finished) [
  | inl t ↦ absurd (ground (arith, t))
  | inr f ↦
      let (d, g) = give_work-same j s w s.tasks (sym (if_false s.finished _ _ f) ∙ h) in
      (omega (arith, d), kept-Prompt j s s' p (d, g))
]
step-Prompt j s (reported i ok) v p h = elim (Bool-cases s.finished) [
  | inl t ↦ absurd (ground (arith, t))
  | inr f ↦ reported-Prompt j s i ok v f p (sym (if_false s.finished _ _ f) ∙ h)
]

successes_cons :
    (r : Receive) (rs : List Receive) → successes (r ∷ rs) ≡ successes (r ∷ []) + successes rs
successes_cons (registered w) rs = omega arith
successes_cons (reported i true) rs = omega arith
successes_cons (reported i false) rs = omega arith

schedule-Prompt :
    (j : Job) (s : Sched) (rs : List Receive) {s' : Sched}
    → SchedInv j s
    → Prompt j s
    → schedule j s rs ≡ some s'
    → (s'.done_n ≡ s.done_n + successes rs) × Prompt j s'
unfolding schedule
schedule-Prompt j s [] {s'} v p h =
    let same : s ≡ s' = ground arith in (ground arith, subst (Prompt j) same p)
schedule-Prompt j s (r ∷ rs) v p h =
    let (s1, e, h') = >>=-eq-some (sched_step j s r) _ h in
    let (d, p1) = step-Prompt j s r v p e in
    let (d', p') = schedule-Prompt j s1 rs (step-SchedInv j s r v e) p1 h' in
    (omega (arith, d, d', successes_cons r rs), p')

-- A phase with tasks is over as soon as as many calls have succeeded as it has tasks, whatever
-- registrations and failures come in between.
pub schedule_ends :
    (j : Job) (rs : List Receive) {s : Sched}
    → 0 < ntasks j
    → schedule j (begin (ntasks j)) rs ≡ some s
    → successes rs ≡ ntasks j
    → s.finished ≡ true
unfolding begin
schedule_ends j rs {s} pos h k =
    let (d, p) =
      schedule-Prompt j (begin (ntasks j)) rs (begin-SchedInv j) (inr (start (ntasks j))) h in
    elim p [
      | inl t ↦ t
      | inr (inl n) ↦ absurd (n (omega (arith, d)))
      | inr (inr z) ↦ absurd (omega arith)
    ]
  where
    start : (n : ℕ) → (0 ≢ n) ⊎ (n ≡ 0)
    start zero = inr refl
    start (suc n) = inl (λ e. omega arith)
