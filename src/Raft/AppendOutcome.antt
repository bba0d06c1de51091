-- ===== src/Raft/AppendOutcome.antt =====
-- mit6.824/src/raft/raft.go, `AppendEntries`: its four ways, with their conditions.
use distribute_system_lab.Prelude.{
  ℕ, ◌+◌, ◌-◌, ◌≡◌, ◌≢◌, ◌≤◌, ◌<◌, refl, ◌⊎◌, inl, inr, true, false, Bool-cases, Option, none, some,
  arith, length, length-append, length-take_pos, get_elem?, take, drop, ltb, ltb→lt, ltb→le, ◌==◌,
  ==_iff, if◌then◌else◌, le_of_get_elem?-none, lt_of_get_elem?,
}
use distribute_system_lab.Raft.State.{Raft, LogEntry, Codec, persist}
use distribute_system_lab.Raft.Vote.{update_term}
use distribute_system_lab.Raft.Append.{
  AppendEntriesArgs, AppendEntriesReply, append_in_term, store_entries, accept_append,
  refuse_append, has_prev, follow_commit, agree, min_of,
}
use distribute_system_lab.Raft.AppendLaws.{Starts, term_start-Starts, term_start-total}
use distribute_system_lab.Raft.ApplyLaws.{apply_log-total}

-- A handler that hears a leader rings the election timer.
abbrev pub ring : {A : Type 0} → Raft A → Raft A
ring rf = record rf { reset_election_timer = true }

module _ {A : Type 0} (g : Codec A) where
  -- What `updateTerm` leaves alone, and the term after it.
  pub record Updated (rf rf' : Raft A) (t : ℕ) : Type 0 where
    pub log : rf'.log ≡ rf.log
    pub commit : rf'.commit_index ≡ rf.commit_index
    pub senders : rf'.senders ≡ rf.senders
    pub term : (rf'.current_term ≤ t) ⊎ (rf'.current_term ≡ rf.current_term)
    pub up : t ≤ rf'.current_term
    pub mono : rf.current_term ≤ rf'.current_term

  pub update_term-Updated : (rf : Raft A) (t : ℕ) → Updated rf (update_term g rf t).0 t
  unfolding update_term persist
  update_term-Updated rf t = ground arith

  store_entries-has_log :
      (rf : Raft A) (args : AppendEntriesArgs A)
      → 0 < length rf.log
      → 0 < length (store_entries g rf args).log
  unfolding store_entries persist
  store_entries-has_log rf args h =
      let p = args.prev_log_index + 1 in
      let k = agree args.entries (drop p rf.log) in
      omega (
        arith,
        length-append (take (p + k) rf.log) (drop k args.entries),
        length-take_pos (p + k) rf.log (omega arith) h,
      )

  follow_commit-total :
      (rf : Raft A) (c : ℕ) → 0 < length rf.log → (r : Raft A) × (follow_commit g rf c ≡ some r)
  unfolding follow_commit min_of
  follow_commit-total rf c h = elim (Bool-cases (ltb rf.commit_index c)) [
    | inl e ↦
        let r =
          apply_log-total (record rf { commit_index = min_of (length rf.log - 1) c })
            (ground arith) in
        (r.0, rw e r.1)
    | inr e ↦ (rf, rw e)
  ]

  -- The ways through the handler, with what each of them is taken for.
  pub data Outcome (rf : Raft A) (args : AppendEntriesArgs A) (t : ℕ)
      (out : Option (Raft A × AppendEntriesReply)) : Type 0 where
    old :
        args.term < rf.current_term
        → out ≡ some (rf, record { term = t; success = false; next_index = none })
        → Outcome rf args t out
    short :
        rf.current_term ≤ args.term
        → length rf.log ≤ args.prev_log_index
        → out
          ≡ some (ring rf, record { term = t; success = false; next_index = some (length rf.log) })
        → Outcome rf args t out
    conflict :
        (e : LogEntry A) (i : ℕ)
        → rf.current_term ≤ args.term
        → get_elem? rf.log args.prev_log_index ≡ some e
        → e.term_idx ≢ args.prev_log_term
        → Starts rf.log e.term_idx args.prev_log_index i
        → out ≡ some (ring rf, record { term = t; success = false; next_index = some i })
        → Outcome rf args t out
    stored :
        (e : LogEntry A) (r : Raft A)
        → rf.current_term ≤ args.term
        → get_elem? rf.log args.prev_log_index ≡ some e
        → e.term_idx ≡ args.prev_log_term
        → follow_commit g (store_entries g rf args) args.leader_commit ≡ some r
        → out ≡ some (ring r, record { term = t; success = true; next_index = some 0 })
        → Outcome rf args t out

  accept_append-Outcome :
      (rf : Raft A) (args : AppendEntriesArgs A) (t : ℕ) (e : LogEntry A)
      → 0 < length rf.log
      → rf.current_term ≤ args.term
      → get_elem? rf.log args.prev_log_index ≡ some e
      → e.term_idx ≡ args.prev_log_term
      → Outcome rf args t (accept_append g rf args t)
  unfolding accept_append
  accept_append-Outcome rf args t e h new he same =
      let (r, hr) =
        follow_commit-total (store_entries g rf args) args.leader_commit
          (store_entries-has_log rf args h) in
      stored e r new he same hr (rw (hr, accept_append))

  refuse_append-Outcome :
      (rf : Raft A) (args : AppendEntriesArgs A) (t : ℕ) (e : LogEntry A)
      → rf.current_term ≤ args.term
      → get_elem? rf.log args.prev_log_index ≡ some e
      → e.term_idx ≢ args.prev_log_term
      → Outcome rf args t (refuse_append g rf args t (some e))
  unfolding refuse_append
  refuse_append-Outcome rf args t e new he other =
      let lt = lt_of_get_elem? rf.log args.prev_log_index e he in
      let (i, hi) = term_start-total rf.log e.term_idx args.prev_log_index (omega arith) in
      conflict e i new he other (term_start-Starts rf.log e.term_idx args.prev_log_index hi)
        (rw (hi, refuse_append))

  by_prev-Outcome :
      (rf : Raft A) (args : AppendEntriesArgs A) (t : ℕ) (o : Option (LogEntry A))
      → 0 < length rf.log
      → rf.current_term ≤ args.term
      → get_elem? rf.log args.prev_log_index ≡ o
      → Outcome rf args t (
          if has_prev o args.prev_log_term
          then accept_append g rf args t
          else refuse_append g rf args t o)
  unfolding has_prev refuse_append
  by_prev-Outcome rf args t none h new he = short new (le_of_get_elem?-none rf.log _ he) refl
  by_prev-Outcome rf args t (some e) h new he =
      elim (Bool-cases (e.term_idx == args.prev_log_term)) [
        | inl q ↦ rw (q, has_prev) (accept_append-Outcome rf args t e h new he ((==_iff _ _).0 q))
        | inr q ↦ rw (q, has_prev) (refuse_append-Outcome rf args t e new he (ground arith))
      ]

  pub append_in_term-Outcome :
      (rf : Raft A) (args : AppendEntriesArgs A) (t : ℕ)
      → 0 < length rf.log
      → Outcome rf args t (append_in_term g rf args t)
  unfolding append_in_term
  append_in_term-Outcome rf args t h = elim (Bool-cases (ltb args.term rf.current_term)) [
    | inl o ↦ old (ltb→lt _ _ o) (rw (o, append_in_term))
    | inr o ↦
        rw (o, append_in_term)
          (by_prev-Outcome rf args t (get_elem? rf.log args.prev_log_index) h (ltb→le _ _ o) refl)
  ]
