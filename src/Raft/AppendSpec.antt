-- ===== src/Raft/AppendSpec.antt =====
-- mit6.824/src/raft/raft.go, `AppendEntries`: its two answers, and the log after each.
use distribute_system_lab.Prelude.{
  ℕ, ◌+◌, ◌-◌, ◌≡◌, ◌≢◌, ◌≤◌, ◌<◌, refl, sym, subst, ◌∙◌, ◌↔◌, true, false, ◌++◌, Option, none,
  some, arith, length, get_elem?, take, ltb, if◌then◌else◌, lt_of_get_elem?,
}
use distribute_system_lab.Raft.State.{Raft, LogEntry, Codec, persist}
use distribute_system_lab.Raft.Vote.{update_term}
use distribute_system_lab.Raft.Apply.{apply_log}
use distribute_system_lab.Raft.Append.{
  AppendEntriesArgs, AppendEntriesReply, append_entries, store_entries, follow_commit, min_of,
}
use distribute_system_lab.Raft.AppendLaws.{Matching, merged, Starts}
use distribute_system_lab.Raft.AppendOutcome.{
  update_term-Updated, Outcome, old, short, conflict, stored, append_in_term-Outcome,
}
use distribute_system_lab.Raft.Kept.Append.{follow_commit-SameCore}

module _ {A : Type 0} where
  -- The leader's term is not old, and the log has the leader's previous entry.
  pub record Accepts (rf : Raft A) (args : AppendEntriesArgs A) : Type 0 where
    pub new : rf.current_term ≤ args.term
    pub prev : LogEntry A
    pub there : get_elem? rf.log args.prev_log_index ≡ some prev
    pub same : prev.term_idx ≡ args.prev_log_term

  -- Why a request is refused, and what the reply points the leader to.
  pub data Refusal (rf : Raft A) (args : AppendEntriesArgs A) (hint : Option ℕ) : Type 0 where
    old_term : args.term < rf.current_term → hint ≡ none → Refusal rf args hint
    too_short :
        length rf.log ≤ args.prev_log_index → hint ≡ some (length rf.log) → Refusal rf args hint
    clash :
        (e : LogEntry A) (i : ℕ)
        → get_elem? rf.log args.prev_log_index ≡ some e
        → e.term_idx ≢ args.prev_log_term
        → Starts rf.log e.term_idx args.prev_log_index i
        → hint ≡ some i
        → Refusal rf args hint

module _ {A : Type 0} (g : Codec A) where
  follow_commit-commit :
      (rf : Raft A) (c : ℕ) {r : Raft A}
      → follow_commit g rf c ≡ some r
      → r.commit_index
        ≡ (if ltb rf.commit_index c then min_of (length rf.log - 1) c else rf.commit_index)
  unfolding follow_commit apply_log
  follow_commit-commit rf c h = ground arith

  store_entries-log :
      (rf : Raft A) (args : AppendEntriesArgs A)
      → Matching rf.log (args.prev_log_index + 1) args.entries
      → (store_entries g rf args).log ≡ take (args.prev_log_index + 1) rf.log ++ args.entries
  unfolding store_entries persist
  store_entries-log rf args h = merged rf.log (args.prev_log_index + 1) args.entries h

  store_entries-commit :
      (rf : Raft A) (args : AppendEntriesArgs A)
      → (store_entries g rf args).commit_index ≡ rf.commit_index
  unfolding store_entries persist
  store_entries-commit rf args = refl

  stored_log :
      (rf : Raft A) (args : AppendEntriesArgs A) (t : ℕ)
      {out : Option (Raft A × AppendEntriesReply)} {rf' : Raft A} {reply : AppendEntriesReply}
      → Outcome g rf args t out
      → out ≡ some (rf', reply)
      → reply.success ≡ true
      → Matching rf.log (args.prev_log_index + 1) args.entries
      → (rf'.log ≡ take (args.prev_log_index + 1) rf.log ++ args.entries)
        × (rf'.commit_index ≡ (
            if ltb rf.commit_index args.leader_commit
            then min_of (length rf'.log - 1) args.leader_commit
            else rf.commit_index))
  stored_log rf args t {rf' = rf'} (stored e r new there same q o) h s m =
      let st = store_entries g rf args in
      let k = follow_commit-SameCore g st args.leader_commit q in
      let kept : rf'.log ≡ st.log = ground (arith, k.log) in
      (
        kept ∙ store_entries-log rf args m,
        ground (
          arith,
          kept,
          follow_commit-commit st args.leader_commit q,
          store_entries-commit rf args,
        ),
      )
  stored_log rf args t (old x o) h s m = absurd (ground arith)
  stored_log rf args t (short x y o) h s m = absurd (ground arith)
  stored_log rf args t (conflict e i x y z w o) h s m = absurd (ground arith)

  answer :
      (rf : Raft A) (args : AppendEntriesArgs A) (t : ℕ)
      {out : Option (Raft A × AppendEntriesReply)}
      → Outcome g rf args t out
      → (rf' : Raft A) × (reply : AppendEntriesReply) × (out ≡ some (rf', reply))
        × ((reply.success ≡ true) ↔ Accepts rf args)
  answer rf args t (stored e r new there same q o) =
      (_, _, o, (λ x. record { new = new; prev = e; there = there; same = same }, λ x. refl))
  answer rf args t (old x o) = (_, _, o, (λ z. cc, λ a. absurd (omega (arith, a.new))))
  answer rf args t (short x y o) = (
    _,
    _,
    o,
    (
      λ z. cc,
      λ a. absurd (omega (arith, lt_of_get_elem? rf.log args.prev_log_index a.prev a.there)),
    ),
  )
  answer rf args t (conflict e i x y z w o) =
      (_, _, o, (λ q. cc, λ a. absurd (z (ground (arith, a.there, a.same)))))

  refusal :
      (rf : Raft A) (args : AppendEntriesArgs A) (t : ℕ)
      {out : Option (Raft A × AppendEntriesReply)} {rf' : Raft A} {reply : AppendEntriesReply}
      → Outcome g rf args t out
      → out ≡ some (rf', reply)
      → reply.success ≡ false
      → (rf'.log ≡ rf.log)
        × (rf'.commit_index ≡ rf.commit_index)
        × (rf'.senders ≡ rf.senders)
        × Refusal rf args reply.next_index
  refusal rf args t (stored e r new there same q o) h s = absurd (ground arith)
  refusal rf args t (old x o) h s =
      (ground arith, ground arith, ground arith, old_term x (ground arith))
  refusal rf args t (short x y o) h s =
      (ground arith, ground arith, ground arith, too_short y (ground arith))
  refusal rf args t (conflict e i x y z w o) h s =
      (ground arith, ground arith, ground arith, clash e i y z w (ground arith))

  Accepts-updated :
      (rf : Raft A) (args : AppendEntriesArgs A)
      → Accepts (update_term g rf args.term).0 args ↔ Accepts rf args
  Accepts-updated rf args =
      let u = update_term-Updated g rf args.term in
      (
        λ a. record {
          new = omega (arith, u.mono, a.new);
          prev = a.prev;
          there = rw (← u.log) a.there;
          same = a.same;
        },
        λ a. record {
          new = omega (arith, u.term, a.new);
          prev = a.prev;
          there = rw u.log a.there;
          same = a.same;
        },
      )

  Refusal-updated :
      (rf : Raft A) (args : AppendEntriesArgs A) {hint : Option ℕ}
      → Refusal (update_term g rf args.term).0 args hint
      → Refusal rf args hint
  Refusal-updated rf args (old_term x e) =
      old_term (omega (arith, (update_term-Updated g rf args.term).term)) e
  Refusal-updated rf args (too_short x e) =
      let u = update_term-Updated g rf args.term in too_short (rw u.log at x) (rw u.log at e)
  Refusal-updated rf args (clash p i x y z e) =
      let u = update_term-Updated g rf args.term in clash p i (rw u.log at x) y (rw u.log at z) e

  -- On a log that is not empty, which every peer's is, the handler never panics. It answers with
  -- success exactly when the leader's term is not older than the peer's and the peer has an entry
  -- of the previous term at the previous index.
  pub append_entries_answers :
      (rf : Raft A) (args : AppendEntriesArgs A)
      → 0 < length rf.log
      → (rf' : Raft A) × (reply : AppendEntriesReply) × (append_entries g rf args
          ≡ some (rf', reply))
        × ((reply.success ≡ true) ↔ Accepts rf args)
  unfolding append_entries
  append_entries_answers rf args h =
      let u = update_term-Updated g rf args.term in
      let rf1 = (update_term g rf args.term).0 in
      let (rf', reply, e, both1) =
        answer rf1 args rf.current_term
          (append_in_term-Outcome g rf1 args rf.current_term (rw u.log h)) in
      let both = Accepts-updated rf args in
      (rf', reply, e, (λ s. both.0 (both1.0 s), λ a. both1.1 (both.1 a)))

  -- After a success the log is the leader's: the old log up to the previous index, then the new
  -- entries, and nothing else, if entries of equal index and term are equal (log matching). The
  -- commit index is the leader's, but at most the last index, where that is an advance.
  pub append_entries_stores :
      (rf : Raft A) (args : AppendEntriesArgs A) {rf' : Raft A} {reply : AppendEntriesReply}
      → 0 < length rf.log
      → append_entries g rf args ≡ some (rf', reply)
      → reply.success ≡ true
      → Matching rf.log (args.prev_log_index + 1) args.entries
      → (rf'.log ≡ take (args.prev_log_index + 1) rf.log ++ args.entries)
        × (rf'.commit_index ≡ (
            if ltb rf.commit_index args.leader_commit
            then min_of (length rf'.log - 1) args.leader_commit
            else rf.commit_index))
  unfolding append_entries
  append_entries_stores rf args {rf'} h e s m =
      let u = update_term-Updated g rf args.term in
      let rf1 = (update_term g rf args.term).0 in
      let (l, c) =
        stored_log rf1 args rf.current_term
          (append_in_term-Outcome g rf1 args rf.current_term (rw u.log h)) e s
          (subst (λ l. Matching l (args.prev_log_index + 1) args.entries) (sym u.log) m) in
      (rw u.log at l, rw u.commit at c)

  -- A refusal leaves the log and the commit index, applies nothing, and says why: the leader's
  -- term is old, and the reply has no hint; the log ends before the previous index, and the hint
  -- is its length; or another term stands there, and the hint is where its run of entries starts.
  pub append_entries_refuses :
      (rf : Raft A) (args : AppendEntriesArgs A) {rf' : Raft A} {reply : AppendEntriesReply}
      → 0 < length rf.log
      → append_entries g rf args ≡ some (rf', reply)
      → reply.success ≡ false
      → (rf'.log ≡ rf.log)
        × (rf'.commit_index ≡ rf.commit_index)
        × (rf'.senders ≡ rf.senders)
        × Refusal rf args reply.next_index
  unfolding append_entries
  append_entries_refuses rf args h e s =
      let u = update_term-Updated g rf args.term in
      let rf1 = (update_term g rf args.term).0 in
      let (l, c, b, r) =
        refusal rf1 args rf.current_term
          (append_in_term-Outcome g rf1 args rf.current_term (rw u.log h)) e s in
      (l ∙ u.log, c ∙ u.commit, b ∙ u.senders, Refusal-updated rf args r)
