-- ===== src/Raft/Append.antt =====
-- mit6.824/src/raft/raft.go: the handler `AppendEntries`, and `MinOf` of util.go.
use distribute_system_lab.Prelude.{
  ℕ, zero, suc, ◌+◌, ◌-◌, Bool, true, false, List, [], ◌∷◌, ◌++◌, Option, none, some, ◌>>=◌, length,
  get_elem?, take, drop, ltb, ◌==◌, if◌then◌else◌,
}
use distribute_system_lab.Raft.State.{Raft, LogEntry, Codec, persist}
use distribute_system_lab.Raft.Apply.{apply_log}
use distribute_system_lab.Raft.Vote.{update_term}

-- `PrevLogIndex` is `nextIndex - 1` for a next index that is at least 1, so it is not negative.
pub record AppendEntriesArgs (A : Type 0) : Type 0 where
  pub term : ℕ
  pub leader_id : ℕ
  pub prev_log_index : ℕ
  pub prev_log_term : ℕ
  pub entries : List (LogEntry A)
  pub leader_commit : ℕ

-- `next_index` is `none` for -1; Go's zero value 0 stands in a successful reply.
pub record AppendEntriesReply : Type 0 where
  pub term : ℕ
  pub success : Bool
  pub next_index : Option ℕ

-- `MinOf`.
unfoldable pub min_of : ℕ → ℕ → ℕ
min_of a b = if ltb a b then a else b

module _ {A : Type 0} where
  -- The loop that walks back over the entries of one term. The number is `prevIdx + 1`.
  unfoldable pub term_start : List (LogEntry A) → ℕ → ℕ → Option ℕ
  term_start log t zero = some zero
  term_start log t (suc n) = do
    e ← get_elem? log n
    let rest = term_start log t n
    if e.term_idx == t then rest else some (suc n)

  -- The loop that advances `newIdx` and `oldIdx` together, over what they have not passed:
  -- how far the new entries and the old log agree in their terms.
  unfoldable pub agree : List (LogEntry A) → List (LogEntry A) → ℕ
  agree [] old = 0
  agree (e ∷ new) [] = 0
  agree (e ∷ new) (o ∷ old) =
      let rest = agree new old in if e.term_idx == o.term_idx then suc rest else 0

  unfoldable pub has_prev : Option (LogEntry A) → ℕ → Bool
  has_prev none t = false
  has_prev (some e) t = e.term_idx == t

module _ {A : Type 0} (g : Codec A) where
  abbrev pub signal : Raft A → AppendEntriesReply → Option (Raft A × AppendEntriesReply)
  signal rf reply = some (record rf { reset_election_timer = true }, reply)

  -- The log has no entry with the previous term at the previous index. `e` is `log[PrevLogIndex]`.
  unfoldable pub refuse_append :
      Raft A → AppendEntriesArgs A → ℕ → Option (LogEntry A) → Option (Raft A × AppendEntriesReply)
  refuse_append rf args t none =
      signal rf (record { term = t; success = false; next_index = some (length rf.log) })
  refuse_append rf args t (some e) = do
    i ← term_start rf.log e.term_idx args.prev_log_index
    signal rf (record { term = t; success = false; next_index = some i })

  -- The log, cut where it stops agreeing with the new entries, is saved, and then extended.
  unfoldable pub store_entries : Raft A → AppendEntriesArgs A → Raft A
  store_entries rf args =
      let new = agree args.entries (drop (args.prev_log_index + 1) rf.log) in
      let cut = persist g (record rf { log = take (args.prev_log_index + 1 + new) rf.log }) in
      record cut { log = cut.log ++ drop new args.entries }

  unfoldable pub follow_commit : Raft A → ℕ → Option (Raft A)
  follow_commit rf commit =
      if ltb rf.commit_index commit
      then apply_log (record rf { commit_index = min_of (length rf.log - 1) commit })
      else some rf

  unfoldable pub accept_append :
      Raft A → AppendEntriesArgs A → ℕ → Option (Raft A × AppendEntriesReply)
  accept_append rf args t = do
    rf' ← follow_commit (store_entries rf args) args.leader_commit
    signal rf' (record { term = t; success = true; next_index = some 0 })

  -- `AppendEntries` after its call of `updateTerm`; `t` is the term that the reply carries.
  unfoldable pub append_in_term :
      Raft A → AppendEntriesArgs A → ℕ → Option (Raft A × AppendEntriesReply)
  unfolding has_prev refuse_append accept_append
  append_in_term rf args t =
      if ltb args.term rf.current_term
      then some (rf, record { term = t; success = false; next_index = none })
      else let prev = get_elem? rf.log args.prev_log_index in
        if has_prev prev args.prev_log_term
        then accept_append rf args t
        else refuse_append rf args t prev

  -- `AppendEntries`.
  unfoldable pub append_entries :
      Raft A → AppendEntriesArgs A → Option (Raft A × AppendEntriesReply)
  unfolding append_in_term
  append_entries rf args = append_in_term (update_term g rf args.term).0 args rf.current_term
