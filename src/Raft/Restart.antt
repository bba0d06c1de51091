-- ===== src/Raft/Restart.antt =====
-- mit6.824/src/raft/raft.go: what survives a crash, and what `AppendEntries` does not save.
use distribute_system_lab.Raft.Kept.Append.{follow_commit-SameCore}
use distribute_system_lab.Raft.AppendOutcome.{
  update_term-Updated, Outcome, old, short, conflict, stored, append_in_term-Outcome,
}
use distribute_system_lab.Prelude.{
  ℕ, ◌+◌, ◌≡◌, ◌<◌, refl, sym, ap, ◌∙◌, true, List, [], ◌∷◌, ◌++◌, Option, some, arith, length,
  take, drop,
}
use distribute_system_lab.Raft.Persister.{Persister, save_raft_state, read_raft_state}
use distribute_system_lab.Raft.State.{Raft, LogEntry, Codec, encoded, persist, make_raft}
use distribute_system_lab.Raft.Vote.{update_term}
use distribute_system_lab.Raft.Append.{
  AppendEntriesArgs, AppendEntriesReply, append_entries, store_entries, agree,
}
use distribute_system_lab.Raft.Leader.{Started, start}
use distribute_system_lab.Raft.Disk.{read_persist-encoded}

module _ {A : Type 0} (g : Codec A) where
  abbrev pub restarted : Raft A → Raft A
  restarted rf = make_raft g rf.peers rf.me rf.persister

  restarted-encoded :
      (rf : Raft A) (t : ℕ) (v : Option ℕ) (l : List (LogEntry A))
      → rf.persister.raftstate ≡ encoded g t v l
      → ((restarted rf).current_term ≡ t)
        × ((restarted rf).voted_for ≡ v)
        × ((restarted rf).log ≡ l)
  unfolding make_raft read_raft_state
  restarted-encoded rf t v l e = rw (e, read_persist-encoded) (refl, refl, refl)

  -- A command that a leader takes survives a crash right after `Start`, with its term and vote:
  -- the restarted peer has the log that `Start` left, whose last entry is the command, at the
  -- index and in the term that `Start` returned.
  pub start_restart :
      (rf : Raft A) (c : Option A) {rf' : Raft A} {r : Started}
      → start g rf c ≡ some (rf', r)
      → r.is_leader ≡ true
      → ((restarted rf').current_term ≡ rf.current_term)
        × ((restarted rf').voted_for ≡ rf.voted_for)
        × ((restarted rf').log ≡ rf.log ++ record { content = c; term_idx = r.term } ∷ [])
        × (r.index ≡ length rf.log)
  unfolding start persist save_raft_state
  start_restart rf c {rf'} {r} h lead =
      let entry : LogEntry A = record { content = c; term_idx = rf.current_term } in
      let (t, v, l) =
        restarted-encoded rf' rf.current_term rf.voted_for (rf.log ++ entry ∷ []) (ground arith) in
      (t, v, ground (arith, l), ground arith)

  store_entries-saved :
      (rf : Raft A) (args : AppendEntriesArgs A)
      → let cut =
          take
            (args.prev_log_index + 1 + agree args.entries (drop (args.prev_log_index + 1) rf.log))
            rf.log in
        ((store_entries g rf args).persister.raftstate ≡ encoded g rf.current_term rf.voted_for cut)
        × ((store_entries g rf args).log
            ≡ cut ++ drop (agree args.entries (drop (args.prev_log_index + 1) rf.log)) args.entries)
  unfolding store_entries persist save_raft_state
  store_entries-saved rf args = (refl, refl)

  Outcome-restart :
      (rf : Raft A) (args : AppendEntriesArgs A) (t : ℕ)
      {out : Option (Raft A × AppendEntriesReply)} {rf' : Raft A} {reply : AppendEntriesReply}
      → Outcome g rf args t out
      → out ≡ some (rf', reply)
      → reply.success ≡ true
      → (restarted rf').log
          ++ drop (agree args.entries (drop (args.prev_log_index + 1) rf.log)) args.entries
        ≡ rf'.log
  Outcome-restart rf args t {rf' = rf'} (stored e r new there same q o) h s =
      let st = store_entries g rf args in
      let k = follow_commit-SameCore g st args.leader_commit q in
      let (saved, log) = store_entries-saved rf args in
      let disk : rf'.persister ≡ st.persister = ground (arith, k.store) in
      let (_, _, l) =
        restarted-encoded rf' _ _ _ (ap (λ (p : Persister). p.raftstate) disk ∙ saved) in
      rw l (sym log ∙ ground (arith, k.log))
  Outcome-restart rf args t (old x o) h s = absurd (ground arith)
  Outcome-restart rf args t (short x y o) h s = absurd (ground arith)
  Outcome-restart rf args t (conflict e i x y z w o) h s = absurd (ground arith)

  -- After a success of `AppendEntries` the disk lacks exactly the entries that the handler added:
  -- what a restart reads back has to be extended by the entries after the agreement to give the
  -- log. The handler saves the log between cutting it and extending it.
  pub append_entries_restart :
      (rf : Raft A) (args : AppendEntriesArgs A) {rf' : Raft A} {reply : AppendEntriesReply}
      → 0 < length rf.log
      → append_entries g rf args ≡ some (rf', reply)
      → reply.success ≡ true
      → (restarted rf').log
          ++ drop (agree args.entries (drop (args.prev_log_index + 1) rf.log)) args.entries
        ≡ rf'.log
  unfolding append_entries
  append_entries_restart rf args h e s =
      let u = update_term-Updated g rf args.term in
      let rf1 = (update_term g rf args.term).0 in
      rw u.log at (
        Outcome-restart rf1 args rf.current_term
          (append_in_term-Outcome g rf1 args rf.current_term (rw u.log h)) e s)
