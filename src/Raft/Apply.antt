-- ===== src/Raft/Apply.antt =====
-- mit6.824/src/raft/raft.go, `applyLog`: messages for the entries that became committed.
use distribute_system_lab.Prelude.{
  ℕ, zero, suc, ◌+◌, ◌-◌, true, List, [], ◌∷◌, ◌++◌, Option, some, ◌>>=◌, get_elem?, ltb,
  if◌then◌else◌,
}
use distribute_system_lab.Raft.State.{ApplyMsg, LogEntry, Raft}

module _ {A : Type 0} where
  abbrev pub message : ℕ → LogEntry A → ApplyMsg A
  message i e = record { command_valid = true; command = e.content; command_index = i }

  -- The loop, with fuel; the new `lastApplied` and the messages.
  unfoldable pub apply_loop :
      ℕ → List (LogEntry A) → ℕ → ℕ → List (ApplyMsg A) → Option (ℕ × List (ApplyMsg A))
  apply_loop zero log commit last msgs = some (last, msgs)
  apply_loop (suc fuel) log commit last msgs =
      let rest = (do
        e ← get_elem? log (last + 1)
        apply_loop fuel log commit (last + 1) (msgs ++ message (last + 1) e ∷ [])) in
      if ltb last commit then rest else some (last, msgs)

  -- `applyLog`: a goroutine is left with the batch. The loop makes `commit_index - last_applied`
  -- rounds, which is the fuel.
  unfoldable pub apply_log : Raft A → Option (Raft A)
  apply_log rf = do
    (last, msgs) ←
        apply_loop (rf.commit_index - rf.last_applied) rf.log rf.commit_index rf.last_applied []
    some (record rf { last_applied = last; senders = rf.senders ++ msgs ∷ [] })
