-- ===== src/Raft/ApplyLaws.antt =====
-- mit6.824/src/raft/raft.go, `applyLog`: each committed entry once, in order, and no panic.
use mathlib.Core.List.{append_assoc, append-nil}
use distribute_system_lab.Prelude.{
  ℕ, zero, suc, ◌+◌, ◌-◌, ◌≡◌, ◌≤◌, ◌<◌, refl, ◌∙◌, inl, inr, true, Bool-cases, List, [], ◌∷◌, ◌++◌,
  Option, some, arith, length, get_elem?, get_elem?-of_lt, ltb, ltb→lt, ltb→le,
}
use distribute_system_lab.Raft.State.{Raft, ApplyMsg, LogEntry}
use distribute_system_lab.Raft.Apply.{message, apply_loop, apply_log}

module _ {A : Type 0} where
  -- One message for each of the entries at `first`, `first + 1`, and so on, in their order: valid,
  -- with the command of the entry and with its index.
  abbrev pub Batch : List (LogEntry A) → ℕ → List (ApplyMsg A) → Type 0
  Batch log first [] = Unit {0}
  Batch log first (m ∷ ms) =
      (e : LogEntry A) × (get_elem? log first ≡ some e)
      × (m.command_valid ≡ true)
      × (m.command ≡ e.content)
      × (m.command_index ≡ first)
      × Batch log (first + 1) ms

  -- What the loop leaves, from `last` up to `commit`.
  record Looped (log : List (LogEntry A)) (commit last : ℕ) (msgs : List (ApplyMsg A))
      (out : Option (ℕ × List (ApplyMsg A))) : Type 0 where
    batch : List (ApplyMsg A)
    result : out ≡ some (last + (commit - last), msgs ++ batch)
    size : length batch ≡ commit - last
    right : Batch log (last + 1) batch

  Looped-done :
      (log : List (LogEntry A)) (commit last : ℕ) (msgs : List (ApplyMsg A))
      → commit ≤ last
      → Looped log commit last msgs (some (last, msgs))
  Looped-done log commit last msgs h = record {
    batch = [];
    result = rw (append-nil msgs) (ground arith);
    size = omega arith;
    right = tt;
  }

  apply_loop-Looped :
      (fuel : ℕ) (log : List (LogEntry A)) (commit last : ℕ) (msgs : List (ApplyMsg A))
      → commit ≤ last + fuel
      → commit < length log
      → Looped log commit last msgs (apply_loop fuel log commit last msgs)
  unfolding apply_loop
  apply_loop-Looped zero log commit last msgs h k = Looped-done log commit last msgs (omega arith)
  apply_loop-Looped (suc fuel) log commit last msgs h k = elim (Bool-cases (ltb last commit)) [
    | inl t ↦
        let lt = ltb→lt last commit t in
        let (e, he) = get_elem?-of_lt log (last + 1) (omega arith) in
        let m = message (last + 1) e in
        let e' : last + 1 + (commit - (last + 1)) ≡ last + (commit - last) = omega arith in
        let r = apply_loop-Looped fuel log commit (last + 1) (msgs ++ m ∷ []) (omega arith) k in
        record {
          batch = m ∷ r.batch;
          result =
              rw (t, apply_loop)
                (rw (he, apply_loop) (r.result ∙ rw (e', append_assoc msgs (m ∷ []) r.batch)));
          size = omega (arith, r.size);
          right = (e, he, refl, refl, refl, r.right);
        }
    | inr f ↦ rw (f, apply_loop) (Looped-done log commit last msgs (ltb→le last commit f))
  ]

  -- With the commit index inside the log, `applyLog` does not panic. It starts one goroutine,
  -- whose batch has one message for each entry after `lastApplied` up to the commit index, in the
  -- order of the log: valid, with the entry's command and its index in the log; `lastApplied` moves up to the commit index, or
  -- stays where it is ahead of it; nothing else changes.
  pub apply_log_lem :
      (rf : Raft A)
      → rf.commit_index < length rf.log
      → (batch : List (ApplyMsg A)) × (apply_log rf
          ≡ some (record rf {
            last_applied = rf.last_applied + (rf.commit_index - rf.last_applied);
            senders = rf.senders ++ batch ∷ [];
          }))
        × (length batch ≡ rf.commit_index - rf.last_applied)
        × Batch rf.log (rf.last_applied + 1) batch
  unfolding apply_log
  apply_log_lem rf h =
      let r =
        apply_loop-Looped (rf.commit_index - rf.last_applied) rf.log rf.commit_index rf.last_applied
          [] (omega arith) h in
      (r.batch, rw r.result, r.size, r.right)

  pub apply_log-total :
      (rf : Raft A) → rf.commit_index < length rf.log → (r : Raft A) × (apply_log rf ≡ some r)
  apply_log-total rf h = let (b, e, l, q) = apply_log_lem rf h in (_, e)
