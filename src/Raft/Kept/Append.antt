-- ===== src/Raft/Kept/Append.antt =====
-- The handler `AppendEntries` of mit6.824/src/raft/raft.go keeps the vote.
use distribute_system_lab.Prelude.{
  ℕ, refl, ◌-◌, ◌≡◌, inl, inr, List, ◌++◌, Option, none, some, >>=-eq-some, Bool-cases, arith,
  length, length-append, length-take_pos, get_elem?, take, ltb,
}
use distribute_system_lab.Raft.State.{Raft, LogEntry, Codec}
use distribute_system_lab.Raft.Apply.{apply_log}
use distribute_system_lab.Raft.Append.{
  AppendEntriesArgs, AppendEntriesReply, append_entries, append_in_term, store_entries,
  follow_commit, min_of, accept_append, refuse_append, has_prev,
}
use distribute_system_lab.Raft.Disk.{Inv, Kept, Kept-refl, Kept-trans}
use distribute_system_lab.Raft.Kept.Core.{SameCore, Kept-same, persist-Kept}
use distribute_system_lab.Raft.Kept.Vote.{update_term-Kept}

pub apply_log-SameCore :
    {A : Type 0} (rf : Raft A) {rf' : Raft A} → apply_log rf ≡ some rf' → SameCore rf rf'
unfolding apply_log
apply_log-SameCore rf h = ground arith

module _ {A : Type 0} (g : Codec A) where
  pub follow_commit-SameCore :
      (rf : Raft A) (c : ℕ) {rf' : Raft A} → follow_commit g rf c ≡ some rf' → SameCore rf rf'
  unfolding follow_commit
  follow_commit-SameCore rf c {rf'} h = ground (
    arith,
    apply_log-SameCore (record rf { commit_index = min_of (length rf.log - 1) c }) {rf' = rf'},
  )

  Inv-extend :
      {rf a : Raft A} (es : List (LogEntry A))
      → Kept g rf a
      → Kept g rf (record a { log = a.log ++ es })
  Inv-extend {rf} {a} es k = record {
    inv = record {
      disk = k.inv.disk;
      has_log = omega (arith, length-append a.log es, k.inv.has_log);
    };
    term_le = k.term_le;
    vote_kept = k.vote_kept;
    peers = k.peers;
    me = k.me;
  }

  store_entries-Kept :
      (rf : Raft A) (args : AppendEntriesArgs A) → Inv g rf → Kept g rf (store_entries g rf args)
  unfolding store_entries
  store_entries-Kept rf args v = Inv-extend _ (
      persist-Kept g rf (record rf { log = take _ rf.log })
        (length-take_pos _ rf.log (omega arith) v.has_log) (omega arith) (λ c e h. h) refl refl)

  accept_append-Kept :
      (rf : Raft A) (args : AppendEntriesArgs A) (t : ℕ) {rf' : Raft A} {reply : AppendEntriesReply}
      → Inv g rf
      → accept_append g rf args t ≡ some (rf', reply)
      → Kept g rf rf'
  unfolding accept_append
  accept_append-Kept rf args t {rf'} v h =
      let (r, e, e') =
        >>=-eq-some (follow_commit g (store_entries g rf args) args.leader_commit) _ h in
      Kept-same g
        (Kept-same g (store_entries-Kept rf args v)
          (follow_commit-SameCore (store_entries g rf args) args.leader_commit e))
        (ground arith)

  refuse_append-SameCore :
      (rf : Raft A) (args : AppendEntriesArgs A) (t : ℕ) (o : Option (LogEntry A)) {rf' : Raft A}
      {reply : AppendEntriesReply}
      → refuse_append g rf args t o ≡ some (rf', reply)
      → SameCore rf rf'
  unfolding refuse_append
  refuse_append-SameCore rf args t none h = ground arith
  refuse_append-SameCore rf args t (some e) h = ground arith

  append_in_term-Kept :
      (rf : Raft A) (args : AppendEntriesArgs A) (t : ℕ) {rf' : Raft A} {reply : AppendEntriesReply}
      → Inv g rf
      → append_in_term g rf args t ≡ some (rf', reply)
      → Kept g rf rf'
  unfolding append_in_term
  append_in_term-Kept rf args t {rf'} v h = elim (Bool-cases (ltb args.term rf.current_term)) [
    | inl old ↦ Kept-same g (Kept-refl g v) (ground arith)
    | inr new ↦
        elim (Bool-cases (has_prev (get_elem? rf.log args.prev_log_index) args.prev_log_term)) [
          | inl e ↦ accept_append-Kept rf args t v (rw (new, e) at h)
          | inr e ↦ Kept-same g (Kept-refl g v) (
              refuse_append-SameCore rf args t (get_elem? rf.log args.prev_log_index)
                (rw (new, e) at h))
        ]
  ]

  pub append_entries-Kept :
      (rf : Raft A) (args : AppendEntriesArgs A) {rf' : Raft A} {reply : AppendEntriesReply}
      → Inv g rf
      → append_entries g rf args ≡ some (rf', reply)
      → Kept g rf rf'
  unfolding append_entries
  append_entries-Kept rf args v h =
      let k = update_term-Kept g rf args.term v in
      Kept-trans g k (append_in_term-Kept _ args rf.current_term k.inv h)
