-- ===== src/Raft/Kept/Leader.antt =====
-- The candidate and the leader of mit6.824/src/raft/raft.go keep the vote of a term.
use distribute_system_lab.Raft.Kept.Append.{apply_log-SameCore}
use distribute_system_lab.Raft.Append.{AppendEntriesArgs, AppendEntriesReply}
use distribute_system_lab.Raft.Leader.{
  IntSort, Started, start, advance_commit, on_success, on_failure, append_reply,
}
use distribute_system_lab.Prelude.{
  ℕ, ◌+◌, ◌≡◌, refl, inl, inr, none, some, Bool-cases, arith, ltb, ltb→lt, [], ◌∷◌, ◌++◌,
  length-append, Option, get_elem?, set_elem?, Bool, true, false, length, ◌==◌, ◌/◌, subst,
  if◌then◌else◌, >>=-eq-some,
}
use distribute_system_lab.Raft.State.{Raft, Codec, is_leader, LogEntry}
use distribute_system_lab.Raft.Vote.{RequestVoteArgs}
use distribute_system_lab.Raft.Candidate.{begin_election, check_reply_term}
use distribute_system_lab.Raft.Disk.{Inv, Kept, Kept-refl}
use distribute_system_lab.Raft.Kept.Core.{Kept-same, new_term-Kept, persist-Kept, SameCore}

module _ {A : Type 0} (g : Codec A) where
  pub begin_election-Kept :
      (rf : Raft A) {rf' : Raft A} {args : RequestVoteArgs}
      → Inv g rf
      → begin_election g rf ≡ some (rf', args)
      → Kept g rf rf'
  unfolding begin_election
  begin_election-Kept rf {rf'} v h =
      let a = record rf { current_term = rf.current_term + 1; voted_for = some rf.me } in
      Kept-same g (new_term-Kept g rf a v.has_log (omega arith) refl refl) (ground arith)

  pub check_reply_term-Kept :
      (rf : Raft A) (t : ℕ) → Inv g rf → Kept g rf (check_reply_term g rf t).0
  unfolding check_reply_term
  check_reply_term-Kept rf t v = elim (Bool-cases (ltb rf.current_term t)) [
    | inl e ↦ rw e (
        Kept-same g
          (new_term-Kept g rf (record rf { current_term = t; voted_for = none }) v.has_log
            (ltb→lt _ _ e) refl refl)
          (record { term = refl; vote = refl; log = refl; store = refl; peers = refl; me = refl }))
    | inr e ↦ rw e (Kept-refl g v)
  ]

  pub start-Kept :
      (rf : Raft A) (c : Option A) {rf' : Raft A} {r : Started}
      → Inv g rf
      → start g rf c ≡ some (rf', r)
      → Kept g rf rf'
  unfolding start
  start-Kept rf c {rf'} v h = elim (Bool-cases (is_leader rf.status)) [
    | inl e ↦
        let entry : LogEntry A = record { content = c; term_idx = rf.current_term } in
        let a = record rf { log = rf.log ++ entry ∷ [] } in
        Kept-same g
          (persist-Kept g rf a (omega (arith, length-append rf.log (entry ∷ []))) (omega arith)
            (λ w q r. r) refl refl)
          (ground arith)
    | inr e ↦ Kept-same g (Kept-refl g v) (ground arith)
  ]

  advance_commit-SameCore :
      (s : IntSort) (rf : Raft A) {rf' : Raft A} → advance_commit s rf ≡ some rf' → SameCore rf rf'
  unfolding advance_commit
  advance_commit-SameCore s rf {rf'} h =
      let (n, e, h') = >>=-eq-some (get_elem? (s.ints rf.match_index) (rf.peers / 2)) _ h in
      let (l, e', h'') = >>=-eq-some (get_elem? rf.log n) _ h' in
      ground (arith, apply_log-SameCore (record rf { commit_index = n }) {rf' = rf'})

  on_success-SameCore :
      (s : IntSort) (rf : Raft A) (args : AppendEntriesArgs A) (peer : ℕ) {rf' : Raft A}
      → on_success s rf args peer ≡ some rf'
      → SameCore rf rf'
  unfolding on_success
  on_success-SameCore s rf args peer {rf'} h = elim (Bool-cases (length args.entries == 0)) [
    | inl e ↦ ground arith
    | inr e ↦
        let matched = args.prev_log_index + length args.entries in
        let (ms, em, h') = >>=-eq-some (set_elem? rf.match_index peer matched) _ (rw e at h) in
        let (ns, en, h'') = >>=-eq-some (set_elem? rf.next_index peer (matched + 1)) _ h' in
        ground
          (arith, advance_commit-SameCore s (record rf { match_index = ms; next_index = ns }) h'')
  ]

  on_failure-SameCore :
      (rf : Raft A) (peer : ℕ) (o : Option ℕ) {rf' : Raft A}
      → on_failure rf peer o ≡ some rf'
      → SameCore rf rf'
  unfolding on_failure
  on_failure-SameCore rf peer none h = ground arith
  on_failure-SameCore rf peer (some next) h = ground arith

  handled-SameCore :
      (s : IntSort) (rf : Raft A) (args : AppendEntriesArgs A) (peer : ℕ) (b : Bool) (o : Option ℕ)
      {rf' : Raft A}
      → (if b then on_success s rf args peer else on_failure rf peer o) ≡ some rf'
      → SameCore rf rf'
  handled-SameCore s rf args peer true o h = on_success-SameCore s rf args peer h
  handled-SameCore s rf args peer false o h = on_failure-SameCore rf peer o h

  pub append_reply-Kept :
      (s : IntSort) (rf : Raft A) (args : AppendEntriesArgs A) (peer : ℕ)
      (reply : AppendEntriesReply) {rf' : Raft A} {gone : Bool}
      → Inv g rf
      → append_reply s g rf args peer reply ≡ some (rf', gone)
      → Kept g rf rf'
  unfolding append_reply
  append_reply-Kept s rf args peer reply {rf'} v h =
      elim (Bool-cases (check_reply_term g rf reply.term).1) [
        | inl e ↦ subst (Kept g rf) (ground arith) (check_reply_term-Kept rf reply.term v)
        | inr e ↦
            let handled : Option (Raft A) =
              if reply.success
              then on_success s rf args peer
              else on_failure rf peer reply.next_index in
            let (a, ea, h') = >>=-eq-some handled _ (rw e at h) in
            Kept-same g (Kept-refl g v) (
              subst (SameCore rf) (ground arith)
                (handled-SameCore s rf args peer reply.success reply.next_index ea))
      ]
