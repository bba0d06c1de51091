-- ===== src/Raft/Kept/Routines.antt =====
-- The choices of the main goroutine (Raft/Node.antt) keep the term and the vote.
use distribute_system_lab.Prelude.{
  ℕ, ◌≡◌, refl, subst, inl, inr, false, List, some, >>=-eq-some, Bool-cases, arith, get_elem?,
}
use distribute_system_lab.Raft.State.{Raft, Codec, Status, leader, candidate, follower}
use distribute_system_lab.Raft.Vote.{RequestVoteArgs, RequestVoteReply}
use distribute_system_lab.Raft.Append.{AppendEntriesArgs, AppendEntriesReply}
use distribute_system_lab.Raft.Candidate.{begin_election, check_reply_term}
use distribute_system_lab.Raft.Leader.{IntSort, kill, init_leader, append_reply}
use distribute_system_lab.Raft.Node.{
  Node, enter_as, enter, on_vote, on_follow_token, on_terminate, campaign_again, on_entries_reply,
}
use distribute_system_lab.Raft.Disk.{Inv, Kept, Kept-refl, Kept-trans}
use distribute_system_lab.Raft.Kept.Core.{SameCore, Kept-same}
use distribute_system_lab.Raft.Kept.Leader.{
  begin_election-Kept, check_reply_term-Kept, append_reply-Kept,
}

module _ {A : Type 0} where
  pub kill-SameCore : (rf : Raft A) → SameCore rf (kill rf)
  unfolding kill
  kill-SameCore rf = ground arith

  init_leader-SameCore : (rf : Raft A) {rf' : Raft A} → init_leader rf ≡ some rf' → SameCore rf rf'
  unfolding init_leader
  init_leader-SameCore rf h = ground arith

  pub on_terminate-SameCore :
      (g : Codec A) (rf : Raft A) {n : Node A} → on_terminate g rf ≡ some n → SameCore rf n.rf
  unfolding on_terminate
  on_terminate-SameCore g rf h = ground arith

module _ {A : Type 0} (g : Codec A) where
  pub campaign_again-Kept :
      (rf : Raft A) {n : Node A} → Inv g rf → campaign_again g rf ≡ some n → Kept g rf n.rf
  unfolding campaign_again
  campaign_again-Kept rf v h =
      let (r, e, h') = >>=-eq-some (begin_election g rf) _ h in
      subst (λ m. Kept g rf m) (ground arith) (begin_election-Kept g rf v e)

  enter_as-Kept :
      (s : Status) (rf : Raft A) {n : Node A} → Inv g rf → enter_as g s rf ≡ some n → Kept g rf n.rf
  unfolding enter_as
  enter_as-Kept leader rf v h =
      let (r, e, h') = >>=-eq-some (init_leader rf) _ h in
      subst (λ m. Kept g rf m) (ground arith)
        (Kept-same g (Kept-refl g v) (init_leader-SameCore rf e))
  enter_as-Kept candidate rf v h =
      let (r, e, h') = >>=-eq-some (begin_election g rf) _ h in
      subst (λ m. Kept g rf m) (ground arith) (begin_election-Kept g rf v e)
  enter_as-Kept follower rf v h = Kept-same g (Kept-refl g v) (ground arith)

  -- Entering a routine after a change of fields that are not saved.
  pub enter-Kept : (rf a : Raft A) {n : Node A} → Kept g rf a → enter g a ≡ some n → Kept g rf n.rf
  unfolding enter
  enter-Kept rf a k h = Kept-trans g k (enter_as-Kept a.status a k.inv h)

  pub on_vote-Kept :
      (rf : Raft A) (args : RequestVoteArgs) (n : ℕ) (reply : RequestVoteReply) {m : Node A}
      → Inv g rf
      → on_vote g rf args n reply ≡ some m
      → Kept g rf m.rf
  unfolding on_vote
  on_vote-Kept rf args n reply v h = elim (Bool-cases (check_reply_term g rf reply.term).1) [
    | inl e ↦ enter-Kept rf _ (check_reply_term-Kept g rf reply.term v) (rw e at h)
    | inr e ↦ Kept-same g (Kept-refl g v) (ground arith)
  ]

  pub on_follow_token-Kept :
      (rf : Raft A) {m : Node A} → Inv g rf → on_follow_token g rf ≡ some m → Kept g rf m.rf
  unfolding on_follow_token
  on_follow_token-Kept rf {m} v h = elim (Bool-cases rf.to_follower) [
    | inl e ↦
        enter-Kept rf (record rf { to_follower = false }) {n = m}
          (Kept-same g (Kept-refl g v) (record {
            term = refl;
            vote = refl;
            log = refl;
            store = refl;
            peers = refl;
            me = refl;
          }))
          (ground arith)
    | inr e ↦ absurd (ground arith)
  ]

  pub on_entries_reply-Kept :
      (s : IntSort) (rf : Raft A) (sent : List (AppendEntriesArgs A)) (peer : ℕ)
      (reply : AppendEntriesReply) {m : Node A}
      → Inv g rf
      → on_entries_reply g s rf sent peer reply ≡ some m
      → Kept g rf m.rf
  unfolding on_entries_reply
  on_entries_reply-Kept s rf sent peer reply v h =
      let (args, e, h') = >>=-eq-some (get_elem? sent peer) _ h in
      let (r, e', h'') = >>=-eq-some (append_reply s g rf args peer reply) _ h' in
      let k = append_reply-Kept g s rf args peer reply v e' in
      elim (Bool-cases r.1) [
        | inl b ↦ enter-Kept rf r.0 k (rw b at h'')
        | inr b ↦ Kept-same g k (ground arith)
      ]
