-- ===== src/Raft/Cluster/Counting.antt =====
-- mit6.824/src/raft/raft.go: what a granted vote means to the voter and to the candidate.
use distribute_system_lab.Prelude.{ℕ, ◌+◌, ◌≡◌, inl, inr, true, false, Bool-cases, some, arith, ltb}
use distribute_system_lab.Raft.State.{Raft, Codec, persist}
use distribute_system_lab.Raft.Vote.{
  RequestVoteArgs, RequestVoteReply, update_term, grant_vote, vote_in_term, request_vote,
}
use distribute_system_lab.Raft.Candidate.{check_reply_term, has_majority}
use distribute_system_lab.Raft.Leader.{IntSort}
use distribute_system_lab.Raft.Node.{
  campaigning, elected, Node, vote_reply, step, on_vote, candidate_step, routine_step,
}
use distribute_system_lab.Raft.Cluster.{wins}
use distribute_system_lab.Raft.Cluster.Rounds.{Fresh, enter-Fresh}

module _ {A : Type 0} (g : Codec A) where
  pub request_vote-granted :
      (rf : Raft A) (args : RequestVoteArgs) {rf' : Raft A} {reply : RequestVoteReply}
      → request_vote g rf args ≡ some (rf', reply)
      → reply.vote_granted ≡ true
      → (rf'.current_term ≡ args.term) × (rf'.voted_for ≡ some args.candidate_id)
  unfolding request_vote vote_in_term update_term grant_vote persist
  request_vote-granted rf args h e = elim (Bool-cases (ltb rf.current_term args.term)) [
    | inl u ↦ ground (arith, u)
    | inr u ↦ ground (arith, u)
  ]

  -- What the reply does to a peer that waits for votes.
  pub data Counts (rf : Raft A) (args : RequestVoteArgs) (k : ℕ) (reply : RequestVoteReply)
      (m : Node A) : Type 0 where
    gave_way : Fresh g m → wins m.routine ≡ false → Counts rf args k reply m
    refused : m.rf ≡ rf → m.routine ≡ campaigning args k → Counts rf args k reply m
    granted :
        reply.vote_granted ≡ true
        → m.rf ≡ rf
        → m.routine ≡ campaigning args (k + 1)
        → Counts rf args k reply m
    won :
        reply.vote_granted ≡ true
        → m.rf ≡ rf
        → m.routine ≡ elected
        → has_majority rf.peers (k + 1) ≡ true
        → Counts rf args k reply m

  pub vote_reply-Counts :
      (s : IntSort) (n : Node A) (args : RequestVoteArgs) (k : ℕ) (reply : RequestVoteReply)
      {m : Node A}
      → n.routine ≡ campaigning args k
      → step g s n (vote_reply reply) ≡ some m
      → Counts n.rf args k reply m
  unfolding step routine_step candidate_step on_vote
  vote_reply-Counts s n args k reply {m} e h =
      let h1 : on_vote g n.rf args k reply ≡ some m = rw e at h in
      elim (Bool-cases (check_reply_term g n.rf reply.term).1) [
        | inl gone ↦
            let w =
              enter-Fresh g (check_reply_term g n.rf reply.term).0 {m = m}
                (ground (arith, h1, gone)) in
            gave_way w.0 w.1
        | inr stays ↦ elim (Bool-cases reply.vote_granted) [
          | inr no_vote ↦
              refused (ground (arith, h1, stays, no_vote)) (ground (arith, h1, stays, no_vote))
          | inl vote ↦ elim (Bool-cases (has_majority n.rf.peers (k + 1))) [
            | inl maj ↦
                won vote (ground (arith, h1, stays, vote, maj))
                  (ground (arith, h1, stays, vote, maj)) maj
            | inr few ↦
                granted vote (ground (arith, h1, stays, vote, few))
                  (ground (arith, h1, stays, vote, few))
          ]
        ]
      ]
