-- ===== src/Raft/StaleVotes.antt =====
-- mit6.824/src/raft/raft.go, `candidateRoutine`: votes of one term can make a leader of another.
use distribute_system_lab.Raft.Kept.Vote.{vote_in_term_cases}
use distribute_system_lab.Prelude.{
  ℕ, ◌+◌, ◌≡◌, ◌<◌, ◌≤◌, ◌∙◌, inl, inr, true, some, >>=-eq-some, arith, lt→ltb, le→ltb, ap, List,
  set, ◌-◌, length, replicate, length-replicate, ◌>>=◌, refl,
}
use distribute_system_lab.Raft.State.{Raft, Codec, leader, persist}
use distribute_system_lab.Raft.Vote.{
  RequestVoteArgs, RequestVoteReply, request_vote, update_term, grant_vote,
}
use distribute_system_lab.Raft.Candidate.{check_reply_term, has_majority}
use distribute_system_lab.Raft.Leader.{IntSort, init_leader}
use distribute_system_lab.Raft.Node.{
  Node, campaigning, elected, beating, vote_rpc, vote_reply, take_lead, step, candidate_step,
  on_vote, elected_step, enter,
}

module _ {A : Type 0} (g : Codec A) (s : IntSort) where
  -- The term after a request of a newer term is the request's.
  request_vote-term :
      (rf : Raft A) (args : RequestVoteArgs) {rf' : Raft A} {reply : RequestVoteReply}
      → rf.current_term < args.term
      → request_vote g rf args ≡ some (rf', reply)
      → (rf'.current_term ≡ args.term) × (rf'.peers ≡ rf.peers) × (rf'.me ≡ rf.me)
  unfolding request_vote update_term grant_vote persist
  request_vote-term rf args lt h =
      let up = lt→ltb rf.current_term args.term lt in
      elim (vote_in_term_cases g (update_term g rf args.term).0 args rf.current_term h) [
        | inl e ↦ ground (arith, e, up)
        | inr (_, e) ↦ ground (arith, e, up)
      ]

  vote_reply-elected :
      (rf : Raft A) (args : RequestVoteArgs) (k : ℕ) (reply : RequestVoteReply)
      → has_majority rf.peers (k + 1) ≡ true
      → reply.vote_granted ≡ true
      → reply.term ≤ rf.current_term
      → step g s (record { rf = rf; routine = campaigning args k }) (vote_reply reply)
        ≡ some (record { rf = rf; routine = elected })
  unfolding step candidate_step on_vote check_reply_term
  vote_reply-elected rf args k reply m v t = ground (arith, le→ltb rf.current_term reply.term t)

  take_lead-leads :
      (rf : Raft A)
      → rf.me < rf.peers
      → (n : Node A) × (step g s (record { rf = rf; routine = elected }) take_lead ≡ some n)
        × (n.rf.current_term ≡ rf.current_term)
        × (n.rf.status ≡ leader)
  unfolding step elected_step enter init_leader
  take_lead-leads rf h =
      let zeros : List ℕ = replicate rf.peers 0 in
      let inside =
        lt→ltb rf.me (length zeros) (omega (arith, h, length-replicate {A = ℕ} rf.peers 0)) in
      let chosen : Raft A = record rf {
        status = leader;
        next_index = replicate rf.peers (length rf.log);
        match_index = set zeros rf.me (length rf.log - 1);
      } in
      (record { rf = chosen; routine = beating }, rw (inside, ◌>>=◌) refl, refl, refl)

  -- A candidate that is one vote short of a majority in its term hears of a newer term and takes
  -- it over; then a vote arrives whose term is not newer than the one it campaigned in. The vote
  -- is counted, and when the candidate next takes the lock, which it can, it becomes the leader of
  -- the newer term.
  pub stale_votes_win :
      (rf : Raft A) (args : RequestVoteArgs) (k : ℕ) (other : RequestVoteArgs)
      (reply : RequestVoteReply) {n1 : Node A}
      → rf.me < rf.peers
      → rf.current_term < other.term
      → has_majority rf.peers (k + 1) ≡ true
      → reply.vote_granted ≡ true
      → reply.term ≤ rf.current_term
      → step g s (record { rf = rf; routine = campaigning args k }) (vote_rpc other) ≡ some n1
      → (n2 : Node A) × (n3 : Node A) × (step g s n1 (vote_reply reply) ≡ some n2)
        × (step g s n2 take_lead ≡ some n3)
        × (n3.rf.current_term ≡ other.term)
        × (n3.rf.status ≡ leader)
  unfolding step
  stale_votes_win rf args k other reply {n1} inside lt m v t h1 =
      let (r, e, h) = >>=-eq-some (request_vote g rf other) _ h1 in
      let (term, peers, me) = request_vote-term rf other lt e in
      let counted = vote_reply-elected r.0 args k reply (rw peers m) v (omega (arith, term)) in
      let at_n1 : n1 ≡ record { rf = r.0; routine = campaigning args k } = ground arith in
      let (n3, run, lead, status) = take_lead-leads r.0 (omega (arith, peers, me, inside)) in
      (
        record { rf = r.0; routine = elected },
        n3,
        ap (λ (n : Node A). step g s n (vote_reply reply)) at_n1 ∙ counted,
        run,
        lead ∙ term,
        status,
      )
