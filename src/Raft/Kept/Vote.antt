-- ===== src/Raft/Kept/Vote.antt =====
-- The handler `RequestVote` of mit6.824/src/raft/raft.go keeps a vote that is given.
use distribute_system_lab.Prelude.{
  ℕ, ◌≡◌, refl, ◌⊎◌, inl, inr, false, some, Bool-cases, arith, ltb, ltb→lt,
}
use distribute_system_lab.Raft.State.{Raft, Codec}
use distribute_system_lab.Raft.Vote.{
  RequestVoteArgs, RequestVoteReply, update_term, request_vote, vote_in_term, grant_vote,
  voted_other, step_down,
}
use distribute_system_lab.Raft.Disk.{Inv, Kept, Kept-refl, Kept-trans}
use distribute_system_lab.Raft.Kept.Core.{Kept-same, persist-Kept, new_term-Kept}

module _ {A : Type 0} (g : Codec A) where
  step_down-log : (rf : Raft A) → (step_down rf).log ≡ rf.log
  step_down-log rf = ground arith

  step_down_fixed : (rf : Raft A) → ((step_down rf).peers ≡ rf.peers) × ((step_down rf).me ≡ rf.me)
  step_down_fixed rf = (ground arith, ground arith)

  pub update_term-Kept : (rf : Raft A) (t : ℕ) → Inv g rf → Kept g rf (update_term g rf t).0
  unfolding update_term
  update_term-Kept rf t v = elim (Bool-cases (ltb rf.current_term t)) [
    | inl e ↦ rw e (
        new_term-Kept g rf _ (rw (step_down-log rf) v.has_log) (ltb→lt _ _ e) (step_down_fixed rf).0
          (step_down_fixed rf).1)
    | inr e ↦ rw e (Kept-refl g v)
  ]

  -- The two ways through the handler.
  pub vote_in_term_cases :
      (rf : Raft A) (args : RequestVoteArgs) (t : ℕ) {rf' : Raft A} {reply : RequestVoteReply}
      → vote_in_term g rf args t ≡ some (rf', reply)
      → (rf' ≡ rf)
        ⊎ ((voted_other rf.voted_for args.candidate_id ≡ false)
            × (rf' ≡ grant_vote g rf args.candidate_id))
  unfolding vote_in_term
  vote_in_term_cases rf args t h = ground arith

  grant_vote-Kept :
      (rf : Raft A) (c : ℕ)
      → Inv g rf
      → voted_other rf.voted_for c ≡ false
      → Kept g rf (grant_vote g rf c)
  unfolding grant_vote
  grant_vote-Kept rf c v h =
      Kept-same g
        (persist-Kept g rf (record rf { voted_for = some c }) v.has_log (omega arith)
          (λ w e q. ground arith) refl refl)
        (record { term = refl; vote = refl; log = refl; store = refl; peers = refl; me = refl })

  pub request_vote-Kept :
      (rf : Raft A) (args : RequestVoteArgs) {rf' : Raft A} {reply : RequestVoteReply}
      → Inv g rf
      → request_vote g rf args ≡ some (rf', reply)
      → Kept g rf rf'
  unfolding request_vote
  request_vote-Kept rf args v h =
      let k = update_term-Kept rf args.term v in
      elim (vote_in_term_cases (update_term g rf args.term).0 args rf.current_term h) [
        | inl e ↦ rw e k
        | inr (open_vote, e) ↦
            rw e (Kept-trans g k (grant_vote-Kept _ args.candidate_id k.inv open_vote))
      ]
