-- ===== src/Raft/Kept/Steps.antt =====
-- Every step of a running peer (Raft/Node.antt) keeps its term and its vote.
use distribute_system_lab.Prelude.{ℕ, ◌≡◌, refl, subst, List, some, >>=-eq-some, arith}
use distribute_system_lab.Raft.State.{Raft, Codec, leader, candidate}
use distribute_system_lab.Raft.Vote.{RequestVoteArgs, request_vote}
use distribute_system_lab.Raft.Append.{AppendEntriesArgs, append_entries}
use distribute_system_lab.Raft.Leader.{IntSort, start}
use distribute_system_lab.Raft.Node.{
  Routine, following, campaigning, elected, beating, leading, terminated, Node, Event, vote_rpc,
  append_rpc, start_call, kill_call, apply_sent, timer_reset, election_timeout, vote_timeout,
  vote_reply, take_lead, follow_token, terminate_token, heartbeat, heartbeat_timeout, entries_reply,
  restart, send_next, follower_step, candidate_step, elected_step, beating_step, leader_step,
  routine_step, step, Reach, here, later,
}
use distribute_system_lab.Raft.Disk.{Inv, Kept, Kept-refl, Kept-trans, make_raft-Kept}
use distribute_system_lab.Raft.Kept.Core.{SameCore, Kept-same}
use distribute_system_lab.Raft.Kept.Vote.{request_vote-Kept}
use distribute_system_lab.Raft.Kept.Append.{append_entries-Kept}
use distribute_system_lab.Raft.Kept.Leader.{start-Kept}
use distribute_system_lab.Raft.Kept.Routines.{
  kill-SameCore, on_terminate-SameCore, campaign_again-Kept, enter-Kept, on_vote-Kept,
  on_follow_token-Kept, on_entries_reply-Kept,
}

module _ {A : Type 0} (g : Codec A) where
  follower_step-Kept :
      (rf : Raft A) (e : Event A) {m : Node A}
      → Inv g rf
      → follower_step g rf e ≡ some m
      → Kept g rf m.rf
  unfolding follower_step
  follower_step-Kept rf timer_reset v h = Kept-same g (Kept-refl g v) (ground arith)
  follower_step-Kept rf election_timeout v h =
      enter-Kept g rf (record rf { status = candidate })
        (Kept-same g (Kept-refl g v)
          (record { term = refl; vote = refl; log = refl; store = refl; peers = refl; me = refl }))
        h
  follower_step-Kept rf e v h = cc

  candidate_step-Kept :
      (rf : Raft A) (args : RequestVoteArgs) (n : ℕ) (e : Event A) {m : Node A}
      → Inv g rf
      → candidate_step g rf args n e ≡ some m
      → Kept g rf m.rf
  unfolding candidate_step
  candidate_step-Kept rf args n vote_timeout v h = campaign_again-Kept g rf v h
  candidate_step-Kept rf args n (vote_reply reply) v h = on_vote-Kept g rf args n reply v h
  candidate_step-Kept rf args n follow_token v h = on_follow_token-Kept g rf v h
  candidate_step-Kept rf args n terminate_token v h =
      Kept-same g (Kept-refl g v) (on_terminate-SameCore g rf h)
  candidate_step-Kept rf args n e v h = cc

  elected_step-Kept :
      (rf : Raft A) (e : Event A) {m : Node A}
      → Inv g rf
      → elected_step g rf e ≡ some m
      → Kept g rf m.rf
  unfolding elected_step
  elected_step-Kept rf take_lead v h =
      enter-Kept g rf (record rf { status = leader })
        (Kept-same g (Kept-refl g v)
          (record { term = refl; vote = refl; log = refl; store = refl; peers = refl; me = refl }))
        h
  elected_step-Kept rf e v h = cc

  beating_step-SameCore :
      (rf : Raft A) (e : Event A) {m : Node A} → beating_step g rf e ≡ some m → SameCore rf m.rf
  unfolding beating_step
  beating_step-SameCore rf heartbeat h = ground arith
  beating_step-SameCore rf e h = cc

  leader_step-Kept :
      (s : IntSort) (rf : Raft A) (sent : List (AppendEntriesArgs A)) (e : Event A) {m : Node A}
      → Inv g rf
      → leader_step g s rf sent e ≡ some m
      → Kept g rf m.rf
  unfolding leader_step
  leader_step-Kept s rf sent heartbeat_timeout v h = Kept-same g (Kept-refl g v) (ground arith)
  leader_step-Kept s rf sent (entries_reply peer reply) v h =
      on_entries_reply-Kept g s rf sent peer reply v h
  leader_step-Kept s rf sent follow_token v h = on_follow_token-Kept g rf v h
  leader_step-Kept s rf sent terminate_token v h =
      Kept-same g (Kept-refl g v) (on_terminate-SameCore g rf h)
  leader_step-Kept s rf sent e v h = cc

  routine_step-Kept :
      (s : IntSort) (rf : Raft A) (pc : Routine A) (e : Event A) {m : Node A}
      → Inv g rf
      → routine_step g s rf pc e ≡ some m
      → Kept g rf m.rf
  unfolding routine_step
  routine_step-Kept s rf following e v h = follower_step-Kept rf e v h
  routine_step-Kept s rf (campaigning args n) e v h = candidate_step-Kept rf args n e v h
  routine_step-Kept s rf elected e v h = elected_step-Kept rf e v h
  routine_step-Kept s rf beating e v h = Kept-same g (Kept-refl g v) (beating_step-SameCore rf e h)
  routine_step-Kept s rf (leading sent) e v h = leader_step-Kept s rf sent e v h
  routine_step-Kept s rf terminated e v h = cc

  pub step-Kept :
      (s : IntSort) (n : Node A) (e : Event A) {m : Node A}
      → Inv g n.rf
      → step g s n e ≡ some m
      → Kept g n.rf m.rf
  unfolding step
  step-Kept s n (vote_rpc args) v h =
      let (r, e, h') = >>=-eq-some (request_vote g n.rf args) _ h in
      subst (Kept g n.rf) (ground arith) (request_vote-Kept g n.rf args v e)
  step-Kept s n (append_rpc args) v h =
      let (r, e, h') = >>=-eq-some (append_entries g n.rf args) _ h in
      subst (Kept g n.rf) (ground arith) (append_entries-Kept g n.rf args v e)
  step-Kept s n (start_call c) v h =
      let (r, e, h') = >>=-eq-some (start g n.rf c) _ h in
      subst (Kept g n.rf) (ground arith) (start-Kept g n.rf c v e)
  step-Kept s n kill_call v h =
      subst (Kept g n.rf) (ground arith) (Kept-same g (Kept-refl g v) (kill-SameCore n.rf))
  step-Kept s n (apply_sent i) v h =
      let (q, e, h') = >>=-eq-some (send_next i n.rf.senders) _ h in
      Kept-same g (Kept-refl g v) (ground arith)
  step-Kept s n restart v h = subst (Kept g n.rf) (ground arith) (make_raft-Kept g n.rf v)
  step-Kept s n e v h = routine_step-Kept s n.rf n.routine e v h

  pub Reach-Kept : (s : IntSort) {n m : Node A} → Inv g n.rf → Reach g s n m → Kept g n.rf m.rf
  Reach-Kept s v here = Kept-refl g v
  Reach-Kept s v (later e r h) =
      let k = Reach-Kept s v r in Kept-trans g k (step-Kept s _ e k.inv h)
