-- ===== src/Raft/Node.antt =====
-- mit6.824/src/raft/raft.go: a running peer, one atomic step at a time. The main goroutine of
-- `Make` stands in one of the three routines; the handlers, `Start`, `Kill` and the goroutines of
-- `applyLog` run between its steps. A step is what happens while the lock is held, or one choice
-- of a `select`. Which arguments and replies arrive, and when a timer fires, is left open.
use distribute_system_lab.Prelude.{
  ℕ, zero, suc, ◌+◌, ◌≡◌, false, List, [], ◌∷◌, Option, none, some, ◌>>=◌, get_elem?, if◌then◌else◌,
}
use distribute_system_lab.Raft.State.{
  Raft, ApplyMsg, Codec, Status, leader, candidate, follower, make_raft,
}
use distribute_system_lab.Raft.Persister.{Persister}
use distribute_system_lab.Raft.Vote.{RequestVoteArgs, RequestVoteReply, request_vote}
use distribute_system_lab.Raft.Append.{AppendEntriesArgs, AppendEntriesReply, append_entries}
use distribute_system_lab.Raft.Candidate.{begin_election, check_reply_term, has_majority}
use distribute_system_lab.Raft.Leader.{IntSort, kill, init_leader, broadcast, start, append_reply}

-- Where the main goroutine stands, with its local variables.
pub data Routine (A : Type 0) : Type 0 where
  following : Routine A
  campaigning : RequestVoteArgs → ℕ → Routine A  -- waits for votes; `grantN`
  elected : Routine A  -- has counted a majority, and waits for the lock
  beating : Routine A  -- a leader at the head of its loop
  leading : List (AppendEntriesArgs A) → Routine A  -- waits for replies to these
  terminated : Routine A

pub record Node (A : Type 0) : Type 0 where
  pub rf : Raft A
  pub routine : Routine A

pub data Event (A : Type 0) : Type 0 where
  vote_rpc : RequestVoteArgs → Event A
  append_rpc : AppendEntriesArgs A → Event A
  start_call : Option A → Event A
  kill_call : Event A
  apply_sent : ℕ → Event A  -- a goroutine of `applyLog` sends its next message
  timer_reset : Event A  -- a follower reads `resetElectionTimer`
  election_timeout : Event A
  vote_timeout : Event A
  vote_reply : RequestVoteReply → Event A
  take_lead : Event A
  follow_token : Event A  -- `toFollower` is read
  terminate_token : Event A  -- `terminateCh` is read
  heartbeat : Event A
  heartbeat_timeout : Event A
  entries_reply : ℕ → AppendEntriesReply → Event A
  restart : Event A  -- a crash, and `Make` over the same disk

-- One message leaves the batch of goroutine `i`, if it has one.
unfoldable pub send_next :
    {A : Type 0} → ℕ → List (List (ApplyMsg A)) → Option (List (List (ApplyMsg A)))
send_next i [] = none
send_next zero ([] ∷ batches) = none
send_next zero ((m ∷ msgs) ∷ batches) = some (msgs ∷ batches)
send_next (suc i) (msgs ∷ batches) = do rest ← send_next i batches; some (msgs ∷ rest)

module _ {A : Type 0} (g : Codec A) where
  -- The `switch` of the loop in `Make`, with the lock held, up to where the routine releases it.
  unfoldable pub enter_as : Status → Raft A → Option (Node A)
  enter_as leader rf = do rf' ← init_leader rf; some (record { rf = rf'; routine = beating })
  enter_as candidate rf = do
    (rf', args) ← begin_election g rf
    some (record { rf = rf'; routine = campaigning args 1 })
  enter_as follower rf = some (record { rf = rf; routine = following })

  unfoldable pub enter : Raft A → Option (Node A)
  unfolding enter_as
  enter rf = enter_as rf.status rf

  -- A step of the handlers keeps the routine.
  abbrev pub beside {κ} : {R : Type κ} → Routine A → Option (Raft A × R) → Option (Node A)
  beside pc result = do (rf, reply) ← result; some (record { rf = rf; routine = pc })

  -- `case peer := <-voteChan`, up to the next wait.
  unfoldable pub on_vote : Raft A → RequestVoteArgs → ℕ → RequestVoteReply → Option (Node A)
  on_vote rf args n reply =
      let (rf', gone) = check_reply_term g rf reply.term in
      let given_way = enter rf' in
      let counted : Node A =
        if reply.vote_granted
        then (if has_majority rf.peers (n + 1)
            then record { rf = rf; routine = elected }
            else record { rf = rf; routine = campaigning args (n + 1) })
        else record { rf = rf; routine = campaigning args n } in
      if gone then given_way else some counted

  -- `case <-rf.toFollower` of the two routines that read that channel.
  unfoldable pub on_follow_token : Raft A → Option (Node A)
  on_follow_token rf =
      let entered = enter (record rf { to_follower = false }) in
      if rf.to_follower then entered else none

  unfoldable pub on_terminate : Raft A → Option (Node A)
  on_terminate rf =
      if rf.terminate_ch
      then some (record { rf = record rf { terminate_ch = false }; routine = terminated })
      else none

  unfoldable pub campaign_again : Raft A → Option (Node A)
  campaign_again rf = do
    (rf', args) ← begin_election g rf
    some (record { rf = rf'; routine = campaigning args 1 })

  -- The choices of the main goroutine, by where it stands; `none`: no such choice, or a panic.
  unfoldable pub follower_step : Raft A → Event A → Option (Node A)
  unfolding enter
  follower_step rf timer_reset =
      if rf.reset_election_timer
      then some (record { rf = record rf { reset_election_timer = false }; routine = following })
      else none
  follower_step rf election_timeout = enter (record rf { status = candidate })
  follower_step rf e = none

  unfoldable pub candidate_step : Raft A → RequestVoteArgs → ℕ → Event A → Option (Node A)
  unfolding on_vote on_follow_token on_terminate campaign_again
  candidate_step rf args n vote_timeout = campaign_again rf
  candidate_step rf args n (vote_reply reply) = on_vote rf args n reply
  candidate_step rf args n follow_token = on_follow_token rf
  candidate_step rf args n terminate_token = on_terminate rf
  candidate_step rf args n e = none

  unfoldable pub elected_step : Raft A → Event A → Option (Node A)
  unfolding enter
  elected_step rf take_lead = enter (record rf { status = leader })
  elected_step rf e = none

  unfoldable pub beating_step : Raft A → Event A → Option (Node A)
  beating_step rf heartbeat = do
    sent ← broadcast rf
    some (record { rf = rf; routine = leading sent })
  beating_step rf e = none

  unfoldable pub on_entries_reply :
      IntSort → Raft A → List (AppendEntriesArgs A) → ℕ → AppendEntriesReply → Option (Node A)
  on_entries_reply s rf sent peer reply = do
    args ← get_elem? sent peer
    (rf', gone) ← append_reply s g rf args peer reply
    let given_way = enter rf'
    if gone then given_way else some (record { rf = rf'; routine = leading sent })

  unfoldable pub leader_step :
      IntSort → Raft A → List (AppendEntriesArgs A) → Event A → Option (Node A)
  unfolding on_entries_reply on_follow_token on_terminate
  leader_step s rf sent heartbeat_timeout = some (record { rf = rf; routine = beating })
  leader_step s rf sent (entries_reply peer reply) = on_entries_reply s rf sent peer reply
  leader_step s rf sent follow_token = on_follow_token rf
  leader_step s rf sent terminate_token = on_terminate rf
  leader_step s rf sent e = none

  unfoldable pub routine_step : IntSort → Raft A → Routine A → Event A → Option (Node A)
  unfolding follower_step candidate_step elected_step beating_step leader_step
  routine_step s rf following e = follower_step rf e
  routine_step s rf (campaigning args n) e = candidate_step rf args n e
  routine_step s rf elected e = elected_step rf e
  routine_step s rf beating e = beating_step rf e
  routine_step s rf (leading sent) e = leader_step s rf sent e
  routine_step s rf terminated e = none

  unfoldable pub step : IntSort → Node A → Event A → Option (Node A)
  unfolding routine_step send_next
  step s n (vote_rpc args) = beside n.routine (request_vote g n.rf args)
  step s n (append_rpc args) = beside n.routine (append_entries g n.rf args)
  step s n (start_call c) = beside n.routine (start g n.rf c)
  step s n kill_call = some (record n { rf = kill n.rf })
  step s n (apply_sent i) = do
    senders ← send_next i n.rf.senders
    some (record n { rf = record (n.rf) { senders = senders } })
  step s n restart =
      some (record { rf = make_raft g n.rf.peers n.rf.me n.rf.persister; routine = following })
  step s n e = routine_step s n.rf n.routine e

-- What a peer can come to from a state, by any events.
pub data Reach {A : Type 0} (g : Codec A) (s : IntSort) (n : Node A) : Node A → Type 0 where
  here : Reach g s n n
  later : {m k : Node A} (e : Event A) → Reach g s n m → step g s m e ≡ some k → Reach g s n k

-- `Make` over a given disk, and its main goroutine.
abbrev pub boot : {A : Type 0} → Codec A → ℕ → ℕ → Persister → Node A
boot g peers me ps = record { rf = make_raft g peers me ps; routine = following }
