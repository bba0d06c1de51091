-- ===== src/Raft/Cluster/Rounds.antt =====
-- mit6.824/src/raft/raft.go: what a granted vote, the begin of a round and a counted vote mean.
use distribute_system_lab.Prelude.{
  ℕ, ◌≡◌, refl, sym, ap, ◌∙◌, ◌⊎◌, inl, inr, Bool, true, false, Bool-cases, List, some, >>=-eq-some,
  arith, get_elem?,
}
use distribute_system_lab.Raft.State.{Raft, Codec, Status, leader, candidate, follower, persist}
use distribute_system_lab.Raft.Vote.{RequestVoteArgs}
use distribute_system_lab.Raft.Append.{AppendEntriesArgs, AppendEntriesReply, append_entries}
use distribute_system_lab.Raft.Candidate.{begin_election}
use distribute_system_lab.Raft.Leader.{IntSort, init_leader, broadcast, start, append_reply}
use distribute_system_lab.Raft.Node.{
  Routine, following, campaigning, elected, beating, leading, terminated, Node, Event, vote_rpc,
  append_rpc, start_call, kill_call, apply_sent, timer_reset, election_timeout, vote_timeout,
  vote_reply, take_lead, follow_token, terminate_token, heartbeat, heartbeat_timeout, entries_reply,
  restart, step, enter_as, enter, on_follow_token, on_terminate, campaign_again, follower_step,
  candidate_step, elected_step, beating_step, on_entries_reply, leader_step, routine_step,
  send_next,
}
use distribute_system_lab.Raft.Cluster.{IsLocal, wins}

abbrev round_free : {A : Type 0} → Routine A → Bool
round_free following = true
round_free (campaigning args n) = false
round_free elected = true
round_free beating = true
round_free (leading sent) = true
round_free terminated = true

free_of_round :
    {A : Type 0} (pc : Routine A) (args : RequestVoteArgs) (k : ℕ)
    → round_free pc ≡ true
    → pc ≡ campaigning args k
    → ⊥
free_of_round pc args k h e = absurd (ground (arith, sym h ∙ ap round_free e))

module _ {A : Type 0} (g : Codec A) where
  -- A node that has just begun a round: it has voted for itself in the round's term, and counts
  -- its own vote only.
  abbrev pub Fresh : Node A → Type 0
  Fresh m =
      (args : RequestVoteArgs) (k : ℕ)
      → m.routine ≡ campaigning args k
      → (k ≡ 1)
        × (args.term ≡ m.rf.current_term)
        × (m.rf.voted_for ≡ some m.rf.me)
        × (args.candidate_id ≡ m.rf.me)

  begin_election-args :
      (rf : Raft A) {rf' : Raft A} {args : RequestVoteArgs}
      → begin_election g rf ≡ some (rf', args)
      → (args.term ≡ rf'.current_term)
        × (rf'.voted_for ≡ some rf'.me)
        × (args.candidate_id ≡ rf'.me)
  unfolding begin_election persist
  begin_election-args rf h = ground arith

  campaign_again-Fresh : (rf : Raft A) {m : Node A} → campaign_again g rf ≡ some m → Fresh m
  unfolding campaign_again
  campaign_again-Fresh rf h args k e =
      let ((rf', args'), q, h') = >>=-eq-some (begin_election g rf) _ h in
      let (a, b, c) = begin_election-args rf q in ground (arith, a, b, c)

  enter_as-Fresh :
      (st : Status) (rf : Raft A) {m : Node A}
      → enter_as g st rf ≡ some m
      → Fresh m × (wins m.routine ≡ false)
  unfolding enter_as
  enter_as-Fresh leader rf h =
      let (rf', q, h') = >>=-eq-some (init_leader rf) _ h in
      ((λ args k e. absurd (ground arith)), ground arith)
  enter_as-Fresh candidate rf h =
      let ((rf', args'), q, h') = >>=-eq-some (begin_election g rf) _ h in
      let (a, b, c) = begin_election-args rf q in
      ((λ args k e. ground (arith, a, b, c)), ground arith)
  enter_as-Fresh follower rf h = ((λ args k e. absurd (ground arith)), ground arith)

  pub enter-Fresh :
      (rf : Raft A) {m : Node A} → enter g rf ≡ some m → Fresh m × (wins m.routine ≡ false)
  unfolding enter
  enter-Fresh rf h = enter_as-Fresh rf.status rf h

  -- A step that goes to no round, or leaves the routine where it stands.
  abbrev pub Steps : Routine A → Node A → Type 0
  Steps pc m = (m.routine ≡ pc) ⊎ Fresh m

  -- The routine of a step that enters no round.
  away : (m : Node A) (pc : Routine A) → round_free pc ≡ true → m.routine ≡ pc → Fresh m
  away m pc h e args k q = absurd (free_of_round pc args k h (sym e ∙ q))

  on_follow_token-Fresh : (rf : Raft A) {m : Node A} → on_follow_token g rf ≡ some m → Fresh m
  unfolding on_follow_token
  on_follow_token-Fresh rf {m} h = elim (Bool-cases rf.to_follower) [
    | inl t ↦ (enter-Fresh (record rf { to_follower = false }) {m = m} (ground (arith, t))).0
    | inr f ↦ absurd (ground (arith, f))
  ]

  on_terminate-Fresh : (rf : Raft A) {m : Node A} → on_terminate g rf ≡ some m → Fresh m
  unfolding on_terminate
  on_terminate-Fresh rf {m} h = away m terminated refl (ground arith)

  follower_step-Fresh :
      (rf : Raft A) (e : Event A) {m : Node A} → follower_step g rf e ≡ some m → Fresh m
  unfolding follower_step
  follower_step-Fresh rf timer_reset {m} h = away m following refl (ground arith)
  follower_step-Fresh rf election_timeout h = (enter-Fresh (record rf { status = candidate }) h).0
  follower_step-Fresh rf e h = cc

  candidate_step-Fresh :
      (rf : Raft A) (args : RequestVoteArgs) (n : ℕ) (e : Event A) {m : Node A}
      → IsLocal e
      → candidate_step g rf args n e ≡ some m
      → Fresh m
  unfolding candidate_step
  candidate_step-Fresh rf args n vote_timeout l h = campaign_again-Fresh rf h
  candidate_step-Fresh rf args n (vote_reply reply) l h = absurd l
  candidate_step-Fresh rf args n follow_token l h = on_follow_token-Fresh rf h
  candidate_step-Fresh rf args n terminate_token l h = on_terminate-Fresh rf h
  candidate_step-Fresh rf args n e l h = cc

  elected_step-Fresh :
      (rf : Raft A) (e : Event A) {m : Node A} → elected_step g rf e ≡ some m → Fresh m
  unfolding elected_step
  elected_step-Fresh rf take_lead h = (enter-Fresh (record rf { status = leader }) h).0
  elected_step-Fresh rf e h = cc

  beating_step-Fresh :
      (rf : Raft A) (e : Event A) {m : Node A} → beating_step g rf e ≡ some m → Fresh m
  unfolding beating_step
  beating_step-Fresh rf heartbeat {m} h =
      let (args, e, h') = >>=-eq-some (broadcast rf) _ h in
      away m (leading args) refl (ground arith)
  beating_step-Fresh rf e h = cc

  on_entries_reply-Fresh :
      (s : IntSort) (rf : Raft A) (args : List (AppendEntriesArgs A)) (peer : ℕ)
      (reply : AppendEntriesReply) {m : Node A}
      → on_entries_reply g s rf args peer reply ≡ some m
      → Fresh m
  unfolding on_entries_reply
  on_entries_reply-Fresh s rf args peer reply {m} h =
      let (one, e, h1) = >>=-eq-some (get_elem? args peer) _ h in
      let ((rf', gone), e', h2) = >>=-eq-some (append_reply s g rf one peer reply) _ h1 in
      elim (Bool-cases gone) [
        | inl t ↦ (enter-Fresh rf' {m = m} (ground (arith, t))).0
        | inr f ↦ away m (leading args) refl (ground (arith, f))
      ]

  leader_step-Fresh :
      (s : IntSort) (rf : Raft A) (args : List (AppendEntriesArgs A)) (e : Event A) {m : Node A}
      → leader_step g s rf args e ≡ some m
      → Fresh m
  unfolding leader_step
  leader_step-Fresh s rf args heartbeat_timeout {m} h = away m beating refl (ground arith)
  leader_step-Fresh s rf args (entries_reply peer reply) h =
      on_entries_reply-Fresh s rf args peer reply h
  leader_step-Fresh s rf args follow_token h = on_follow_token-Fresh rf h
  leader_step-Fresh s rf args terminate_token h = on_terminate-Fresh rf h
  leader_step-Fresh s rf args e h = cc

  routine_step-Fresh :
      (s : IntSort) (rf : Raft A) (pc : Routine A) (e : Event A) {m : Node A}
      → IsLocal e
      → routine_step g s rf pc e ≡ some m
      → Fresh m
  unfolding routine_step
  routine_step-Fresh s rf following e l h = follower_step-Fresh rf e h
  routine_step-Fresh s rf (campaigning args n) e l h = candidate_step-Fresh rf args n e l h
  routine_step-Fresh s rf elected e l h = elected_step-Fresh rf e h
  routine_step-Fresh s rf beating e l h = beating_step-Fresh rf e h
  routine_step-Fresh s rf (leading args) e l h = leader_step-Fresh s rf args e h
  routine_step-Fresh s rf terminated e l h = cc

  pub step-Steps :
      (s : IntSort) (n : Node A) (e : Event A) {m : Node A}
      → IsLocal e
      → step g s n e ≡ some m
      → Steps n.routine m
  unfolding step
  step-Steps s n (vote_rpc args) l h = absurd l
  step-Steps s n (append_rpc args) l h =
      let (r, e, h') = >>=-eq-some (append_entries g n.rf args) _ h in inl (ground arith)
  step-Steps s n (start_call c) l h =
      let (r, e, h') = >>=-eq-some (start g n.rf c) _ h in inl (ground arith)
  step-Steps s n kill_call l h = inl (ground arith)
  step-Steps s n (apply_sent i) l h =
      let (q, e, h') = >>=-eq-some (send_next i n.rf.senders) _ h in inl (ground arith)
  step-Steps s n restart {m} l h = inr (away m following refl (ground arith))
  step-Steps s n e l h = inr (routine_step-Fresh s n.rf n.routine e l h)
