-- ===== src/Raft/Vote.antt =====
-- mit6.824/src/raft/raft.go: `updateTerm`, `logNewer` and the handler `RequestVote`.
use distribute_system_lab.Prelude.{
  ℕ, ◌+◌, ◌-◌, Bool, true, false, ◌&&◌, not, Option, none, some, ◌>>=◌, length, get_elem?, ltb, leb,
  ◌==◌, if◌then◌else◌,
}
use distribute_system_lab.Raft.State.{Raft, LogEntry, Codec, follower, is_follower, persist}

pub record RequestVoteArgs : Type 0 where
  pub term : ℕ
  pub candidate_id : ℕ
  pub last_log_index : ℕ
  pub last_log_term : ℕ

pub record RequestVoteReply : Type 0 where
  pub term : ℕ
  pub vote_granted : Bool

-- `rf.votedFor != -1 && rf.votedFor != c`.
abbrev pub voted_other : Option ℕ → ℕ → Bool
voted_other none c = false
voted_other (some v) c = not (v == c)

module _ {A : Type 0} where
  abbrev pub refuse : Raft A → ℕ → Option (Raft A × RequestVoteReply)
  refuse rf t = some (rf, record { term = t; vote_granted = false })

  -- The last log entry; reading it panics on an empty log.
  abbrev pub latest : Raft A → Option (LogEntry A)
  latest rf = get_elem? rf.log (length rf.log - 1)

  -- `logNewer`.
  unfoldable pub log_newer : Raft A → RequestVoteArgs → Option Bool
  log_newer rf args = do
    l ← latest rf
    some (
        if ltb l.term_idx args.last_log_term
        then true
        else if args.last_log_term == l.term_idx
        then leb (length rf.log) (args.last_log_index + 1)
        else false)

  -- A follower stays one; a peer that is none becomes one and its routine is told so, unless a
  -- token that it has not read waits already.
  abbrev pub step_down : Raft A → Raft A
  step_down rf =
      if not (is_follower rf.status) && not rf.to_follower
      then record rf { status = follower; to_follower = true }
      else rf

module _ {A : Type 0} (g : Codec A) where
  -- `updateTerm`.
  unfoldable pub update_term : Raft A → ℕ → Raft A × Bool
  update_term rf term =
      if ltb rf.current_term term
      then (persist g (record (step_down rf) { current_term = term; voted_for = none }), true)
      else (rf, false)

  unfoldable pub grant_vote : Raft A → ℕ → Raft A
  grant_vote rf c = record (persist g (record rf { voted_for = some c })) {
    reset_election_timer = true;
  }

  abbrev pub grant : Raft A → ℕ → ℕ → Option (Raft A × RequestVoteReply)
  grant rf c t = some (grant_vote rf c, record { term = t; vote_granted = true })

  -- `RequestVote` after its call of `updateTerm`; `t` is the term that the reply carries.
  unfoldable pub vote_in_term : Raft A → RequestVoteArgs → ℕ → Option (Raft A × RequestVoteReply)
  unfolding grant_vote
  vote_in_term rf args t =
      let log_test = (do
        newer ← log_newer rf args
        if newer then grant rf args.candidate_id t else refuse rf t) in
      if ltb args.term rf.current_term
      then refuse rf t
      else if voted_other rf.voted_for args.candidate_id
      then refuse rf t
      else log_test

  -- `RequestVote`. The reply's term is read before the peer takes over a newer one.
  unfoldable pub request_vote : Raft A → RequestVoteArgs → Option (Raft A × RequestVoteReply)
  unfolding vote_in_term
  request_vote rf args = vote_in_term (update_term rf args.term).0 args rf.current_term
