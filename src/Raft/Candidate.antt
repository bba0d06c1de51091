-- ===== src/Raft/Candidate.antt =====
-- mit6.824/src/raft/raft.go, `candidateRoutine`: what it does while it holds the lock.
use distribute_system_lab.Prelude.{
  ℕ, ◌+◌, ◌-◌, ◌/◌, Bool, true, false, Option, none, some, ◌>>=◌, length, ltb, if◌then◌else◌,
}
use distribute_system_lab.Raft.State.{Raft, Codec, follower, persist}
use distribute_system_lab.Raft.Vote.{RequestVoteArgs, latest}

module _ {A : Type 0} (g : Codec A) where
  -- The head of the loop: a new term, a vote for itself, and the arguments of its requests.
  unfoldable pub begin_election : Raft A → Option (Raft A × RequestVoteArgs)
  begin_election rf =
      let rf' =
        persist g (record rf { current_term = rf.current_term + 1; voted_for = some rf.me }) in
      do
        l ← latest rf'
        some (
          rf',
          record {
            term = rf'.current_term;
            candidate_id = rf'.me;
            last_log_index = length rf'.log - 1;
            last_log_term = l.term_idx;
          },
        )

  -- Both routines give way to a reply with a newer term; the flag says that they did.
  unfoldable pub check_reply_term : Raft A → ℕ → Raft A × Bool
  check_reply_term rf t =
      if ltb rf.current_term t
      then (
        record (persist g (record rf { current_term = t; voted_for = none })) { status = follower },
        true,
      )
      else (rf, false)

-- `grantN > len(rf.peers)/2`.
unfoldable pub has_majority : ℕ → ℕ → Bool
has_majority peers n = ltb (peers / 2) n
