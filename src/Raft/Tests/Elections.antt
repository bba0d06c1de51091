-- ===== src/Raft/Tests/Elections.antt =====
-- The theorems about votes and elections at concrete inputs.
use distribute_system_lab.Raft.StaleVotes.{stale_votes_win}
use distribute_system_lab.Raft.VoteLaws.{MayVote, UpToDate, request_vote_lem}
use distribute_system_lab.Prelude.{◌↔◌, ℕ, ◌≡◌, ◌≤◌, refl, true, [], ◌∷◌, none, some, arith}
use distribute_system_lab.Raft.Persister.{make_persister, save_raft_state, read_raft_state}
use distribute_system_lab.Raft.State.{
  Raft, LogEntry, leader, follower, fresh, encoded, decode_all, persist, read_persist, make_raft,
  candidate,
}
use distribute_system_lab.Raft.Vote.{
  RequestVoteArgs, RequestVoteReply, update_term, log_newer, grant_vote, request_vote,
}
use distribute_system_lab.Raft.Candidate.{has_majority}
use distribute_system_lab.Raft.Node.{
  Node, Reach, here, later, boot, step, vote_rpc, restart, following, campaigning, take_lead,
  vote_reply,
}
use distribute_system_lab.Raft.VoteOnce.{vote_once}
use distribute_system_lab.Raft.Quorum.{elected_unique}
use distribute_system_lab.Raft.Samples.{plain_codec, insertion_sort, lagging}

elected_unique_example : ◌≡◌ {A = ℕ} 2 2
unfolding has_majority
elected_unique_example = elected_unique (some 2 ∷ none ∷ some 2 ∷ []) 2 2 refl refl

-- Peer 1 of three votes for peer 2 in term 1, and restarts.
abbrev canvass : RequestVoteArgs
canvass = record { term = 1; candidate_id = 2; last_log_index = 0; last_log_term = 0 }

abbrev voter : Raft ℕ
voter = record (fresh 3 1 (record make_persister { raftstate = 1 ∷ 3 ∷ 1 ∷ 0 ∷ 0 ∷ [] })) {
  current_term = 1;
  voted_for = some 2;
}

abbrev voter_node : Node ℕ
voter_node = record { rf = record voter { reset_election_timer = true }; routine = following }

abbrev voter_restarted : Node ℕ
voter_restarted = record { rf = voter; routine = following }

voter_votes : Reach plain_codec insertion_sort (boot plain_codec 3 1 make_persister) voter_node
unfolding step make_raft read_persist read_raft_state request_vote update_term persist encoded
    save_raft_state grant_vote log_newer
voter_votes = later (vote_rpc canvass) here refl

voter_restarts : Reach plain_codec insertion_sort voter_node voter_restarted
unfolding step make_raft read_persist read_raft_state decode_all
voter_restarts = later restart here refl

vote_once_example :
    ◌≤◌ 1 1 × ((c : ℕ) → ◌≡◌ {A = ℕ} 1 1 → voter.voted_for ≡ some c → voter.voted_for ≡ some c)
vote_once_example =
    vote_once plain_codec insertion_sort 3 1 make_persister refl voter_votes voter_restarts

-- Peer 1 campaigns in term 2 and has one vote of three; peer 0 canvasses in term 5.
abbrev campaigner : Raft ℕ
campaigner = record lagging { status = candidate; voted_for = some 1 }

abbrev own_args : RequestVoteArgs
own_args = record { term = 2; candidate_id = 1; last_log_index = 3; last_log_term = 2 }

abbrev other_args : RequestVoteArgs
other_args = record { term = 5; candidate_id = 0; last_log_index = 0; last_log_term = 0 }

abbrev overtaken : Raft ℕ
overtaken = record campaigner {
  persister = record make_persister { raftstate = 5 ∷ 0 ∷ 4 ∷ 0 ∷ 0 ∷ 8 ∷ 1 ∷ 9 ∷ 1 ∷ 10 ∷ 2 ∷ [] };
  current_term = 5;
  voted_for = none;
  status = follower;
  to_follower = true;
}

hears_of_term_5 :
    step plain_codec insertion_sort
      (record { rf = campaigner; routine = campaigning own_args 1 })
      (vote_rpc other_args)
    ≡ some (record { rf = overtaken; routine = campaigning own_args 1 })
unfolding step request_vote update_term persist encoded save_raft_state log_newer
hears_of_term_5 = refl

abbrev old_vote : RequestVoteReply
old_vote = record { term = 1; vote_granted = true }

stale_votes_win_example :
    (n2 : Node ℕ) × (n3 : Node ℕ) × (step plain_codec insertion_sort
        (record { rf = overtaken; routine = campaigning own_args 1 })
        (vote_reply old_vote)
      ≡ some n2)
    × (step plain_codec insertion_sort n2 take_lead ≡ some n3)
    × (n3.rf.current_term ≡ 5)
    × (n3.rf.status ≡ leader)
unfolding has_majority
stale_votes_win_example =
    stale_votes_win plain_codec insertion_sort campaigner own_args 1 other_args old_vote
      (omega arith) (omega arith) refl refl (omega arith) hears_of_term_5

-- A peer of term 2 whose last entry is of term 2 is asked by a candidate that is as far.
abbrev newer_canvass : RequestVoteArgs
newer_canvass = record { term = 3; candidate_id = 0; last_log_index = 3; last_log_term = 2 }

abbrev lagging_last : LogEntry ℕ
lagging_last = record { content = some 9; term_idx = 2 }

request_vote_lem_example :
    (rf' : Raft ℕ) × (reply : RequestVoteReply) × (request_vote plain_codec lagging newer_canvass
      ≡ some (rf', reply))
    × (reply.term ≡ lagging.current_term)
    × ((reply.vote_granted ≡ true)
        ↔ (MayVote lagging newer_canvass × UpToDate lagging.log lagging_last newer_canvass))
request_vote_lem_example = request_vote_lem plain_codec lagging newer_canvass lagging_last refl
