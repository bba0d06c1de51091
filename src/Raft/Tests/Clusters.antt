-- ===== src/Raft/Tests/Clusters.antt =====
-- The theorem about elections in a cluster at a concrete run of three peers.
use distribute_system_lab.Prelude.{ℕ, ◌≡◌, refl, Option, none, some, arith}
use distribute_system_lab.Raft.Persister.{
  Persister, make_persister, save_raft_state, read_raft_state,
}
use distribute_system_lab.Raft.State.{encoded, decode_all, persist, read_persist, make_raft}
use distribute_system_lab.Raft.Vote.{update_term, log_newer, grant_vote, vote_in_term, request_vote}
use distribute_system_lab.Raft.Candidate.{begin_election, has_majority, check_reply_term}
use distribute_system_lab.Raft.Node.{
  step, enter, enter_as, on_vote, follower_step, candidate_step, routine_step, election_timeout,
}
use distribute_system_lab.Raft.Cluster.{
  Cluster, Runs, begins, acts, handles, receives, start_cluster, act, handle, receive, put_node,
  put_call, ask_all, calls_after,
}
use distribute_system_lab.Raft.Cluster.Elections.{election_safety}
use distribute_system_lab.Raft.Samples.{plain_codec, insertion_sort}

abbrev blank_disks : ℕ → Persister
blank_disks i = make_persister

abbrev three_peers : Cluster ℕ
unfolding start_cluster
three_peers = start_cluster plain_codec insertion_sort 3 blank_disks

abbrev or_start : Option (Cluster ℕ) → Cluster ℕ
or_start none = three_peers
or_start (some cl) = cl

-- Peers 1 and 2 campaign in term 1; peer 0 votes for peer 1, and refuses peer 2.
abbrev one_campaigns : Cluster ℕ
unfolding act
one_campaigns = or_start (act plain_codec insertion_sort three_peers 1 election_timeout)

abbrev two_campaign : Cluster ℕ
unfolding act
two_campaign = or_start (act plain_codec insertion_sort one_campaigns 2 election_timeout)

abbrev vote_cast : Cluster ℕ
unfolding handle
vote_cast =
    or_start (handle plain_codec insertion_sort two_campaign 0 1 1 (two_campaign.calls 0 1 1))

abbrev vote_refused : Cluster ℕ
unfolding handle
vote_refused = or_start (handle plain_codec insertion_sort vote_cast 0 2 1 (vote_cast.calls 0 2 1))

abbrev refusal_received : Cluster ℕ
unfolding receive
refusal_received =
    or_start (receive plain_codec insertion_sort vote_refused 0 2 1 (vote_refused.calls 0 2 1))

abbrev vote_received : Cluster ℕ
unfolding receive
vote_received =
    or_start
      (receive plain_codec insertion_sort refusal_received 0 1 1 (refusal_received.calls 0 1 1))

vote_received-Runs : Runs plain_codec insertion_sort 3 three_peers vote_received
unfolding act handle receive put_node put_call ask_all calls_after start_cluster make_raft
    read_persist read_raft_state decode_all encoded persist save_raft_state update_term log_newer
    grant_vote vote_in_term request_vote begin_election has_majority check_reply_term step enter
    enter_as on_vote follower_step candidate_step routine_step
vote_received-Runs =
    receives 0 1 1 (omega arith) (omega arith)
      (receives 0 2 1 (omega arith) (omega arith)
        (handles 0 2 1 (omega arith) (omega arith)
          (handles 0 1 1 (omega arith) (omega arith)
            (acts 2 election_timeout (omega arith) tt
              (acts 1 election_timeout (omega arith) tt begins refl) refl)
            refl)
          refl)
        refl)
      refl

election_safety_example : ◌≡◌ {A = ℕ} 1 1
unfolding act handle receive put_node put_call ask_all calls_after start_cluster make_raft
    read_persist read_raft_state decode_all encoded persist save_raft_state update_term log_newer
    grant_vote vote_in_term request_vote begin_election has_majority check_reply_term step enter
    enter_as on_vote follower_step candidate_step routine_step
election_safety_example =
    election_safety plain_codec insertion_sort 3 blank_disks 0 0 1 1 1 (λ k. refl)
      vote_received-Runs refl refl
