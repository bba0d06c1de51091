-- ===== src/Raft/Tests.antt =====
-- The theorems about a Raft peer at concrete inputs.
mod Elections
mod Clusters
use distribute_system_lab.Raft.StaleVotes.{stale_votes_win}
use distribute_system_lab.Prelude.{
  ℕ, zero, suc, ◌+◌, ◌/◌, ◌≡◌, ◌≤◌, ◌<◌, refl, ◌⊎◌, ◌↔◌, true, false, List, [], ◌∷◌, ◌++◌, none,
  some, arith, length, get_elem?, count, leb,
}
use distribute_system_lab.Raft.Persister.{make_persister, save_raft_state, read_raft_state}
use distribute_system_lab.Raft.State.{
  ApplyMsg, LogEntry, Raft, leader, follower, fresh, encoded, decode_all, persist, read_persist,
  make_raft, candidate,
}
use distribute_system_lab.Raft.Apply.{message, apply_loop, apply_log}
use distribute_system_lab.Raft.ApplyLaws.{Batch, apply_log_lem}
use distribute_system_lab.Raft.Vote.{
  RequestVoteArgs, RequestVoteReply, update_term, log_newer, grant_vote, request_vote,
}
use distribute_system_lab.Raft.Append.{
  AppendEntriesArgs, AppendEntriesReply, min_of, term_start, agree, store_entries, follow_commit,
  append_entries,
}
use distribute_system_lab.Raft.AppendSpec.{
  Accepts, Refusal, append_entries_answers, append_entries_stores, append_entries_refuses,
}
use distribute_system_lab.Raft.Candidate.{has_majority, check_reply_term}
use distribute_system_lab.Raft.Leader.{start, advance_commit, init_leader}
use distribute_system_lab.Raft.Node.{
  Node, Reach, here, later, boot, step, vote_rpc, restart, following, campaigning, elected, beating,
  take_lead, vote_reply,
}
use distribute_system_lab.Raft.VoteOnce.{vote_once}
use distribute_system_lab.Raft.Quorum.{elected_unique, commit_majority}
use distribute_system_lab.Raft.Restart.{restarted, start_restart, append_entries_restart}
use distribute_system_lab.Raft.Samples.{plain_codec, insertion_sort, entry, lagging}

apply_log_lem_example :
    (batch : List (ApplyMsg ℕ)) × (apply_log (record lagging { commit_index = 3 })
      ≡ some (record lagging { commit_index = 3; last_applied = 3; senders = batch ∷ [] }))
    × (length batch ≡ 2)
    × Batch lagging.log 2 batch
apply_log_lem_example = apply_log_lem (record lagging { commit_index = 3 }) (omega arith)

-- The leader of term 3 replaces the entry at index 3 and has committed up to there.
abbrev newer : AppendEntriesArgs ℕ
newer = record {
  term = 3;
  leader_id = 0;
  prev_log_index = 2;
  prev_log_term = 1;
  entries = entry 10 3 ∷ entry 11 3 ∷ [];
  leader_commit = 3;
}

abbrev cut_log : List (LogEntry ℕ)
cut_log = record { content = none; term_idx = 0 } ∷ entry 7 1 ∷ entry 8 1 ∷ []

abbrev updated : Raft ℕ
updated = record lagging {
  persister = record make_persister { raftstate = 3 ∷ 0 ∷ 3 ∷ 0 ∷ 0 ∷ 8 ∷ 1 ∷ 9 ∷ 1 ∷ [] };
  current_term = 3;
  voted_for = none;
  log = cut_log ++ entry 10 3 ∷ entry 11 3 ∷ [];
  commit_index = 3;
  last_applied = 3;
  reset_election_timer = true;
  senders = (message 2 (entry 8 1) ∷ message 3 (entry 10 3) ∷ []) ∷ [];
}

abbrev accepted : AppendEntriesReply
accepted = record { term = 2; success = true; next_index = some 0 }

newer-accepted : append_entries plain_codec lagging newer ≡ some (updated, accepted)
unfolding append_entries update_term persist encoded save_raft_state store_entries agree
    follow_commit min_of apply_log apply_loop
newer-accepted = refl

append_entries_answers_example :
    (rf' : Raft ℕ) × (reply : AppendEntriesReply) × (append_entries plain_codec lagging newer
      ≡ some (rf', reply))
    × ((reply.success ≡ true) ↔ Accepts lagging newer)
append_entries_answers_example = append_entries_answers plain_codec lagging newer (omega arith)

matching :
    (i : ℕ) (e o : LogEntry ℕ)
    → get_elem? newer.entries i ≡ some e
    → get_elem? lagging.log (3 + i) ≡ some o
    → e.term_idx ≡ o.term_idx
    → e ≡ o
matching zero e o p q r = ground arith
matching (suc i) e o p q r =
    let far : 3 + suc i ≡ suc (suc (suc (suc i))) = omega arith in let gone = rw far at q in cc

append_entries_stores_example :
    (updated.log ≡ cut_log ++ entry 10 3 ∷ entry 11 3 ∷ []) × (updated.commit_index ≡ min_of 4 3)
append_entries_stores_example =
    append_entries_stores plain_codec lagging newer (omega arith) newer-accepted refl matching

-- A restart loses both new entries.
append_entries_restart_example :
    (restarted plain_codec updated).log ++ entry 10 3 ∷ entry 11 3 ∷ [] ≡ updated.log
unfolding agree
append_entries_restart_example =
    append_entries_restart plain_codec lagging newer (omega arith) newer-accepted refl

-- The log has no index 2 of term 3: both entries of term 1 are in doubt.
abbrev clashing : AppendEntriesArgs ℕ
clashing = record newer { term = 2; prev_log_term = 3 }

abbrev hinted : AppendEntriesReply
hinted = record { term = 2; success = false; next_index = some 1 }

clashing_refused :
    append_entries plain_codec lagging clashing
    ≡ some (record lagging { reset_election_timer = true }, hinted)
unfolding append_entries update_term term_start
clashing_refused = refl

append_entries_refuses_example :
    (lagging.log ≡ lagging.log)
    × (lagging.commit_index ≡ lagging.commit_index)
    × (lagging.senders ≡ lagging.senders)
    × Refusal lagging clashing (some 1)
append_entries_refuses_example =
    append_entries_refuses plain_codec lagging clashing (omega arith) clashing_refused refl

abbrev leading_peer : Raft ℕ
leading_peer = record lagging { status = leader; voted_for = some 1; match_index = 0 ∷ 3 ∷ 3 ∷ [] }

abbrev extended : Raft ℕ
extended = record leading_peer {
  persister = record make_persister {
    raftstate = 2 ∷ 2 ∷ 5 ∷ 0 ∷ 0 ∷ 8 ∷ 1 ∷ 9 ∷ 1 ∷ 10 ∷ 2 ∷ 13 ∷ 2 ∷ [];
  };
  log = leading_peer.log ++ entry 12 2 ∷ [];
  match_index = 0 ∷ 4 ∷ 3 ∷ [];
}

started :
    start plain_codec leading_peer (some 12)
    ≡ some (extended, record { index = 4; term = 2; is_leader = true })
unfolding start persist encoded save_raft_state
started = refl

start_restart_example :
    ((restarted plain_codec extended).current_term ≡ 2)
    × ((restarted plain_codec extended).voted_for ≡ some 1)
    × ((restarted plain_codec extended).log ≡ leading_peer.log ++ entry 12 2 ∷ [])
    × ◌≡◌ {A = ℕ} 4 (length leading_peer.log)
start_restart_example = start_restart plain_codec leading_peer (some 12) started refl

abbrev committed : Raft ℕ
committed = record leading_peer {
  commit_index = 3;
  last_applied = 3;
  senders = (message 2 (entry 8 1) ∷ message 3 (entry 9 2) ∷ []) ∷ [];
}

advanced : advance_commit insertion_sort leading_peer ≡ some committed
unfolding advance_commit apply_log apply_loop
advanced = refl

commit_majority_example :
    (committed.commit_index ≡ leading_peer.commit_index)
    ⊎ ((leading_peer.peers / 2 < count (leb committed.commit_index) leading_peer.match_index)
        × (e : LogEntry ℕ) × (get_elem? leading_peer.log committed.commit_index ≡ some e)
        × (leading_peer.current_term ≤ e.term_idx))
commit_majority_example = commit_majority insertion_sort leading_peer refl refl advanced
