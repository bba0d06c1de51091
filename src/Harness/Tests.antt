-- ===== src/Harness/Tests.antt =====
-- The theorems about the harness at concrete inputs.
use distribute_system_lab.Prelude.{
  ℕ, ◌≡◌, ◌≤◌, ◌<◌, refl, true, false, ◌&&◌, Option, none, some, [], ◌∷◌, arith, count, get_elem?,
  ◌⊎◌, if◌then◌else◌, ◌==◌,
}
use distribute_system_lab.Prelude.Text.{Str, str_eq}
use distribute_system_lab.Labrpc.Server.{Service, put_service, add_service}
use distribute_system_lab.Labrpc.Network.{
  put_end, put_name, make_network, set_reliable, set_long_delays, make_end, add_server,
  delete_server, connect, enable,
}
use distribute_system_lab.Raft.Persister.{make_persister, save_raft_state, read_raft_state}
use distribute_system_lab.Raft.State.{
  leader, Raft, ApplyMsg, encoded, decode_all, persist, read_persist, make_raft, fresh,
}
use distribute_system_lab.Raft.Cluster.Ballots.{upto}
use distribute_system_lab.Raft.Vote.{
  RequestVoteArgs, update_term, log_newer, grant_vote, request_vote,
}
use distribute_system_lab.Raft.Node.{Node, Reach, here, later, boot, step, vote_rpc, following}
use distribute_system_lab.Raft.Samples.{lagging, plain_codec, insertion_sort}
use distribute_system_lab.Harness.Links.{Config, set_ends, connect_server, disconnect_server}
use distribute_system_lab.Harness.Peers.{
  make_ends, crash1, start1, start_all, connect_all, new_config, make_config, unused, disconnects,
}
use distribute_system_lab.Harness.Apply.{
  Applied, is_some, conflicts, on_apply, none_applied, Applies, no_message, applies, n_committed,
}
use distribute_system_lab.Harness.Checks.{
  add_leader, last_term, find_leaders, poll_leader, check_one_leader, terms_loop, check_terms,
}
use distribute_system_lab.Harness.Leading.{Leads, check_one_leader_lem}
use distribute_system_lab.Harness.Terms.{check_terms_lem}
use distribute_system_lab.Harness.Enabled.{connected_links}
use distribute_system_lab.Harness.Recovery.{start1_recovers}
use distribute_system_lab.Harness.ApplyLaws.{applied_agree}
use distribute_system_lab.Harness.Commits.{n_committed_lem}

-- Two servers with the end names "0 1 0" and the like; the last letter is new after a restart.
abbrev names : ℕ → ℕ → Str
names i j = i ∷ j ∷ 0 ∷ []

abbrev new_names : ℕ → Str
new_names j = 1 ∷ j ∷ 1 ∷ []

abbrev no_methods : ℕ → Service ℕ
no_methods i = record { name = 82 ∷ []; rcvr = 0; methods = [] }

abbrev or_empty : Option (Config ℕ ℕ) → Config ℕ ℕ
or_empty none = new_config plain_codec 2 false
or_empty (some cfg) = cfg

abbrev two_servers : Config ℕ ℕ
unfolding make_config
two_servers = or_empty (make_config plain_codec 2 false names no_methods)

abbrev one_off : Config ℕ ℕ
unfolding disconnect_server
one_off = or_empty (disconnect_server two_servers 1)

connected_links_example :
    one_off.net.enabled (0 ∷ 1 ∷ 0 ∷ []) ≡ (one_off.connected 0 && one_off.connected 1)
unfolding make_config disconnect_server connect_server start_all connect_all start1 crash1 set_ends
    make_ends put_end put_name make_network set_reliable set_long_delays make_end add_server
    delete_server connect enable str_eq add_service put_service make_raft read_persist
    read_raft_state save_raft_state decode_all
connected_links_example =
    connected_links plain_codec 2 false names no_methods {start = two_servers} {cfg = one_off} 0 1
      (0 ∷ 1 ∷ 0 ∷ []) refl (disconnects 1 unused refl) (omega arith) refl

-- Peer 1 votes for peer 0 in term 1, and its server is started again.
abbrev canvass : RequestVoteArgs
canvass = record { term = 1; candidate_id = 0; last_log_index = 0; last_log_term = 0 }

abbrev voted : Raft ℕ
voted = record (fresh 2 1 (record make_persister { raftstate = 1 ∷ 1 ∷ 1 ∷ 0 ∷ 0 ∷ [] })) {
  current_term = 1;
  voted_for = some 0;
  reset_election_timer = true;
}

abbrev voted_node : Node ℕ
voted_node = record { rf = voted; routine = following }

one_votes : Reach plain_codec insertion_sort (boot plain_codec 2 1 make_persister) voted_node
unfolding step make_raft read_persist read_raft_state request_vote update_term persist encoded
    save_raft_state grant_vote log_newer
one_votes = later (vote_rpc canvass) here refl

abbrev after_vote : Config ℕ ℕ
after_vote = record one_off { rafts = λ i. some voted }

abbrev one_again : Config ℕ ℕ
unfolding start1
one_again = or_empty (start1 plain_codec after_vote 1 new_names (no_methods 1))

start1_recovers_example :
    (rf : Raft ℕ) × (one_again.rafts 1 ≡ some rf) × (rf.current_term ≡ 1) × (rf.voted_for ≡ some 0)
unfolding make_config disconnect_server connect_server start_all connect_all start1 crash1 set_ends
    make_ends put_end put_name make_network set_reliable set_long_delays make_end add_server
    delete_server connect enable str_eq add_service put_service make_raft read_persist
    read_raft_state save_raft_state decode_all
start1_recovers_example =
    start1_recovers plain_codec insertion_sort after_vote 1 new_names (no_methods 1) make_persister
      {m = voted_node} {cfg' = one_again} refl one_votes refl refl

abbrev message : ApplyMsg ℕ
message = record { command_valid = true; command = some 7; command_index = 1 }

abbrev or_none : Option Applied → Applied
or_none none = none_applied 2
or_none (some cfg) = cfg

abbrev first_applied : Applied
unfolding on_apply
first_applied = or_none (on_apply (none_applied 2) 0 message)

abbrev both_applied : Applied
unfolding on_apply
both_applied = or_none (on_apply first_applied 1 message)

both_applied-Applies : Applies 2 both_applied
unfolding on_apply conflicts put_name
both_applied-Applies =
    applies 1 message (omega arith) (applies 0 message (omega arith) no_message refl) refl

applied_agree_example :
    ((w : ℕ) → both_applied.logs 1 1 ≡ some w → 7 ≡ w)
    × ((j : ℕ) → 0 < j → j ≤ 1 → is_some (both_applied.logs 0 j) ≡ true)
unfolding on_apply conflicts put_name
applied_agree_example =
    applied_agree 2 {cfg = both_applied} 0 1 1 7 both_applied-Applies (omega arith) (omega arith)
      refl

n_committed_lem_example :
    (cmd : Option ℕ) × (n_committed both_applied 1
      ≡ some (count is_some (upto (λ a. both_applied.logs a 1) 2), cmd))
    × ((a v : ℕ) → a < 2 → both_applied.logs a 1 ≡ some v → cmd ≡ some v)
n_committed_lem_example = n_committed_lem 2 {cfg = both_applied} 1 both_applied-Applies

-- Two connected servers of term 2, of which server 1 leads.
abbrev led : Config ℕ ℕ
led = record (new_config plain_codec 2 false) {
  rafts = λ i. some (if i == 1 then record lagging { status = leader } else lagging);
  connected = λ i. true;
}

check_one_leader_lem_example :
    (k : ℕ) × (cfg : Config ℕ ℕ) × (get_elem? (two_servers ∷ led ∷ []) k ≡ some cfg)
    × (t : ℕ) × Leads cfg 1 t
    × ((j u : ℕ) → Leads cfg j u → (j ≡ 1) ⊎ (u < t))
unfolding check_one_leader poll_leader find_leaders add_leader last_term put_name make_config
    disconnect_server connect_server start_all connect_all start1 crash1 set_ends make_ends put_end
    make_network set_reliable set_long_delays make_end add_server delete_server connect enable
    str_eq add_service put_service make_raft read_persist read_raft_state save_raft_state decode_all
check_one_leader_lem_example = check_one_leader_lem (two_servers ∷ led ∷ []) 1 refl

check_terms_lem_example :
    (rf : Raft ℕ) × (led.rafts 1 ≡ some rf) × (◌≡◌ {A = Option ℕ} (some 2) (some rf.current_term))
unfolding check_terms terms_loop
check_terms_lem_example = check_terms_lem led {r = some 2} 1 refl (omega arith) refl
