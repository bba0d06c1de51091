-- ===== src/Raft/Cluster.antt =====
-- mit6.824/src/raft/raft.go: peers that ask each other for votes. Requests and replies of
-- `RequestVote` are calls between the nodes; all else that reaches a node is left open.
pub mod Rounds
pub mod Counting
pub mod Ballots
pub mod Safety
pub mod Voting
pub mod Tally
pub mod Elections
use distribute_system_lab.Prelude.{
  ℕ, ◌≡◌, ◌<◌, Bool, true, false, ◌&&◌, not, List, [], ◌∷◌, Option, none, some, ◌>>=◌, ◌==◌,
  if◌then◌else◌,
}
use distribute_system_lab.Raft.Persister.{Persister}
use distribute_system_lab.Raft.State.{Raft, Codec}
use distribute_system_lab.Raft.Vote.{RequestVoteArgs, RequestVoteReply, request_vote}
use distribute_system_lab.Raft.Leader.{IntSort}
use distribute_system_lab.Raft.Node.{
  Routine, following, campaigning, elected, beating, leading, terminated, Node, Event, vote_rpc,
  append_rpc, start_call, kill_call, apply_sent, timer_reset, election_timeout, vote_timeout,
  vote_reply, take_lead, follow_token, terminate_token, heartbeat, heartbeat_timeout, entries_reply,
  restart, step, boot,
}

-- The call by which a candidate asks a voter in a round: not made, on its way to the voter,
-- handled with a reply on its way back, or received by the candidate. A lost message is one that
-- stays on its way.
pub data Call : Type 0 where
  idle : Call
  asked : RequestVoteArgs → Call
  replied : RequestVoteReply → Call
  received : RequestVoteReply → Call

-- `calls v c t` is the call to voter `v` of candidate `c` in its round of term `t`; `won` has the
-- candidate and the term of each round in which `grantN > len(rf.peers)/2` has held.
pub record Cluster (A : Type 0) : Type 0 where
  pub nodes : ℕ → Node A
  pub calls : ℕ → ℕ → ℕ → Call
  pub won : List (ℕ × ℕ)

unfoldable pub put_node : {A : Type 0} → (ℕ → Node A) → ℕ → Node A → ℕ → Node A
put_node nodes i n k = if i == k then n else nodes k

unfoldable pub put_call : (ℕ → ℕ → ℕ → Call) → ℕ → ℕ → ℕ → Call → ℕ → ℕ → ℕ → Call
put_call calls v c t x v' c' t' = if v == v' && (c == c' && t == t') then x else calls v' c' t'

-- The loop of `candidateRoutine` that calls all peers but the candidate itself.
unfoldable pub ask_all : (ℕ → ℕ → ℕ → Call) → RequestVoteArgs → ℕ → ℕ → ℕ → Call
ask_all calls args v c t =
    if c == args.candidate_id && (t == args.term && not (v == c)) then asked args else calls v c t

-- The round in which a routine waits for votes.
abbrev pub round_of : {A : Type 0} → Routine A → Option RequestVoteArgs
round_of following = none
round_of (campaigning args n) = some args
round_of elected = none
round_of beating = none
round_of (leading sent) = none
round_of terminated = none

abbrev pub is_round : Option RequestVoteArgs → ℕ → Bool
is_round none t = false
is_round (some args) t = args.term == t

-- A step after which a routine waits in a round of another term has begun that round.
unfoldable pub calls_after :
    (ℕ → ℕ → ℕ → Call) → Option RequestVoteArgs → Option RequestVoteArgs → ℕ → ℕ → ℕ → Call
calls_after calls before none = calls
calls_after calls before (some args) =
    if is_round before args.term then calls else ask_all calls args

-- Events that reach a node from outside the calls of the cluster.
abbrev pub IsLocal : {A : Type 0} → Event A → Type 0
IsLocal (vote_rpc args) = ⊥
IsLocal (vote_reply reply) = ⊥
IsLocal (append_rpc args) = Unit {0}
IsLocal (start_call c) = Unit {0}
IsLocal kill_call = Unit {0}
IsLocal (apply_sent i) = Unit {0}
IsLocal timer_reset = Unit {0}
IsLocal election_timeout = Unit {0}
IsLocal vote_timeout = Unit {0}
IsLocal take_lead = Unit {0}
IsLocal follow_token = Unit {0}
IsLocal terminate_token = Unit {0}
IsLocal heartbeat = Unit {0}
IsLocal heartbeat_timeout = Unit {0}
IsLocal (entries_reply i reply) = Unit {0}
IsLocal restart = Unit {0}

abbrev pub wins : {A : Type 0} → Routine A → Bool
wins following = false
wins (campaigning args n) = false
wins elected = true
wins beating = false
wins (leading sent) = false
wins terminated = false

module _ {A : Type 0} (g : Codec A) (s : IntSort) where
  -- The voter handles a request; the reply is on its way.
  unfoldable pub handle : Cluster A → ℕ → ℕ → ℕ → Call → Option (Cluster A)
  unfolding put_node put_call
  handle cl v c t (asked args) = do
    (rf, reply) ← request_vote g (cl.nodes v).rf args
    some (record cl {
      nodes = put_node cl.nodes v (record (cl.nodes v) { rf = rf });
      calls = put_call cl.calls v c t (replied reply);
    })
  handle cl v c t call = none

  -- The candidate receives the reply, while it waits in that round.
  unfoldable pub receive : Cluster A → ℕ → ℕ → ℕ → Call → Option (Cluster A)
  unfolding put_node put_call
  receive cl v c t (replied reply) = do
    m ← step g s (cl.nodes c) (vote_reply reply)
    let next = some (record {
      nodes = put_node cl.nodes c m;
      calls = put_call cl.calls v c t (received reply);
      won = if wins m.routine then (c, t) ∷ cl.won else cl.won;
    })
    if is_round (round_of (cl.nodes c).routine) t then next else none
  receive cl v c t call = none

  -- A node's own step.
  unfoldable pub act : Cluster A → ℕ → Event A → Option (Cluster A)
  unfolding put_node calls_after ask_all
  act cl i e = do
    m ← step g s (cl.nodes i) e
    some (record cl {
      nodes = put_node cl.nodes i m;
      calls = calls_after cl.calls (round_of (cl.nodes i).routine) (round_of m.routine);
    })

  -- What a cluster of `n` peers can come to.
  pub data Runs (n : ℕ) (start : Cluster A) : Cluster A → Type 0 where
    begins : Runs n start start
    acts :
        {cl cl' : Cluster A} (i : ℕ) (e : Event A)
        → i < n
        → IsLocal e
        → Runs n start cl
        → act cl i e ≡ some cl'
        → Runs n start cl'
    handles :
        {cl cl' : Cluster A} (v c t : ℕ)
        → v < n
        → c < n
        → Runs n start cl
        → handle cl v c t (cl.calls v c t) ≡ some cl'
        → Runs n start cl'
    receives :
        {cl cl' : Cluster A} (v c t : ℕ)
        → v < n
        → c < n
        → Runs n start cl
        → receive cl v c t (cl.calls v c t) ≡ some cl'
        → Runs n start cl'

  -- All peers, just made over their disks.
  unfoldable pub start_cluster : ℕ → (ℕ → Persister) → Cluster A
  start_cluster n disks = record {
    nodes = λ i. boot g n i (disks i);
    calls = λ v c t. idle;
    won = [];
  }
