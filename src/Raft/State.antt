-- ===== src/Raft/State.antt =====
-- mit6.824/src/raft/raft.go: the state of a peer, and what it keeps on stable storage.
-- Terms and indices are unbounded numbers; -1 for "nobody" is `none`. A channel of capacity 1
-- that carries no value is a Bool: does a token wait in it?
use distribute_system_lab.Prelude.{
  ℕ, ◌≡◌, ◌<◌, Bool, true, false, List, [], ◌∷◌, ◌++◌, Option, none, some, ◌>>=◌, length, replicate,
  ◌==◌, if◌then◌else◌,
}
use distribute_system_lab.Raft.Persister.{Persister, save_raft_state, read_raft_state}

-- A command is an `interface{}`: `none` is nil, which the dummy entry at index 0 holds.
pub record ApplyMsg (A : Type 0) : Type 0 where
  pub command_valid : Bool
  pub command : Option A
  pub command_index : ℕ

pub record LogEntry (A : Type 0) : Type 0 where
  pub content : Option A
  pub term_idx : ℕ

-- 0, 1 and 2 in the source.
pub data Status : Type 0 where
  leader candidate follower : Status

-- `peers` is the length of the slice of that name. `senders` has a batch for each goroutine that
-- `applyLog` started, oldest first, with the messages that it has still to send on `applyCh`.
pub record Raft (A : Type 0) : Type 0 where
  pub peers : ℕ
  pub persister : Persister
  pub me : ℕ
  pub current_term : ℕ
  pub voted_for : Option ℕ
  pub log : List (LogEntry A)
  pub commit_index : ℕ
  pub last_applied : ℕ
  pub next_index : List ℕ
  pub match_index : List ℕ
  pub status : Status
  pub reset_election_timer : Bool
  pub to_follower : Bool
  pub terminate_ch : Bool
  pub senders : List (List (ApplyMsg A))

-- `rf.status == 0` and `rf.status != 2`.
abbrev pub is_leader : Status → Bool
is_leader leader = true
is_leader candidate = false
is_leader follower = false

abbrev pub is_follower : Status → Bool
is_follower leader = false
is_follower candidate = false
is_follower follower = true

-- `GetState`.
abbrev pub get_state : {A : Type 0} → Raft A → ℕ × Bool
get_state rf = (rf.current_term, is_leader rf.status)

-- labgob over encoding/gob, at the three types that a peer encodes: what one encoder writes, a
-- decoder reads back in the same order.
pub record Codec (A : Type 0) : Type 0 where
  pub encode_term : ℕ → List ℕ
  pub encode_vote : Option ℕ → List ℕ
  pub encode_log : List (LogEntry A) → List ℕ
  pub decode_term : List ℕ → Option (ℕ × List ℕ)
  pub decode_vote : List ℕ → Option (Option ℕ × List ℕ)
  pub decode_log : List ℕ → Option (List (LogEntry A) × List ℕ)
  pub term_lem : (t : ℕ) (rest : List ℕ) → decode_term (encode_term t ++ rest) ≡ some (t, rest)
  pub vote_lem :
      (v : Option ℕ) (rest : List ℕ) → decode_vote (encode_vote v ++ rest) ≡ some (v, rest)
  pub log_lem :
      (l : List (LogEntry A)) (rest : List ℕ) → decode_log (encode_log l ++ rest) ≡ some (l, rest)
  pub term_length : (t : ℕ) → 0 < length (encode_term t)

-- The fields that `Make` sets before it reads the disk.
abbrev pub fresh : {A : Type 0} → ℕ → ℕ → Persister → Raft A
fresh n i ps = record {
  peers = n;
  persister = ps;
  me = i;
  current_term = 0;
  voted_for = none;
  log = record { content = none; term_idx = 0 } ∷ [];
  commit_index = 0;
  last_applied = 0;
  next_index = replicate n 0;
  match_index = replicate n 0;
  status = follower;
  reset_election_timer = false;
  to_follower = false;
  terminate_ch = false;
  senders = [];
}

module _ {A : Type 0} (g : Codec A) where
  unfoldable pub encoded : ℕ → Option ℕ → List (LogEntry A) → List ℕ
  encoded t v l = g.encode_term t ++ (g.encode_vote v ++ (g.encode_log l ++ []))

  -- `persist`.
  unfoldable pub persist : Raft A → Raft A
  persist rf = record rf {
    persister = save_raft_state rf.persister (encoded rf.current_term rf.voted_for rf.log);
  }

  unfoldable pub decode_all : List ℕ → Option (ℕ × Option ℕ × List (LogEntry A))
  decode_all bytes = do
    (t, r) ← g.decode_term bytes
    (v, r') ← g.decode_vote r
    (l, r'') ← g.decode_log r'
    some (t, v, l)

  -- `readPersist`: empty or undecodable data leaves the peer as it is.
  unfoldable pub read_persist : Raft A → List ℕ → Raft A
  read_persist rf bytes = if length bytes == 0 then rf else elim (decode_all bytes) [
    | none ↦ rf
    | some (t, v, l) ↦ record rf { current_term = t; voted_for = v; log = l }
  ]

  -- `Make`, without the goroutine that it starts.
  unfoldable pub make_raft : ℕ → ℕ → Persister → Raft A
  make_raft n i ps = read_persist (fresh n i ps) (read_raft_state ps)
