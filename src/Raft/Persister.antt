-- ===== src/Raft/Persister.antt =====
-- mit6.824/src/raft/persister.go: stable storage. A byte is a number, and nil is the empty list.
-- Each method takes and releases the lock, so it is one atomic step.
use distribute_system_lab.Prelude.{ℕ, List, [], length}

pub record Persister : Type 0 where
  pub raftstate : List ℕ
  pub snapshot : List ℕ

abbrev pub make_persister : Persister
make_persister = record { raftstate = []; snapshot = [] }

-- `Copy` shares the bytes; no code writes into them, so sharing does not show.
abbrev pub copy : Persister → Persister
copy ps = record make_persister { raftstate = ps.raftstate; snapshot = ps.snapshot }

unfoldable pub save_raft_state : Persister → List ℕ → Persister
save_raft_state ps state = record ps { raftstate = state }

unfoldable pub read_raft_state : Persister → List ℕ
read_raft_state ps = ps.raftstate

abbrev pub raft_state_size : Persister → ℕ
raft_state_size ps = length ps.raftstate

abbrev pub save_state_and_snapshot : Persister → List ℕ → List ℕ → Persister
save_state_and_snapshot ps state snap = record ps { raftstate = state; snapshot = snap }

abbrev pub read_snapshot : Persister → List ℕ
read_snapshot ps = ps.snapshot

abbrev pub snapshot_size : Persister → ℕ
snapshot_size ps = length ps.snapshot
