-- ===== src/Raft.antt =====
-- mit6.824/src/raft: one Raft peer.
pub mod Persister
pub mod State
pub mod Apply
pub mod Vote
pub mod Append
pub mod Candidate
pub mod Leader
pub mod Node
pub mod Disk
pub mod Kept
pub mod VoteOnce
pub mod VoteLaws
pub mod ApplyLaws
pub mod AppendLaws
pub mod AppendOutcome
pub mod AppendSpec
pub mod Quorum
pub mod Restart
pub mod StaleVotes
pub mod Cluster
pub mod Samples
pub mod Tests
