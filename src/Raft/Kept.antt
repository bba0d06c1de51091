-- ===== src/Raft/Kept.antt =====
-- What no step of a peer undoes (mit6.824/src/raft/raft.go): its term, and the vote in it.
pub mod Core
pub mod Vote
pub mod Append
pub mod Leader
pub mod Routines
pub mod Steps
