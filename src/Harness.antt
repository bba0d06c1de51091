-- ===== src/Harness.antt =====
-- mit6.824/src/raft/config.go: the harness that runs the peers of a Raft group over a simulated
-- network.
pub mod Links
pub mod Peers
pub mod LinkLaws
pub mod Linked
pub mod Connecting
pub mod Starting
pub mod Enabled
pub mod Recovery
pub mod Apply
pub mod ApplyLaws
pub mod Commits
pub mod Checks
pub mod CheckLaws
pub mod Leading
pub mod Terms
pub mod Tests
