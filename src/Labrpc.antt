-- ===== src/Labrpc.antt =====
-- mit6.824/src/labrpc/labrpc.go: the simulated network that carries the RPCs.
pub mod Network
pub mod Server
pub mod Process
pub mod Laws
pub mod Silence
pub mod Once
pub mod Tests
