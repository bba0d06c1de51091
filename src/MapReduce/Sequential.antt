-- ===== src/MapReduce/Sequential.antt =====
-- mit6.824/src/mapreduce/master.go, `Sequential`: a whole job against what a job is for.
pub mod MapPhase
pub mod ReducePhase
pub mod Outcome
