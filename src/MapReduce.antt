-- ===== src/MapReduce.antt =====
-- mit6.824/src/mapreduce: the phases of a job, its files, its schedule and its workers.
pub mod Names
pub mod Files
pub mod Map
pub mod MapLaws
pub mod Reduce
pub mod ReduceLaws
pub mod ReduceSpec
pub mod Schedule
pub mod ScheduleInv
pub mod ScheduleDone
pub mod Merge
pub mod MergeLaws
pub mod ScheduleEnds
pub mod ScheduleWorkers
pub mod Worker
pub mod WorkerLaws
pub mod WorkerExit
pub mod Master
pub mod MasterLaws
pub mod Sequential
pub mod Samples
pub mod Tests
