-- ===== src/Lib.antt =====
-- Raft and its test harness, MapReduce, a simulated network, and the clerks of the shard master and
-- the sharded key/value service, from the distributed-systems labs in Go (mit6.824/src).
--
-- A Raft peer (raft/) keeps a log of commands in agreement with its peers; it talks to them by
-- RPC and saves its term, vote and log through a persister. The MapReduce package schedules the
-- tasks of a job on workers, which read and write files of key/value pairs. The network labrpc carries
-- the RPCs of the tests, and a clerk asks the servers of the shard master, or of the group
-- that has a key's shard, in turn. The harness starts and crashes peers, and sets which of them the
-- network lets reach each other.
--
-- Prelude         strings, lists and Boolean tests that the parts share.
-- Raft            raft/raft.go, raft/persister.go, raft/util.go.
--   Persister     the saved bytes; the mutex of the source is the atomicity of an operation.
--   State         `Raft`, `ApplyMsg`, `LogEntry`, `persist`, `readPersist`, `Make`.
--   Vote          `RequestVote`, `updateTerm`, `logNewer`.
--   Append        `AppendEntries`, in the pieces of its branches.
--   Candidate     the sections of `candidateRoutine` that hold the lock.
--   Leader        `Start`, `Kill` and the sections of `leaderRoutine` that hold the lock.
--   Apply         `applyLog`; the goroutines that it starts are batches of messages to send.
--   Node          one peer as a step function on events: a call of a handler, a reply, a timeout, a
--                 read of a channel, or a crash and restart. A step is what the source does between
--                 taking and releasing the lock, so the orders of steps are the interleavings.
--   Cluster       peers that ask each other for votes: requests and replies of `RequestVote` are calls
--                 between nodes, and the rounds that `candidateRoutine` wins are recorded.
--   Disk, Kept    what the disk and the state have to do with each other at every step.
-- MapReduce       mapreduce/.
--   Names         common.go: pairs, phases and the names of files.
--   Files         files as a list of names and contents, what the disk allows (`Os`), and JSON
--                 streams in them.
--   Map, Reduce   `doMap` of common_map.go and `doReduce` of common_reduce.go.
--   Schedule      `schedule` of schedule.go as a step function on what its `select` receives.
--   Merge, Master `merge` and `CleanupFiles` of master_splitmerge.go, and master.go.
--   Sequential    what `Sequential` of master.go comes to, phase by phase, up to the result file.
--   Worker        worker.go: a task in its sections under the lock, and the accept loop.
-- Labrpc          labrpc/labrpc.go: the tables of the network, servers and services, and the way of one
--                 request through `ProcessReq` among any operations on the network.
-- Harness         raft/config.go.
--   Links         `config`: which servers are on the net; `connect` and `disconnect`.
--   Peers         `crash1`, `start1` and `make_config`.
--   Apply         the goroutines that read what peers apply, and `nCommitted`.
--   Checks        `checkOneLeader`, `checkTerms`, `checkNoLeader`.
-- ShardMaster     shardmaster/client.go: the operations of a clerk, over the replies that its calls
--                 bring.
-- ShardKv         shardkv/client.go: `key2shard`, and `Get` and `PutAppend` of a clerk, likewise.
--
-- Numbers are unbounded where the source has `int`; -1 is `none`. `none` as the result of an
-- operation is a panic, the end of the program by log.Fatal, or an event that cannot happen in the
-- state. `interface{}` commands are a type parameter. Parameters with laws stand for the Go library
-- and for encodings: gob (`Codec`), encoding/json (`Json`, which gives back what is valid UTF-8),
-- creating and writing files (`Os`), strconv.Itoa (`Itoa`), sort (`IntSort`, `KeySort`, `StrSort`),
-- hash/fnv. The loops on fuel are the decoder's, which takes as much as the file has bytes, and each
-- round reads at least one, and that of `applyLog`, which takes as much as the commit index is ahead.
-- The names of workers are taken to be not empty: `schedule` waits again after an empty name.
--
-- Files are found by their name alone, a file that is there can be opened and read to its end, and
-- what is written to a file is there in full or not at all, as `Os` says.
--
-- Not modelled: the lengths of timeouts, debug output, how RPC calls reach a Raft peer or a worker
-- (requests and replies are events that come in any order, or never; a cluster has the calls of
-- `RequestVote`, each of which is handled once at most), the linearizability checker, which is a copy
-- of another project's, the labs in C and C++ beside the Go code, the test harnesses other than
-- Raft's and what Raft's does with time, and the lab skeletons whose handlers are empty. Slices that
-- share memory with the log of a leader while a request is encoded are taken to be copied when the
-- request is made.
pub mod Harness
pub mod Labrpc
pub mod MapReduce
pub mod Prelude
pub mod Raft
pub mod ShardKv
pub mod ShardMaster
