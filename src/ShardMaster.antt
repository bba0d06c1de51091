-- ===== src/ShardMaster.antt =====
-- mit6.824/src/shardmaster: the clients of the shard master.
pub mod Clerk
pub mod ClerkLaws
pub mod Tests
