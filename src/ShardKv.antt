-- ===== src/ShardKv.antt =====
-- mit6.824/src/shardkv: the clerk of the sharded key/value service.
pub mod Clerk
pub mod ClerkLaws
pub mod Tests
