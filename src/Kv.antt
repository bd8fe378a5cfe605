-- ===== src/Kv.antt =====
-- The storage node under kvstore/: its cache, its disk, its commands and its replication.
pub mod Outcome
pub mod Nodes
pub mod Store
pub mod Disk
pub mod Cache
pub mod Ops
pub mod Commands
pub mod Worker
pub mod Meta
