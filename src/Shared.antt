-- ===== src/Shared.antt =====
-- src/shared/: items behind read-write locks, and the sharded map and set that hold them.
pub mod Item
pub mod Key
pub mod Table
pub mod Shards
pub mod Map
pub mod Set
