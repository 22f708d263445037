-- ===== src/Runtime.antt =====
-- The runtime: src/caliper.
pub mod Blackboard
pub mod MemoryPool
pub mod MetadataTree
pub mod Caliper
