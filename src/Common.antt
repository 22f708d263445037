-- ===== src/Common.antt =====
-- Caliper's data model: src/common and include/caliper/common.
pub mod Snapshot
pub mod NodeBuffer
pub mod Variant
pub mod Entry
pub mod Compressed
mod Tests
