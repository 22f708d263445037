-- ===== src/Reader.antt =====
-- The query engine: src/reader.
pub mod Metadata
pub mod Kernels
pub mod RecordSelector
pub mod Aggregator
pub mod MetadataDb
