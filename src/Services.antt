-- ===== src/Services.antt =====
-- The measurement services: src/services.
pub mod Aggregation
pub mod SplayTree
