-- ===== src/Util.antt =====
-- Caliper's utility code: src/common/util.
pub mod Vlenc
pub mod LockfreeTree
