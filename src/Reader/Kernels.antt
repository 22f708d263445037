-- ===== src/Reader/Kernels.antt =====
-- src/reader/Aggregator.cpp: the aggregation kernels. A kernel's operation takes the kernel's
-- fields, its `Config`, the state of the metadata database and a record, and returns the new ones.
-- The code locks a mutex around each operation; here operations follow one another.
pub mod Count
pub mod Sum
pub mod Extremum
pub mod Ratio
pub mod Percent
pub mod Average
pub mod Any
pub mod Variance
pub mod CountLaws
pub mod SumLaws
pub mod ExtremumLaws
mod Tests
