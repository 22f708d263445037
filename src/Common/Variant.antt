-- ===== src/Common/Variant.antt =====
-- src/common/cali_variant.c, include/caliper/common/cali_variant.h: the variant struct.
-- The union is its 64-bit pattern, `v_uint`, read on a little-endian machine: `v_int` is its two's
-- complement reading, `v_bool` its low byte, `v_type` its low four bytes, a pointer the address.
-- Memory behind a pointer is a function from addresses to bytes.
pub mod Types
pub mod Convert
pub mod Compare
pub mod Add
pub mod Pack
pub mod Conversions
pub mod Ordering
pub mod RoundTrip
pub mod Text
