-- ===== src/Common/Variant/Pack.antt =====
-- `cali_variant_pack` and `cali_variant_unpack`. A buffer is as in Util/Vlenc.
use caliper_msg_pattern.Prelude.{
  ℕ, ◌+◌, Bool, true, false, Option, some, List, ◌++◌, if◌then◌else◌, ltb, ◌>>=◌,
}
use caliper_msg_pattern.Util.Vlenc.{vlenc_u64, vldec_u64}
use caliper_msg_pattern.Common.Variant.Types.{
  CaliVariant, make_empty_variant, extract_type, max_type,
}

-- The number of bytes and the bytes.
unfoldable pub variant_pack : CaliVariant → ℕ × List ℕ
variant_pack v =
    let (n, bytes) = vlenc_u64 v.type_and_size in
    let (k, more) = vlenc_u64 v.v_uint in (n + k, bytes ++ more)

-- The variant read from `buf + pos`, the position behind it and `*okptr`. On an unknown type the
-- position stays where it was.
unfoldable pub variant_unpack : List ℕ → ℕ → Option (CaliVariant × ℕ × Bool)
variant_unpack buf pos = do
  (ts, p) ← vldec_u64 buf pos
  if ltb max_type (extract_type ts) then some (make_empty_variant, pos, false) else do
    (value, q) ← vldec_u64 buf p
    some (record { type_and_size = ts; v_uint = value }, q, true)
