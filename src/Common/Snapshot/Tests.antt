-- ===== src/Common/Snapshot/Tests.antt =====
-- A builder with room for one of two entries.
use caliper_msg_pattern.Prelude.{[], ◌∷◌}
use caliper_msg_pattern.Common.Variant.Types.{make_empty_variant}
use caliper_msg_pattern.Common.Entry.{Entry}

abbrev entry : Entry
entry = record {
  node = record { id = 7; attribute = 3; content = make_empty_variant } ∷ [];
  value = make_empty_variant;
}
