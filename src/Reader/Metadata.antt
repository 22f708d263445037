-- ===== src/Reader/Metadata.antt =====
-- include/caliper/common/CaliperMetadataAccessInterface.h: what the reader asks of the metadata
-- database, over a state of the database's own.
use caliper_msg_pattern.Prelude.{ℕ, Bool, List, [], ◌∷◌, if◌then◌else◌}
use caliper_msg_pattern.Common.Variant.Types.{AttrType}
use caliper_msg_pattern.Common.Entry.{Attribute, Entry}
use Prim.Native.String.{String}

pub record MetadataAccess (S : Type 0) : Type 0 where
  pub get_attribute : S → String → Attribute
  pub attribute_by_id : S → ℕ → Attribute
  pub create_attribute : S → String → AttrType → ℕ → Attribute × S

-- `CALI_ATTR_ASVALUE`, `CALI_ATTR_SKIP_EVENTS`, `CALI_ATTR_HIDDEN`
abbrev pub attr_asvalue : ℕ
attr_asvalue = 1

abbrev pub attr_skip_events : ℕ
attr_skip_events = 64

abbrev pub attr_hidden : ℕ
attr_hidden = 128

-- A loop over a record that leaves at the first entry with the property.
unfoldable pub find_entry : (Entry → Bool) → List Entry → List Entry
find_entry p [] = []
find_entry p (e ∷ es) = if p e then e ∷ es else find_entry p es
