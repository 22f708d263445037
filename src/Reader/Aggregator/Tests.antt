-- ===== src/Reader/Aggregator/Tests.antt =====
-- The nodes of a key from a record with a nested attribute.
use caliper_msg_pattern.Prelude.{
  ℕ, ◌≡◌, refl, true, not, List, [], ◌∷◌, ◌++◌, All, ltb, ◌==◌, if◌then◌else◌,
}
use caliper_msg_pattern.Prelude.Int.{pos}
use caliper_msg_pattern.Common.Variant.Types.{make_empty_variant, Memory}
use caliper_msg_pattern.Common.Variant.Convert.{DoubleOps}
use caliper_msg_pattern.Common.Entry.{NodePtr, Attribute, Entry, prop_attr_id, properties}
use caliper_msg_pattern.Reader.Aggregator.Entries.{new_table}
use caliper_msg_pattern.Reader.Aggregator.Lookup.{
  EntryFound, new_table-IsKeyTable, get_aggregation_entry-EntryFound,
}
use caliper_msg_pattern.Reader.Metadata.{MetadataAccess}
use caliper_msg_pattern.Reader.Aggregator.{keep, nested_node, arrange_nodes, update_key_attributes}
use caliper_msg_pattern.Reader.Aggregator.Arrange.{
  with_attribute, IsOrdered, arrange_nodes-IsOrdered,
}

abbrev doubles : DoubleOps
doubles = record {
  sub = λ x y. 0;
  plus = λ x y. x;
  mul = λ x y. x;
  div = λ x y. x;
  less = λ x y. ltb x y;
  to_int = λ x. pos 0;
  to_int64 = λ x. pos 0;
  to_uint64 = λ x. 0;
  of_int64 = λ i. 0;
  of_uint64 = λ n. 0;
}

-- Attribute 20 is nested, the others are not.
abbrev nested_attribute_node : Attribute
nested_attribute_node =
    record { id = 20; attribute = 8; content = make_empty_variant }
    ∷ record {
      id = 19;
      attribute = prop_attr_id;
      content = record { type_and_size = 2; v_uint = 256 };
    }
    ∷ []

abbrev plain_attribute : Attribute
plain_attribute = record { id = 21; attribute = 8; content = make_empty_variant } ∷ []

abbrev database : MetadataAccess (Unit {0})
database = record {
  get_attribute = λ s name. [];
  attribute_by_id = λ s id. if id == 20 then nested_attribute_node else plain_attribute;
  create_attribute = λ s name type prop. (plain_attribute, s);
}

abbrev node_of : ℕ → ℕ → NodePtr
node_of id attr = record { id = id; attribute = attr; content = make_empty_variant } ∷ []

abbrev path : List NodePtr
path = node_of 33 22 ∷ node_of 32 20 ∷ node_of 31 21 ∷ node_of 30 20 ∷ []

arranged_path :
    arrange_nodes database tt doubles path
    ≡ node_of 32 20 ∷ node_of 30 20 ∷ node_of 31 21 ∷ node_of 33 22 ∷ []
unfolding arrange_nodes properties
arranged_path = refl

-- A name that the database does not know stays for the next record.
unknown_names : update_key_attributes database tt ("function" ∷ []) [] ≡ ("function" ∷ [], [])
unfolding update_key_attributes
unknown_names = refl

arrange_nodes-IsOrdered_example :
    (others : List NodePtr) × (arrange_nodes database tt doubles path
      ≡ keep (nested_node database tt doubles) path ++ others)
    × IsOrdered others
    × All (λ n. not (nested_node database tt doubles n) ≡ true) others
    × (with_attribute 20 (arrange_nodes database tt doubles path) ≡ with_attribute 20 path)
arrange_nodes-IsOrdered_example = arrange_nodes-IsOrdered database tt doubles path 20

-- A tree of one node, and its key.
abbrev one_node : ℕ → NodePtr
one_node id = node_of 30 20

abbrev bytes : Memory
bytes = λ a. 0

abbrev region_nodes : List Entry
region_nodes = record { node = node_of 30 20; value = make_empty_variant } ∷ []

get_aggregation_entry-EntryFound_example :
    EntryFound doubles bytes one_node
      (new_table {K = ℕ})
      (new_table-IsKeyTable doubles bytes one_node)
      region_nodes
      (5 ∷ [])
      (refl, tt)
get_aggregation_entry-EntryFound_example =
    get_aggregation_entry-EntryFound doubles bytes one_node (new_table {K = ℕ})
      (new_table-IsKeyTable doubles bytes one_node) region_nodes (5 ∷ []) (refl, tt)
