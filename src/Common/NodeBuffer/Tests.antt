-- ===== src/Common/NodeBuffer/Tests.antt =====
-- A node buffer with two nodes.
use caliper_msg_pattern.Prelude.{◌≡◌, refl, arith, some, [], ◌∷◌, length}
use caliper_msg_pattern.Common.Variant.Types.{type_int, type_string}
use caliper_msg_pattern.Common.Entry.{inv_id}
use caliper_msg_pattern.Common.NodeBuffer.{
  NodeInfo, NodeBuffer, new_node_buffer, for_each_node, has_data,
}
use caliper_msg_pattern.Common.NodeBuffer.RoundTrip.{IsPackable}
use caliper_msg_pattern.Common.NodeBuffer.Visit.{append_nodes_of, for_each_node-append}

abbrev root_node : NodeInfo
root_node = record {
  node_id = 11;
  attr_id = 8;
  parent_id = inv_id;
  value = record { type = type_string; content = 102 ∷ 111 ∷ 111 ∷ [] };
}

abbrev child_node : NodeInfo
child_node = record {
  node_id = 300;
  attr_id = 11;
  parent_id = 11;
  value = record { type = type_int; content = 7 ∷ 0 ∷ 0 ∷ 0 ∷ 0 ∷ 0 ∷ 0 ∷ 0 ∷ [] };
}

root_node-IsPackable : IsPackable root_node
unfolding has_data
root_node-IsPackable = record {
  id_fits = omega arith;
  attr_fits = omega arith;
  parent_fits = omega arith;
  own_data = refl;
}

child_node-IsPackable : IsPackable child_node
unfolding has_data
child_node-IsPackable = record {
  id_fits = omega arith;
  attr_fits = omega arith;
  parent_fits = omega arith;
  own_data = refl;
}

for_each_node-append_example :
    (after : NodeBuffer) × (append_nodes_of new_node_buffer (root_node ∷ child_node ∷ [])
      ≡ some after)
    × (after.count ≡ length (root_node ∷ child_node ∷ []))
    × (for_each_node after ≡ some (root_node ∷ child_node ∷ []))
for_each_node-append_example =
    for_each_node-append (root_node ∷ child_node ∷ [])
      (root_node-IsPackable, (child_node-IsPackable, tt))
