-- ===== src/Runtime/MetadataTree/Tests.antt =====
-- The context tree of a small program.
use caliper_msg_pattern.Prelude.{◌+◌, ◌≡◌, refl, arith, true, some, [], ◌∷◌, ◌^◌, ◌*◌}
use caliper_msg_pattern.Common.Variant.Types.{Memory, CaliVariant}
use caliper_msg_pattern.Common.Entry.{NodeData, NodePtr}
use caliper_msg_pattern.Runtime.MemoryPool.{new_pool}
use caliper_msg_pattern.Runtime.MetadataTree.{
  TreeConfig, Tree, root_node, root, get_child, create_node, pool_allocate, remove_first_in_path,
}
use caliper_msg_pattern.Runtime.MetadataTree.Invariant.{IsTree}
use caliper_msg_pattern.Runtime.MetadataTree.Child.{Got, get_child-Got}
use caliper_msg_pattern.Runtime.MetadataTree.Path.{Copies, remove_first_in_path-Copies}
use caliper_msg_pattern.Runtime.MetadataTree.Bootstrap.{new_tree, new_tree-IsTree}

abbrev config : TreeConfig
config = record {
  num_blocks = 4;
  nodes_per_block = 16;
  node_size = 72;
  can_expand = true;
  chunk_address = λ reserved. 2 ^ 20 + reserved;
}

abbrev bytes : Memory
bytes a = 0

abbrev start : Tree
start = new_tree config (new_pool 4096 (2 ^ 20)) bytes (λ i. 64 * i)

start-IsTree : IsTree config start
start-IsTree =
    new_tree-IsTree config (new_pool 4096 (2 ^ 20)) bytes (λ i. 64 * i) (omega arith) (omega arith)

start_next : start.next_block ≡ 1
unfolding new_tree create_node pool_allocate
start_next = refl

abbrev seven : CaliVariant
seven = record { type_and_size = 2; v_uint = 7 }

get_child-Got_example :
    (r : NodePtr × Tree) × (get_child config start 20 seven [] ≡ some r)
    × Got config start 20 seven root r
get_child-Got_example = get_child-Got config start 20 seven [] refl start-IsTree

abbrev inner : NodeData
inner = record { id = 13; attribute = 21; content = seven }

abbrev outer : NodeData
outer = record { id = 12; attribute = 20; content = seven }

remove_first_in_path-Copies_example :
    Copies config start
      (inner ∷ [])
      root
      (remove_first_in_path config start (inner ∷ outer ∷ root) 20)
remove_first_in_path-Copies_example =
    remove_first_in_path-Copies config 20 refl root_node [] start (inner ∷ []) outer start-IsTree
      (refl, tt) refl (omega (arith, start_next))
