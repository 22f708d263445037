-- ===== src/Runtime/Caliper/Tests.antt =====
-- Regions of a small program, from Caliper's first state on.
use caliper_msg_pattern.Prelude.{
  ℕ, ◌+◌, ◌*◌, ◌^◌, ◌≡◌, refl, arith, true, false, some, [], ◌∷◌, ltb,
}
use caliper_msg_pattern.Prelude.Int.{pos}
use caliper_msg_pattern.Common.Variant.Types.{Memory, CaliVariant, make_empty_variant}
use caliper_msg_pattern.Common.Variant.Convert.{DoubleOps}
use caliper_msg_pattern.Common.Entry.{
  Attribute, no_entry, properties, prop_attr_id, entry_attribute,
}
use caliper_msg_pattern.Runtime.Blackboard.{empty_blackboard}
use caliper_msg_pattern.Runtime.Blackboard.Table.{empty-IsValid, get_empty}
use caliper_msg_pattern.Runtime.MemoryPool.{new_pool}
use caliper_msg_pattern.Runtime.MetadataTree.{
  TreeConfig, Tree, root_node, create_node, pool_allocate,
}
use caliper_msg_pattern.Runtime.MetadataTree.Invariant.{IsTree}
use caliper_msg_pattern.Runtime.MetadataTree.Bootstrap.{new_tree, new_tree-IsTree}
use caliper_msg_pattern.Runtime.Caliper.{
  Caliper, end, with_error, end_with_value_check, reference_key,
}
use caliper_msg_pattern.Runtime.Caliper.Region.{bottom}
use caliper_msg_pattern.Runtime.Caliper.Begin.{IsRegion}
use caliper_msg_pattern.Runtime.Caliper.Around.{finished, region, run, Restored}
use caliper_msg_pattern.Runtime.Caliper.Balanced.{run-Restored}
use caliper_msg_pattern.Runtime.Caliper.Errors.{Ceased, end_mismatch-Ceased}

abbrev doubles : DoubleOps
doubles = record {
  sub = λ x y. 0;
  plus = λ x y. x;
  mul = λ x y. x;
  div = λ x y. x;
  less = λ x y. ltb x y;
  to_int = λ x. pos 0;
  to_int64 = λ x. pos 0;
  to_uint64 = λ x. 0;
  of_int64 = λ i. 0;
  of_uint64 = λ n. 0;
}

abbrev config : TreeConfig
config = record {
  num_blocks = 16;
  nodes_per_block = 32;
  node_size = 72;
  can_expand = true;
  chunk_address = λ reserved. 2 ^ 20 + reserved;
}

abbrev no_bytes : Memory
no_bytes a = 0

abbrev first_tree : Tree
first_tree = new_tree config (new_pool 4096 (2 ^ 20)) no_bytes (λ i. 64 * i)

first_tree-IsTree : IsTree config first_tree
first_tree-IsTree =
    new_tree-IsTree config (new_pool 4096 (2 ^ 20)) no_bytes (λ i. 64 * i) (omega arith)
      (omega arith)

first_next : first_tree.next_block ≡ 1
unfolding new_tree create_node pool_allocate
first_next = refl

-- Two attributes with thread scope, of which the first is nested.
abbrev attribute_with : ℕ → ℕ → Attribute
attribute_with id prop =
    record { id = id; attribute = 8; content = make_empty_variant }
    ∷ record {
      id = id + 100;
      attribute = prop_attr_id;
      content = record { type_and_size = 2; v_uint = prop };
    }
    ∷ []

abbrev function : Attribute
function = attribute_with 20 276

abbrev loop : Attribute
loop = attribute_with 21 20

function-IsRegion : IsRegion config doubles refl function
unfolding properties
function-IsRegion = record { by_ref = refl; thread = refl; other = omega arith }

loop-IsRegion : IsRegion config doubles refl loop
unfolding properties
loop-IsRegion = record { by_ref = refl; thread = refl; other = omega arith }

abbrev start : Caliper
start = record {
  thread_blackboard = empty_blackboard;
  process_blackboard = empty_blackboard;
  tree = first_tree;
  stack_error = false;
  active = 0 ∷ [];
  allow_region_overlap = false;
  events = [];
}

abbrev seven : CaliVariant
seven = record { type_and_size = 2; v_uint = 7 }

-- A loop in a function.
run-Restored_example :
    (s' : Caliper) × (run config doubles
        (region function seven (region loop seven finished finished) finished)
        start
      ≡ some s')
    × Restored config doubles refl 1 start s'
unfolding properties reference_key
run-Restored_example =
    run-Restored config doubles refl 1 function seven (region loop seven finished finished) start
      no_entry root_node [] (function-IsRegion, refl, (loop-IsRegion, refl, tt, tt), tt) refl
      empty-IsValid (omega arith) first_tree-IsTree (get_empty 1 (omega arith)) bottom
      (omega (arith, first_next))

-- The function ends, though it has not begun.
end_mismatch-Ceased_example :
    (end config doubles start function ≡ some (with_error config doubles start))
    × ((v : CaliVariant)
        → end_with_value_check config doubles start function v
          ≡ some (with_error config doubles start))
    × Ceased config doubles (with_error config doubles start)
unfolding properties entry_attribute
end_mismatch-Ceased_example =
    end_mismatch-Ceased config doubles start function empty_blackboard no_entry refl refl refl refl
      refl (get_empty 1 (omega arith)) (omega arith)
