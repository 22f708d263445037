-- ===== src/Runtime/MetadataTree/Bootstrap.antt =====
-- The constructors of `MetadataTree::GlobalData` and `MetadataTree`: the first block, with the nodes
-- of the types and of the three attributes that describe attributes.
use caliper_msg_pattern.Prelude.{
  ℕ, ◌+◌, ◌*◌, ◌≤◌, ◌<◌, ◌≡◌, refl, arith, Option, none, some, List, [], ◌∷◌, length,
}
use caliper_msg_pattern.Common.Variant.Types.{
  Memory, AttrType, type_usr, type_int, type_uint, type_string, type_addr, type_double, type_bool,
  type_type, type_ptr, CaliVariant, make_variant, make_variant_from_type,
}
use caliper_msg_pattern.Common.Entry.{NodePtr}
use caliper_msg_pattern.Runtime.MemoryPool.{Pool}
use caliper_msg_pattern.Runtime.MetadataTree.{
  TreeConfig, Tree, root, node, create_node, pool_allocate,
}
use caliper_msg_pattern.Runtime.MetadataTree.Invariant.{IsTree, create_node-Created}

-- `NodeInfo`, without the identifiers, which count from 0.
pub record BootstrapNode : Type 0 where
  pub attr_id : ℕ
  pub content : CaliVariant
  pub parent : Option ℕ

abbrev pub type_node : AttrType → BootstrapNode
type_node type = record { attr_id = 9; content = make_variant_from_type type; parent = none }

abbrev pub attribute_node : Memory → ℕ → ℕ → BootstrapNode
attribute_node m text up = record {
  attr_id = 8;
  content = make_variant m type_string text 19;
  parent = some up;
}

-- `bootstrap_nodes`, with the address of each text.
unfoldable pub bootstrap_nodes : Memory → (ℕ → ℕ) → List BootstrapNode
bootstrap_nodes m text =
    type_node type_usr
    ∷ type_node type_int
    ∷ type_node type_uint
    ∷ type_node type_string
    ∷ type_node type_addr
    ∷ type_node type_double
    ∷ type_node type_bool
    ∷ type_node type_type
    ∷ attribute_node m (text 0) 3
    ∷ attribute_node m (text 1) 7
    ∷ attribute_node m (text 2) 1
    ∷ type_node type_ptr
    ∷ []

module _ (c : TreeConfig) where
  abbrev pub parent_node : Tree → Option ℕ → NodePtr
  parent_node t none = root
  parent_node t (some id) = node c t id

  -- The loop over the bootstrap nodes.
  unfoldable pub add_nodes : Tree → List BootstrapNode → Tree
  add_nodes t [] = t
  add_nodes t (info ∷ rest) =
      add_nodes (create_node c t 0 info.attr_id info.content (parent_node t info.parent)).1 rest

  -- A tree with an empty first block.
  abbrev pub first_block : Pool → Memory → Tree
  first_block pool m = record {
    children = λ _. [];
    next_block = 1;
    index = λ _. 0;
    chunk = λ _ _. [];
    nodeblock = some 0;
    pool = pool;
    memory = m;
    num_nodes = 0;
    num_blocks_used = 1;
  }

  unfoldable pub new_tree : Pool → Memory → (ℕ → ℕ) → Tree
  unfolding add_nodes bootstrap_nodes
  new_tree pool m text =
      let t = (pool_allocate c (first_block pool m) (c.nodes_per_block * c.node_size) 8).1 in
      add_nodes t (bootstrap_nodes m text)

  create_node-next :
      (t : Tree) (b a : ℕ) (v : CaliVariant) (p : NodePtr)
      → ((create_node c t b a v p).1.next_block ≡ t.next_block)
        × ((create_node c t b a v p).1.index b ≡ t.index b + 1)
  unfolding create_node
  create_node-next t b a v p = (refl, ground arith)

  add_nodes-IsTree :
      (t : Tree) (infos : List BootstrapNode)
      → IsTree c t
      → 0 < t.next_block
      → t.index 0 + length infos ≤ c.nodes_per_block
      → IsTree c (add_nodes t infos)
  unfolding add_nodes
  add_nodes-IsTree t [] v first room = v
  add_nodes-IsTree t (info ∷ rest) v first room =
      let p = parent_node t info.parent in
      let (next, index) = create_node-next t 0 info.attr_id info.content p in
      let k =
        create_node-Created c t 0 info.attr_id info.content p v
          (record { taken = first; slot = omega arith }) in
      add_nodes-IsTree (create_node c t 0 info.attr_id info.content p).1 rest k.tree (omega arith)
        (omega arith)

  -- With blocks of at least 12 nodes, the tree that a program starts with is well formed.
  pub new_tree-IsTree :
      (pool : Pool) (m : Memory) (text : ℕ → ℕ)
      → 0 < c.num_blocks
      → 12 ≤ c.nodes_per_block
      → IsTree c (new_tree pool m text)
  unfolding new_tree pool_allocate bootstrap_nodes
  new_tree-IsTree pool m text blocks slots =
      add_nodes-IsTree (pool_allocate c (first_block pool m) (c.nodes_per_block * c.node_size) 8).1
        (bootstrap_nodes m text)
        (record {
          lookup = λ p. tt;
          current = λ b e. ground arith;
          unused = λ b h. refl;
          blocks = omega arith;
          block_size = omega arith;
        })
        (omega arith) (omega arith)
