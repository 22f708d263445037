-- ===== src/Runtime/MetadataTree.antt =====
-- src/caliper/MetadataTree.h, MetadataTree.cpp: the context tree of a thread, as long as other
-- threads leave it alone. A node pointer is the path from the node up to the root, as in
-- Common.Entry, and null is the empty path. The children of a node, which the code links by head
-- and next, are a list with the last appended first. A node block is the index of its next slot and
-- what its slots hold. The result `none` is a fault: a copy to a null pointer.
pub mod Invariant
pub mod Copy
pub mod Child
pub mod Path
pub mod Bootstrap
mod Tests
use caliper_msg_pattern.Prelude.{
  ℕ, suc, ◌+◌, ◌-◌, ◌*◌, ◌/◌, ◌%◌, Bool, true, false, ◌&&◌, ◌||◌, Option, none, some, List, [], ◌∷◌,
  if◌then◌else◌, ◌==◌, ltb, leb, ◌>>=◌,
}
use native.Mathlib.Decide.{ℕ_discrete}
use caliper_msg_pattern.Common.Variant.Types.{
  Memory, AttrType, type_string, type_usr, CaliVariant, make_empty_variant, get_type, get_size,
}
use caliper_msg_pattern.Common.Variant.Compare.{variant_eq}
use caliper_msg_pattern.Common.Entry.{NodeData, NodePtr, inv_id, is_null, find_on_path}
use caliper_msg_pattern.Runtime.MemoryPool.{Pool, allocate}

pub NodePtr-discrete : Discrete NodePtr
NodePtr-discrete = hlevel ℕ_discrete

-- Equality of pointers.
unfoldable pub same_node : NodePtr → NodePtr → Bool
unfolding NodePtr-discrete
same_node p q = elim (NodePtr-discrete p q) [ yes e ↦ true | no ne ↦ false ]

-- `GlobalData::root`
abbrev pub root_node : NodeData
root_node = record { id = inv_id; attribute = inv_id; content = make_empty_variant }

abbrev pub root : NodePtr
root = root_node ∷ []

-- The configuration, the size of a node, and where the memory pool's next chunk comes to lie when
-- it has reserved a number of bytes.
pub record TreeConfig : Type 0 where
  pub num_blocks : ℕ
  pub nodes_per_block : ℕ
  pub node_size : ℕ
  pub can_expand : Bool
  pub chunk_address : ℕ → ℕ

pub record Tree : Type 0 where
  pub children : NodePtr → List NodeData
  pub next_block : ℕ
  pub index : ℕ → ℕ
  pub chunk : ℕ → ℕ → NodePtr
  pub nodeblock : Option ℕ
  pub pool : Pool
  pub memory : Memory
  pub num_nodes : ℕ
  pub num_blocks_used : ℕ

abbrev pub set_at {ℓ} : {A : Type ℓ} → (ℕ → A) → ℕ → A → ℕ → A
set_at f i a x = if x == i then a else f x

-- `Node::equals`
abbrev pub equals : Memory → NodeData → ℕ → CaliVariant → Bool
equals m n attr_id v = variant_eq m n.content v && n.attribute == attr_id

-- The loop over the children of `p`: `first_child`, and `next_sibling` while the node is not equal.
unfoldable pub find_child : Memory → ℕ → CaliVariant → NodePtr → List NodeData → NodePtr
find_child m attr_id v p [] = []
find_child m attr_id v p (n ∷ cs) =
    if equals m n attr_id v then n ∷ p else find_child m attr_id v p cs

-- `memcpy`
abbrev pub copy_bytes : Memory → ℕ → ℕ → ℕ → Memory
copy_bytes m dst src n a = if leb dst a && ltb a (dst + n) then m (src + (a - dst)) else m a

-- `Variant::has_unmanaged_data`
abbrev pub is_unmanaged : AttrType → Bool
is_unmanaged type_string = true
is_unmanaged type_usr = true
is_unmanaged _ = false

unfoldable pub has_unmanaged_data : CaliVariant → Bool
unfolding get_type
has_unmanaged_data v = is_unmanaged (get_type v)

abbrev pub or_root : NodePtr → NodePtr
or_root [] = root
or_root (n ∷ up) = n ∷ up

module _ (c : TreeConfig) where
  -- `MemoryPool::allocate`
  unfoldable pub pool_allocate : Tree → ℕ → ℕ → Option ℕ × Tree
  unfolding allocate
  pool_allocate t bytes alignment =
      let r =
        allocate t.pool bytes alignment c.can_expand (c.chunk_address t.pool.total_reserved) in
      (r.0, record t { pool = r.1 })

  -- `MetadataTree::node`
  unfoldable pub node : Tree → ℕ → NodePtr
  node t id =
      let block = id / c.nodes_per_block in
      let i = id % c.nodes_per_block in
      if leb c.num_blocks block || leb (t.index block) i then [] else t.chunk block i

  -- `!m_nodeblock || m_nodeblock->index + n >= g->nodes_per_block`
  abbrev pub needs_block : Tree → Option ℕ → ℕ → Bool
  needs_block t none n = true
  needs_block t (some b) n = leb c.nodes_per_block (t.index b + n)

  -- What `have_free_nodeblock` does with the chunk that the pool returned.
  abbrev pub take_block : Option ℕ × Tree → Option ℕ × Tree
  take_block (none, t) = (none, t)
  take_block (some p, t) = (
    some t.next_block,
    record t {
      next_block = t.next_block + 1;
      nodeblock = some t.next_block;
      index = set_at t.index t.next_block 0;
      num_blocks_used = t.num_blocks_used + 1;
    },
  )

  -- `have_free_nodeblock`, with the block that `m_nodeblock` then points to, and `none` for false.
  -- The second test of `next_block` is for the other threads.
  unfoldable pub have_free_nodeblock : Tree → ℕ → Option ℕ × Tree
  unfolding pool_allocate
  have_free_nodeblock t n =
      if needs_block t t.nodeblock n
      then (if leb c.num_blocks t.next_block
          then (none, t)
          else take_block (pool_allocate t (c.nodes_per_block * c.node_size) 8))
      else (t.nodeblock, t)

  -- A new node in the next slot of the block, appended to the parent.
  unfoldable pub create_node : Tree → ℕ → ℕ → CaliVariant → NodePtr → NodePtr × Tree
  unfolding same_node
  create_node t b attr_id v parent =
      let n : NodeData = record {
        id = b * c.nodes_per_block + t.index b;
        attribute = attr_id;
        content = v;
      } in
      (
        n ∷ parent,
        record t {
          index = set_at t.index b (t.index b + 1);
          chunk = set_at t.chunk b (set_at (t.chunk b) (t.index b) (n ∷ parent));
          children = λ q. if same_node q parent then n ∷ t.children q else t.children q;
          num_nodes = t.num_nodes + 1;
        },
      )

  abbrev pub copy_to : CaliVariant → Option ℕ × Tree → Option (CaliVariant × Tree)
  copy_to v (none, t) = none
  copy_to v (some p, t) =
      some
        (record v { v_uint = p }, record t { memory = copy_bytes t.memory p v.v_uint (get_size v) })

  -- The allocation of `create_child` and `Variant::copy`.
  unfoldable pub copy_value : Tree → CaliVariant → Option (CaliVariant × Tree)
  unfolding pool_allocate has_unmanaged_data get_size
  copy_value t v =
      if has_unmanaged_data v then copy_to v (pool_allocate t (get_size v + 1) 1) else some (v, t)

  abbrev pub create_child_in : ℕ → CaliVariant → NodePtr → Option ℕ × Tree → Option (NodePtr × Tree)
  create_child_in attr_id v parent (none, t) = some ([], t)
  create_child_in attr_id v parent (some b, t) = do
    (v', t') ← copy_value t v
    some (create_node t' b attr_id v' parent)

  -- `create_child`, under a parent.
  unfoldable pub create_child : Tree → ℕ → CaliVariant → NodePtr → Option (NodePtr × Tree)
  unfolding have_free_nodeblock copy_value create_node
  create_child t attr_id v parent = create_child_in attr_id v parent (have_free_nodeblock t 1)

  -- `get_child`
  unfoldable pub get_child : Tree → ℕ → CaliVariant → NodePtr → Option (NodePtr × Tree)
  unfolding find_child create_child
  get_child t attr_id v parent =
      let p = or_root parent in
      let found = find_child t.memory attr_id v p (t.children p) in
      if is_null found then create_child t attr_id v p else some (found, t)

  abbrev pub copy_node_in : NodeData → NodePtr → Option ℕ × Tree → NodePtr × Tree
  copy_node_in from parent (none, t) = ([], t)
  copy_node_in from parent (some b, t) = create_node t b from.attribute from.content parent

  -- `get_or_copy_node`
  unfoldable pub get_or_copy_node : Tree → NodeData → NodePtr → NodePtr × Tree
  unfolding find_child have_free_nodeblock create_node
  get_or_copy_node t from parent =
      let p = or_root parent in
      let found = find_child t.memory from.attribute from.content p (t.children p) in
      if is_null found then copy_node_in from p (have_free_nodeblock t 1) else (found, t)

  -- `get_path` with a list of nodes, of which some may be null.
  unfoldable pub get_path_nodes : Tree → List (Option NodeData) → NodePtr → NodePtr × Tree
  unfolding get_or_copy_node
  get_path_nodes t [] parent = (parent, t)
  get_path_nodes t (none ∷ ns) parent = get_path_nodes t ns parent
  get_path_nodes t (some n ∷ ns) parent =
      let r = get_or_copy_node t n parent in get_path_nodes r.1 ns r.0

  -- `copy_path_without_attribute`, below a parent that is not null.
  unfoldable pub copy_path_without : Tree → ℕ → NodePtr → NodePtr → NodePtr × Tree
  unfolding get_or_copy_node same_node
  copy_path_without t attr_id [] parent = (parent, t)
  copy_path_without t attr_id (n ∷ up) parent =
      let r = copy_path_without t attr_id up parent in
      if same_node (n ∷ up) parent
      then (parent, t)
      else if attr_id == n.attribute
      then r
      else get_or_copy_node r.1 n r.0

  -- `copy_path_without_attribute`
  unfoldable pub copy_path_without_attribute : Tree → ℕ → NodePtr → NodePtr → NodePtr × Tree
  unfolding copy_path_without
  copy_path_without_attribute t attr_id path parent =
      copy_path_without t attr_id path (or_root parent)

abbrev pub parent_of : NodePtr → NodePtr
parent_of [] = []
parent_of (n ∷ up) = up

module _ (c : TreeConfig) where
  -- `remove_first_in_path`
  unfoldable pub remove_first_in_path : Tree → NodePtr → ℕ → NodePtr × Tree
  unfolding find_on_path copy_path_without_attribute
  remove_first_in_path t path attr_id =
      copy_path_without_attribute c t attr_id path (parent_of (find_on_path path attr_id))

  -- `replace_first_in_path`
  unfoldable pub replace_first_in_path : Tree → NodePtr → ℕ → CaliVariant → Option (NodePtr × Tree)
  unfolding remove_first_in_path get_child
  replace_first_in_path t [] attr_id v = get_child c t attr_id v []
  replace_first_in_path t (n ∷ up) attr_id v =
      let r = remove_first_in_path t (n ∷ up) attr_id in get_child c r.1 attr_id v r.0
