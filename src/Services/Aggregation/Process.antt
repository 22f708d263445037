-- ===== src/Services/Aggregation/Process.antt =====
-- src/services/aggregate/AggregationDB.cpp: the key of a snapshot, and `AttributeInfo` of src/services/aggregate/AggregationDB.h. What the code asks of Caliper is a
-- parameter over a state of Caliper's own.
use caliper_msg_pattern.Prelude.{ℕ, ◌+◌, ◌%◌, ◌^◌, Bool, ◌&&◌, List, [], ◌∷◌, if◌then◌else◌, ◌==◌}
use caliper_msg_pattern.Common.Variant.Types.{make_empty_variant}
use caliper_msg_pattern.Common.Variant.Convert.{DoubleOps, to_uint}
use caliper_msg_pattern.Common.Entry.{
  NodePtr, Attribute, Entry, inv_id, attribute_id, is_nested, is_null, is_reference, has_id,
  entry_at,
}
use caliper_msg_pattern.Common.Snapshot.{
  snapshot_get, get_immediate_entry, SnapshotBuilder, new_builder, build_entry,
}

pub record CaliperAccess (T : Type 0) : Type 0 where
  pub get_attribute : T → ℕ → Attribute
  pub make_tree_entry : T → List NodePtr → NodePtr → NodePtr × T
  pub is_signal : T → Bool

pub record ResultAttributes : Type 0 where
  pub min_attr : Attribute
  pub max_attr : Attribute
  pub sum_attr : Attribute
  pub avg_attr : Attribute

pub record AttributeInfo : Type 0 where
  pub ref_key_attrs : List Attribute
  pub imm_key_attrs : List Attribute
  pub aggr_attrs : List Attribute
  pub result_attrs : List ResultAttributes
  pub count_attr : Attribute
  pub slot_attr : Attribute
  pub implicit_grouping : Bool
  pub group_nested : Bool

-- `MAX_KEYLEN`
abbrev pub max_keylen : ℕ
max_keylen = 20

-- `m_aggr_root_node`
abbrev pub aggr_root : NodePtr
aggr_root = record { id = inv_id; attribute = inv_id; content = make_empty_variant } ∷ []

-- The nodes of a path with the attribute, from the root on.
unfoldable pub collect_nodes : NodePtr → ℕ → List NodePtr → List NodePtr
collect_nodes [] attr_id node_vec = node_vec
collect_nodes (n ∷ up) attr_id node_vec =
    collect_nodes up attr_id (if n.attribute == attr_id then (n ∷ up) ∷ node_vec else node_vec)

-- A key with its hash, a 64-bit number.
pub record Key : Type 0 where
  pub builder : SnapshotBuilder
  pub hash : ℕ

abbrev pub empty_key : Key
empty_key = record { builder = new_builder max_keylen; hash = 0 }

abbrev pub node_id : NodePtr → ℕ
node_id [] = inv_id
node_id (n ∷ up) = n.id

abbrev pub node_attribute : NodePtr → ℕ
node_attribute [] = inv_id
node_attribute (n ∷ up) = n.attribute

unfoldable pub add_to_key : Key → Entry → ℕ → Key
unfolding build_entry
add_to_key key e h = record { builder = build_entry key.builder e; hash = (key.hash + h) % 2 ^ 64 }

unfoldable pub add_references : List Entry → Key → Key
unfolding add_to_key
add_references [] key = key
add_references (e ∷ es) key =
    add_references es (if is_reference e then add_to_key key e (node_id e.node) else key)

unfoldable pub add_immediates : DoubleOps → List Entry → List Attribute → Key → Key
unfolding add_to_key get_immediate_entry
add_immediates d rec [] key = key
add_immediates d rec (attr ∷ attrs) key =
    let e = get_immediate_entry rec attr in
    add_immediates d rec attrs
      (if is_null e.node then key else add_to_key key e (node_id e.node + (to_uint d e.value).0))

module _ {T : Type 0} (c : CaliperAccess T) where
  unfoldable pub key_node_loop : T → List Entry → List Attribute → NodePtr → NodePtr × T
  unfolding collect_nodes snapshot_get
  key_node_loop s rec [] key_node = (key_node, s)
  key_node_loop s rec (attr ∷ attrs) key_node =
      let e = snapshot_get rec attr in
      let (node, t) =
        if is_null e.node
        then (key_node, s)
        else c.make_tree_entry s (collect_nodes e.node (attribute_id attr) []) key_node in
      key_node_loop t rec attrs node

  -- The root is the node with the invalid id.
  unfoldable pub make_key_node : T → List Entry → List Attribute → NodePtr × T
  unfolding key_node_loop
  make_key_node s rec attrs =
      let (node, t) = key_node_loop s rec attrs aggr_root in
      (if has_id node inv_id then [] else node, t)

  module _ (d : DoubleOps) where
    unfoldable pub add_nested : T → List Entry → Key → Key
    unfolding add_to_key is_nested
    add_nested s [] key = key
    add_nested s (e ∷ es) key =
        let rest = add_nested s es key in
        if is_reference e && is_nested d (c.get_attribute s (node_attribute e.node))
        then add_to_key key e (node_id e.node)
        else rest

    unfoldable pub add_explicit : T → List Entry → AttributeInfo → Key → Key × T
    unfolding add_nested make_key_node
    add_explicit s rec info key =
        let nested = if info.group_nested then add_nested s rec key else key in
        let (node, t) = make_key_node s rec info.ref_key_attrs in
        (if is_null node then nested else add_to_key nested (entry_at node) (node_id node), t)

    -- The key entries of `process_snapshot`.
    unfoldable pub extract_key : T → List Entry → AttributeInfo → Key × T
    unfolding add_references add_explicit add_immediates
    extract_key s rec info =
        let (key, t) =
          if info.implicit_grouping
          then (add_references rec empty_key, s)
          else add_explicit s rec info empty_key in
        (add_immediates d rec info.imm_key_attrs key, t)
