-- ===== src/Reader/Aggregator.antt =====
-- src/reader/Aggregator.cpp: the key attributes of the aggregator, and the nodes of a record that
-- make its key. The two stable algorithms of the standard library are written out; the sort of the
-- immediate entries, whose order is open for equal attributes, is left out.
pub mod Arrange
pub mod Entries
pub mod HashKey
pub mod Unique
pub mod Lookup
mod Tests
use caliper_msg_pattern.Prelude.{
  ℕ, Bool, true, false, not, ◌&&◌, ◌||◌, List, [], ◌∷◌, ◌++◌, if◌then◌else◌, ltb, ◌==◌,
}
use caliper_msg_pattern.Common.Variant.Convert.{DoubleOps}
use caliper_msg_pattern.Common.Entry.{
  NodePtr, Attribute, Entry, inv_id, is_nested, is_null, is_immediate, is_reference, is_empty_value,
  attribute_get, entry_attribute,
}
use caliper_msg_pattern.Common.Snapshot.{node_eq}
use caliper_msg_pattern.Reader.Metadata.{MetadataAccess}
use Prim.Native.String.{String}

-- `node->attribute()`
abbrev pub attribute_at : NodePtr → ℕ
attribute_at [] = inv_id
attribute_at (n ∷ up) = n.attribute

-- The elements that pass a test.
unfoldable pub keep {ℓ} : {A : Type ℓ} → (A → Bool) → List A → List A
keep p [] = []
keep p (x ∷ xs) = if p x then x ∷ keep p xs else keep p xs

-- `std::stable_sort` by the attribute.
unfoldable pub sort_in : NodePtr → List NodePtr → List NodePtr
sort_in x [] = x ∷ []
sort_in x (y ∷ ys) = if ltb (attribute_at y) (attribute_at x) then y ∷ sort_in x ys else x ∷ y ∷ ys

unfoldable pub stable_sort : List NodePtr → List NodePtr
unfolding sort_in
stable_sort [] = []
stable_sort (x ∷ xs) = sort_in x (stable_sort xs)

-- The loop of `is_key`. Two attributes are one if they are one node.
unfoldable pub matches_key : Attribute → List Attribute → Bool
unfolding attribute_get
matches_key attr [] = false
matches_key attr (key_attr ∷ key_attrs) =
    let rest = matches_key attr key_attrs in
    if node_eq key_attr attr
    then true
    else if not (is_empty_value (attribute_get attr key_attr))
    then true
    else rest

module _ {S : Type 0} (db : MetadataAccess S) (s : S) where
  -- `update_key_attributes`: the names that stay in `m_key_strings`, and `m_key_attrs`.
  unfoldable pub update_key_attributes : List String → List Attribute → List String × List Attribute
  update_key_attributes [] key_attrs = ([], key_attrs)
  update_key_attributes (name ∷ names) key_attrs =
      let attr = db.get_attribute s name in
      let (left, attrs) =
        update_key_attributes names
          (if is_null attr then key_attrs else key_attrs ++ (attr ∷ [])) in
      (if is_null attr then name ∷ left else left, attrs)

  module _ (d : DoubleOps) where
    abbrev pub nested_attribute : ℕ → Bool
    nested_attribute attr_id = is_nested d (db.attribute_by_id s attr_id)

    unfoldable pub is_key : Bool → List Attribute → ℕ → Bool
    unfolding is_nested matches_key
    is_key select_nested key_attrs attr_id =
        if select_nested && nested_attribute attr_id
        then true
        else matches_key (db.attribute_by_id s attr_id) key_attrs

    -- The nodes of a path up to the first one with the invalid attribute.
    unfoldable pub select_path : Bool → Bool → List Attribute → NodePtr → List NodePtr
    unfolding is_key
    select_path select_all select_nested key_attrs [] = []
    select_path select_all select_nested key_attrs (n ∷ up) =
        let rest = select_path select_all select_nested key_attrs up in
        if n.attribute == inv_id
        then []
        else if select_all || is_key select_nested key_attrs n.attribute
        then (n ∷ up) ∷ rest
        else rest

    -- The loop over a record: the nodes, and the immediate entries.
    unfoldable pub select_nodes : Bool → Bool → List Attribute → List Entry → List NodePtr
    unfolding select_path
    select_nodes select_all select_nested key_attrs [] = []
    select_nodes select_all select_nested key_attrs (e ∷ rec) =
        (if is_reference e then select_path select_all select_nested key_attrs e.node else [])
        ++ select_nodes select_all select_nested key_attrs rec

    unfoldable pub select_immediates : Bool → List Attribute → List Entry → List Entry
    unfolding is_key entry_attribute
    select_immediates select_nested key_attrs [] = []
    select_immediates select_nested key_attrs (e ∷ rec) =
        let rest = select_immediates select_nested key_attrs rec in
        if not (is_reference e)
          && is_immediate e
          && is_key select_nested key_attrs (entry_attribute e)
        then e ∷ rest
        else rest

    abbrev pub nested_node : NodePtr → Bool
    nested_node node = nested_attribute (attribute_at node)

  -- `std::stable_partition` by nesting, and the sort of its second part.
  unfoldable pub arrange_nodes : DoubleOps → List NodePtr → List NodePtr
  unfolding keep stable_sort is_nested
  arrange_nodes d nodes =
      keep (nested_node d) nodes ++ stable_sort (keep (λ n. not (nested_node d n)) nodes)
