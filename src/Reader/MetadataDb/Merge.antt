-- ===== src/Reader/MetadataDb/Merge.antt =====
-- `merge_node`, on records that are valid and on those that are not.
use caliper_msg_pattern.Prelude.{
  ℕ, ◌≤◌, ◌<◌, ◌≡◌, refl, sym, ap, ◌∙◌, arith, Bool, true, false, ◌||◌, not, ltb, List, [], ◌∷◌,
  if◌then◌else◌, ◌==◌, Bool-cases, Option-cases, ◌&&◌, inl, inr, length, get_elem?, get_elem?-lt,
}
use caliper_msg_pattern.Common.Variant.Types.{Memory, CaliVariant}
use caliper_msg_pattern.Common.Entry.{
  NodePtr, inv_id, name_attr_id, is_null, is_empty_value, is_attribute, make_attribute,
}
use caliper_msg_pattern.Runtime.MetadataTree.{root, find_child}
use caliper_msg_pattern.Reader.MetadataDb.{
  Db, or_null, db_node, db_attribute, find_or_create, merge_below, valid_attr_id, merge_node,
}
use caliper_msg_pattern.Reader.MetadataDb.Nodes.{
  IsDb, Merged, with_attribute-Merged, find_or_create-Merged,
}

pub merge_below-Merged :
    (m : Memory) (print : CaliVariant → List ℕ) (db : Db) (attr_id : ℕ) (v : CaliVariant)
    (p : NodePtr)
    → IsDb db
    → Merged m db attr_id v p (merge_below m print db attr_id v p)
unfolding merge_below
merge_below-Merged m print db attr_id v p valid =
    with_attribute-Merged m db attr_id v p valid print
      (is_null (find_child m attr_id v p (db.children p))) (find_or_create m db attr_id v p)
      (find_or_create-Merged m db attr_id v p valid)

-- The node that an identifier stands for as a parent.
abbrev pub parent_at : Db → ℕ → NodePtr
parent_at db prnt_id = if prnt_id == inv_id then root else db_node db prnt_id

-- What a record must give: an identifier, an attribute of the database, a value, and a parent which
-- is in the database, or none.
abbrev pub is_valid_info : Db → ℕ → ℕ → ℕ → CaliVariant → Bool
is_valid_info db node_id attr_id prnt_id v =
    not (node_id == inv_id)
    && (is_attribute (db_node db attr_id)
        && (not (is_empty_value v) && (prnt_id == inv_id || ltb prnt_id (length db.nodes))))

is_attribute-lt : (db : Db) (id : ℕ) → is_attribute (db_node db id) ≡ true → id < length db.nodes
unfolding db_node
is_attribute-lt db id h = elim (Option-cases (get_elem? db.nodes id)) [
  | inl e ↦ absurd (cc (sym h ∙ ap (λ o. is_attribute (or_null o)) e))
  | inr (p, e) ↦ get_elem?-lt db.nodes id p e
]

null_attribute : (p : NodePtr) → is_null (make_attribute p) ≡ not (is_attribute p)
null_attribute [] = refl
null_attribute (n ∷ up) = elim (Bool-cases (n.attribute == name_attr_id)) [
  | inl e ↦ rw e refl
  | inr e ↦ rw e refl
]

module _ (db : Db) (small : length db.nodes ≤ inv_id) where
  valid_attr_id-eq :
      (attr_id : ℕ) → (valid_attr_id db attr_id == inv_id) ≡ not (is_attribute (db_node db attr_id))
  unfolding db_attribute
  valid_attr_id-eq attr_id = elim (Bool-cases (is_attribute (db_node db attr_id))) [
    | inl e ↦
        let lt = is_attribute-lt db attr_id e in
        rw (null_attribute (db_node db attr_id), e) (ground (arith, lt, small))
    | inr e ↦ rw (null_attribute (db_node db attr_id), e) refl
  ]

  valid_attr_id-same :
      (attr_id : ℕ) → is_attribute (db_node db attr_id) ≡ true → valid_attr_id db attr_id ≡ attr_id
  unfolding db_attribute
  valid_attr_id-same attr_id e = rw (null_attribute (db_node db attr_id), e) refl

  module _ (m : Memory) (print : CaliVariant → List ℕ) (node_id attr_id prnt_id : ℕ)
      (v : CaliVariant) where
    pub merge_node-if : merge_node m print db node_id attr_id prnt_id v ≡ (
        if is_valid_info db node_id attr_id prnt_id v
        then merge_below m print db attr_id v (parent_at db prnt_id)
        else ([], db))
    unfolding merge_node
    merge_node-if = elim (Bool-cases (is_attribute (db_node db attr_id))) [
      | inl e ↦
          let lt = is_attribute-lt db attr_id e in
          rw (valid_attr_id-same attr_id e, e) (ground (arith, lt, small))
      | inr e ↦ rw (valid_attr_id-eq attr_id, e) (ground arith)
    ]

    -- `merge_node` on a well-formed database, of which no identifier is the invalid one, for a
    -- valid record: it returns a child of the parent with the attribute and an equal value, which
    -- the database then has at its identifier. At most one node is new, every identifier leads to
    -- the node that it led to, and the database stays well formed.
    pub merge_node-Merged :
        IsDb db
        → is_valid_info db node_id attr_id prnt_id v ≡ true
        → Merged m db attr_id v
            (parent_at db prnt_id)
            (merge_node m print db node_id attr_id prnt_id v)
    merge_node-Merged valid e =
        rw (merge_node-if, e) (merge_below-Merged m print db attr_id v (parent_at db prnt_id) valid)

    -- `merge_node` returns null and changes nothing for a record that is not valid: its identifier
    -- is the invalid one, its attribute is no attribute of the database, its value is empty, or its
    -- parent is neither in the database nor the invalid identifier.
    pub merge_node_refused :
        is_valid_info db node_id attr_id prnt_id v ≡ false
        → merge_node m print db node_id attr_id prnt_id v ≡ ([], db)
    merge_node_refused e = rw (merge_node-if, e) refl
