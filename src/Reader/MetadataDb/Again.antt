-- ===== src/Reader/MetadataDb/Again.antt =====
-- Merging a node a second time, and merging a record that is not valid.
use caliper_msg_pattern.Prelude.{
  ℕ, ◌+◌, ◌≤◌, ◌≡◌, refl, sym, ap, ◌∙◌, arith, Bool, true, false, none, List, [], ◌∷◌, ◌&&◌, ◌||◌,
  not, ltb, ◌==◌, ==_refl, Bool-cases, inl, inr, ◌⊎◌, and_true, length,
}
use caliper_msg_pattern.Common.Variant.Types.{Memory, CaliVariant}
use caliper_msg_pattern.Common.Variant.Compare.{variant_eq_refl}
use caliper_msg_pattern.Common.Entry.{
  NodeData, NodePtr, inv_id, name_attr_id, is_null, is_empty_value, is_attribute,
}
use caliper_msg_pattern.Runtime.MetadataTree.{find_child}
use caliper_msg_pattern.Runtime.MetadataTree.Invariant.{same_node_refl}
use caliper_msg_pattern.Reader.MetadataDb.{
  Db, IdMap, map_id, db_node, db_create_node, find_or_create, with_attribute, merge_below,
  merge_node, with_id, merge_node_mapped,
}
use caliper_msg_pattern.Reader.MetadataDb.Nodes.{IsDb, Kept, db_node-lt, next_node}
use caliper_msg_pattern.Reader.MetadataDb.Merge.{
  parent_at, is_valid_info, merge_node-if, merge_node-Merged, merge_node_refused,
}
use caliper_msg_pattern.Reader.MetadataDb.Records.{parent_at-Kept}

module _ (m : Memory) (print : CaliVariant → List ℕ) (attr_id : ℕ) (v : CaliVariant) where
  -- A node that was created is the first child that a search finds.
  created_found :
      (db : Db) (p : NodePtr)
      → find_child m attr_id v p ((db_create_node db attr_id v p).1.children p)
        ≡ next_node db attr_id v ∷ p
  unfolding db_create_node find_child
  created_found db p = rw (same_node_refl p, variant_eq_refl m v, ==_refl attr_id) refl

  with_attribute-same :
      (b : Bool) (r : NodePtr × Db)
      → ((with_attribute m print b attr_id v r).1.children ≡ r.1.children)
        × ((with_attribute m print b attr_id v r).0 ≡ r.0)
  with_attribute-same b r = elim (Bool-cases (b && attr_id == name_attr_id)) [
    | inl e ↦ rw e (refl, refl)
    | inr e ↦ rw e (refl, refl)
  ]

  merge_below-there :
      (db : Db) (p x : NodePtr)
      → find_child m attr_id v p (db.children p) ≡ x
      → is_null x ≡ false
      → merge_below m print db attr_id v p ≡ (x, db)
  unfolding merge_below find_or_create
  merge_below-there db p x e there = rw (e, there) refl

  merge_below-absent :
      (db : Db) (p : NodePtr)
      → is_null (find_child m attr_id v p (db.children p)) ≡ true
      → merge_below m print db attr_id v p
        ≡ with_attribute m print true attr_id v (db_create_node db attr_id v p)
  unfolding merge_below find_or_create
  merge_below-absent db p e = rw e refl

  result_of :
      (db : Db) (p : NodePtr) → (db_create_node db attr_id v p).0 ≡ next_node db attr_id v ∷ p
  unfolding db_create_node
  result_of db p = refl

  -- What was merged below a node is found there the next time.
  merge_below-again :
      (db : Db) (p : NodePtr)
      → merge_below m print (merge_below m print db attr_id v p).1 attr_id v p
        ≡ merge_below m print db attr_id v p
  merge_below-again db p = elim (Bool-cases (is_null (find_child m attr_id v p (db.children p)))) [
    | inl e ↦
        let r = with_attribute m print true attr_id v (db_create_node db attr_id v p) in
        let (kids, node) = with_attribute-same true (db_create_node db attr_id v p) in
        rw (merge_below-absent db p e) (
          merge_below-there r.1 p r.0
            (ap (λ (f : NodePtr → List NodeData). find_child m attr_id v p (f p)) kids
              ∙ created_found db p
              ∙ sym (node ∙ result_of db p))
            (ap is_null (node ∙ result_of db p)))
    | inr e ↦ let there = merge_below-there db p _ refl e in rw there there
  ]

is_attribute-node :
    (p : NodePtr) → is_attribute p ≡ true → (n : NodeData) × (up : NodePtr) × (p ≡ n ∷ up)
is_attribute-node [] h = absurd (cc h)
is_attribute-node (n ∷ up) h = (n, up, refl)

module _ (m : Memory) (print : CaliVariant → List ℕ) (db : Db) (node_id attr_id prnt_id : ℕ)
    (v : CaliVariant) where
  -- A record that is not valid under the stream's map makes `merge_node` read the identifier of a
  -- null node.
  pub merge_node_mapped_null :
      (idmap : IdMap)
      → length db.nodes ≤ inv_id
      → is_valid_info db node_id (map_id attr_id idmap) (map_id prnt_id idmap) v ≡ false
      → merge_node_mapped m print db node_id attr_id prnt_id v idmap ≡ none
  unfolding merge_node_mapped with_id
  merge_node_mapped_null idmap small bad =
      rw
        (merge_node_refused db small m print node_id (map_id attr_id idmap) (map_id prnt_id idmap) v
          bad)
        refl

  abbrev merged : NodePtr × Db
  merged = merge_node m print db node_id attr_id prnt_id v

  info_again :
      Kept db merged.1
      → (prnt_id ≡ inv_id) ⊎ ((n : NodeData) × (up : NodePtr) × (db_node db prnt_id ≡ n ∷ up))
      → is_valid_info db node_id attr_id prnt_id v ≡ true
      → is_valid_info merged.1 node_id attr_id prnt_id v ≡ true
  info_again kept rooted ok =
      let here = not (node_id == inv_id) in
      let rest = not (is_empty_value v) && (prnt_id == inv_id || ltb prnt_id (length db.nodes)) in
      let attr = is_attribute (db_node db attr_id) in
      let (h1, h2) = and_true here (attr && rest) ok in
      let (h3, h4) = and_true attr rest h2 in
      let (h5, h6) =
        and_true (not (is_empty_value v)) (prnt_id == inv_id || ltb prnt_id (length db.nodes)) h4 in
      let (n, up, e) = is_attribute-node (db_node db attr_id) h3 in
      let still : is_attribute (db_node merged.1 attr_id) ≡ true =
        ap is_attribute (kept attr_id n up e ∙ sym e) ∙ h3 in
      rw (h1, still, h5)
        (elim rooted [
          | inl q ↦ ground arith
          | inr (k, above, q) ↦
              ground (arith, db_node-lt merged.1 prnt_id k above (kept prnt_id k above q))
        ])

  -- Merging a valid record a second time finds the node of the first time and changes nothing: the
  -- database is well formed and has identifiers for one more node, and the parent is none or a
  -- node of the database.
  pub merge_node-again :
      IsDb db
      → length db.nodes + 1 ≤ inv_id
      → is_valid_info db node_id attr_id prnt_id v ≡ true
      → (prnt_id ≡ inv_id) ⊎ ((n : NodeData) × (up : NodePtr) × (db_node db prnt_id ≡ n ∷ up))
      → merge_node m print merged.1 node_id attr_id prnt_id v ≡ merged
  merge_node-again valid small ok rooted =
      let k = merge_node-Merged db (omega arith) m print node_id attr_id prnt_id v valid ok in
      let first = merge_node-if db (omega arith) m print node_id attr_id prnt_id v in
      let second =
        merge_node-if merged.1 (omega (arith, k.one_more)) m print node_id attr_id prnt_id v in
      let p = parent_at db prnt_id in
      let run : merged ≡ merge_below m print db attr_id v p = first ∙ rw ok refl in
      rw
        (second, info_again k.kept rooted ok, parent_at-Kept db merged.1 prnt_id k.kept rooted, run)
        (merge_below-again m print attr_id v db p)
