-- ===== src/Reader/Aggregator/HashKey.antt =====
-- src/reader/Aggregator.cpp: `hash_key` on equal keys.
use caliper_msg_pattern.Prelude.{
  ℕ, ◌+◌, ◌%◌, ◌^◌, ◌≡◌, refl, sym, ap, ◌∙◌, arith, Bool, true, false, not, ◌&&◌, ◌||◌, List, [],
  ◌∷◌, All, if◌then◌else◌, ◌==◌, and_true, ==_iff,
}
use caliper_msg_pattern.Common.Variant.Types.{
  Memory, CaliVariant, AttrType, get_type, type_inv, type_usr, type_int, type_uint, type_string,
  type_addr, type_double, type_bool, type_type, type_ptr,
}
use caliper_msg_pattern.Common.Variant.Convert.{DoubleOps, to_uint, to_uint_as}
use caliper_msg_pattern.Common.Variant.Compare.{variant_eq, value_eq_as}
use caliper_msg_pattern.Common.Entry.{NodePtr, Entry, attribute_id, is_immediate, is_attribute}
use caliper_msg_pattern.Common.Snapshot.{entry_eq, node_eq}
use caliper_msg_pattern.Services.Aggregation.{key_equal}
use caliper_msg_pattern.Reader.Aggregator.Entries.{hash_entry, hash_from, hash_key}

-- Equal values of one type convert to one number: those of texts and blobs to none.
to_uint-value_eq :
    (d : DoubleOps) (m : Memory) (t : AttrType) (l r : CaliVariant)
    → value_eq_as m t l r ≡ true
    → (to_uint_as d t l.v_uint).0 ≡ (to_uint_as d t r.v_uint).0
to_uint-value_eq d m type_usr l r h = refl
to_uint-value_eq d m type_string l r h = refl
to_uint-value_eq d m type_inv l r h = refl
to_uint-value_eq d m type_int l r h =
    ap (λ (w : ℕ). (to_uint_as d type_int w).0) ((==_iff l.v_uint r.v_uint).0 h)
to_uint-value_eq d m type_uint l r h = (==_iff l.v_uint r.v_uint).0 h
to_uint-value_eq d m type_addr l r h = (==_iff l.v_uint r.v_uint).0 h
to_uint-value_eq d m type_double l r h =
    ap (λ (w : ℕ). (to_uint_as d type_double w).0) ((==_iff l.v_uint r.v_uint).0 h)
to_uint-value_eq d m type_bool l r h =
    ap (λ (w : ℕ). (to_uint_as d type_bool w).0) ((==_iff l.v_uint r.v_uint).0 h)
to_uint-value_eq d m type_type l r h =
    ap (λ (w : ℕ). (to_uint_as d type_type w).0) ((==_iff l.v_uint r.v_uint).0 h)
to_uint-value_eq d m type_ptr l r h = refl

to_uint-variant_eq :
    (d : DoubleOps) (m : Memory) (l r : CaliVariant)
    → variant_eq m l r ≡ true
    → (to_uint d l).0 ≡ (to_uint d r).0
unfolding to_uint variant_eq
to_uint-variant_eq d m l r h =
    let (ts, v) = and_true (l.type_and_size == r.type_and_size) _ h in
    let same = (==_iff l.type_and_size r.type_and_size).0 ts in
    to_uint-value_eq d m (get_type l) l r v
    ∙ ap (λ (ts : ℕ). (to_uint d (record { type_and_size = ts; v_uint = r.v_uint })).0) same

-- The entries' nodes are those of a tree that finds a node by its id.
abbrev pub InTree : (ℕ → NodePtr) → List Entry → Type 0
InTree tree key = All (λ e. tree (attribute_id e.node) ≡ e.node) key

node_eq-attribute_id : (p q : NodePtr) → node_eq p q ≡ true → attribute_id p ≡ attribute_id q
node_eq-attribute_id [] [] h = refl
node_eq-attribute_id [] (k ∷ q) h = absurd (cc h)
node_eq-attribute_id (n ∷ p) [] h = absurd (cc h)
node_eq-attribute_id (n ∷ p) (k ∷ q) h = (==_iff n.id k.id).0 h

value_part : (b v : Bool) → (not b || (b && v)) ≡ true → b ≡ true → v ≡ true
value_part b v h e = ground (arith, h, e)

number_part :
    (d : DoubleOps) (m : Memory) (b : Bool) (l r : CaliVariant)
    → (b ≡ true → variant_eq m l r ≡ true)
    → (if b then (to_uint d l).0 else 0) ≡ (if b then (to_uint d r).0 else 0)
number_part d m true l r h = to_uint-variant_eq d m l r (h refl)
number_part d m false l r h = refl

module _ (d : DoubleOps) (m : Memory) (tree : ℕ → NodePtr) where
  hash_entry-eq :
      (e f : Entry)
      → tree (attribute_id e.node) ≡ e.node
      → tree (attribute_id f.node) ≡ f.node
      → entry_eq m e f ≡ true
      → hash_entry d e ≡ hash_entry d f
  unfolding entry_eq
  hash_entry-eq e f he hf h =
      let (ids, values) = and_true (node_eq e.node f.node) _ h in
      let same = node_eq-attribute_id e.node f.node ids in
      let nodes = sym he ∙ ap tree same ∙ hf in
      omega (
        arith,
        same,
        number_part d m (is_immediate e) e.value f.value
            (value_part (is_immediate e) (variant_eq m e.value f.value) values),
        ap (λ p. if is_attribute p then (to_uint d f.value).0 else 0) nodes,
      )

  hash_from-eq :
      (k l : List Entry) (hash : ℕ)
      → InTree tree k
      → InTree tree l
      → key_equal m k l ≡ true
      → hash_from d hash k ≡ hash_from d hash l
  unfolding hash_from key_equal
  hash_from-eq [] [] hash hk hl h = refl
  hash_from-eq [] (f ∷ fs) hash hk hl h = absurd (cc h)
  hash_from-eq (e ∷ es) [] hash hk hl h = absurd (cc h)
  hash_from-eq (e ∷ es) (f ∷ fs) hash (he, hk) (hf, hl) h =
      let (first, rest) = and_true (entry_eq m e f) (key_equal m es fs) h in
      hash_from-eq es fs ((hash + hash_entry d e) % 2 ^ 64) hk hl rest
      ∙ ap (λ (n : ℕ). hash_from d ((hash + n) % 2 ^ 64) fs) (hash_entry-eq e f he hf first)

  -- Keys that are equal, with nodes of one tree, have equal hashes.
  pub hash_key-eq :
      (k l : List Entry)
      → InTree tree k
      → InTree tree l
      → key_equal m k l ≡ true
      → hash_key d k ≡ hash_key d l
  unfolding hash_key
  hash_key-eq k l hk hl h = hash_from-eq k l 0 hk hl h
