-- ===== src/Runtime/Caliper/Region.antt =====
-- A region that begins and ends, on a blackboard and the context tree.
use caliper_msg_pattern.Prelude.{
  ℕ, ◌+◌, ◌≤◌, ◌<◌, ◌≡◌, ◌≢◌, refl, ap, arith, true, false, not, some, [], ◌∷◌, Bool-cases, inl,
  inr, and_true, ==_iff, length,
}
use mathlib.Core.Path.{subst}
use caliper_msg_pattern.Common.Variant.Types.{CaliVariant}
use caliper_msg_pattern.Common.Entry.{
  NodeData, NodePtr, Attribute, attribute_id, Entry, no_entry, node_entry, entry_attribute,
  entry_get, find_on_path, inv_id, name_attr_id,
}
use caliper_msg_pattern.Runtime.Blackboard
use caliper_msg_pattern.Runtime.Blackboard.{Blackboard}
use caliper_msg_pattern.Runtime.Blackboard.Table.{IsValid}
use caliper_msg_pattern.Runtime.Blackboard.Set.{Wrote}
use caliper_msg_pattern.Runtime.Blackboard.Delete.{Deleted, del-Deleted}
use caliper_msg_pattern.Runtime.MetadataTree.{TreeConfig, Tree, root, root_node, or_root, same_node}
use caliper_msg_pattern.Runtime.MetadataTree.Invariant.{IsTree, same_node_refl, same_node-eq}
use caliper_msg_pattern.Runtime.MetadataTree.Child.{Got, was_there, made, no_room, get_child-Got}
use caliper_msg_pattern.Runtime.MetadataTree.Path.{remove_first_in_path-top}
use caliper_msg_pattern.Runtime.Caliper.{
  is_asvalue, has_hidden, reference_key, handle_begin, handle_end, put_back,
}

-- What a region key holds: nothing, for the root, or a node below it.
pub data IsStack : Entry → NodePtr → Type 0 where
  bottom : IsStack no_entry root
  above : (n b : NodeData) (base : NodePtr) → IsStack (node_entry n (b ∷ base)) (n ∷ b ∷ base)

IsStack-node : {e : Entry} {p : NodePtr} → IsStack e p → or_root e.node ≡ p
IsStack-node bottom = refl
IsStack-node (above n b base) = refl

-- The entry for a node that was begun, and what is found in it.
pub entry_get-top :
    (k : NodeData) (up : NodePtr) (attr : Attribute)
    → k.attribute ≡ attribute_id attr
    → attribute_id attr ≢ name_attr_id
    → entry_get (node_entry k up) attr ≡ node_entry k up
unfolding entry_get find_on_path
entry_get-top k up attr e other = ground arith

pub entry_attribute-top :
    (k : NodeData) (up : NodePtr) (a : ℕ)
    → k.attribute ≡ a
    → a ≢ name_attr_id
    → entry_attribute (node_entry k up) ≡ a
unfolding entry_attribute
entry_attribute-top k up a e other = ground arith

below_root : (n b : NodeData) (base : NodePtr) → same_node (n ∷ b ∷ base) root ≡ false
below_root n b base = elim (Bool-cases (same_node (n ∷ b ∷ base) root)) [
  | inl e ↦ absurd (omega (arith, ap length (same_node-eq (n ∷ b ∷ base) root e)))
  | inr e ↦ e
]

module _ (c : TreeConfig) (grows : c.can_expand ≡ true) where
  -- A child of `p`, in a tree that has a block for it.
  pub record Pushed (t : Tree) (a : ℕ) (p : NodePtr) (k : NodeData) (t' : Tree) : Type 0 where
    pub same_attribute : k.attribute ≡ a
    pub tree : IsTree c t'
    pub next : t'.next_block ≤ t.next_block + 1

  Pushed-of_Got :
      (t : Tree) (a : ℕ) (v : CaliVariant) (p : NodePtr) (r : NodePtr × Tree)
      → IsTree c t
      → t.next_block < c.num_blocks
      → Got c t a v p r
      → (k : NodeData) × (t' : Tree) × (r ≡ (k ∷ p, t')) × Pushed t a p k t'
  Pushed-of_Got t a v p r valid space (was_there n before after q eq e) = (
    n,
    t,
    e,
    record {
      same_attribute = (==_iff _ _).0 (and_true _ _ eq).1;
      tree = valid;
      next = omega arith;
    },
  )
  Pushed-of_Got t a v p (q, t') valid space (made n none_equal e copied k next) =
      (n, t', (λ i. (k.result i, t')), record { same_attribute = e; tree = k.tree; next = next })
  Pushed-of_Got t a v p r valid space (no_room none_equal e full rest kids nodes) =
      absurd (omega (arith, full, space))

  -- What `handle_begin` leaves for an attribute in the context tree.
  pub record Begun (attr : Attribute) (p : NodePtr) (key : ℕ) (bb : Blackboard) (t : Tree)
      (bb' : Blackboard) (t' : Tree) : Type 0 where
    pub k : NodeData
    pub pushed : Pushed t (attribute_id attr) p k t'
    pub wrote : Wrote bb key (node_entry k p) bb'

  handle_begin-under :
      (attr : Attribute) (v : CaliVariant) (prop : ℕ) (bb : Blackboard) (t : Tree) (e : Entry)
      → is_asvalue prop ≡ false
      → Blackboard.get bb (reference_key prop) ≡ some e
      → IsTree c t
      → t.next_block < c.num_blocks
      → ((x : Entry)
          → (bb' : Blackboard) × (Blackboard.set bb (reference_key prop) x (not (has_hidden prop))
              ≡ some bb')
            × Wrote bb (reference_key prop) x bb')
      → (bb' : Blackboard) × (t' : Tree) × (handle_begin c attr v prop bb t ≡ some (bb', t'))
        × Begun attr (or_root e.node) (reference_key prop) bb t bb' t'
  unfolding handle_begin
  handle_begin-under attr v prop bb t e by_ref reads valid space write =
      let (r, run, got) = get_child-Got c t (attribute_id attr) v e.node grows valid in
      let (k, t', eq, pushed) =
        Pushed-of_Got t (attribute_id attr) v (or_root e.node) r valid space got in
      let (bb', wrote_run, wrote) = write (node_entry k (or_root e.node)) in
      (
        bb',
        t',
        rw (by_ref, reads, run, eq, wrote_run),
        record { k = k; pushed = pushed; wrote = wrote },
      )

  -- Ending the region that a path begins with: the blackboard holds again what it held below it.
  module _ (attr : Attribute) (prop key : ℕ) (bb : Blackboard) (t : Tree) (k : NodeData) where
    pub handle_end-bottom :
        is_asvalue prop ≡ false
        → IsValid bb
        → key ≢ inv_id
        → k.attribute ≡ attribute_id attr
        → (bb' : Blackboard) × (handle_end c attr prop (node_entry k root) key bb t ≡ some (bb', t))
          × Deleted bb key bb'
    unfolding handle_end put_back
    handle_end-bottom by_ref valid real e =
        let (bb', run, d) = del-Deleted bb key valid real in
        (
          bb',
          rw (by_ref, ← e, remove_first_in_path-top c t k root_node [], same_node_refl root, run),
          d,
        )

    pub handle_end-above :
        (n b : NodeData) (base : NodePtr)
        → is_asvalue prop ≡ false
        → k.attribute ≡ attribute_id attr
        → ((x : Entry)
            → (bb' : Blackboard) × (Blackboard.set bb key x (not (has_hidden prop)) ≡ some bb')
              × Wrote bb key x bb')
        → (bb' : Blackboard) × (handle_end c attr prop (node_entry k (n ∷ b ∷ base)) key bb t
            ≡ some (bb', t))
          × Wrote bb key (node_entry n (b ∷ base)) bb'
    unfolding handle_end put_back
    handle_end-above n b base by_ref e write =
        let (bb', run, w) = write (node_entry n (b ∷ base)) in
        (
          bb',
          rw (by_ref, ← e, remove_first_in_path-top c t k n (b ∷ base), below_root n b base, run),
          w,
        )

  pub handle_begin-Begun :
      (attr : Attribute) (v : CaliVariant) (prop : ℕ) (bb : Blackboard) (t : Tree) (e : Entry)
      (p : NodePtr)
      → is_asvalue prop ≡ false
      → Blackboard.get bb (reference_key prop) ≡ some e
      → IsStack e p
      → IsTree c t
      → t.next_block < c.num_blocks
      → ((x : Entry)
          → (bb' : Blackboard) × (Blackboard.set bb (reference_key prop) x (not (has_hidden prop))
              ≡ some bb')
            × Wrote bb (reference_key prop) x bb')
      → (bb' : Blackboard) × (t' : Tree) × (handle_begin c attr v prop bb t ≡ some (bb', t'))
        × Begun attr p (reference_key prop) bb t bb' t'
  handle_begin-Begun attr v prop bb t e p by_ref reads stack valid space write =
      subst
        (λ q.
          (bb' : Blackboard) × (t' : Tree) × (handle_begin c attr v prop bb t ≡ some (bb', t'))
          × Begun attr q (reference_key prop) bb t bb' t')
        (IsStack-node stack) (handle_begin-under attr v prop bb t e by_ref reads valid space write)
