-- ===== src/Runtime/MetadataTree/Path.antt =====
-- `MetadataTree::get_or_copy_node`, `copy_path_without_attribute` and `remove_first_in_path`: paths
-- that are made again without a node.
use caliper_msg_pattern.Prelude.{
  ℕ, suc, ◌+◌, ◌≤◌, ◌<◌, ◌≡◌, refl, sym, ap, ◌∙◌, arith, true, false, Option, none, some, List, [],
  ◌∷◌, ◌++◌, if◌then◌else◌, ◌==◌, All, Bool-cases, inl, inr, ◌⊎◌, length, length-append, ==_refl,
  and_true, ==_iff, append_assoc,
}
use mathlib.Core.Path.{subst}
use caliper_msg_pattern.Common.Variant.Types.{Memory}
use caliper_msg_pattern.Common.Variant.Compare.{variant_eq}
use caliper_msg_pattern.Common.Entry.{NodeData, NodePtr, find_on_path}
use caliper_msg_pattern.Runtime.MetadataTree.{
  same_node, find_child, TreeConfig, Tree, node, have_free_nodeblock, copy_node_in,
  get_or_copy_node, copy_path_without, copy_path_without_attribute, remove_first_in_path,
}
use caliper_msg_pattern.Runtime.MetadataTree.Invariant.{
  same_node_refl, same_node-eq, IsTree, Freed, have_free_nodeblock-Freed, create_node-Created,
}
use caliper_msg_pattern.Runtime.MetadataTree.Copy.{have_free-some, have_free-next}
use caliper_msg_pattern.Runtime.MetadataTree.Child.{Searched, found, absent, find_child-Searched}

-- A node that stands for another: the attribute is the same, and the value is equal.
pub record IsLike (m : Memory) (k n : NodeData) : Type 0 where
  pub same_attribute : k.attribute ≡ n.attribute
  pub same_value : (variant_eq m k.content n.content ≡ true) ⊎ (k.content ≡ n.content)

-- The path `q` goes on from `base` by nodes that are like those of the list.
pub data Extends (m : Memory) (base : NodePtr) : List NodeData → NodePtr → Type 0 where
  here : Extends m base [] base
  further :
      {ns : List NodeData} {q : NodePtr} (k n : NodeData)
      → IsLike m k n
      → Extends m base ns q
      → Extends m base (n ∷ ns) (k ∷ q)

-- The nodes without those of an attribute.
unfoldable pub without : ℕ → List NodeData → List NodeData
without attr_id [] = []
without attr_id (n ∷ ns) =
    if attr_id == n.attribute then without attr_id ns else n ∷ without attr_id ns

longer : (n : NodeData) (ns : List NodeData) (p : NodePtr) → same_node (n ∷ (ns ++ p)) p ≡ false
longer n ns p = elim (Bool-cases (same_node (n ∷ (ns ++ p)) p)) [
  | inl e ↦ absurd (omega (arith, ap length (same_node-eq (n ∷ (ns ++ p)) p e), length-append ns p))
  | inr e ↦ e
]

==_sym : (a b : ℕ) → (a == b) ≡ (b == a)
==_sym a b = ground arith

module _ (c : TreeConfig) where
  -- Nothing that was there is lost.
  pub record Grows (t t' : Tree) : Type 0 where
    pub tree : IsTree c t'
    pub same_memory : t'.memory ≡ t.memory
    pub keeps : (id : ℕ) (n : NodeData) (q : NodePtr) → node c t id ≡ n ∷ q → node c t' id ≡ n ∷ q

  Grows-refl : (t : Tree) → IsTree c t → Grows t t
  Grows-refl t v = record { tree = v; same_memory = refl; keeps = λ id n q e. e }

  Grows-trans : {t u w : Tree} → Grows t u → Grows u w → Grows t w
  Grows-trans g h = record {
    tree = h.tree;
    same_memory = h.same_memory ∙ g.same_memory;
    keeps = λ id n q e. h.keeps id n q (g.keeps id n q e);
  }

  -- A node that was found or made for another.
  pub record Stands (t : Tree) (n : NodeData) (p : NodePtr) (r : NodePtr × Tree) : Type 0 where
    pub k : NodeData
    pub result : r.0 ≡ k ∷ p
    pub like : IsLike t.memory k n
    pub grows : Grows t r.1
    pub next : r.1.next_block ≤ t.next_block + 1

  pub get_or_copy_node-Stands :
      (t : Tree) (n : NodeData) (b : NodeData) (base : NodePtr)
      → c.can_expand ≡ true
      → IsTree c t
      → t.next_block < c.num_blocks
      → Stands t n (b ∷ base) (get_or_copy_node c t n (b ∷ base))
  unfolding get_or_copy_node
  get_or_copy_node-Stands t n b base grows valid space =
      at_search _ refl (find_child-Searched t.memory n.attribute n.content p (t.children p))
    where
      p : NodePtr
      p = b ∷ base

      made :
          (t1 : Tree) (o : Option ℕ) (x : ℕ)
          → o ≡ some x
          → Freed c t (o, t1)
          → t1.next_block ≤ t.next_block + 1
          → Stands t n p (copy_node_in c n p (o, t1))
      made t1 none x e f next = absurd (cc e)
      made t1 (some x) _ e f next =
          let k = create_node-Created c t1 x n.attribute n.content p f.tree (f.room x refl) in
          record {
            k = _;
            result = k.result;
            like = record { same_attribute = refl; same_value = inr refl };
            grows = record {
              tree = k.tree;
              same_memory = f.same_memory;
              keeps = λ id m q e.
                  k.old_nodes id
                    (λ same. cc (sym (f.same_nodes id ∙ e) ∙ ap (node c t1) same ∙ k.fresh))
                  ∙ f.same_nodes id
                  ∙ e;
            };
            next = next;
          }

      at_search :
          (x : NodePtr)
          → find_child t.memory n.attribute n.content p (t.children p) ≡ x
          → Searched t.memory n.attribute n.content p (t.children p) x
          → Stands t n p (get_or_copy_node c t n p)
      at_search x e (found k before after q first eq) = rw e (record {
        k = k;
        result = refl;
        like =
            let (vv, aa) = and_true _ _ eq in
            record { same_attribute = (==_iff _ _).0 aa; same_value = inl vv };
        grows = Grows-refl t valid;
        next = omega arith;
      })
      at_search x e (absent none_equal) =
          let (y, got) = have_free-some c t grows space in
          rw e (
            made (have_free_nodeblock c t 1).1 (have_free_nodeblock c t 1).0 y got
              (have_free_nodeblock-Freed c t valid) (have_free-next c t))

  -- What is known of a path that was made again.
  pub record Copies (t : Tree) (ns : List NodeData) (base : NodePtr) (r : NodePtr × Tree)
      : Type 0 where
    pub path : Extends t.memory base ns r.0
    pub grows : Grows t r.1
    pub next : r.1.next_block ≤ t.next_block + length ns

  no-Copies : (t : Tree) (base : NodePtr) → IsTree c t → Copies t [] base (base, t)
  no-Copies t base v = record { path = here; grows = Grows-refl t v; next = omega arith }

  Extends-root :
      {m : Memory} (b : NodeData) (base : NodePtr) {ns : List NodeData} {q : NodePtr}
      → Extends m (b ∷ base) ns q
      → (x : NodeData) × (q' : NodePtr) × (q ≡ x ∷ q')
  Extends-root b base here = (b, base, refl)
  Extends-root b base (further {q = q} k n l e) = (k, q, refl)

  more-Copies :
      (t : Tree) (n b : NodeData) (ns : List NodeData) (base : NodePtr) (r : NodePtr × Tree)
      → c.can_expand ≡ true
      → t.next_block + suc (length ns) ≤ c.num_blocks
      → Copies t ns (b ∷ base) r
      → Copies t (n ∷ ns) (b ∷ base) (get_or_copy_node c r.1 n r.0)
  more-Copies t n b ns base (q, u) grows space h =
      let (x, q', e) = Extends-root b base h.path in
      let s = get_or_copy_node-Stands u n x q' grows h.grows.tree (omega (arith, h.next, space)) in
      rw e (record {
        path = rw s.result (
            further s.k n (subst (λ m. IsLike m s.k n) h.grows.same_memory s.like)
              (subst (Extends t.memory (b ∷ base) ns) e h.path));
        grows = Grows-trans h.grows s.grows;
        next = omega (arith, s.next, h.next);
      })

  module _ (attr_id : ℕ) (grows : c.can_expand ≡ true) (b : NodeData) (base : NodePtr) where
    copy_path_without-Copies :
        (t : Tree) (ns : List NodeData)
        → IsTree c t
        → t.next_block + length (without attr_id ns) ≤ c.num_blocks
        → Copies t
            (without attr_id ns)
            (b ∷ base)
            (copy_path_without c t attr_id (ns ++ (b ∷ base)) (b ∷ base))
    unfolding copy_path_without without
    copy_path_without-Copies t [] v space =
        rw (same_node_refl (b ∷ base)) (no-Copies t (b ∷ base) v)
    copy_path_without-Copies t (n ∷ ns) v space = elim (Bool-cases (attr_id == n.attribute)) [
      | inl e ↦ rw (longer n ns (b ∷ base), e) (copy_path_without-Copies t ns v (rw e at space))
      | inr e ↦
          rw (longer n ns (b ∷ base), e)
            (more-Copies t n b (without attr_id ns) base _ grows (rw e at space)
              (copy_path_without-Copies t ns v (omega (arith, (rw e at space)))))
    ]

    -- The first node with the attribute, behind nodes that have others.
    find_on_path-first :
        (before : List NodeData) (n : NodeData) (up : NodePtr)
        → All (λ k. (k.attribute == attr_id) ≡ false) before
        → n.attribute ≡ attr_id
        → find_on_path (before ++ (n ∷ up)) attr_id ≡ n ∷ up
    unfolding find_on_path
    find_on_path-first [] n up h e = rw (e, ==_refl)
    find_on_path-first (k ∷ before) n up h e = rw h.0 (find_on_path-first before n up h.1 e)

    without-first :
        (before : List NodeData) (n : NodeData)
        → All (λ k. (k.attribute == attr_id) ≡ false) before
        → n.attribute ≡ attr_id
        → without attr_id (before ++ (n ∷ [])) ≡ before
    unfolding without
    without-first [] n h e = rw (e, ==_refl)
    without-first (k ∷ before) n h e =
        rw (==_sym attr_id k.attribute, h.0) (ap (λ l. k ∷ l) (without-first before n h.1 e))

    -- If the pool can expand and there are blocks for the nodes of the path, `remove_first_in_path`
    -- returns the path without its first node with the attribute: the nodes above that one are the
    -- same, those behind it are like those that they were, in their order. The tree stays well formed,
    -- and every node in it is still found by its identifier.
    pub remove_first_in_path-Copies :
        (t : Tree) (before : List NodeData) (n : NodeData)
        → IsTree c t
        → All (λ k. (k.attribute == attr_id) ≡ false) before
        → n.attribute ≡ attr_id
        → t.next_block + length before ≤ c.num_blocks
        → Copies t before (b ∷ base) (remove_first_in_path c t (before ++ (n ∷ b ∷ base)) attr_id)
    unfolding remove_first_in_path copy_path_without_attribute
    remove_first_in_path-Copies t before n v others e space =
        let gone = without-first before n others e in
        rw
          (
            find_on_path-first before n (b ∷ base) others e,
            ← append_assoc before (n ∷ []) (b ∷ base),
          )
          (subst
            (λ l.
              Copies t l (b ∷ base)
                (copy_path_without c t attr_id ((before ++ (n ∷ [])) ++ (b ∷ base)) (b ∷ base)))
            gone (copy_path_without-Copies t (before ++ (n ∷ [])) v (rw gone space)))

  -- A node on top of a path goes away, and the tree stays as it is.
  pub remove_first_in_path-top :
      (t : Tree) (n b : NodeData) (base : NodePtr)
      → remove_first_in_path c t (n ∷ b ∷ base) n.attribute ≡ (b ∷ base, t)
  unfolding remove_first_in_path copy_path_without_attribute copy_path_without find_on_path
  remove_first_in_path-top t n b base =
      rw (==_refl, longer n [] (b ∷ base), same_node_refl (b ∷ base))
