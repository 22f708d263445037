-- ===== src/Runtime/MetadataTree/Child.antt =====
-- `MetadataTree::get_child` and `get_or_copy_node`: a child that is there is found, else it is made.
use caliper_msg_pattern.Prelude.{
  ℕ, ◌+◌, ◌*◌, ◌≤◌, ◌<◌, ◌≡◌, refl, sym, ap, ◌∙◌, arith, true, false, Option, none, some, List,
  ◌++◌, [], ◌∷◌, if◌then◌else◌, All, Bool-cases, inl, inr,
}
use mathlib.Core.Path.{subst}
use native.Mathlib.Decide.{dec_lt}
use caliper_msg_pattern.Common.Variant.Types.{Memory, CaliVariant}
use caliper_msg_pattern.Common.Entry.{NodeData, NodePtr}
use caliper_msg_pattern.Runtime.MetadataTree.{
  same_node, equals, find_child, or_root, TreeConfig, Tree, node, have_free_nodeblock, create_node,
  create_child_in, create_child, get_child,
}
use caliper_msg_pattern.Runtime.MetadataTree.Invariant.{
  IsTree, Room, Freed, have_free_nodeblock-Freed, Created, create_node-Created,
}
use caliper_msg_pattern.Runtime.MetadataTree.Copy.{
  Copied, Kept, copy_value-Copied, have_free-some, have_free-next,
}

-- A child that the search returns, or that none is equal.
pub data Searched (m : Memory) (attr_id : ℕ) (v : CaliVariant) (p : NodePtr) (cs : List NodeData)
    : NodePtr → Type 0 where
  found :
      (n : NodeData) (before after : List NodeData)
      → cs ≡ before ++ (n ∷ after)
      → All (λ k. equals m k attr_id v ≡ false) before
      → equals m n attr_id v ≡ true
      → Searched m attr_id v p cs (n ∷ p)
  absent : All (λ k. equals m k attr_id v ≡ false) cs → Searched m attr_id v p cs []

pub find_child-Searched :
    (m : Memory) (attr_id : ℕ) (v : CaliVariant) (p : NodePtr) (cs : List NodeData)
    → Searched m attr_id v p cs (find_child m attr_id v p cs)
unfolding find_child
find_child-Searched m attr_id v p [] = absent tt
find_child-Searched m attr_id v p (n ∷ cs) = elim (Bool-cases (equals m n attr_id v)) [
  | inl e ↦ rw e (found n [] cs refl tt e)
  | inr e ↦ rw e (later e (find_child-Searched m attr_id v p cs))
]
  where
    later :
        {r : NodePtr}
        → equals m n attr_id v ≡ false
        → Searched m attr_id v p cs r
        → Searched m attr_id v p (n ∷ cs) r
    later e (found k before after q none_before eq) =
        found k (n ∷ before) after (ap (λ l. n ∷ l) q) (e, none_before) eq
    later e (absent all) = absent (e, all)

module _ (c : TreeConfig) where
  -- What a call for the child of `p` with the attribute and the value returns.
  pub data Got (t : Tree) (attr_id : ℕ) (v : CaliVariant) (p : NodePtr) (r : NodePtr × Tree)
      : Type 0 where
    was_there :
        (n : NodeData) (before after : List NodeData)
        → t.children p ≡ before ++ (n ∷ after)
        → equals t.memory n attr_id v ≡ true
        → r ≡ (n ∷ p, t)
        → Got t attr_id v p r
    made :
        (n : NodeData)
        → All (λ k. equals t.memory k attr_id v ≡ false) (t.children p)
        → n.attribute ≡ attr_id
        → Copied t.memory r.1.memory v n.content
        → Created c t n p r
        → r.1.next_block ≤ t.next_block + 1
        → Got t attr_id v p r
    no_room :
        All (λ k. equals t.memory k attr_id v ≡ false) (t.children p)
        → r.0 ≡ []
        → c.num_blocks ≤ t.next_block
        → IsTree c r.1
        → r.1.children ≡ t.children
        → ((id : ℕ) → node c r.1 id ≡ node c t id)
        → Got t attr_id v p r

  made_of :
      (t t1 t2 : Tree) (b attr_id : ℕ) (v v' : CaliVariant) (p : NodePtr)
      → All (λ k. equals t.memory k attr_id v ≡ false) (t.children p)
      → t1.children ≡ t.children
      → ((id : ℕ) → node c t1 id ≡ node c t id)
      → t1.memory ≡ t.memory
      → Room c t1 b
      → Copied t1.memory t2.memory v v'
      → Kept c t1 t2
      → t1.next_block ≤ t.next_block + 1
      → Got t attr_id v p (create_node c t2 b attr_id v' p)
  unfolding create_node
  made_of t t1 t2 b attr_id v v' p none_equal kids nodes mem room copied kept next =
      let k = create_node-Created c t2 b attr_id v' p kept.tree (kept.room b room) in
      made _ none_equal refl (subst (λ m. Copied m t2.memory v v') mem copied)
        (record {
          tree = k.tree;
          result = k.result;
          fresh = sym (nodes _) ∙ sym (kept.same_nodes _) ∙ k.fresh;
          new_node = k.new_node;
          old_nodes = λ id ne. k.old_nodes id ne ∙ kept.same_nodes id ∙ nodes id;
          children = λ q.
              k.children q
              ∙ ap
                  (λ (f : NodePtr → List NodeData).
                    if same_node q p
                    then record {
                      id = b * c.nodes_per_block + t2.index b;
                      attribute = attr_id;
                      content = v';
                    }
                      ∷ f q
                    else f q)
                  (kept.same_children ∙ kids);
        })
        (omega (arith, kept.same_next, next))

  -- If the pool can expand, `get_child` on a well-formed tree ends: it returns a child with the
  -- attribute and an equal value, and changes nothing; or none is there, and it returns a new node;
  -- or it returns null, as there is no block for it.
  pub get_child-Got :
      (t : Tree) (attr_id : ℕ) (v : CaliVariant) (parent : NodePtr)
      → c.can_expand ≡ true
      → IsTree c t
      → (r : NodePtr × Tree) × (get_child c t attr_id v parent ≡ some r)
        × Got t attr_id v (or_root parent) r
  unfolding get_child create_child
  get_child-Got t attr_id v parent grows valid =
      at_search _ refl (find_child-Searched t.memory attr_id v p (t.children p))
    where
      p : NodePtr
      p = or_root parent

      blocks_full :
          Dec (t.next_block < c.num_blocks)
          → (t.next_block < c.num_blocks → (b : ℕ) × (◌≡◌ {A = Option ℕ} none (some b)))
          → c.num_blocks ≤ t.next_block
      blocks_full (yes lt) has = absurd (cc ((has lt).1))
      blocks_full (no ge) has = omega arith

      in_block :
          All (λ k. equals t.memory k attr_id v ≡ false) (t.children p)
          → (o : Option ℕ) (t1 : Tree) → Freed c t (o, t1)
          → t1.next_block ≤ t.next_block + 1
          → ((t.next_block < c.num_blocks) → (b : ℕ) × (o ≡ some b))
          → (r : NodePtr × Tree) × (create_child_in c attr_id v p (o, t1) ≡ some r)
            × Got t attr_id v p r
      in_block none_equal none t1 f next has = (
        _,
        refl,
        no_room none_equal refl (blocks_full (dec_lt t.next_block c.num_blocks) has) f.tree
            f.same_children f.same_nodes,
      )
      in_block none_equal (some b) t1 f next has =
          let (v', t2, run, copied, kept) = copy_value-Copied c t1 v grows f.tree in
          (
            _,
            rw run,
            made_of t t1 t2 b attr_id v v' p none_equal f.same_children f.same_nodes f.same_memory
                (f.room b refl) copied kept next,
          )

      at_search :
          (x : NodePtr)
          → find_child t.memory attr_id v p (t.children p) ≡ x
          → Searched t.memory attr_id v p (t.children p) x
          → (r : NodePtr × Tree) × (get_child c t attr_id v parent ≡ some r) × Got t attr_id v p r
      at_search x e (found n before after q first eq) =
          ((n ∷ p, t), rw e, was_there n before after q eq refl)
      at_search x e (absent none_equal) = rw e (
          in_block none_equal (have_free_nodeblock c t 1).0 (have_free_nodeblock c t 1).1
            (have_free_nodeblock-Freed c t valid) (have_free-next c t)
            (λ space. have_free-some c t grows space))
