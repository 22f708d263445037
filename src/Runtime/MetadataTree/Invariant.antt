-- ===== src/Runtime/MetadataTree/Invariant.antt =====
-- What a tree keeps: a node's identifier leads to the node, and blocks are filled in order.
use caliper_msg_pattern.Prelude.{
  ℕ, ◌+◌, ◌*◌, ◌/◌, ◌%◌, ◌≤◌, ◌<◌, ◌≡◌, ◌≢◌, refl, sym, ap, ◌∙◌, arith, Bool, true, false, Option,
  none, some, List, [], ◌∷◌, if◌then◌else◌, leb, ◌||◌, All, Bool-cases, inl, inr, ==_refl,
}
use native.Mathlib.Nat.{
  mul-add-div_right, mul-add-mod_self_right, div-add-mod', div-eq_of_lt, mod-eq_of_lt,
}
use native.Mathlib.Decide.{ℕ_discrete}
use caliper_msg_pattern.Common.Variant.Types.{CaliVariant}
use caliper_msg_pattern.Common.Entry.{NodeData, NodePtr}
use caliper_msg_pattern.Runtime.MetadataTree.{
  NodePtr-discrete, same_node, TreeConfig, Tree, set_at, pool_allocate, node, needs_block,
  take_block, have_free_nodeblock, create_node,
}

pub same_node_refl : (p : NodePtr) → same_node p p ≡ true
unfolding same_node
same_node_refl p =
    elim (NodePtr-discrete p p)
      as (λ d. (elim d as (λ _. Bool) [ yes e ↦ true | no ne ↦ false ]) ≡ true) [
        | yes e ↦ refl
        | no ne ↦ absurd (ne refl)
      ]

pub same_node-eq : (p q : NodePtr) → same_node p q ≡ true → p ≡ q
unfolding same_node
same_node-eq p q =
    elim (NodePtr-discrete p q)
      as (λ d. (elim d as (λ _. Bool) [ yes e ↦ true | no ne ↦ false ]) ≡ true → p ≡ q) [
        | yes e ↦ λ h. e
        | no ne ↦ λ h. cc h
      ]

pub id-div : (b i k : ℕ) → i < k → (b * k + i) / k ≡ b
id-div b i k h = mul-add-div_right (omega arith) b i ∙ omega (arith, div-eq_of_lt h)

pub id-mod : (b i k : ℕ) → i < k → (b * k + i) % k ≡ i
id-mod b i k h = mul-add-mod_self_right b k i ∙ mod-eq_of_lt h

id_of_parts : (id b i k : ℕ) → id / k ≡ b → id % k ≡ i → id ≡ b * k + i
id_of_parts id b i k d m =
    sym (div-add-mod' id k) ∙ ap (λ (x : ℕ). x * k + id % k) d ∙ ap (λ (x : ℕ). b * k + x) m

pub All-map {ℓ κ μ} :
    {A : Type ℓ} {P : A → Type κ} {Q : A → Type μ} (xs : List A)
    → ((x : A) → P x → Q x)
    → All P xs
    → All Q xs
All-map [] f h = tt
All-map (x ∷ xs) f h = (f x h.0, All-map xs f h.1)

module _ (c : TreeConfig) where
  pub record IsTree (t : Tree) : Type 0 where
    pub lookup : (p : NodePtr) → All (λ n. node c t n.id ≡ n ∷ p) (t.children p)
    pub current : (b : ℕ) → t.nodeblock ≡ some b → b < t.next_block
    pub unused : (b : ℕ) → t.next_block ≤ b → t.index b ≡ 0
    pub blocks : t.next_block ≤ c.num_blocks
    pub block_size : 0 < c.nodes_per_block

  -- A block with a free slot.
  pub record Room (t : Tree) (b : ℕ) : Type 0 where
    pub taken : b < t.next_block
    pub slot : t.index b < c.nodes_per_block

  -- What the search for a block leaves as it was.
  pub record Freed (t : Tree) (r : Option ℕ × Tree) : Type 0 where
    pub tree : IsTree r.1
    pub same_children : r.1.children ≡ t.children
    pub same_memory : r.1.memory ≡ t.memory
    pub same_nodes : (id : ℕ) → node c r.1 id ≡ node c t id
    pub room : (b : ℕ) → r.0 ≡ some b → Room r.1 b

  with_pool-IsTree : (t : Tree) (bytes a : ℕ) → IsTree t → IsTree (pool_allocate c t bytes a).1
  unfolding pool_allocate node
  with_pool-IsTree t bytes a v = record {
    lookup = v.lookup;
    current = v.current;
    unused = v.unused;
    blocks = v.blocks;
    block_size = v.block_size;
  }

  same-Freed :
      (t : Tree) (r : Option ℕ) → IsTree t → ((b : ℕ) → r ≡ some b → Room t b) → Freed t (r, t)
  same-Freed t r v room = record {
    tree = v;
    same_children = refl;
    same_memory = refl;
    same_nodes = λ id. refl;
    room = room;
  }

  -- The slots of a block that was not in use.
  opened_nodes :
      (t : Tree) (id : ℕ)
      → IsTree t
      → (leb c.num_blocks (id / c.nodes_per_block)
          || leb (set_at t.index t.next_block 0 (id / c.nodes_per_block)) (id % c.nodes_per_block))
        ≡ (leb c.num_blocks (id / c.nodes_per_block)
            || leb (t.index (id / c.nodes_per_block)) (id % c.nodes_per_block))
  opened_nodes t id v = elim (ℕ_discrete (id / c.nodes_per_block) t.next_block) [
    | yes e ↦ rw (e, ==_refl, v.unused t.next_block (omega arith))
    | no ne ↦ ground arith
  ]

  take_block-Freed :
      (t : Tree) (o : Option ℕ)
      → IsTree t
      → t.next_block < c.num_blocks
      → Freed t (take_block c (o, t))
  unfolding node
  take_block-Freed t none v h = same-Freed t none v (λ b e. absurd (cc e))
  take_block-Freed t (some p) v h =
      let same : (id : ℕ) → node c (take_block c (some p, t)).1 id ≡ node c t id =
        λ id. rw (opened_nodes t id v) in
      record {
        tree = record {
          lookup = λ q. All-map (t.children q) (λ n e. same n.id ∙ e) (v.lookup q);
          current = λ b e. ground arith;
          unused = λ b h. ground (arith, v.unused b);
          blocks = omega arith;
          block_size = v.block_size;
        };
        same_children = refl;
        same_memory = refl;
        same_nodes = same;
        room = λ b e. record { taken = ground arith; slot = ground (arith, v.block_size) };
      }

  pooled-Freed :
      (t : Tree) (bytes a : ℕ)
      → IsTree t
      → t.next_block < c.num_blocks
      → Freed t (take_block c (pool_allocate c t bytes a))
  unfolding pool_allocate node
  pooled-Freed t bytes a v h =
      let r = pool_allocate c t bytes a in
      let f = take_block-Freed r.1 r.0 (with_pool-IsTree t bytes a v) h in
      record {
        tree = f.tree;
        same_children = f.same_children;
        same_memory = f.same_memory;
        same_nodes = f.same_nodes;
        room = f.room;
      }

  pub have_free_nodeblock-Freed : (t : Tree) → IsTree t → Freed t (have_free_nodeblock c t 1)
  unfolding have_free_nodeblock
  have_free_nodeblock-Freed t v = elim (Bool-cases (needs_block c t t.nodeblock 1)) [
    | inl e ↦ rw e (elim (Bool-cases (leb c.num_blocks t.next_block)) [
      | inl f ↦ rw f (same-Freed t none v (λ b q. absurd (cc q)))
      | inr f ↦ rw f (pooled-Freed t (c.nodes_per_block * c.node_size) 8 v (ground arith))
    ])
    | inr e ↦
        rw e (
          same-Freed t t.nodeblock v (λ b q. record { taken = v.current b q; slot = ground arith }))
  ]

  -- What a new node changes.
  pub record Created (t : Tree) (n : NodeData) (p : NodePtr) (r : NodePtr × Tree) : Type 0 where
    pub tree : IsTree r.1
    pub result : r.0 ≡ n ∷ p
    pub fresh : node c t n.id ≡ []
    pub new_node : node c r.1 n.id ≡ n ∷ p
    pub old_nodes : (id : ℕ) → id ≢ n.id → node c r.1 id ≡ node c t id
    pub children :
        (q : NodePtr) → r.1.children q ≡ (if same_node q p then n ∷ t.children q else t.children q)

  module _ (t : Tree) (b attr_id : ℕ) (v : CaliVariant) (p : NodePtr) (valid : IsTree t)
      (room : Room t b) where
    abbrev new_id : ℕ
    new_id = b * c.nodes_per_block + t.index b

    abbrev new_data : NodeData
    new_data = record { id = new_id; attribute = attr_id; content = v }

    abbrev after : Tree
    after = (create_node c t b attr_id v p).1

    id_fresh : node c t new_id ≡ []
    unfolding node
    id_fresh =
        rw
          (
            id-div b (t.index b) c.nodes_per_block room.slot,
            id-mod b (t.index b) c.nodes_per_block room.slot,
          )
          (ground arith)

    id_found : node c after new_id ≡ new_data ∷ p
    unfolding node create_node
    id_found =
        rw
          (
            id-div b (t.index b) c.nodes_per_block room.slot,
            id-mod b (t.index b) c.nodes_per_block room.slot,
          )
          (ground (arith, room.taken, valid.blocks))

    id_others : (id : ℕ) → id ≢ new_id → node c after id ≡ node c t id
    unfolding node create_node
    id_others id ne = elim (ℕ_discrete (id / c.nodes_per_block) b) [
      | yes e ↦ elim (ℕ_discrete (id % c.nodes_per_block) (t.index b)) [
        | yes e' ↦ absurd (ne (id_of_parts id b (t.index b) c.nodes_per_block e e'))
        | no ne' ↦ rw e (ground arith)
      ]
      | no ne' ↦ ground arith
    ]

    old_lookup : (q : NodePtr) → All (λ n. node c after n.id ≡ n ∷ q) (t.children q)
    old_lookup q =
        All-map (t.children q)
          (λ n e. id_others n.id (λ same. cc (sym e ∙ ap (node c t) same ∙ id_fresh)) ∙ e)
          (valid.lookup q)

    pub create_node-Created : Created t new_data p (create_node c t b attr_id v p)
    unfolding create_node
    create_node-Created = record {
      tree = record {
        lookup = λ q. elim (Bool-cases (same_node q p)) [
          | inl e ↦ rw e (rw (same_node-eq q p e) id_found, old_lookup q)
          | inr e ↦ rw e (old_lookup q)
        ];
        current = λ x e. valid.current x e;
        unused = λ x h. ground (arith, valid.unused x h, room.taken);
        blocks = valid.blocks;
        block_size = valid.block_size;
      };
      result = refl;
      fresh = id_fresh;
      new_node = id_found;
      old_nodes = id_others;
      children = λ q. refl;
    }
