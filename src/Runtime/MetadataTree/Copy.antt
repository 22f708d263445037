-- ===== src/Runtime/MetadataTree/Copy.antt =====
-- The parts of `MetadataTree::create_child`: a free block, and the copy of a value.
use caliper_msg_pattern.Prelude.{
  ℕ, ◌+◌, ◌*◌, ◌≤◌, ◌<◌, leb, ◌≡◌, refl, ap, arith, true, false, Option, none, some, List, [], ◌∷◌,
  Bool-cases, inl, inr, le→leb, lt→ltb,
}
use caliper_msg_pattern.Common.Variant.Types.{Memory, CaliVariant, get_size}
use caliper_msg_pattern.Runtime.MemoryPool.{Chunk, Pool, expand, is_full, take_back, allocate}
use caliper_msg_pattern.Runtime.MetadataTree.{
  needs_block, take_block, TreeConfig, Tree, node, have_free_nodeblock, copy_value, pool_allocate,
  has_unmanaged_data, copy_bytes,
}
use caliper_msg_pattern.Runtime.MetadataTree.Invariant.{IsTree, Room}

-- A copy of a value: a string or blob has its bytes elsewhere, and any other value is the same.
pub record Copied (m m' : Memory) (v v' : CaliVariant) : Type 0 where
  pub same_type : v'.type_and_size ≡ v.type_and_size
  pub plain : has_unmanaged_data v ≡ false → (v' ≡ v) × (m' ≡ m)
  pub bytes :
      has_unmanaged_data v ≡ true → (i : ℕ) → i < get_size v → m' (v'.v_uint + i) ≡ m (v.v_uint + i)

copy_bytes_lem :
    (m : Memory) (dst src n i : ℕ) → i < n → copy_bytes m dst src n (dst + i) ≡ m (src + i)
copy_bytes_lem m dst src n i h =
    rw (le→leb dst (dst + i) (omega arith), lt→ltb (dst + i) (dst + n) (omega arith))
      (ap m (omega arith))

take_back-some :
    (p : Pool) (k : Chunk) (cs : List Chunk) (n a : ℕ)
    → (x : ℕ) × ((take_back p (k ∷ cs) n a).0 ≡ some x)
take_back-some p k cs n a = (_, refl)

not_full-some :
    (p : Pool) (cs : List Chunk) (n a : ℕ)
    → is_full cs n a ≡ false
    → (x : ℕ) × ((take_back p cs n a).0 ≡ some x)
not_full-some p [] n a h = cc h
not_full-some p (k ∷ cs) n a h = (_, refl)

pub allocate-some :
    (p : Pool) (n a address : ℕ) → (x : ℕ) × ((allocate p n a true address).0 ≡ some x)
unfolding allocate expand
allocate-some p n a address = elim (Bool-cases (is_full p.chunks n a)) [
  | inl e ↦ rw e (_, refl)
  | inr e ↦ rw e (not_full-some p p.chunks n a e)
]

gt→leb : (a b : ℕ) → b < a → leb a b ≡ false
gt→leb a b h = ground arith

module _ (c : TreeConfig) where
  taken-next : (t : Tree) (o : Option ℕ) → (take_block c (o, t)).1.next_block ≤ t.next_block + 1
  taken-next t none = omega arith
  taken-next t (some p) = omega arith

  pub have_free-next : (t : Tree) → (have_free_nodeblock c t 1).1.next_block ≤ t.next_block + 1
  unfolding have_free_nodeblock pool_allocate
  have_free-next t = elim (Bool-cases (needs_block c t t.nodeblock 1)) [
    | inl e ↦ rw e (elim (Bool-cases (leb c.num_blocks t.next_block)) [
      | inl f ↦ rw f (omega arith)
      | inr f ↦ rw f (
          taken-next (pool_allocate c t (c.nodes_per_block * c.node_size) 8).1
            (pool_allocate c t (c.nodes_per_block * c.node_size) 8).0)
    ])
    | inr e ↦ rw e (omega arith)
  ]

  has_block : (t : Tree) (o : Option ℕ) → needs_block c t o 1 ≡ false → (b : ℕ) × (o ≡ some b)
  has_block t none h = cc h
  has_block t (some b) h = (b, refl)

  pub have_free-some :
      (t : Tree)
      → c.can_expand ≡ true
      → t.next_block < c.num_blocks
      → (b : ℕ) × ((have_free_nodeblock c t 1).0 ≡ some b)
  unfolding have_free_nodeblock pool_allocate
  have_free-some t grows space = elim (Bool-cases (needs_block c t t.nodeblock 1)) [
    | inl e ↦
        let (x, got) =
          allocate-some t.pool (c.nodes_per_block * c.node_size) 8
            (c.chunk_address t.pool.total_reserved) in
        (t.next_block, rw (e, gt→leb c.num_blocks t.next_block space, grows, got))
    | inr e ↦ rw e (has_block t t.nodeblock e)
  ]

  -- A copied value leaves the tree but for the pool and the memory.
  pub record Kept (t t' : Tree) : Type 0 where
    pub tree : IsTree c t'
    pub same_children : t'.children ≡ t.children
    pub same_nodes : (id : ℕ) → node c t' id ≡ node c t id
    pub room : (b : ℕ) → Room c t b → Room c t' b
    pub same_next : t'.next_block ≡ t.next_block

  Kept-refl : (t : Tree) → IsTree c t → Kept t t
  Kept-refl t v = record {
    tree = v;
    same_children = refl;
    same_nodes = λ id. refl;
    room = λ b h. h;
    same_next = refl;
  }

  -- Copying a value ends, as the pool can expand.
  pub copy_value-Copied :
      (t : Tree) (v : CaliVariant)
      → c.can_expand ≡ true
      → IsTree c t
      → (v' : CaliVariant) × (t' : Tree) × (copy_value c t v ≡ some (v', t'))
        × Copied t.memory t'.memory v v'
        × Kept t t'
  unfolding copy_value pool_allocate node
  copy_value-Copied t v grows valid = elim (Bool-cases (has_unmanaged_data v)) [
    | inl e ↦
        let (x, got) =
          allocate-some t.pool (get_size v + 1) 1 (c.chunk_address t.pool.total_reserved) in
        (
          record v { v_uint = x },
          record (pool_allocate c t (get_size v + 1) 1).1 {
            memory = copy_bytes t.memory x v.v_uint (get_size v);
          },
          rw (e, grows, got),
          record {
            same_type = refl;
            plain = λ f. cc;
            bytes = λ f i h. copy_bytes_lem t.memory x v.v_uint (get_size v) i h;
          },
          record {
            tree = record {
              lookup = valid.lookup;
              current = valid.current;
              unused = valid.unused;
              blocks = valid.blocks;
              block_size = valid.block_size;
            };
            same_children = refl;
            same_nodes = λ id. refl;
            room = λ b h. record { taken = h.taken; slot = h.slot };
            same_next = refl;
          },
        )
    | inr e ↦ (
      v,
      t,
      rw e,
      record { same_type = refl; plain = λ f. (refl, refl); bytes = λ f i h. absurd (cc) },
      Kept-refl t valid,
    )
  ]
