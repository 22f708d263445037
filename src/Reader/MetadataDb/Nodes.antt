-- ===== src/Reader/MetadataDb/Nodes.antt =====
-- The nodes of the database: an identifier leads to its node, and a merge finds a node or adds one.
use caliper_msg_pattern.Prelude.{
  ℕ, ◌+◌, ◌≤◌, ◌<◌, ◌≡◌, refl, sym, ap, ◌∙◌, arith, Bool, true, some, List, [], ◌∷◌, ◌++◌,
  if◌then◌else◌, ◌==◌, All, Bool-cases, Option-cases, ◌&&◌, and_true, inl, inr, length, get_elem?,
  get_elem?-lt, get_elem?-append, get_elem?-last, get_elem?-push, length-append,
}
use caliper_msg_pattern.Common.Variant.Types.{Memory, CaliVariant}
use caliper_msg_pattern.Common.Variant.Compare.{variant_eq, variant_eq_refl}
use caliper_msg_pattern.Common.Entry.{NodeData, NodePtr, name_attr_id, is_null, attribute_id}
use caliper_msg_pattern.Runtime.MetadataTree.{same_node, equals, find_child}
use caliper_msg_pattern.Runtime.MetadataTree.Invariant.{same_node-eq, All-map}
use caliper_msg_pattern.Runtime.MetadataTree.Child.{Searched, found, absent, find_child-Searched}
use caliper_msg_pattern.Reader.MetadataDb.{
  Db, or_null, db_node, db_create_node, find_or_create, with_attribute,
}

-- Each child of a node, and each node of the list, is the node of its identifier.
pub record IsDb (db : Db) : Type 0 where
  pub kids : (p : NodePtr) → All (λ n. db_node db n.id ≡ n ∷ p) (db.children p)
  pub ids : (i : ℕ) (n : NodeData) (up : NodePtr) → db_node db i ≡ n ∷ up → n.id ≡ i

db_node-some :
    (db : Db) (i : ℕ) (n : NodeData) (up : NodePtr)
    → db_node db i ≡ n ∷ up
    → get_elem? db.nodes i ≡ some (n ∷ up)
unfolding db_node
db_node-some db i n up h = elim (Option-cases (get_elem? db.nodes i)) [
  | inl e ↦ absurd (cc (sym h ∙ ap or_null e))
  | inr (p, e) ↦ e ∙ ap some (sym (ap or_null e) ∙ h)
]

pub db_node-lt :
    (db : Db) (i : ℕ) (n : NodeData) (up : NodePtr) → db_node db i ≡ n ∷ up → i < length db.nodes
db_node-lt db i n up h = get_elem?-lt db.nodes i (n ∷ up) (db_node-some db i n up h)

-- What a new node leaves as it was.
abbrev pub Kept : Db → Db → Type 0
Kept db db' = (i : ℕ) (n : NodeData) (up : NodePtr) → db_node db i ≡ n ∷ up → db_node db' i ≡ n ∷ up

abbrev pub next_node : Db → ℕ → CaliVariant → NodeData
next_node db attr_id v = record { id = length db.nodes; attribute = attr_id; content = v }

pub record Made (db : Db) (n : NodeData) (p : NodePtr) (r : NodePtr × Db) : Type 0 where
  pub valid : IsDb r.1
  kept : Kept db r.1
  one_more : length r.1.nodes ≡ length db.nodes + 1
  there : db_node r.1 n.id ≡ n ∷ p
  result : r.0 ≡ n ∷ p

module _ (db : Db) (attr_id : ℕ) (v : CaliVariant) (p : NodePtr) where
  abbrev new : NodeData
  new = next_node db attr_id v

  abbrev after : Db
  after = (db_create_node db attr_id v p).1

  created-Kept : Kept db after
  unfolding db_create_node db_node
  created-Kept i n up h =
      ap or_null (get_elem?-append db.nodes ((new ∷ p) ∷ []) i (n ∷ up) (db_node-some db i n up h))

  created-there : db_node after new.id ≡ new ∷ p
  unfolding db_create_node db_node
  created-there = ap or_null (get_elem?-last db.nodes (new ∷ p))

  created-ids :
      IsDb db → (i : ℕ) (n : NodeData) (up : NodePtr) → db_node after i ≡ n ∷ up → n.id ≡ i
  unfolding db_create_node db_node
  created-ids valid i n up h =
      elim (get_elem?-push db.nodes (new ∷ p) i (n ∷ up) (db_node-some after i n up h)) [
        | inl e ↦ valid.ids i n up (ap or_null e)
        | inr (e, q) ↦ ap attribute_id (sym q) ∙ sym e
      ]

  created-kids : IsDb db → (q : NodePtr) → All (λ n. db_node after n.id ≡ n ∷ q) (after.children q)
  unfolding db_create_node
  created-kids valid q =
      let old = All-map (db.children q) (λ n e. created-Kept n.id n q e) (valid.kids q) in
      elim (Bool-cases (same_node q p)) [
        | inl e ↦ rw e (rw (same_node-eq q p e) created-there, old)
        | inr e ↦ rw e old
      ]

  pub db_create_node-Made : IsDb db → Made db new p (db_create_node db attr_id v p)
  unfolding db_create_node
  db_create_node-Made valid = record {
    valid = record { kids = created-kids valid; ids = created-ids valid };
    kept = created-Kept;
    one_more = length-append db.nodes ((new ∷ p) ∷ []);
    there = created-there;
    result = refl;
  }

-- A child of `p` with the attribute and an equal value, which the database has.
pub record Merged (m : Memory) (db : Db) (attr_id : ℕ) (v : CaliVariant) (p : NodePtr)
    (r : NodePtr × Db) : Type 0 where
  pub node : NodeData
  pub result : r.0 ≡ node ∷ p
  pub attribute : node.attribute ≡ attr_id
  pub equal : variant_eq m node.content v ≡ true
  pub there : db_node r.1 node.id ≡ node ∷ p
  pub valid : IsDb r.1
  pub kept : Kept db r.1
  pub one_more : length r.1.nodes ≤ length db.nodes + 1

All-middle {ℓ κ} :
    {A : Type ℓ} (P : A → Type κ) (before : List A) (x : A) (behind : List A)
    → All P (before ++ (x ∷ behind))
    → P x
All-middle P [] x behind h = h.0
All-middle P (y ∷ before) x behind h = All-middle P before x behind h.1

equals_parts :
    (m : Memory) (n : NodeData) (attr_id : ℕ) (v : CaliVariant)
    → equals m n attr_id v ≡ true
    → (variant_eq m n.content v ≡ true) × (n.attribute ≡ attr_id)
equals_parts m n attr_id v h =
    let (same, at) = and_true (variant_eq m n.content v) (n.attribute == attr_id) h in
    (same, ground arith)

module _ (m : Memory) (db : Db) (attr_id : ℕ) (v : CaliVariant) (p : NodePtr)
    (valid : IsDb db) where
  searched-Merged :
      (x : NodePtr)
      → Searched m attr_id v p (db.children p) x
      → Merged m db attr_id v p (if is_null x then db_create_node db attr_id v p else (x, db))
  searched-Merged x (found n before behind q first eq) =
      let (same, at) = equals_parts m n attr_id v eq in
      record {
        node = n;
        result = refl;
        attribute = at;
        equal = same;
        there =
            All-middle (λ k. db_node db k.id ≡ k ∷ p) before n behind (rw (sym q) (valid.kids p));
        valid = valid;
        kept = λ i k up h. h;
        one_more = omega arith;
      }
  searched-Merged x (absent _) =
      let made = db_create_node-Made db attr_id v p valid in
      record {
        node = next_node db attr_id v;
        result = made.result;
        attribute = refl;
        equal = variant_eq_refl m v;
        there = made.there;
        valid = made.valid;
        kept = made.kept;
        one_more = omega (arith, made.one_more);
      }

  pub find_or_create-Merged : Merged m db attr_id v p (find_or_create m db attr_id v p)
  unfolding find_or_create
  find_or_create-Merged =
      searched-Merged (find_child m attr_id v p (db.children p))
        (find_child-Searched m attr_id v p (db.children p))

  pub with_attribute-Merged :
      (print : CaliVariant → List ℕ) (is_new : Bool) (r : NodePtr × Db)
      → Merged m db attr_id v p r
      → Merged m db attr_id v p (with_attribute m print is_new attr_id v r)
  unfolding db_node
  with_attribute-Merged print is_new r k = elim (Bool-cases (is_new && attr_id == name_attr_id)) [
    | inl e ↦ rw e (record {
      node = k.node;
      result = k.result;
      attribute = k.attribute;
      equal = k.equal;
      there = k.there;
      valid = record { kids = k.valid.kids; ids = k.valid.ids };
      kept = k.kept;
      one_more = k.one_more;
    })
    | inr e ↦ rw e k
  ]
