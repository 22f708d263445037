-- ===== src/Reader/MetadataDb/Bootstrap.antt =====
-- `setup_bootstrap_nodes`: the types, and the three attributes that describe attributes.
use caliper_msg_pattern.Prelude.{
  ℕ, ◌≤◌, ◌<◌, ◌≡◌, refl, arith, Bool, true, Option, none, some, List, [], ◌∷◌, if◌then◌else◌, ◌==◌,
  length, Bool-cases, inl, inr, zero, suc, ◌&&◌, not, and_true, get_elem?,
}
use native.Mathlib.Decide.{ℕ_discrete}
use caliper_msg_pattern.Common.Variant.Types.{Memory, CaliVariant}
use caliper_msg_pattern.Common.Entry.{NodeData, NodePtr, name_attr_id, is_null}
use caliper_msg_pattern.Runtime.MetadataTree.{root}
use caliper_msg_pattern.Runtime.MetadataTree.Bootstrap.{BootstrapNode, bootstrap_nodes}
use caliper_msg_pattern.Common.Variant.Text.{to_string}
use caliper_msg_pattern.Reader.MetadataDb.{Db, or_null, db_node, db_create_node, insert_name}
use caliper_msg_pattern.Reader.MetadataDb.Nodes.{IsDb, db_create_node-Made}
use caliper_msg_pattern.Reader.MetadataDb.Records.{HasBootstrap}

abbrev pub bootstrap_parent : Db → Option ℕ → NodePtr
bootstrap_parent db none = root
bootstrap_parent db (some id) = db_node db id

abbrev pub empty_db : Db
empty_db = record { children = λ _. []; nodes = []; attributes = []; globals = [] }

all_nodes : List NodePtr → Bool
all_nodes [] = true
all_nodes (p ∷ ps) = not (is_null p) && all_nodes ps

is_node : (p : NodePtr) → not (is_null p) ≡ true → (n : NodeData) × (up : NodePtr) × (p ≡ n ∷ up)
is_node [] h = absurd (cc h)
is_node (n ∷ up) h = (n, up, refl)

is_node-nodes :
    (ps : List NodePtr) (i : ℕ)
    → all_nodes ps ≡ true
    → i < length ps
    → (n : NodeData) × (up : NodePtr) × (or_null (get_elem? ps i) ≡ n ∷ up)
unfolding all_nodes
is_node-nodes [] i h lt = absurd (omega arith)
is_node-nodes (p ∷ ps) zero h lt = is_node p (and_true (not (is_null p)) (all_nodes ps) h).0
is_node-nodes (p ∷ ps) (suc i) h lt =
    is_node-nodes ps i (and_true (not (is_null p)) (all_nodes ps) h).1 (omega arith)

module _ (m : Memory) (print : CaliVariant → List ℕ) where
  abbrev pub with_name : BootstrapNode → NodePtr × Db → Db
  with_name info (node, db) =
      if info.attr_id == 8
      then record db {
        attributes = insert_name (to_string m print info.content) node db.attributes;
      }
      else db

  -- The loop over the bootstrap nodes, whose identifiers count from 0.
  unfoldable pub bootstrap_loop : Db → List BootstrapNode → Db
  unfolding db_create_node db_node insert_name to_string
  bootstrap_loop db [] = db
  bootstrap_loop db (info ∷ rest) =
      bootstrap_loop
        (with_name info
          (db_create_node db info.attr_id info.content (bootstrap_parent db info.parent)))
        rest

  unfoldable pub setup_bootstrap_nodes : (ℕ → ℕ) → Db
  unfolding bootstrap_loop bootstrap_nodes
  setup_bootstrap_nodes text = bootstrap_loop empty_db (bootstrap_nodes m text)

  with_name-IsDb : (info : BootstrapNode) (r : NodePtr × Db) → IsDb r.1 → IsDb (with_name info r)
  unfolding db_node
  with_name-IsDb info r v = elim (Bool-cases (info.attr_id == 8)) [
    | inl e ↦ rw e (record { kids = v.kids; ids = v.ids })
    | inr e ↦ rw e v
  ]

  bootstrap_loop-IsDb :
      (db : Db) (infos : List BootstrapNode) → IsDb db → IsDb (bootstrap_loop db infos)
  unfolding bootstrap_loop
  bootstrap_loop-IsDb db [] v = v
  bootstrap_loop-IsDb db (info ∷ rest) v =
      let r = db_create_node db info.attr_id info.content (bootstrap_parent db info.parent) in
      bootstrap_loop-IsDb (with_name info r) rest (
        with_name-IsDb info r
          (db_create_node-Made db info.attr_id info.content (bootstrap_parent db info.parent)
            v).valid)

  pub setup-IsDb : (text : ℕ → ℕ) → IsDb (setup_bootstrap_nodes text)
  unfolding setup_bootstrap_nodes db_node
  setup-IsDb text =
      bootstrap_loop-IsDb empty_db (bootstrap_nodes m text)
        (record { kids = λ p. tt; ids = λ i n up e. absurd (cc e) })

  setup-nodes :
      (text : ℕ → ℕ) (i : ℕ)
      → i < 12
      → (n : NodeData) × (up : NodePtr) × (db_node (setup_bootstrap_nodes text) i ≡ n ∷ up)
  unfolding setup_bootstrap_nodes bootstrap_loop db_create_node db_node bootstrap_nodes all_nodes
  setup-nodes text i lt = is_node-nodes (setup_bootstrap_nodes text).nodes i refl lt

  setup-attributes :
      (text : ℕ → ℕ) (i : ℕ)
      → 8 ≤ i
      → i ≤ 10
      → (n : NodeData) × (up : NodePtr) × (db_node (setup_bootstrap_nodes text) i ≡ n ∷ up)
        × (n.attribute ≡ name_attr_id)
  unfolding setup_bootstrap_nodes bootstrap_loop db_create_node db_node bootstrap_nodes
  setup-attributes text i ge le = elim (ℕ_discrete i 8) [
    | yes e ↦ rw e (_, _, refl, refl)
    | no ne ↦ elim (ℕ_discrete i 9) [
      | yes e ↦ rw e (_, _, refl, refl)
      | no ne' ↦ let e : i ≡ 10 = omega arith in rw e (_, _, refl, refl)
    ]
  ]

  -- The database that a reader starts with is well formed and has the bootstrap nodes.
  pub setup-HasBootstrap : (text : ℕ → ℕ) → HasBootstrap (setup_bootstrap_nodes text)
  setup-HasBootstrap text = record { nodes = setup-nodes text; attributes = setup-attributes text }
