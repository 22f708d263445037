-- ===== src/Reader/MetadataDb/Records.antt =====
-- The records of nodes in a stream, and what of the map and the database a merge keeps.
use caliper_msg_pattern.Prelude.{
  ℕ, ◌≤◌, ◌<◌, ◌≡◌, ◌≢◌, refl, sym, ap, ◌∙◌, arith, true, false, none, List, [], ◌∷◌, if◌then◌else◌,
  ◌==◌, All, Bool-cases, inl, inr, ◌⊎◌,
}
use caliper_msg_pattern.Common.Variant.Types.{Memory, CaliVariant}
use caliper_msg_pattern.Common.Variant.Compare.{variant_eq}
use caliper_msg_pattern.Common.Entry.{NodeData, NodePtr, inv_id, name_attr_id, is_empty_value}
use caliper_msg_pattern.Runtime.MetadataTree.Invariant.{All-map}
use caliper_msg_pattern.Reader.MetadataDb.{Db, IdMap, find_id, map_id, insert_id, or_same, db_node}
use caliper_msg_pattern.Reader.MetadataDb.Nodes.{Kept}
use caliper_msg_pattern.Reader.MetadataDb.Merge.{parent_at}

-- A record of a node, as a stream has it.
pub record NodeRecord : Type 0 where
  pub id : ℕ
  pub attribute : ℕ
  pub parent : ℕ
  pub content : CaliVariant

-- The records before this one do not name its identifier, nor does it itself.
pub record IsNew (seen : List NodeRecord) (r : NodeRecord) : Type 0 where
  pub own : (12 ≤ r.id) × (r.id ≢ inv_id) × (r.attribute ≢ r.id) × (r.parent ≢ r.id)
  pub others : All (λ s. (s.id ≢ r.id) × (s.attribute ≢ r.id) × (s.parent ≢ r.id)) seen

-- A record that comes before.
abbrev pub Among : (NodeRecord → Type 0) → List NodeRecord → Type 0
Among P [] = ⊥
Among P (s ∷ seen) = P s ⊎ Among P seen

-- The attribute is one of those that describe attributes, or came before; so for the parent, which
-- may also be none.
pub record IsKnown (seen : List NodeRecord) (r : NodeRecord) : Type 0 where
  pub attribute :
      ((8 ≤ r.attribute) × (r.attribute ≤ 10))
      ⊎ Among (λ s. (s.id ≡ r.attribute) × (s.attribute ≡ name_attr_id)) seen
  pub parent : (r.parent ≡ inv_id) ⊎ ((r.parent < 12) ⊎ Among (λ s. s.id ≡ r.parent) seen)
  pub content : is_empty_value r.content ≡ false

-- A stream behind the records `seen`.
abbrev pub IsStream : List NodeRecord → List NodeRecord → Type 0
IsStream seen [] = Unit
IsStream seen (r ∷ rs) = IsNew seen r × IsKnown seen r × IsStream (r ∷ seen) rs

-- The database has the bootstrap nodes.
pub record HasBootstrap (db : Db) : Type 0 where
  pub nodes : (i : ℕ) → i < 12 → (n : NodeData) × (up : NodePtr) × (db_node db i ≡ n ∷ up)
  pub attributes :
      (i : ℕ)
      → 8 ≤ i
      → i ≤ 10
      → (n : NodeData) × (up : NodePtr) × (db_node db i ≡ n ∷ up) × (n.attribute ≡ name_attr_id)

-- The node that a record was merged into.
pub record Mirrors (m : Memory) (db : Db) (idmap : IdMap) (r : NodeRecord) : Type 0 where
  pub node : NodeData
  pub there : db_node db (map_id r.id idmap) ≡ node ∷ parent_at db (map_id r.parent idmap)
  pub attribute : node.attribute ≡ map_id r.attribute idmap
  pub content : variant_eq m node.content r.content ≡ true
  pub rooted :
      (map_id r.parent idmap ≡ inv_id)
      ⊎ ((n : NodeData) × (up : NodePtr) × (db_node db (map_id r.parent idmap) ≡ n ∷ up))

pub All-both {ℓ κ μ ν} :
    {A : Type ℓ} {P : A → Type κ} {Q : A → Type μ} {R : A → Type ν} (xs : List A)
    → ((x : A) → P x → Q x → R x)
    → All P xs
    → All Q xs
    → All R xs
All-both [] f ps qs = tt
All-both (x ∷ xs) f ps qs = (f x ps.0 qs.0, All-both xs f ps.1 qs.1)

pub Kept-Bootstrap : (db db' : Db) → Kept db db' → HasBootstrap db → HasBootstrap db'
Kept-Bootstrap db db' kept b = record {
  nodes = λ i lt. let (n, up, e) = b.nodes i lt in (n, up, kept i n up e);
  attributes = λ i ge le. let (n, up, e, a) = b.attributes i ge le in (n, up, kept i n up e, a);
}

pub unmapped_id : (id : ℕ) (idmap : IdMap) → find_id idmap id ≡ none → map_id id idmap ≡ id
unfolding map_id
unmapped_id id idmap e = rw e refl

pub small_unmapped :
    (seen : List NodeRecord) (id : ℕ)
    → All (λ s. (12 ≤ s.id) × (s.id ≢ inv_id)) seen
    → (id < 12) ⊎ (id ≡ inv_id)
    → All (λ s. s.id ≢ id) seen
small_unmapped seen id large (inl lt) = All-map seen (λ s h e. omega (arith, h.0)) large
small_unmapped seen id large (inr e) = All-map seen (λ s h q. h.1 (q ∙ e)) large

pub parent_at-Kept :
    (db db' : Db) (i : ℕ)
    → Kept db db'
    → (i ≡ inv_id) ⊎ ((n : NodeData) × (up : NodePtr) × (db_node db i ≡ n ∷ up))
    → parent_at db' i ≡ parent_at db i
parent_at-Kept db db' i kept (inl e) = ground arith
parent_at-Kept db db' i kept (inr (n, up, e)) = rw (e, kept i n up e) refl

pub rooted-Kept :
    (db db' : Db) (i : ℕ)
    → Kept db db'
    → (i ≡ inv_id) ⊎ ((n : NodeData) × (up : NodePtr) × (db_node db i ≡ n ∷ up))
    → (i ≡ inv_id) ⊎ ((n : NodeData) × (up : NodePtr) × (db_node db' i ≡ n ∷ up))
rooted-Kept db db' i kept (inl e) = inl e
rooted-Kept db db' i kept (inr (n, up, e)) = inr (n, up, kept i n up e)

unfoldable pub with_new_id : ℕ → ℕ → IdMap → IdMap
unfolding insert_id
with_new_id i k idmap = if i == k then idmap else insert_id i k idmap

pub new_id-find :
    (i k j : ℕ) (idmap : IdMap)
    → find_id idmap i ≡ none
    → j ≢ i
    → find_id (with_new_id i k idmap) j ≡ find_id idmap j
unfolding with_new_id insert_id find_id
new_id-find i k j idmap e ne = elim (Bool-cases (i == k)) [
  | inl same ↦ rw same refl
  | inr other ↦ rw (other, e) (ground arith)
]

pub new_id-map :
    (i k j : ℕ) (idmap : IdMap)
    → find_id idmap i ≡ none
    → j ≢ i
    → map_id j (with_new_id i k idmap) ≡ map_id j idmap
unfolding map_id
new_id-map i k j idmap e ne = ap (λ o. or_same o j) (new_id-find i k j idmap e ne)

pub new_id-own :
    (i k : ℕ) (idmap : IdMap) → find_id idmap i ≡ none → map_id i (with_new_id i k idmap) ≡ k
unfolding map_id with_new_id insert_id find_id
new_id-own i k idmap e = elim (Bool-cases (i == k)) [
  | inl same ↦ rw (same, e) (ground arith)
  | inr other ↦ rw (other, e) (ground arith)
]

pub Mirrors-Kept :
    (m : Memory) (db db' : Db) (idmap : IdMap) (i k : ℕ) (s : NodeRecord)
    → Kept db db'
    → find_id idmap i ≡ none
    → (s.id ≢ i) × (s.attribute ≢ i) × (s.parent ≢ i)
    → Mirrors m db idmap s
    → Mirrors m db' (with_new_id i k idmap) s
Mirrors-Kept m db db' idmap i k s kept e ne mir = record {
  node = mir.node;
  there =
      rw (new_id-map i k s.id idmap e ne.0, new_id-map i k s.parent idmap e ne.2)
        (kept _ _ _ mir.there
          ∙ ap (λ p. mir.node ∷ p)
              (sym (parent_at-Kept db db' (map_id s.parent idmap) kept mir.rooted)));
  attribute = mir.attribute ∙ sym (new_id-map i k s.attribute idmap e ne.1);
  content = mir.content;
  rooted =
      rw (new_id-map i k s.parent idmap e ne.2)
        (rooted-Kept db db' (map_id s.parent idmap) kept mir.rooted);
}
