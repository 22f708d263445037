-- ===== src/Reader/MetadataDb/Stream.antt =====
-- The nodes of a stream, merged one after the other: the database has each of them under its mapped
-- parent.
use caliper_msg_pattern.Prelude.{
  ℕ, ◌+◌, ◌≤◌, ◌<◌, ◌≡◌, ◌≢◌, refl, sym, ap, ◌∙◌, arith, true, Option, none, some, List, [], ◌∷◌,
  All, inl, inr, ◌⊎◌, length, ◌>>=◌,
}
use caliper_msg_pattern.Common.Variant.Types.{Memory, CaliVariant}
use caliper_msg_pattern.Common.Entry.{NodeData, NodePtr, inv_id, name_attr_id, is_attribute}
use caliper_msg_pattern.Runtime.MetadataTree.Invariant.{All-map}
use caliper_msg_pattern.Reader.MetadataDb.{
  Db, IdMap, find_id, map_id, db_node, merge_node, with_id, merge_node_mapped,
}
use caliper_msg_pattern.Reader.MetadataDb.Nodes.{IsDb, Kept, Merged, db_node-lt}
use caliper_msg_pattern.Reader.MetadataDb.Merge.{parent_at, is_valid_info, merge_node-Merged}
use caliper_msg_pattern.Reader.MetadataDb.Records.{
  NodeRecord, IsNew, Among, IsKnown, IsStream, HasBootstrap, Mirrors, All-both, Kept-Bootstrap,
  unmapped_id, small_unmapped, parent_at-Kept, rooted-Kept, with_new_id, new_id-find, new_id-map,
  new_id-own, Mirrors-Kept,
}

module _ (m : Memory) (print : CaliVariant → List ℕ) where
  unfoldable pub merge_stream : Db → IdMap → List NodeRecord → Option (Db × IdMap)
  unfolding merge_node_mapped
  merge_stream db idmap [] = some (db, idmap)
  merge_stream db idmap (r ∷ rs) = do
    (node, db', idmap') ← merge_node_mapped m print db r.id r.attribute r.parent r.content idmap
    merge_stream db' idmap' rs

  -- What the merging keeps.
  record Goes (seen : List NodeRecord) (db : Db) (idmap : IdMap) : Type 0 where
    valid : IsDb db
    bootstrap : HasBootstrap db
    mirrors : All (Mirrors m db idmap) seen
    unmapped : (id : ℕ) → All (λ s. s.id ≢ id) seen → find_id idmap id ≡ none
    large : All (λ s. (12 ≤ s.id) × (s.id ≢ inv_id)) seen

  among-node :
      (db : Db) (idmap : IdMap) (seen : List NodeRecord) (P : NodeRecord → Type 0)
      → All (Mirrors m db idmap) seen
      → Among P seen
      → (s : NodeRecord) × P s × Mirrors m db idmap s
  among-node db idmap [] P ms h = absurd h
  among-node db idmap (s ∷ seen) P ms (inl h) = (s, h, ms.0)
  among-node db idmap (s ∷ seen) P ms (inr h) = among-node db idmap seen P ms.1 h

  -- The step for one record.
  module _ (seen : List NodeRecord) (db : Db) (idmap : IdMap) (r : NodeRecord)
      (g : Goes seen db idmap) (new : IsNew seen r) (known : IsKnown seen r)
      (small : length db.nodes ≤ inv_id) where
    same_id : (id : ℕ) → (id < 12) ⊎ (id ≡ inv_id) → map_id id idmap ≡ id
    same_id id h = unmapped_id id idmap (g.unmapped id (small_unmapped seen id g.large h))

    parent-rooted :
        (map_id r.parent idmap ≡ inv_id)
        ⊎ ((n : NodeData) × (up : NodePtr) × (db_node db (map_id r.parent idmap) ≡ n ∷ up))
    parent-rooted = elim known.parent [
      | inl e ↦ inl (same_id r.parent (inr e) ∙ e)
      | inr (inl lt) ↦
          let (n, up, e) = g.bootstrap.nodes r.parent lt in
          inr (n, up, rw (same_id r.parent (inl lt)) e)
      | inr (inr a) ↦
          let (s, e, k) = among-node db idmap seen (λ s. s.id ≡ r.parent) g.mirrors a in
          inr (k.node, parent_at db (map_id s.parent idmap), rw (sym e) k.there)
    ]

    attribute-known : is_attribute (db_node db (map_id r.attribute idmap)) ≡ true
    attribute-known = elim known.attribute [
      | inl h ↦
          let (n, up, e, a) = g.bootstrap.attributes r.attribute h.0 h.1 in
          rw (same_id r.attribute (inl (omega arith)), e) (ground arith)
      | inr a ↦
          let (s, e, k) =
            among-node db idmap seen (λ s. (s.id ≡ r.attribute) × (s.attribute ≡ name_attr_id))
              g.mirrors a in
          rw (sym e.0, k.there)
            (ground (arith, k.attribute, e.1, same_id name_attr_id (inl (omega arith))))
    ]

    info-valid :
        is_valid_info db r.id (map_id r.attribute idmap) (map_id r.parent idmap) r.content ≡ true
    info-valid = elim parent-rooted [
      | inl e ↦ rw (attribute-known, known.content) (ground (arith, new.own.1))
      | inr (n, up, e) ↦
          rw (attribute-known, known.content)
            (ground (arith, new.own.1, db_node-lt db (map_id r.parent idmap) n up e))
    ]

  -- What is left of a step that the code takes.
  record Stepped (seen : List NodeRecord) (db : Db) (idmap : IdMap) (r : NodeRecord) : Type 0 where
    node : NodePtr
    db' : Db
    idmap' : IdMap
    runs :
        merge_node_mapped m print db r.id r.attribute r.parent r.content idmap
        ≡ some (node, db', idmap')
    kept : Kept db db'
    one_more : length db'.nodes ≤ length db.nodes + 1
    goes : Goes (r ∷ seen) db' idmap'

  module _ (seen : List NodeRecord) (db : Db) (idmap : IdMap) (r : NodeRecord)
      (g : Goes seen db idmap) (new : IsNew seen r) (known : IsKnown seen r)
      (small : length db.nodes ≤ inv_id) where
    abbrev attr_id : ℕ
    attr_id = map_id r.attribute idmap

    abbrev prnt_id : ℕ
    prnt_id = map_id r.parent idmap

    abbrev result : NodePtr × Db
    result = merge_node m print db r.id attr_id prnt_id r.content

    merged : Merged m db attr_id r.content (parent_at db prnt_id) result
    merged =
        merge_node-Merged db small m print r.id attr_id prnt_id r.content g.valid
          (info-valid seen db idmap r g new known small)

    id_unmapped : find_id idmap r.id ≡ none
    id_unmapped = g.unmapped r.id (All-map seen (λ s h. h.0) new.others)

    step-Goes : Goes (r ∷ seen) result.1 (with_new_id r.id merged.node.id idmap)
    step-Goes = record {
      valid = merged.valid;
      bootstrap = Kept-Bootstrap db result.1 merged.kept g.bootstrap;
      mirrors = (
        record {
          node = merged.node;
          there =
              rw
                (
                  new_id-own r.id merged.node.id idmap id_unmapped,
                  new_id-map r.id merged.node.id r.parent idmap id_unmapped new.own.3,
                )
                (merged.there
                  ∙ ap (λ p. merged.node ∷ p)
                      (sym (
                        parent_at-Kept db result.1 prnt_id merged.kept
                          (parent-rooted seen db idmap r g new known small))));
          attribute =
              merged.attribute
              ∙ sym (new_id-map r.id merged.node.id r.attribute idmap id_unmapped new.own.2);
          content = merged.equal;
          rooted = rw (new_id-map r.id merged.node.id r.parent idmap id_unmapped new.own.3) (
              rooted-Kept db result.1 prnt_id merged.kept
                (parent-rooted seen db idmap r g new known small));
        },
        All-both seen
            (λ s ne k.
              Mirrors-Kept m db result.1 idmap r.id merged.node.id s merged.kept id_unmapped ne k)
            new.others g.mirrors,
      );
      unmapped = λ id h.
          new_id-find r.id merged.node.id id idmap id_unmapped (λ q. h.0 (sym q))
          ∙ g.unmapped id h.1;
      large = ((new.own.0, new.own.1), g.large);
    }

    step-Stepped : Stepped seen db idmap r
    unfolding merge_node_mapped with_new_id with_id
    step-Stepped = record {
      node = merged.node ∷ parent_at db prnt_id;
      db' = result.1;
      idmap' = with_new_id r.id merged.node.id idmap;
      runs = ap (λ n. with_id r.id idmap (n, result.1)) merged.result;
      kept = merged.kept;
      one_more = merged.one_more;
      goes = step-Goes;
    }

  -- The database and the map behind a stream.
  pub record Mirrored (db : Db) (idmap : IdMap) (before rs : List NodeRecord) : Type 0 where
    pub db' : Db
    pub idmap' : IdMap
    pub runs : merge_stream db idmap rs ≡ some (db', idmap')
    pub valid : IsDb db'
    pub kept : Kept db db'
    pub earlier : All (Mirrors m db' idmap') before
    pub mirrors : All (Mirrors m db' idmap') rs

  merge_seen-Mirrored :
      (seen rs : List NodeRecord) (db : Db) (idmap : IdMap)
      → Goes seen db idmap
      → IsStream seen rs
      → length db.nodes + length rs ≤ inv_id
      → Mirrored db idmap seen rs
  unfolding merge_stream
  merge_seen-Mirrored seen [] db idmap g st small = record {
    db' = db;
    idmap' = idmap;
    runs = refl;
    valid = g.valid;
    kept = λ i n up e. e;
    earlier = g.mirrors;
    mirrors = tt;
  }
  merge_seen-Mirrored seen (r ∷ rs) db idmap g st small =
      let s = step-Stepped seen db idmap r g st.0 st.1 (omega arith) in
      let k =
        merge_seen-Mirrored (r ∷ seen) rs s.db' s.idmap' s.goes st.2 (omega (arith, s.one_more)) in
      record {
        db' = k.db';
        idmap' = k.idmap';
        runs = rw s.runs k.runs;
        valid = k.valid;
        kept = λ i n up e. k.kept i n up (s.kept i n up e);
        earlier = k.earlier.1;
        mirrors = (k.earlier.0, k.mirrors);
      }

  -- Let a stream have records with new identifiers, whose attributes and parents came before or
  -- are bootstrap nodes, or whose parents are none, and with values. On a well-formed database
  -- with the bootstrap nodes, into which any other streams were merged and which has identifiers
  -- for all the records, merging the stream with an empty map never reads a null node. Behind it
  -- the map leads each record's identifier to a node with an equal value, with the mapped
  -- attribute, below the node of its mapped parent. Every identifier of the database leads to the
  -- node that it led to, and the database is well formed.
  pub merge_stream-Mirrored :
      (db : Db) (rs : List NodeRecord)
      → IsDb db
      → HasBootstrap db
      → IsStream [] rs
      → length db.nodes + length rs ≤ inv_id
      → Mirrored db [] [] rs
  unfolding find_id
  merge_stream-Mirrored db rs valid bootstrap st small =
      merge_seen-Mirrored [] rs db []
        (record {
          valid = valid;
          bootstrap = bootstrap;
          mirrors = tt;
          unmapped = λ id _. refl;
          large = tt;
        })
        st small
