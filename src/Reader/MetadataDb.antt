-- ===== src/Reader/MetadataDb.antt =====
-- src/reader/CaliperMetadataDB.cpp: the database of context nodes into which the reader merges the
-- nodes of the streams that it reads. The nodes of a stream have the stream's identifiers; a map
-- of the stream leads from these to the identifiers of the database. A node pointer is the path to
-- the root, as in Common.Entry. The strings of the values are in the string database already.
-- The result `none` is a read of a null node. `print` is as in
-- Common.Variant.Text.
pub mod Nodes
pub mod Merge
pub mod Records
pub mod Stream
pub mod Bootstrap
pub mod Again
mod Tests
use caliper_msg_pattern.Prelude.{
  ℕ, zero, suc, ◌+◌, ◌-◌, Bool, true, false, ◌&&◌, ◌||◌, Option, none, some, List, [], ◌∷◌, ◌++◌,
  if◌then◌else◌, ◌==◌, leb, length, get_elem?, ◌>>=◌,
}
use caliper_msg_pattern.Common.Variant.Types.{
  Memory, AttrType, type_string, CaliVariant, get_type, get_size,
}
use caliper_msg_pattern.Common.Variant.Text.{same_text, to_string}
use caliper_msg_pattern.Common.Entry.{
  NodeData, NodePtr, inv_id, name_attr_id, is_null, is_empty_value, Attribute, make_attribute,
  Entry, no_entry, immediate_entry,
}
use caliper_msg_pattern.Common.Snapshot.{entry_eq}
use caliper_msg_pattern.Runtime.MetadataTree.{root, or_root, same_node, find_child}
use caliper_msg_pattern.Runtime.Caliper.{entry_of}

abbrev pub IdMap : Type 0
IdMap = List (ℕ × ℕ)

-- `idmap.find(id)`
unfoldable pub find_id : IdMap → ℕ → Option ℕ
find_id [] id = none
find_id ((k, v) ∷ rest) id = if k == id then some v else find_id rest id

abbrev pub or_same : Option ℕ → ℕ → ℕ
or_same none id = id
or_same (some k) id = k

unfoldable pub map_id : ℕ → IdMap → ℕ
unfolding find_id
map_id id idmap = or_same (find_id idmap id) id

abbrev pub insert_at : Option ℕ → ℕ → ℕ → IdMap → IdMap
insert_at none id k idmap = (id, k) ∷ idmap
insert_at (some _) id k idmap = idmap

-- `idmap.insert(make_pair(id, k))` keeps an entry that is there.
unfoldable pub insert_id : ℕ → ℕ → IdMap → IdMap
unfolding find_id
insert_id id k idmap = insert_at (find_id idmap id) id k idmap

abbrev pub Names : Type 0
Names = List (List ℕ × NodePtr)

unfoldable pub find_name : Names → List ℕ → Option NodePtr
unfolding same_text
find_name [] name = none
find_name ((k, n) ∷ rest) name = if same_text k name then some n else find_name rest name

abbrev pub insert_name_at : Option NodePtr → List ℕ → NodePtr → Names → Names
insert_name_at none name node names = (name, node) ∷ names
insert_name_at (some _) name node names = names

-- `m_attributes.insert(make_pair(name, node))`
unfoldable pub insert_name : List ℕ → NodePtr → Names → Names
unfolding find_name
insert_name name node names = insert_name_at (find_name names name) name node names

pub record Db : Type 0 where
  pub children : NodePtr → List NodeData
  pub nodes : List NodePtr
  pub attributes : Names
  pub globals : List Entry

abbrev pub or_null : Option NodePtr → NodePtr
or_null none = []
or_null (some p) = p

-- `node(id)`
unfoldable pub db_node : Db → ℕ → NodePtr
db_node db id = or_null (get_elem? db.nodes id)

-- `attribute(id)`
unfoldable pub db_attribute : Db → ℕ → Attribute
unfolding db_node
db_attribute db id = make_attribute (db_node db id)

unfoldable pub db_create_node : Db → ℕ → CaliVariant → NodePtr → NodePtr × Db
unfolding same_node
db_create_node db attr_id v parent =
    let n : NodeData = record { id = length db.nodes; attribute = attr_id; content = v } in
    (
      n ∷ parent,
      record db {
        nodes = db.nodes ++ ((n ∷ parent) ∷ []);
        children = λ q. if same_node q parent then n ∷ db.children q else db.children q;
      },
    )

-- The search for a child and, where there is none, the new node.
unfoldable pub find_or_create : Memory → Db → ℕ → CaliVariant → NodePtr → NodePtr × Db
unfolding find_child db_create_node
find_or_create m db attr_id v parent =
    let found = find_child m attr_id v parent (db.children parent) in
    if is_null found then db_create_node db attr_id v parent else (found, db)

unfoldable pub tree_entry_loop : Memory → Db → List NodeData → NodePtr → NodePtr → NodePtr × Db
unfolding find_or_create
tree_entry_loop m db [] node parent = (node, db)
tree_entry_loop m db (n ∷ ns) node parent =
    let r = find_or_create m db n.attribute n.content parent in tree_entry_loop m r.1 ns r.0 r.0

-- `make_tree_entry` with a list of nodes.
unfoldable pub make_tree_entry : Memory → Db → List NodeData → NodePtr → NodePtr × Db
unfolding tree_entry_loop
make_tree_entry m db ns parent = tree_entry_loop m db ns [] (or_root parent)

-- `Entry(node)` for each identifier of a node.
unfoldable pub merge_nodes : Db → IdMap → List ℕ → Option (List Entry)
unfolding db_node map_id
merge_nodes db idmap [] = some []
merge_nodes db idmap (id ∷ ids) = do
  e ← entry_of (db_node db (map_id id idmap))
  rest ← merge_nodes db idmap ids
  some (e ∷ rest)

unfoldable pub merge_immediates : Db → IdMap → List (ℕ × CaliVariant) → List Entry
unfolding db_attribute map_id
merge_immediates db idmap [] = []
merge_immediates db idmap ((id, v) ∷ rest) =
    immediate_entry (db_attribute db (map_id id idmap)) v ∷ merge_immediates db idmap rest

-- `merge_snapshot`
unfoldable pub merge_snapshot : Db → List ℕ → List (ℕ × CaliVariant) → IdMap → Option (List Entry)
unfolding merge_nodes merge_immediates
merge_snapshot db node_ids imm idmap = do
  refs ← merge_nodes db idmap node_ids
  some (refs ++ merge_immediates db idmap imm)

abbrev pub or_no_entry : Option Entry → Entry
or_no_entry none = no_entry
or_no_entry (some e) = e

-- `merge_entry`
unfoldable pub merge_entry : Db → ℕ → IdMap → Entry
unfolding db_node map_id
merge_entry db node_id idmap = or_no_entry (entry_of (db_node db (map_id node_id idmap)))

unfoldable pub has_entry : Memory → Entry → List Entry → Bool
unfolding entry_eq
has_entry m e [] = false
has_entry m e (g ∷ gs) = entry_eq m g e || has_entry m e gs

abbrev pub add_global : Memory → Db → NodePtr → Option Entry → Db
add_global m db node none = db
add_global m db node (some e) =
    if has_entry m e db.globals then db else record db { globals = db.globals ++ (e ∷ []) }

-- `merge_global`
unfoldable pub merge_global : Memory → Db → ℕ → IdMap → Db
unfolding db_node map_id has_entry
merge_global m db node_id idmap =
    let node = db_node db (map_id node_id idmap) in add_global m db node (entry_of node)

-- `if (attribute(attr_id) == Attribute::invalid) attr_id = CALI_INV_ID`
abbrev pub valid_attr_id : Db → ℕ → ℕ
valid_attr_id db attr_id = if is_null (db_attribute db attr_id) then inv_id else attr_id

-- `if (node_id != node->id()) idmap.insert(make_pair(node_id, node->id()))`
unfoldable pub with_id : ℕ → IdMap → NodePtr × Db → Option (NodePtr × Db × IdMap)
unfolding insert_id
with_id node_id idmap ([], db) = none
with_id node_id idmap (n ∷ up, db) =
    some (n ∷ up, db, if node_id == n.id then idmap else insert_id node_id n.id idmap)

module _ (m : Memory) (print : CaliVariant → List ℕ) where
  -- What `merge_node` does behind the search: a new name node is a new attribute.
  abbrev pub with_attribute : Bool → ℕ → CaliVariant → NodePtr × Db → NodePtr × Db
  with_attribute is_new attr_id v (node, db) =
      if is_new && attr_id == name_attr_id
      then (node, record db { attributes = insert_name (to_string m print v) node db.attributes })
      else (node, db)

  unfoldable pub merge_below : Db → ℕ → CaliVariant → NodePtr → NodePtr × Db
  unfolding find_child find_or_create insert_name to_string
  merge_below db attr_id v parent =
      with_attribute (is_null (find_child m attr_id v parent (db.children parent))) attr_id v
        (find_or_create m db attr_id v parent)

  -- `merge_node` with the identifiers of the database, except for the first one.
  unfoldable pub merge_node : Db → ℕ → ℕ → ℕ → CaliVariant → NodePtr × Db
  unfolding db_attribute merge_below
  merge_node db node_id attr_id prnt_id v =
      let attr_id = valid_attr_id db attr_id in
      if node_id == inv_id || (attr_id == inv_id || is_empty_value v)
      then ([], db)
      else if prnt_id == inv_id
      then merge_below db attr_id v root
      else if leb (length db.nodes) prnt_id
      then ([], db)
      else merge_below db attr_id v (db_node db prnt_id)

  -- `merge_node` with the map of a stream.
  unfoldable pub merge_node_mapped :
      Db → ℕ → ℕ → ℕ → CaliVariant → IdMap → Option (NodePtr × Db × IdMap)
  unfolding map_id merge_node with_id
  merge_node_mapped db node_id attr_id prnt_id v idmap =
      with_id node_id idmap (merge_node db node_id (map_id attr_id idmap) (map_id prnt_id idmap) v)
