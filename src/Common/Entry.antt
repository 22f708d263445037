-- ===== src/Common/Entry.antt =====
-- include/caliper/common/Node.h, Attribute.h, Entry.h and src/common/Attribute.cpp, Entry.cpp.
-- A pointer to a context tree node is the list of the nodes from it up to the root, so the null
-- pointer is the empty list and `parent()` is the tail.
pub mod Lookup
pub mod Pack
use caliper_msg_pattern.Prelude.{
  ℕ, zero, suc, ◌+◌, ◌-◌, ◌/◌, ◌%◌, ◌^◌, Bool, true, false, not, ◌&&◌, ◌||◌, if◌then◌else◌, ◌==◌,
  List, [], ◌∷◌,
}
use caliper_msg_pattern.Prelude.Int.{ℤ, pos, bits64}
use caliper_msg_pattern.Common.Variant.Types.{
  AttrType, type_inv, CaliVariant, make_empty_variant, extract_type,
}
use caliper_msg_pattern.Common.Variant.Convert.{DoubleOps, to_int, to_type}

-- `CALI_INV_ID`
abbrev pub inv_id : ℕ
inv_id = 2 ^ 64 - 1

abbrev pub name_attr_id : ℕ
name_attr_id = 8

abbrev pub type_attr_id : ℕ
type_attr_id = 9

abbrev pub prop_attr_id : ℕ
prop_attr_id = 10

-- `Node`
pub record NodeData : Type 0 where
  pub id : ℕ
  pub attribute : ℕ
  pub content : CaliVariant

abbrev pub NodePtr : Type 0
NodePtr = List NodeData

-- `Variant::empty`
abbrev pub is_empty_value : CaliVariant → Bool
is_empty_value v = extract_type v.type_and_size == 0

abbrev pub is_null : NodePtr → Bool
is_null [] = true
is_null (n ∷ _) = false

-- `Attribute::is_attribute`
abbrev pub is_attribute : NodePtr → Bool
is_attribute [] = false
is_attribute (n ∷ _) = n.attribute == name_attr_id

-- An `Attribute` is the pointer to its name node; `Attribute::invalid` is null.
abbrev pub Attribute : Type 0
Attribute = NodePtr

-- `Attribute::id`
abbrev pub attribute_id : Attribute → ℕ
attribute_id [] = inv_id
attribute_id (n ∷ _) = n.id

abbrev pub make_attribute : NodePtr → Attribute
make_attribute node = if is_attribute node then node else []

-- `Attribute::type`
unfoldable pub attribute_type : Attribute → AttrType
unfolding to_type
attribute_type [] = type_inv
attribute_type (n ∷ up) =
    if n.attribute == type_attr_id then (to_type n.content).0 else attribute_type up

-- `Attribute::properties`, with `CALI_ATTR_DEFAULT` for none.
unfoldable pub properties : DoubleOps → Attribute → ℤ
unfolding to_int
properties d [] = pos 0
properties d (n ∷ up) =
    if n.attribute == prop_attr_id then (to_int d n.content).0 else properties d up

-- `properties() & CALI_ATTR_NESTED`
unfoldable pub is_nested : DoubleOps → Attribute → Bool
unfolding properties
is_nested d a = bits64 (properties d a) / 256 % 2 == 1

-- `Attribute::get`
unfoldable pub attribute_get : Attribute → Attribute → CaliVariant
attribute_get [] attr = make_empty_variant
attribute_get (n ∷ up) attr =
    if n.attribute == attribute_id attr then n.content else attribute_get up attr

-- `Entry`
pub record Entry : Type 0 where
  pub node : NodePtr
  pub value : CaliVariant

abbrev pub no_entry : Entry
no_entry = record { node = []; value = make_empty_variant }

-- `Entry(Node*)` on a node, `Entry(const Attribute&, const Variant&)`
abbrev pub node_entry : NodeData → NodePtr → Entry
node_entry n up = record { node = n ∷ up; value = n.content }

abbrev pub immediate_entry : Attribute → CaliVariant → Entry
immediate_entry attr v = record { node = attr; value = v }

abbrev pub attribute_of : NodePtr → ℕ
attribute_of [] = inv_id
attribute_of (n ∷ up) = if is_attribute (n ∷ up) then n.id else n.attribute

-- `Entry::attribute`
unfoldable pub entry_attribute : Entry → ℕ
entry_attribute e = attribute_of e.node

abbrev pub is_immediate : Entry → Bool
is_immediate e = is_attribute e.node

abbrev pub is_reference : Entry → Bool
is_reference e = not (is_null e.node) && not (is_immediate e)

unfoldable pub count_on_path : NodePtr → ℕ → ℕ
count_on_path [] attr_id = 0
count_on_path (n ∷ up) attr_id =
    (if n.attribute == attr_id then 1 else 0) + count_on_path up attr_id

-- `Entry::count`
unfoldable pub entry_count : Entry → ℕ → ℕ
unfolding count_on_path
entry_count e attr_id =
    if is_immediate e
    then (if attribute_id e.node == attr_id then 1 else 0)
    else count_on_path e.node attr_id

-- The node of a path with the attribute, as a pointer.
unfoldable pub find_on_path : NodePtr → ℕ → NodePtr
find_on_path [] attr_id = []
find_on_path (n ∷ up) attr_id = if n.attribute == attr_id then n ∷ up else find_on_path up attr_id

abbrev pub data_of : NodePtr → CaliVariant
data_of [] = make_empty_variant
data_of (n ∷ up) = n.content

abbrev pub has_id : NodePtr → ℕ → Bool
has_id [] attr_id = false
has_id (n ∷ up) attr_id = n.id == attr_id

-- `Entry::value(cali_id_t)`
unfoldable pub entry_value : Entry → ℕ → CaliVariant
unfolding find_on_path
entry_value e attr_id =
    if has_id e.node attr_id then e.value else data_of (find_on_path e.node attr_id)

abbrev pub entry_at : NodePtr → Entry
entry_at [] = no_entry
entry_at (n ∷ up) = node_entry n up

abbrev pub get_from : NodePtr → Entry → ℕ → Entry
get_from [] e attr_id = no_entry
get_from (n ∷ up) e attr_id =
    if n.id == attr_id
    then e
    else if not (n.attribute == name_attr_id)
    then entry_at (find_on_path (n ∷ up) attr_id)
    else no_entry

-- `Entry::get`
unfoldable pub entry_get : Entry → Attribute → Entry
unfolding find_on_path
entry_get e attr = get_from e.node e (attribute_id attr)
