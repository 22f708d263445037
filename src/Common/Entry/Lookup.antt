-- ===== src/Common/Entry/Lookup.antt =====
-- src/common/Entry.cpp: the lookups in an entry against one another.
use caliper_msg_pattern.Prelude.{ℕ, ◌≡◌, refl, arith, true, false, not, ◌&&◌, [], ◌∷◌}
use caliper_msg_pattern.Common.Variant.Types.{CaliVariant, make_empty_variant}
use caliper_msg_pattern.Common.Entry.{
  NodePtr, Attribute, Entry, attribute_id, count_on_path, find_on_path, entry_count, entry_value,
  entry_get, is_reference, data_of, no_entry, entry_at, has_id, is_null, is_attribute,
}

value-entry_at : (p : NodePtr) → (entry_at p).value ≡ data_of p
value-entry_at [] = refl
value-entry_at (n ∷ up) = refl

-- Where no node of the path has the attribute the search finds none.
count-find_on_path : (p : NodePtr) (a : ℕ) → count_on_path p a ≡ 0 → find_on_path p a ≡ []
unfolding count_on_path find_on_path
count-find_on_path [] a h = refl
count-find_on_path (n ∷ up) a h = ground (arith, count-find_on_path up a)

module _ (v : CaliVariant) (attr : Attribute) where
  get_value_at :
      (p : NodePtr)
      → (not (is_null p) && not (is_attribute p)) ≡ true
      → has_id p (attribute_id attr) ≡ false
      → (entry_get (record { node = p; value = v }) attr).value
        ≡ entry_value (record { node = p; value = v }) (attribute_id attr)
  unfolding entry_get entry_value
  get_value_at [] r h = cc
  get_value_at (n ∷ up) r h =
      ground (arith, value-entry_at (find_on_path (n ∷ up) (attribute_id attr)))

  absent_at :
      (p : NodePtr)
      → (not (is_null p) && not (is_attribute p)) ≡ true
      → has_id p (attribute_id attr) ≡ false
      → count_on_path p (attribute_id attr) ≡ 0
      → (entry_get (record { node = p; value = v }) attr ≡ no_entry)
        × (entry_value (record { node = p; value = v }) (attribute_id attr) ≡ make_empty_variant)
  unfolding entry_get entry_value
  absent_at [] r h c = cc
  absent_at (n ∷ up) r h c = ground (arith, count-find_on_path (n ∷ up) (attribute_id attr))

-- For a reference entry whose node is not itself the attribute's: the value of the entry that
-- `get` returns is what `value` returns.
pub entry_get-entry_value :
    (e : Entry) (attr : Attribute)
    → is_reference e ≡ true
    → has_id e.node (attribute_id attr) ≡ false
    → (entry_get e attr).value ≡ entry_value e (attribute_id attr)
entry_get-entry_value e attr r h = get_value_at e.value attr e.node r h

-- For a reference entry whose node is not itself the attribute's, where `count` counts nothing:
-- `get` returns the empty entry and `value` the empty variant.
pub entry_count-absent :
    (e : Entry) (attr : Attribute)
    → is_reference e ≡ true
    → has_id e.node (attribute_id attr) ≡ false
    → entry_count e (attribute_id attr) ≡ 0
    → (entry_get e attr ≡ no_entry) × (entry_value e (attribute_id attr) ≡ make_empty_variant)
unfolding entry_count
entry_count-absent e attr r h c = absent_at e.value attr e.node r h (ground arith)
