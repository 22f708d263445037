-- ===== src/Common/Tests.antt =====
-- Variants and entries on concrete values.
use caliper_msg_pattern.Prelude.{
  ℕ, ◌+◌, ◌*◌, ◌^◌, ◌≤◌, ◌≡◌, ◌≢◌, refl, arith, true, false, some, List, [], ◌∷◌, ◌++◌, length,
  if◌then◌else◌, ◌==◌, ltb,
}
use caliper_msg_pattern.Prelude.Int.{pos, negsuc, ◌≤ℤ◌, int_min, int_max}
use caliper_msg_pattern.Util.Vlenc.{vldec_loop, vldec_u64}
use caliper_msg_pattern.Common.Variant.Types.{
  type_int, type_uint, type_double, type_type, type_string, CaliVariant, get_type, Memory,
  make_empty_variant, make_variant_from_bool, make_variant_from_int64, make_variant_from_uint,
  make_variant_from_type,
}
use caliper_msg_pattern.Common.Variant.Convert.{
  DoubleOps, to_int, to_int64, to_uint, to_bool, to_type,
}
use caliper_msg_pattern.Common.Variant.Compare.{variant_compare, variant_eq}
use caliper_msg_pattern.Common.Variant.Pack.{variant_pack, variant_unpack}
use caliper_msg_pattern.Common.Variant.Conversions.{conversions-constructors, to_int-to_int64}
use caliper_msg_pattern.Common.Variant.Ordering.{SelfDifference, variant_compare_unsigned}
use caliper_msg_pattern.Common.Variant.RoundTrip.{
  IsVariant, variant_unpack-variant_pack, variant_pack_bounds,
}
use caliper_msg_pattern.Common.Entry.{
  NodeData, NodePtr, Attribute, Entry, attribute_id, entry_count, entry_value, entry_get, no_entry,
  node_entry,
}
use caliper_msg_pattern.Common.Entry.Lookup.{entry_count-absent}
use caliper_msg_pattern.Common.Entry.Pack.{IsKnown, Returns, entry_unpack-entry_pack}

-- Doubles of which the tests use only that x - x is 0.
abbrev doubles : DoubleOps
doubles = record {
  sub = λ x y. 0;
  plus = λ x y. x;
  mul = λ x y. x;
  div = λ x y. x;
  less = λ x y. ltb x y;
  to_int = λ x. pos 0;
  to_int64 = λ x. pos 0;
  to_uint64 = λ x. 0;
  of_int64 = λ i. 0;
  of_uint64 = λ n. 0;
}

doubles-SelfDifference : SelfDifference doubles
doubles-SelfDifference = record { not_below = λ x. refl; not_above = λ x. refl }

abbrev memory : Memory
memory = λ p. 0

abbrev uint : ℕ → CaliVariant
uint n = record { type_and_size = 3; v_uint = n }

abbrev int : ℕ → CaliVariant
int n = record { type_and_size = 2; v_uint = n }

uint-type : (n : ℕ) → get_type (uint n) ≡ type_uint
unfolding get_type
uint-type n = refl

int-type : (n : ℕ) → get_type (int n) ≡ type_int
unfolding get_type
int-type n = refl

abbrev front : List ℕ
front = 7 ∷ []

uint-IsVariant : IsVariant (uint 300)
uint-IsVariant = record {
  ts_fits = omega arith;
  value_fits = omega arith;
  type_known = omega arith;
}

variant_unpack-variant_pack_example :
    variant_unpack (front ++ ((variant_pack (uint 300)).1 ++ front)) (length front)
    ≡ some (uint 300, length front + (variant_pack (uint 300)).0, true)
variant_unpack-variant_pack_example =
    variant_unpack-variant_pack (uint 300) front front uint-IsVariant

variant_pack_bounds_example : (2 ≤ (variant_pack (uint 300)).0) × ((variant_pack (uint 300)).0 ≤ 20)
variant_pack_bounds_example = variant_pack_bounds (uint 300) uint-IsVariant

-- A type that is not known.
abbrev unknown : List ℕ
unknown = 20 ∷ 5 ∷ []

unknown_fails : variant_unpack unknown 0 ≡ some (make_empty_variant, 0, false)
unfolding variant_unpack vldec_u64 vldec_loop
unknown_fails = refl

variant_compare_unsigned_example :
    variant_compare doubles memory (uint 3) (uint 5)
    ≡ (if 3 == 5 then pos 0 else if ltb 3 5 then negsuc 0 else pos 1)
variant_compare_unsigned_example =
    variant_compare_unsigned doubles memory (uint 3) (uint 5) (uint-type 3) (uint-type 5)
      (omega arith) (omega arith)

same_strings :
    variant_eq memory
      (record { type_and_size = 4 + 3 * 2 ^ 32; v_uint = 16 })
      (record { type_and_size = 4 + 3 * 2 ^ 32; v_uint = 32 })
    ≡ true
unfolding variant_eq
same_strings = refl

conversions-constructors_example :
    (to_int64 doubles (make_variant_from_int64 (negsuc 4)) ≡ (negsuc 4, true))
    × (to_uint doubles (make_variant_from_uint 7) ≡ (7, true))
    × (to_bool (make_variant_from_bool true) ≡ (true, true))
    × (to_type (make_variant_from_type type_string) ≡ (type_string, true))
conversions-constructors_example =
    conversions-constructors doubles (negsuc 4) 7 true type_string (ground arith) (ground arith)
      (omega arith)

seven_to_int : to_int doubles (uint 7) ≡ (pos 7, true)
unfolding to_int
seven_to_int = refl

uint_ne_double : get_type (uint 7) ≢ type_double
unfolding get_type
uint_ne_double e = cc

uint_ne_type : get_type (uint 7) ≢ type_type
unfolding get_type
uint_ne_type e = cc

to_int-to_int64_example :
    (to_int64 doubles (uint 7) ≡ (pos 7, true)) × (int_min ≤ℤ pos 7) × (pos 7 ≤ℤ int_max)
to_int-to_int64_example =
    to_int-to_int64 doubles (uint 7) (pos 7) uint_ne_double uint_ne_type seven_to_int

-- A node with a parent, of two attributes.
abbrev parent : NodeData
parent = record { id = 30; attribute = 20; content = uint 300 }

abbrev child : NodeData
child = record { id = 31; attribute = 21; content = uint 5 }

abbrev reference : Entry
reference = node_entry child (parent ∷ [])

abbrev attribute : Attribute
attribute = record { id = 20; attribute = 8; content = uint 1 } ∷ []

abbrev other_attribute : Attribute
other_attribute = record { id = 22; attribute = 8; content = uint 1 } ∷ []

none_counted : entry_count reference (attribute_id other_attribute) ≡ 0
unfolding entry_count
none_counted = refl

entry_count-absent_example :
    (entry_get reference other_attribute ≡ no_entry)
    × (entry_value reference (attribute_id other_attribute) ≡ make_empty_variant)
entry_count-absent_example = entry_count-absent reference other_attribute refl refl none_counted

-- A database that knows one attribute.
abbrev nodes : ℕ → NodePtr
nodes id = if id == 20 then attribute else []

abbrev immediate : Entry
immediate = record { node = attribute; value = uint 300 }

immediate-IsKnown : IsKnown nodes immediate
immediate-IsKnown = record {
  not_null = refl;
  id_fits = omega arith;
  found = refl;
  immediate_value = λ e. uint-IsVariant;
  reference_value = λ e. cc;
}

entry_unpack-entry_pack_example : Returns nodes immediate front front
entry_unpack-entry_pack_example =
    entry_unpack-entry_pack nodes immediate front front immediate-IsKnown
