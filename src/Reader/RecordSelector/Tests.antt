-- ===== src/Reader/RecordSelector/Tests.antt =====
-- The record selector on a record with one immediate entry.
use caliper_msg_pattern.Prelude.{◌≡◌, refl, inl, true, List, [], ◌∷◌, ltb}
use caliper_msg_pattern.Prelude.Int.{pos}
use caliper_msg_pattern.Common.Variant.Types.{
  AttrType, CaliVariant, make_empty_variant, make_variant_from_uint,
}
use caliper_msg_pattern.Common.Variant.Convert.{DoubleOps}
use caliper_msg_pattern.Common.Entry.{Attribute, Entry, entry_attribute}
use caliper_msg_pattern.Common.Variant.Compare.{variant_eq}
use caliper_msg_pattern.Reader.Metadata.{MetadataAccess}
use caliper_msg_pattern.Reader.RecordSelector.{exist, equal, Condition, make_clause, pass}
use caliper_msg_pattern.Reader.RecordSelector.Selection.{pass-Satisfied}
use caliper_msg_pattern.Reader.RecordSelector.Pairs.{record_pairs}
use caliper_msg_pattern.Reader.RecordSelector.Parse.{parse, parse_clause}
use caliper_msg_pattern.Reader.RecordSelector.Print.{
  IsPlain, show_conditions, parse_clause-comparison,
}
use caliper_msg_pattern.Reader.RecordSelector.Join.{parse-show_conditions}
use Prim.Native.String.{String, ◌++◌}

abbrev doubles : DoubleOps
doubles = record {
  sub = λ x y. 0;
  plus = λ x y. x;
  mul = λ x y. x;
  div = λ x y. x;
  less = λ x y. ltb x y;
  to_int = λ x. pos 0;
  to_int64 = λ x. pos 0;
  to_uint64 = λ x. 0;
  of_int64 = λ i. 0;
  of_uint64 = λ n. 0;
}

abbrev attribute : Attribute
attribute = record { id = 20; attribute = 8; content = make_empty_variant } ∷ []

abbrev database : MetadataAccess (Unit {0})
database = record {
  get_attribute = λ s name. attribute;
  attribute_by_id = λ s id. attribute;
  create_attribute = λ s name type prop. (attribute, s);
}

-- Every text reads as 4.
abbrev four : AttrType → String → CaliVariant
four t text = make_variant_from_uint 4

abbrev one_record : List Entry
one_record = record { node = attribute; value = make_variant_from_uint 4 } ∷ []

abbrev is_four : Condition
is_four = record { op = equal; attr_name = "rank"; text = "4" }

abbrev is_there : Condition
is_there = record { op = exist; attr_name = "rank"; text = "" }

pass-Satisfied_example :
    pass database four tt doubles (λ a. 0) (is_four ∷ is_there ∷ []) one_record ≡ true
unfolding make_clause variant_eq record_pairs entry_attribute make_variant_from_uint
pass-Satisfied_example =
    (pass-Satisfied database four tt doubles (λ a. 0) (is_four ∷ is_there ∷ []) one_record).1
      (inl (refl, refl), (inl (refl, tt), tt))

is_four-IsPlain : IsPlain is_four
is_four-IsPlain = record {
  name_given = refl;
  name_unsigned = refl;
  name_free = (refl, (refl, (refl, (refl, tt))));
  name_whole = (refl, (refl, (refl, (refl, tt))));
  text_whole = (refl, tt);
  fits = refl;
}

is_there-IsPlain : IsPlain is_there
is_there-IsPlain = record {
  name_given = refl;
  name_unsigned = refl;
  name_free = (refl, (refl, (refl, (refl, tt))));
  name_whole = (refl, (refl, (refl, (refl, tt))));
  text_whole = tt;
  fits = refl;
}

parse-show_conditions_example :
    parse (show_conditions (is_four ∷ is_there ∷ [])) ≡ is_four ∷ is_there ∷ []
parse-show_conditions_example =
    parse-show_conditions (is_four ∷ is_there ∷ []) (is_four-IsPlain, (is_there-IsPlain, tt))

parse_clause-comparison_example :
    ((parse_clause ("rank" ++ "<4")).op ≡ exist) × ((parse_clause ("rank" ++ ">4")).op ≡ exist)
parse_clause-comparison_example =
    parse_clause-comparison "rank" "4" refl refl (refl, (refl, (refl, (refl, tt)))) refl
