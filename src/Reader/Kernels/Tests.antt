-- ===== src/Reader/Kernels/Tests.antt =====
-- The kernels on concrete records.
use caliper_msg_pattern.Prelude.{ℕ, ◌≡◌, refl, arith, List, [], ◌∷◌, ◌++◌, ltb}
use caliper_msg_pattern.Prelude.Int.{pos}
use caliper_msg_pattern.Common.Variant.Types.{type_uint, make_empty_variant, make_variant_from_uint}
use caliper_msg_pattern.Common.Variant.Convert.{DoubleOps}
use caliper_msg_pattern.Common.Entry.{Attribute, Entry}
use caliper_msg_pattern.Reader.Metadata.{MetadataAccess, find_entry}
use caliper_msg_pattern.Reader.Kernels.Count.{count_record, count_attribute, count_aggregate}
use caliper_msg_pattern.Reader.Kernels.CountLaws.{count_run, count_run-merge, count_result}
use caliper_msg_pattern.Reader.Kernels.Extremum.{min_record}
use caliper_msg_pattern.Reader.Kernels.ExtremumLaws.{HoldsLeast, min_record_least}

-- Doubles, which the tests do not use.
abbrev doubles : DoubleOps
doubles = record {
  sub = λ x y. 0;
  plus = λ x y. x;
  mul = λ x y. x;
  div = λ x y. x;
  less = λ x y. ltb x y;
  to_int = λ x. pos 0;
  to_int64 = λ x. pos 0;
  to_uint64 = λ x. 0;
  of_int64 = λ i. 0;
  of_uint64 = λ n. 0;
}

abbrev attribute : Attribute
attribute = record { id = 20; attribute = 8; content = make_empty_variant } ∷ []

-- A database without state, in which every attribute is the one above.
abbrev database : MetadataAccess (Unit {0})
database = record {
  get_attribute = λ s name. attribute;
  attribute_by_id = λ s id. attribute;
  create_attribute = λ s name type prop. (attribute, s);
}

abbrev holding : ℕ → Entry
holding n = record { node = attribute; value = make_variant_from_uint n }

abbrev records : List (List Entry)
records = (holding 4 ∷ []) ∷ (holding 6 ∷ []) ∷ []

-- Without an entry of the attribute a record counts once.
abbrev plain : List (List Entry)
plain = [] ∷ [] ∷ []

plain_counts : (count_run doubles database 0 attribute tt plain).0 ≡ 2
unfolding count_run count_aggregate count_attribute count_record find_entry
plain_counts = refl

count_run-merge_example :
    (count_run doubles database 0 attribute tt (
      count_result doubles database
        (count_run doubles database 0 attribute tt plain).0
        attribute
        tt
        []
      ∷ count_result doubles database
          (count_run doubles database 0 attribute tt plain).0
          attribute
          tt
          []
      ∷ [])).0
    ≡ (count_run doubles database 0 attribute tt (plain ++ plain)).0
unfolding find_entry
count_run-merge_example =
    count_run-merge doubles database attribute tt refl [] [] plain plain refl refl
      (omega (arith, plain_counts)) (omega (arith, plain_counts))

min_record_least_example :
    HoldsLeast doubles 20 21
      (holding 6 ∷ holding 4 ∷ [])
      (min_record doubles type_uint 20 21 make_empty_variant (holding 6 ∷ holding 4 ∷ []))
min_record_least_example =
    min_record_least doubles 20 21 (holding 6 ∷ holding 4 ∷ [])
      ((λ f. (6, omega arith, refl)), ((λ f. (4, omega arith, refl)), tt))
