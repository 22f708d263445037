-- ===== src/Reader/RecordSelector/Parse.antt =====
-- `parse_clause` and `RecordSelector::parse` of src/reader/RecordSelector.cpp, and `util::split` of
-- src/common/util/split.hpp. The error message for a malformed clause is left out.
use caliper_msg_pattern.Prelude.{Bool, true, false, ◌||◌, List, [], ◌∷◌, if◌then◌else◌, ◌==◌}
use caliper_msg_pattern.Reader.RecordSelector.{
  Op, op_none, exist, not_exist, equal, not_equal, Condition,
}
use Prim.Native.Char.{Char, code}
use Prim.Native.String.{String, ◌++◌}

abbrev pub is_char : Char → Char → Bool
is_char a b = code a == code b

abbrev pub is_operator : Char → Bool
is_operator c = is_char c "<" || is_char c ">" || is_char c "="

abbrev pub no_text : String → Bool
no_text String.[] = true
no_text (String.◌∷◌ c s) = false

-- What stands before and from `opos`, the first of the characters `<>=`.
unfoldable pub before_operator : String → String
before_operator String.[] = String.[]
before_operator (String.◌∷◌ c s) =
    if is_operator c then String.[] else String.◌∷◌ c (before_operator s)

unfoldable pub from_operator : String → String
from_operator String.[] = String.[]
from_operator (String.◌∷◌ c s) = if is_operator c then String.◌∷◌ c s else from_operator s

-- The table `ops` and the switch for a negated clause.
abbrev pub clause_op : Char → Bool → Op
clause_op c negate =
    if is_char c "="
    then (if negate then not_equal else equal)
    else (if negate then not_exist else exist)

abbrev pub bare_op : Bool → Op
bare_op negate = if negate then not_exist else exist

-- The clause of a name and the text from the operator on.
abbrev pub make_condition : Bool → String → String → Condition
make_condition negate name String.[] = record {
  op = if no_text name then op_none else bare_op negate;
  attr_name = name;
  text = String.[];
}
make_condition negate name (String.◌∷◌ c value) = record {
  op = if no_text name || no_text value then op_none else clause_op c negate;
  attr_name = name;
  text = value;
}

abbrev pub is_negated : String → Bool
is_negated String.[] = false
is_negated (String.◌∷◌ c s) = is_char c "-"

abbrev pub behind_sign : String → String
behind_sign String.[] = String.[]
behind_sign (String.◌∷◌ c s) = if is_char c "-" then s else String.◌∷◌ c s

unfoldable pub parse_clause : String → Condition
unfolding before_operator from_operator
parse_clause str =
    let s = behind_sign str in make_condition (is_negated str) (before_operator s) (from_operator s)

-- `util::split` from the text collected so far.
unfoldable pub split_from : Char → String → String → List String
split_from sep str String.[] = if no_text str then [] else str ∷ []
split_from sep str (String.◌∷◌ c input) =
    let closed = split_from sep String.[] input in
    let going = split_from sep (str ++ String.◌∷◌ c String.[]) input in
    if is_char c sep then str ∷ closed else going

unfoldable pub split : String → Char → List String
unfolding split_from
split input sep = split_from sep String.[] input

abbrev pub keep_op : Op → Condition → List Condition → List Condition
keep_op op_none clause clauses = clauses
keep_op _ clause clauses = clause ∷ clauses

unfoldable pub parse_clauses : List String → List Condition
unfolding parse_clause
parse_clauses [] = []
parse_clauses (s ∷ strings) =
    let clause = parse_clause s in keep_op clause.op clause (parse_clauses strings)

-- `RecordSelector::parse`
unfoldable pub parse : String → List Condition
unfolding split parse_clauses
parse str = parse_clauses (split str ",")
