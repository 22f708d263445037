-- ===== src/Reader/RecordSelector.antt =====
-- src/reader/RecordSelector.cpp, with `Condition` and `FilterSelection` of
-- include/caliper/reader/QuerySpec.h. The metadata database, the reading of a value from text
-- (`Variant::from_string`), the double arithmetic and the memory are parameters.
pub mod Pairs
pub mod Selection
pub mod Parse
pub mod Print
pub mod Join
mod Tests
use caliper_msg_pattern.Prelude.{
  ℕ, Bool, true, false, not, ◌&&◌, ◌||◌, List, [], ◌∷◌, if◌then◌else◌, ◌==◌,
}
use caliper_msg_pattern.Prelude.Int.{ℤ, pos, ltbℤ}
use caliper_msg_pattern.Common.Variant.Types.{AttrType, CaliVariant, make_empty_variant, Memory}
use caliper_msg_pattern.Common.Variant.Convert.{DoubleOps}
use caliper_msg_pattern.Common.Variant.Compare.{variant_compare, variant_eq}
use caliper_msg_pattern.Common.Entry.{
  NodePtr, Attribute, Entry, inv_id, attribute_id, attribute_type, entry_attribute, is_reference,
  is_null,
}
use caliper_msg_pattern.Reader.Metadata.{MetadataAccess}
use Prim.Native.String.{String}

-- `Condition::Op`
pub data Op : Type 0 where
  op_none : Op
  exist : Op
  not_exist : Op
  equal : Op
  not_equal : Op
  less_than : Op
  greater_than : Op
  less_or_equal : Op
  greater_or_equal : Op

-- `QuerySpec::Condition`
pub record Condition : Type 0 where
  pub op : Op
  pub attr_name : String
  pub text : String

pub data SelectionOpt : Type 0 where
  take_default : SelectionOpt
  take_none : SelectionOpt
  take_all : SelectionOpt
  user_list : SelectionOpt

-- `RecordSelectorImpl::Clause`
pub record Clause : Type 0 where
  pub op : Op
  pub attr : Attribute
  pub value : CaliVariant

-- `configure(const QuerySpec&)`: the filters that it leaves.
unfoldable pub configure_spec : SelectionOpt → List Condition → List Condition
configure_spec user_list conditions = conditions
configure_spec _ conditions = []

-- `configure(const QuerySpec::Condition&)`
abbrev pub configure_op : Op → Condition → List Condition
configure_op op_none cond = []
configure_op _ cond = cond ∷ []

unfoldable pub configure_condition : Condition → List Condition
configure_condition cond = configure_op cond.op cond

abbrev pub Match : Type 0
Match = ℕ → CaliVariant → Bool

-- The loop of `have_match` over a reference entry's path.
unfoldable pub match_path : Match → NodePtr → Bool
match_path match [] = false
match_path match (n ∷ up) =
    let rest = match_path match up in
    if n.id == inv_id then false else if match n.attribute n.content then true else rest

unfoldable pub have_match : Match → Entry → Bool
unfolding match_path entry_attribute
have_match match e =
    if is_reference e then match_path match e.node else match (entry_attribute e) e.value

-- The loop that sets `m` at a match.
unfoldable pub any_match : Match → List Entry → Bool → Bool
unfolding have_match
any_match match [] m = m
any_match match (e ∷ es) m = any_match match es (if have_match match e then true else m)

-- The loop that returns false at a match.
unfoldable pub no_match : Match → List Entry → Bool
unfolding have_match
no_match match [] = true
no_match match (e ∷ es) = let rest = no_match match es in if have_match match e then false else rest

module _ (d : DoubleOps) (m : Memory) where
  -- The operators `<` and `>` on variants.
  abbrev pub variant_less : CaliVariant → CaliVariant → Bool
  variant_less l r = ltbℤ (variant_compare d m l r) (pos 0)

  abbrev pub variant_greater : CaliVariant → CaliVariant → Bool
  variant_greater l r = ltbℤ (pos 0) (variant_compare d m l r)

  -- The switch of `pass`: whether the loop goes on behind the clause.
  abbrev pub passes_op : Op → ℕ → CaliVariant → List Entry → Bool
  passes_op op_none id value list = true
  passes_op exist id value list = any_match (λ a v. a == id) list false
  passes_op not_exist id value list = no_match (λ a v. a == id) list
  passes_op equal id value list = any_match (λ a v. a == id && variant_eq m v value) list false
  passes_op not_equal id value list = no_match (λ a v. a == id && variant_eq m v value) list
  passes_op less_than id value list = any_match (λ a v. a == id && variant_less v value) list false
  passes_op greater_than id value list =
      any_match (λ a v. a == id && variant_greater v value) list false
  passes_op less_or_equal id value list =
      any_match (λ a v. a == id && (variant_less v value || variant_eq m v value)) list false
  passes_op greater_or_equal id value list =
      any_match (λ a v. a == id && (variant_greater v value || variant_eq m v value)) list false

  abbrev pub passes_clause : Clause → List Entry → Bool
  passes_clause clause list = passes_op clause.op (attribute_id clause.attr) clause.value list

module _ {S : Type 0} (db : MetadataAccess S) (from_string : AttrType → String → CaliVariant)
    (s : S) where
  unfoldable pub make_clause : Condition → Clause
  unfolding attribute_type
  make_clause f =
      let attr = db.get_attribute s f.attr_name in
      record {
        op = f.op;
        attr = attr;
        value =
            if is_null attr then make_empty_variant else from_string (attribute_type attr) f.text;
      }

  module _ (d : DoubleOps) (m : Memory) where
    -- `RecordSelectorImpl::pass`, over `m_filters`.
    unfoldable pub pass : List Condition → List Entry → Bool
    unfolding make_clause any_match no_match variant_compare variant_eq
    pass [] list = true
    pass (f ∷ fs) list =
        let rest = pass fs list in if passes_clause d m (make_clause f) list then rest else false
