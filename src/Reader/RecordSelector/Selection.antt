-- ===== src/Reader/RecordSelector/Selection.antt =====
-- src/reader/RecordSelector.cpp: what `pass` selects.
use caliper_msg_pattern.Prelude.{
  ℕ, ◌+◌, ◌≡◌, refl, ◌↔◌, ◌⊎◌, inl, inr, Bool, true, false, not, ◌||◌, List, [], ◌∷◌, All,
  if◌then◌else◌, ltb→lt, lt→ltb,
}
use caliper_msg_pattern.Prelude.Int.{ℤ, pos, ◌<ℤ◌, ltbℤ, pos_part, neg_part}
use caliper_msg_pattern.Common.Variant.Types.{AttrType, CaliVariant, Memory}
use caliper_msg_pattern.Common.Variant.Convert.{DoubleOps}
use caliper_msg_pattern.Common.Variant.Compare.{variant_compare, variant_eq}
use caliper_msg_pattern.Common.Entry.{Entry, attribute_id}
use caliper_msg_pattern.Reader.Metadata.{MetadataAccess}
use caliper_msg_pattern.Reader.RecordSelector.{
  Op, op_none, exist, not_exist, equal, not_equal, less_than, greater_than, less_or_equal,
  greater_or_equal, Match, Condition, Clause, any_match, no_match, passes_op, passes_clause,
  make_clause, pass, variant_less, variant_greater,
}
use caliper_msg_pattern.Reader.RecordSelector.Pairs.{
  Pair, Has, any_pair, any_pair-Has, attribute-decides, value-decides, any_match-any, no_match-any,
  record_pairs,
}
use Prim.Native.String.{String}

ltbℤ_iff : (a b : ℤ) → (ltbℤ a b ≡ true) ↔ (a <ℤ b)
ltbℤ_iff a b = (
  ltb→lt (pos_part a + neg_part b) (pos_part b + neg_part a),
  lt→ltb (pos_part a + neg_part b) (pos_part b + neg_part a),
)

or_iff :
    {A B : Type 0} (a b : Bool) → ((a ≡ true) ↔ A) → ((b ≡ true) ↔ B) → ((a || b) ≡ true) ↔ (A ⊎ B)
or_iff true b h k = (λ e. inl (h.0 refl), λ x. refl)
or_iff false b h k = (λ e. inr (k.0 e), λ x. elim x [ inl a ↦ absurd (cc (h.1 a)) | inr y ↦ k.1 y ])

not_iff : {A : Type 0} (a : Bool) → ((a ≡ true) ↔ A) → (not a ≡ true) ↔ (¬ A)
not_iff true h = (λ e. absurd (cc e), λ n. absurd (n (h.0 refl)))
not_iff false h = (λ e x. absurd (cc (h.1 x)), λ n. refl)

iff_via : {A : Type 0} {a b : Bool} → a ≡ b → ((b ≡ true) ↔ A) → (a ≡ true) ↔ A
iff_via e h = (λ x. h.0 (cc (e, x)), λ x. cc (e, h.1 x))

module _ (d : DoubleOps) (m : Memory) where
  -- How the value of a pair stands to the clause's.
  abbrev pub Less : CaliVariant → CaliVariant → Type 0
  Less v c = variant_compare d m v c <ℤ pos 0

  abbrev pub Greater : CaliVariant → CaliVariant → Type 0
  Greater v c = pos 0 <ℤ variant_compare d m v c

  abbrev pub Equal : CaliVariant → CaliVariant → Type 0
  Equal v c = variant_eq m v c ≡ true

  -- What the pairs of a record must hold for an operator, an attribute and a value.
  abbrev pub SatisfiedBy : Op → ℕ → CaliVariant → List Pair → Type 0
  SatisfiedBy op_none id c ps = Unit
  SatisfiedBy exist id c ps = Has id (λ v. Unit) ps
  SatisfiedBy not_exist id c ps = ¬ Has id (λ v. Unit) ps
  SatisfiedBy equal id c ps = Has id (λ v. Equal v c) ps
  SatisfiedBy not_equal id c ps = ¬ Has id (λ v. Equal v c) ps
  SatisfiedBy less_than id c ps = Has id (λ v. Less v c) ps
  SatisfiedBy greater_than id c ps = Has id (λ v. Greater v c) ps
  SatisfiedBy less_or_equal id c ps = Has id (λ v. Less v c ⊎ Equal v c) ps
  SatisfiedBy greater_or_equal id c ps = Has id (λ v. Greater v c ⊎ Equal v c) ps

  abbrev pub Satisfied : Clause → List Entry → Type 0
  Satisfied clause list =
      SatisfiedBy clause.op (attribute_id clause.attr) clause.value (record_pairs list)

  -- The attribute and the test of the value, as `pass` puts them together.
  module _ (id : ℕ) (P : CaliVariant → Type 0) (match : Match) where
    some_pair :
        (decides : (a : ℕ) (v : CaliVariant) → (match a v ≡ true) ↔ ((a ≡ id) × P v))
        (list : List Entry)
        → (any_match match list false ≡ true) ↔ Has id P (record_pairs list)
    some_pair decides list =
        iff_via (any_match-any match list false)
          (any_pair-Has id P match decides (record_pairs list))

    no_pair :
        (decides : (a : ℕ) (v : CaliVariant) → (match a v ≡ true) ↔ ((a ≡ id) × P v))
        (list : List Entry)
        → (no_match match list ≡ true) ↔ (¬ Has id P (record_pairs list))
    no_pair decides list = iff_via (no_match-any match list) (
        not_iff (any_pair match (record_pairs list))
          (any_pair-Has id P match decides (record_pairs list)))

  Equal-iff : (v c : CaliVariant) → (variant_eq m v c ≡ true) ↔ Equal v c
  Equal-iff v c = (λ e. e, λ e. e)

  Less-iff : (v c : CaliVariant) → (variant_less d m v c ≡ true) ↔ Less v c
  Less-iff v c = ltbℤ_iff (variant_compare d m v c) (pos 0)

  Greater-iff : (v c : CaliVariant) → (variant_greater d m v c ≡ true) ↔ Greater v c
  Greater-iff v c = ltbℤ_iff (pos 0) (variant_compare d m v c)

  passes_op_iff :
      (op : Op) (id : ℕ) (c : CaliVariant) (list : List Entry)
      → (passes_op d m op id c list ≡ true) ↔ SatisfiedBy op id c (record_pairs list)
  passes_op_iff op_none id c list = (λ e. tt, λ x. refl)
  passes_op_iff exist id c list = some_pair id _ _ (attribute-decides id) list
  passes_op_iff not_exist id c list = no_pair id _ _ (attribute-decides id) list
  passes_op_iff equal id c list = some_pair id _ _ (value-decides id _ (λ v. Equal-iff v c)) list
  passes_op_iff not_equal id c list = no_pair id _ _ (value-decides id _ (λ v. Equal-iff v c)) list
  passes_op_iff less_than id c list = some_pair id _ _ (value-decides id _ (λ v. Less-iff v c)) list
  passes_op_iff greater_than id c list =
      some_pair id _ _ (value-decides id _ (λ v. Greater-iff v c)) list
  passes_op_iff less_or_equal id c list =
      some_pair id _ _
        (value-decides id _
          (λ v. or_iff (variant_less d m v c) (variant_eq m v c) (Less-iff v c) (Equal-iff v c)))
        list
  passes_op_iff greater_or_equal id c list =
      some_pair id _ _
        (value-decides id _ (λ v.
          or_iff (variant_greater d m v c) (variant_eq m v c) (Greater-iff v c) (Equal-iff v c)))
        list

if_iff :
    {A B : Type 0} (a b : Bool)
    → ((a ≡ true) ↔ A)
    → ((b ≡ true) ↔ B)
    → ((if a then b else false) ≡ true) ↔ (A × B)
if_iff true b h k = (λ e. (h.0 refl, k.0 e), λ x. k.1 x.1)
if_iff false b h k = (λ e. absurd (cc e), λ x. absurd (cc (h.1 x.0)))

module _ {S : Type 0} (db : MetadataAccess S) (from_string : AttrType → String → CaliVariant)
    (s : S) (d : DoubleOps) (m : Memory) where
  -- A record passes the filters exactly when each filter's clause is satisfied by the record's
  -- pairs of attribute and value: some pair of the attribute has a value that stands to the
  -- clause's as the operator says, and for the negated operators no pair does.
  pub pass-Satisfied :
      (fs : List Condition) (list : List Entry)
      → (pass db from_string s d m fs list ≡ true)
        ↔ All (λ f. Satisfied d m (make_clause db from_string s f) list) fs
  unfolding pass
  pass-Satisfied [] list = (λ e. tt, λ x. refl)
  pass-Satisfied (f ∷ fs) list =
      let clause = make_clause db from_string s f in
      if_iff (passes_clause d m clause list) (pass db from_string s d m fs list)
        (passes_op_iff d m clause.op (attribute_id clause.attr) clause.value list)
        (pass-Satisfied fs list)
