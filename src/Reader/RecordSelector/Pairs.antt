-- ===== src/Reader/RecordSelector/Pairs.antt =====
-- The attribute and value pairs of a record, and the loops of src/reader/RecordSelector.cpp as
-- searches in them.
use caliper_msg_pattern.Prelude.{
  ℕ, ◌≡◌, refl, ◌↔◌, ◌⊎◌, inl, inr, arith, Bool, true, false, not, ◌&&◌, List, [], ◌∷◌, ◌++◌,
  if◌then◌else◌, ◌==◌, ==_iff, and_true,
}
use caliper_msg_pattern.Common.Variant.Types.{CaliVariant}
use caliper_msg_pattern.Common.Entry.{NodePtr, Entry, inv_id, entry_attribute, is_reference}
use caliper_msg_pattern.Reader.RecordSelector.{Match, match_path, have_match, any_match, no_match}

abbrev pub Pair : Type 0
Pair = ℕ × CaliVariant

-- The pairs on a path up to the first node with the invalid id.
unfoldable pub path_pairs : NodePtr → List Pair
path_pairs [] = []
path_pairs (n ∷ up) = if n.id == inv_id then [] else (n.attribute, n.content) ∷ path_pairs up

unfoldable pub entry_pairs : Entry → List Pair
unfolding path_pairs
entry_pairs e = if is_reference e then path_pairs e.node else (entry_attribute e, e.value) ∷ []

unfoldable pub record_pairs : List Entry → List Pair
unfolding entry_pairs
record_pairs [] = []
record_pairs (e ∷ es) = entry_pairs e ++ record_pairs es

-- A pair of the attribute whose value has the property.
abbrev pub Has : ℕ → (CaliVariant → Type 0) → List Pair → Type 0
Has id P [] = ⊥
Has id P ((a, v) ∷ ps) = ((a ≡ id) × P v) ⊎ Has id P ps

unfoldable pub any_pair : Match → List Pair → Bool
any_pair match [] = false
any_pair match ((a, v) ∷ ps) = if match a v then true else any_pair match ps

any_pair-append :
    (match : Match) (ps qs : List Pair)
    → any_pair match (ps ++ qs) ≡ (if any_pair match ps then true else any_pair match qs)
unfolding any_pair
any_pair-append match [] qs = refl
any_pair-append match ((a, v) ∷ ps) qs = ground (arith, any_pair-append match ps qs)

match_path-any : (match : Match) (p : NodePtr) → match_path match p ≡ any_pair match (path_pairs p)
unfolding match_path any_pair path_pairs
match_path-any match [] = refl
match_path-any match (n ∷ up) = ground (arith, match_path-any match up)

have_match-any : (match : Match) (e : Entry) → have_match match e ≡ any_pair match (entry_pairs e)
unfolding have_match any_pair entry_pairs
have_match-any match e = ground (arith, match_path-any match e.node)

pub any_match-any :
    (match : Match) (list : List Entry) (m : Bool)
    → any_match match list m ≡ (if m then true else any_pair match (record_pairs list))
unfolding any_match record_pairs any_pair
any_match-any match [] true = refl
any_match-any match [] false = refl
any_match-any match (e ∷ es) m = ground (
  arith,
  any_match-any match es m,
  any_match-any match es true,
  have_match-any match e,
  any_pair-append match (entry_pairs e) (record_pairs es),
)

pub no_match-any :
    (match : Match) (list : List Entry)
    → no_match match list ≡ not (any_pair match (record_pairs list))
unfolding no_match record_pairs any_pair
no_match-any match [] = refl
no_match-any match (e ∷ es) = ground (
  arith,
  no_match-any match es,
  have_match-any match e,
  any_pair-append match (entry_pairs e) (record_pairs es),
)

and_both : (a b : Bool) → a ≡ true → b ≡ true → (a && b) ≡ true
and_both a b h k = ground arith

-- Two tests that decide, one behind the other.
if_true_iff :
    {A R : Type 0} (b r : Bool)
    → ((b ≡ true) ↔ A)
    → ((r ≡ true) ↔ R)
    → ((if b then true else r) ≡ true) ↔ (A ⊎ R)
if_true_iff true r h k = (λ e. inl (h.0 refl), λ x. refl)
if_true_iff false r h k =
    (λ e. inr (k.0 e), λ x. elim x [ inl a ↦ absurd (cc (h.1 a)) | inr y ↦ k.1 y ])

pub any_pair-Has :
    (id : ℕ) (P : CaliVariant → Type 0) (match : Match)
    (decides : (a : ℕ) (v : CaliVariant) → (match a v ≡ true) ↔ ((a ≡ id) × P v)) (ps : List Pair)
    → (any_pair match ps ≡ true) ↔ Has id P ps
unfolding any_pair
any_pair-Has id P match decides [] = (λ e. cc, λ h. absurd h)
any_pair-Has id P match decides ((a, v) ∷ ps) =
    if_true_iff (match a v) (any_pair match ps) (decides a v) (any_pair-Has id P match decides ps)

-- A test of the attribute, and one of the value behind it.
pub attribute-decides : (id a : ℕ) (v : CaliVariant) → ((a == id) ≡ true) ↔ ((a ≡ id) × Unit {0})
attribute-decides id a v = (λ e. ((==_iff a id).0 e, tt), λ h. (==_iff a id).1 h.0)

pub value-decides :
    {P : CaliVariant → Type 0} (id : ℕ) (test : CaliVariant → Bool)
    (decides : (v : CaliVariant) → (test v ≡ true) ↔ P v) (a : ℕ) (v : CaliVariant)
    → ((a == id && test v) ≡ true) ↔ ((a ≡ id) × P v)
value-decides id test decides a v = (
  λ e. (
    (==_iff a id).0 (and_true (a == id) (test v) e).0,
    (decides v).0 (and_true (a == id) (test v) e).1,
  ),
  λ h. and_both (a == id) (test v) ((==_iff a id).1 h.0) ((decides v).1 h.1),
)
