-- ===== src/Reader/RecordSelector/Print.antt =====
-- src/reader/RecordSelector.cpp: conditions as the text that `parse` reads.
use caliper_msg_pattern.Prelude.{◌≡◌, refl, Bool, true, false, List, [], ◌∷◌}
use caliper_msg_pattern.Reader.RecordSelector.{
  Op, op_none, exist, not_exist, equal, not_equal, Condition,
}
use caliper_msg_pattern.Reader.RecordSelector.Parse.{
  is_char, is_operator, no_text, before_operator, from_operator, is_negated, behind_sign,
  parse_clause,
}
use Prim.Native.Char.{Char}
use Prim.Native.String.{String, ◌++◌}
use Prim.Native.String.append

-- No character of the text is of the kind.
abbrev pub FreeOf : (Char → Bool) → String → Type 0
FreeOf kind String.[] = Unit
FreeOf kind (String.◌∷◌ c s) = (kind c ≡ false) × FreeOf kind s

abbrev pub is_comma : Char → Bool
is_comma c = is_char c ","

abbrev pub show_op : Op → String → String → String
show_op exist name text = name
show_op not_exist name text = String.◌∷◌ "-" name
show_op equal name text = name ++ String.◌∷◌ "=" text
show_op not_equal name text = String.◌∷◌ "-" (name ++ String.◌∷◌ "=" text)
show_op _ name text = String.[]

abbrev pub show_condition : Condition → String
show_condition f = show_op f.op f.attr_name f.text

-- Clauses with a comma between them.
abbrev pub show_conditions : List Condition → String
show_conditions [] = String.[]
show_conditions (f ∷ []) = show_condition f
show_conditions (f ∷ g ∷ fs) = show_condition f ++ String.◌∷◌ "," (show_conditions (g ∷ fs))

-- The operators that have a notation, with a value where they compare one.
abbrev pub OpFits : Op → String → Type 0
OpFits exist text = text ≡ String.[]
OpFits not_exist text = text ≡ String.[]
OpFits equal text = no_text text ≡ false
OpFits not_equal text = no_text text ≡ false
OpFits _ text = ⊥

-- A condition that a clause can express.
pub record IsPlain (f : Condition) : Type 0 where
  pub name_given : no_text f.attr_name ≡ false
  pub name_unsigned : is_negated f.attr_name ≡ false
  pub name_free : FreeOf is_operator f.attr_name
  pub name_whole : FreeOf is_comma f.attr_name
  pub text_whole : FreeOf is_comma f.text
  pub fits : OpFits f.op f.text

before-free :
    (s : String) → FreeOf is_operator s → (before_operator s ≡ s) × (from_operator s ≡ String.[])
unfolding before_operator from_operator
before-free String.[] h = (refl, refl)
before-free (String.◌∷◌ c s) (h, hs) = let (b, f) = before-free s hs in (simp (h, b), simp (h, f))

before-operator :
    (s : String) (c : Char) (v : String)
    → FreeOf is_operator s
    → is_operator c ≡ true
    → (before_operator (s ++ String.◌∷◌ c v) ≡ s)
      × (from_operator (s ++ String.◌∷◌ c v) ≡ String.◌∷◌ c v)
unfolding before_operator from_operator
before-operator String.[] c v h o = (simp (append.nil, o), simp (append.nil, o))
before-operator (String.◌∷◌ b s) c v (h, hs) o =
    let (x, y) = before-operator s c v hs o in (simp (append.cons, h, x), simp (append.cons, h, y))

unsigned :
    (name t : String)
    → no_text name ≡ false
    → is_negated name ≡ false
    → (is_negated (name ++ t) ≡ false) × (behind_sign (name ++ t) ≡ name ++ t)
unsigned String.[] t g h = absurd (cc g)
unsigned (String.◌∷◌ c s) t g h = (rw append.cons (h), simp (append.cons, h))

sign_kept :
    (name : String) → no_text name ≡ false → is_negated name ≡ false → behind_sign name ≡ name
sign_kept String.[] given plus = refl
sign_kept (String.◌∷◌ c s) given plus = simp plus

-- Taken apart, for the steps below.
module _ (name text : String) (given : no_text name ≡ false) (plus : is_negated name ≡ false)
    (free : FreeOf is_operator name) where
  parse-show_op :
      (op : Op)
      → OpFits op text
      → parse_clause (show_op op name text) ≡ record { op = op; attr_name = name; text = text }
  unfolding parse_clause
  parse-show_op exist fits =
      let (x, y) = before-free name free in
      simp (sign_kept name given plus, x, y, given, plus, fits)
  parse-show_op not_exist fits = let (x, y) = before-free name free in simp (x, y, given, fits)
  parse-show_op equal fits =
      let (n, b) = unsigned name (String.◌∷◌ "=" text) given plus in
      let (x, y) = before-operator name "=" text free refl in simp (n, b, x, y, given, fits)
  parse-show_op not_equal fits =
      let (x, y) = before-operator name "=" text free refl in simp (x, y, given, fits)
  parse-show_op op_none fits = absurd fits
  parse-show_op _ fits = absurd fits

-- A condition written as a clause is read back.
pub parse_clause-show : (f : Condition) → IsPlain f → parse_clause (show_condition f) ≡ f
parse_clause-show f plain =
    parse-show_op f.attr_name f.text plain.name_given plain.name_unsigned plain.name_free f.op
      plain.fits

-- A clause that compares by `<` or `>` is read as one that only asks for the attribute.
pub parse_clause-comparison :
    (name value : String)
    → no_text name ≡ false
    → is_negated name ≡ false
    → FreeOf is_operator name
    → no_text value ≡ false
    → ((parse_clause (name ++ String.◌∷◌ "<" value)).op ≡ exist)
      × ((parse_clause (name ++ String.◌∷◌ ">" value)).op ≡ exist)
unfolding parse_clause
parse_clause-comparison name value given plus free k =
    let (n, b) = unsigned name (String.◌∷◌ "<" value) given plus in
    let (x, y) = before-operator name "<" value free refl in
    let (n₂, b₂) = unsigned name (String.◌∷◌ ">" value) given plus in
    let (x₂, y₂) = before-operator name ">" value free refl in
    (simp (n, b, x, y, given, k), simp (n₂, b₂, x₂, y₂, given, k))
