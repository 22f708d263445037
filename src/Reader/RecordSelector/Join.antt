-- ===== src/Reader/RecordSelector/Join.antt =====
-- src/reader/RecordSelector.cpp: `RecordSelector::parse` on a list of clauses.
use caliper_msg_pattern.Prelude.{◌≡◌, refl, ap, ◌∙◌, Bool, false, List, [], ◌∷◌, All, if◌then◌else◌}
use caliper_msg_pattern.Reader.RecordSelector.{
  Op, op_none, exist, not_exist, equal, not_equal, Condition,
}
use caliper_msg_pattern.Reader.RecordSelector.Parse.{
  no_text, split_from, split, keep_op, parse_clauses, parse,
}
use caliper_msg_pattern.Reader.RecordSelector.Print.{
  FreeOf, is_comma, show_op, show_condition, show_conditions, OpFits, IsPlain, parse_clause-show,
}
use Prim.Native.Char.{Char}
use Prim.Native.String.{String, ◌++◌}
use Prim.Native.String.append
use text.Mathlib.TextLemmas.{append-nil, append_assoc}

split-word :
    (acc s rest : String)
    → FreeOf is_comma s
    → split_from "," acc (s ++ String.◌∷◌ "," rest) ≡ (acc ++ s) ∷ split_from "," String.[] rest
unfolding split_from
split-word acc String.[] rest h = simp (append.nil, append-nil acc)
split-word acc (String.◌∷◌ c s) rest (h, hs) =
    simp (
      append.cons,
      h,
      split-word (acc ++ String.◌∷◌ c String.[]) s rest hs,
      append_assoc,
      append.nil,
    )

first_word :
    (s rest : String)
    → FreeOf is_comma s
    → split_from "," String.[] (s ++ String.◌∷◌ "," rest) ≡ s ∷ split_from "," String.[] rest
first_word s rest h = split-word String.[] s rest h ∙ simp append.nil

split-last :
    (acc s : String)
    → FreeOf is_comma s
    → split_from "," acc s ≡ (if no_text (acc ++ s) then [] else (acc ++ s) ∷ [])
unfolding split_from
split-last acc String.[] h = simp (append-nil acc)
split-last acc (String.◌∷◌ c s) (h, hs) =
    simp (h, split-last (acc ++ String.◌∷◌ c String.[]) s hs, append_assoc, append.cons, append.nil)

FreeOf-append :
    (kind : Char → Bool) (s t : String) → FreeOf kind s → FreeOf kind t → FreeOf kind (s ++ t)
FreeOf-append kind String.[] t h k = rw append.nil (k)
FreeOf-append kind (String.◌∷◌ c s) t (h, hs) k = rw append.cons ((h, FreeOf-append kind s t hs k))

module _ (name text : String) (names : FreeOf is_comma name) (texts : FreeOf is_comma text) where
  show_op-free : (op : Op) → FreeOf is_comma (show_op op name text)
  show_op-free exist = names
  show_op-free not_exist = (refl, names)
  show_op-free equal = FreeOf-append is_comma name (String.◌∷◌ "=" text) names (refl, texts)
  show_op-free not_equal =
      (refl, FreeOf-append is_comma name (String.◌∷◌ "=" text) names (refl, texts))
  show_op-free _ = tt

no_text-append : (s t : String) → no_text s ≡ false → no_text (s ++ t) ≡ false
no_text-append String.[] t h = absurd (cc h)
no_text-append (String.◌∷◌ c s) t h = simp append.cons

show_op-given :
    (op : Op) (name text : String)
    → no_text name ≡ false
    → OpFits op text
    → no_text (show_op op name text) ≡ false
show_op-given exist name text given fits = given
show_op-given not_exist name text given fits = refl
show_op-given equal name text given fits = no_text-append name (String.◌∷◌ "=" text) given
show_op-given not_equal name text given fits = refl
show_op-given op_none name text given fits = absurd fits
show_op-given _ name text given fits = absurd fits

kept : (op : Op) (f : Condition) (fs : List Condition) → OpFits op f.text → keep_op op f fs ≡ f ∷ fs
kept exist f fs fits = refl
kept not_exist f fs fits = refl
kept equal f fs fits = refl
kept not_equal f fs fits = refl
kept op_none f fs fits = absurd fits
kept _ f fs fits = absurd fits

parse_clauses-show :
    (f : Condition) (strings : List String)
    → IsPlain f
    → parse_clauses (show_condition f ∷ strings) ≡ f ∷ parse_clauses strings
unfolding parse_clauses
parse_clauses-show f strings plain =
    simp (parse_clause-show f plain, kept f.op f (parse_clauses strings) plain.fits)

shown-free : (f : Condition) → IsPlain f → FreeOf is_comma (show_condition f)
shown-free f plain = show_op-free f.attr_name f.text plain.name_whole plain.text_whole f.op

-- Conditions that a clause can express, written as clauses with a comma between them, are what
-- `parse` returns for that text, in their order.
pub parse-show_conditions : (fs : List Condition) → All IsPlain fs → parse (show_conditions fs) ≡ fs
unfolding parse split
parse-show_conditions [] h = refl
parse-show_conditions (f ∷ []) (plain, h) = simp (
  split-last String.[] (show_condition f) (shown-free f plain),
  append.nil,
  show_op-given f.op f.attr_name f.text plain.name_given plain.fits,
  parse_clauses-show f [] plain,
)
parse-show_conditions (f ∷ g ∷ fs) (plain, h) =
    ap parse_clauses (first_word (show_condition f) (show_conditions (g ∷ fs)) (shown-free f plain))
    ∙ parse_clauses-show f (split_from "," String.[] (show_conditions (g ∷ fs))) plain
    ∙ ap (λ t. f ∷ t) (parse-show_conditions (g ∷ fs) h)
