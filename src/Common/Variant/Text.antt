-- ===== src/Common/Variant/Text.antt =====
-- `Variant::to_string` of src/common/Variant.cpp, and the names of the types of
-- src/common/cali_types.c. A text is the list of its bytes. The text that the C++ library writes for
-- a number, an address or raw bytes is a parameter, `print`.
use caliper_msg_pattern.Prelude.{
  ℕ, zero, suc, ◌+◌, ◌-◌, Bool, true, false, ◌&&◌, List, [], ◌∷◌, if◌then◌else◌, ◌==◌, leb, ◌≡◌,
  refl,
}
use caliper_msg_pattern.Common.Variant.Types.{
  Memory, AttrType, type_inv, type_usr, type_int, type_uint, type_string, type_addr, type_double,
  type_bool, type_type, type_ptr, CaliVariant, get_type, get_size,
}
use caliper_msg_pattern.Common.Variant.Convert.{to_bool, to_type}

unfoldable pub same_text : List ℕ → List ℕ → Bool
same_text [] [] = true
same_text [] (b ∷ t) = false
same_text (a ∷ s) [] = false
same_text (a ∷ s) (b ∷ t) = a == b && same_text s t

unfoldable pub text_at : Memory → ℕ → ℕ → List ℕ
text_at m p zero = []
text_at m p (suc n) = m p ∷ text_at m (p + 1) n

-- `cali_type2string`
abbrev pub type2string : AttrType → List ℕ
type2string type_inv = b'i' ∷ b'n' ∷ b'v' ∷ []
type2string type_usr = b'u' ∷ b's' ∷ b'r' ∷ []
type2string type_int = b'i' ∷ b'n' ∷ b't' ∷ []
type2string type_uint = b'u' ∷ b'i' ∷ b'n' ∷ b't' ∷ []
type2string type_string = b's' ∷ b't' ∷ b'r' ∷ b'i' ∷ b'n' ∷ b'g' ∷ []
type2string type_addr = b'a' ∷ b'd' ∷ b'd' ∷ b'r' ∷ []
type2string type_double = b'd' ∷ b'o' ∷ b'u' ∷ b'b' ∷ b'l' ∷ b'e' ∷ []
type2string type_bool = b'b' ∷ b'o' ∷ b'o' ∷ b'l' ∷ []
type2string type_type = b't' ∷ b'y' ∷ b'p' ∷ b'e' ∷ []
type2string type_ptr = b'p' ∷ b't' ∷ b'r' ∷ []

abbrev pub typemap : List AttrType
typemap =
    type_inv ∷ type_usr ∷ type_int ∷ type_uint ∷ type_string ∷ type_addr ∷ type_double ∷ type_bool
    ∷ type_type ∷ type_ptr ∷ []

unfoldable pub find_type : List ℕ → List AttrType → AttrType
unfolding same_text
find_type str [] = type_inv
find_type str (t ∷ ts) = if same_text str (type2string t) then t else find_type str ts

-- `cali_string2type`
unfoldable pub string2type : List ℕ → AttrType
unfolding find_type
string2type str = find_type str typemap

-- Each type is read back from its name.
pub string2type-type2string : (t : AttrType) → string2type (type2string t) ≡ t
unfolding string2type find_type same_text
string2type-type2string type_inv = refl
string2type-type2string type_usr = refl
string2type-type2string type_int = refl
string2type-type2string type_uint = refl
string2type-type2string type_string = refl
string2type-type2string type_addr = refl
string2type-type2string type_double = refl
string2type-type2string type_bool = refl
string2type-type2string type_type = refl
string2type-type2string type_ptr = refl

module _ (m : Memory) (print : CaliVariant → List ℕ) where
  abbrev pub to_string_as : AttrType → CaliVariant → List ℕ
  to_string_as type_inv v = []
  to_string_as type_string v =
      let len = get_size v in
      text_at m v.v_uint (if leb 1 len && m (v.v_uint + len - 1) == 0 then len - 1 else len)
  to_string_as type_bool v =
      if (to_bool v).0
      then b't' ∷ b'r' ∷ b'u' ∷ b'e' ∷ []
      else b'f' ∷ b'a' ∷ b'l' ∷ b's' ∷ b'e' ∷ []
  to_string_as type_type v = type2string (to_type v).0
  to_string_as _ v = print v

  -- `Variant::to_string`
  unfoldable pub to_string : CaliVariant → List ℕ
  unfolding get_type get_size text_at to_bool to_type
  to_string v = to_string_as (get_type v) v
