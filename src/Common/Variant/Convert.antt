-- ===== src/Common/Variant/Convert.antt =====
-- `cali_variant_to_int` and its siblings: the value, and what is stored through `okptr`.
-- The hardware's conversions of doubles are parameters.
use caliper_msg_pattern.Prelude.{
  ℕ, ◌-◌, ◌%◌, ◌^◌, Bool, true, false, not, ◌&&◌, if◌then◌else◌, leb, ◌==◌,
}
use caliper_msg_pattern.Prelude.Int.{ℤ, pos, pos_part, lebℤ, signed32, signed64, int_min, int_max}
use caliper_msg_pattern.Common.Variant.Types.{
  AttrType, type_inv, type_usr, type_int, type_uint, type_string, type_addr, type_double, type_bool,
  type_type, type_ptr, CaliVariant, get_type, attr_type,
}

-- C's arithmetic on doubles, given by their bit patterns, and the conversions to integers.
pub record DoubleOps : Type 0 where
  pub sub : ℕ → ℕ → ℕ
  pub plus : ℕ → ℕ → ℕ
  pub mul : ℕ → ℕ → ℕ
  pub div : ℕ → ℕ → ℕ
  pub less : ℕ → ℕ → Bool
  pub to_int : ℕ → ℤ
  pub to_int64 : ℕ → ℤ
  pub to_uint64 : ℕ → ℕ
  pub of_int64 : ℤ → ℕ
  pub of_uint64 : ℕ → ℕ

-- `(int) v.value.v_bool`
abbrev pub bool_value : ℕ → ℕ
bool_value w = if w % 256 == 0 then 0 else 1

module _ (d : DoubleOps) where
  abbrev pub to_int_as : AttrType → ℕ → ℤ × Bool
  to_int_as type_inv w = (pos 0, false)
  to_int_as type_usr w = (pos 0, false)
  to_int_as type_string w = (pos 0, false)
  to_int_as type_ptr w = (pos 0, false)
  to_int_as type_int w =
      if lebℤ int_min (signed64 w) && lebℤ (signed64 w) int_max
      then (signed64 w, true)
      else (pos 0, false)
  to_int_as type_addr w = if leb w (2 ^ 31 - 1) then (pos w, true) else (pos 0, false)
  to_int_as type_uint w = if leb w (2 ^ 31 - 1) then (pos w, true) else (pos 0, false)
  to_int_as type_double w = (d.to_int w, true)
  to_int_as type_bool w = (pos (bool_value w), true)
  to_int_as type_type w = (signed32 w, true)

  unfoldable pub to_int : CaliVariant → ℤ × Bool
  unfolding get_type
  to_int v = to_int_as (get_type v) v.v_uint

  abbrev pub to_int64_as : AttrType → ℕ → ℤ × Bool
  to_int64_as type_inv w = (pos 0, false)
  to_int64_as type_usr w = (pos 0, false)
  to_int64_as type_string w = (pos 0, false)
  to_int64_as type_ptr w = (pos 0, false)
  to_int64_as type_int w = (signed64 w, true)
  to_int64_as type_addr w = if leb w (2 ^ 63 - 1) then (pos w, true) else (pos 0, false)
  to_int64_as type_uint w = if leb w (2 ^ 63 - 1) then (pos w, true) else (pos 0, false)
  to_int64_as type_double w = (d.to_int64 w, true)
  to_int64_as type_bool w = (pos (bool_value w), true)
  to_int64_as type_type w = (pos (w % 2 ^ 32), true)

  unfoldable pub to_int64 : CaliVariant → ℤ × Bool
  unfolding get_type
  to_int64 v = to_int64_as (get_type v) v.v_uint

  abbrev pub to_uint_as : AttrType → ℕ → ℕ × Bool
  to_uint_as type_inv w = (0, false)
  to_uint_as type_usr w = (0, false)
  to_uint_as type_string w = (0, false)
  to_uint_as type_ptr w = (0, false)
  to_uint_as type_int w =
      if lebℤ (pos 0) (signed64 w) then (pos_part (signed64 w), true) else (0, false)
  to_uint_as type_addr w = (w, true)
  to_uint_as type_uint w = (w, true)
  to_uint_as type_double w = (d.to_uint64 w, true)
  to_uint_as type_bool w = (bool_value w, true)
  to_uint_as type_type w = (w % 2 ^ 32, true)

  unfoldable pub to_uint : CaliVariant → ℕ × Bool
  unfolding get_type
  to_uint v = to_uint_as (get_type v) v.v_uint

  -- The bit pattern of the double.
  abbrev pub to_double_as : AttrType → ℕ → ℕ × Bool
  to_double_as type_inv w = (d.of_int64 (pos 0), false)
  to_double_as type_usr w = (d.of_int64 (pos 0), false)
  to_double_as type_string w = (d.of_int64 (pos 0), false)
  to_double_as type_ptr w = (d.of_int64 (pos 0), false)
  to_double_as type_int w = (d.of_int64 (signed64 w), true)
  to_double_as type_addr w = (d.of_uint64 w, true)
  to_double_as type_uint w = (d.of_uint64 w, true)
  to_double_as type_double w = (w, true)
  to_double_as type_bool w = (d.of_int64 (pos (bool_value w)), true)
  to_double_as type_type w = (d.of_int64 (pos (w % 2 ^ 32)), true)

  unfoldable pub to_double : CaliVariant → ℕ × Bool
  unfolding get_type
  to_double v = to_double_as (get_type v) v.v_uint

abbrev pub to_bool_as : AttrType → ℕ → Bool × Bool
to_bool_as type_int w = (not (w == 0), true)
to_bool_as type_uint w = (not (w == 0), true)
to_bool_as type_addr w = (not (w == 0), true)
to_bool_as type_bool w = (not (w % 256 == 0), true)
to_bool_as type_inv w = (false, false)
to_bool_as type_usr w = (false, false)
to_bool_as type_string w = (false, false)
to_bool_as type_double w = (false, false)
to_bool_as type_type w = (false, false)
to_bool_as type_ptr w = (false, false)

unfoldable pub to_bool : CaliVariant → Bool × Bool
unfolding get_type
to_bool v = to_bool_as (get_type v) v.v_uint

-- `v_type` holds an enumerator's number.
abbrev pub to_type_as : AttrType → ℕ → AttrType × Bool
to_type_as type_type w = (attr_type (w % 2 ^ 32), true)
to_type_as type_inv w = (type_inv, false)
to_type_as type_usr w = (type_inv, false)
to_type_as type_int w = (type_inv, false)
to_type_as type_uint w = (type_inv, false)
to_type_as type_string w = (type_inv, false)
to_type_as type_addr w = (type_inv, false)
to_type_as type_double w = (type_inv, false)
to_type_as type_bool w = (type_inv, false)
to_type_as type_ptr w = (type_inv, false)

unfoldable pub to_type : CaliVariant → AttrType × Bool
unfolding get_type
to_type v = to_type_as (get_type v) v.v_uint
