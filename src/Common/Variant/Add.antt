-- ===== src/Common/Variant/Add.antt =====
-- `Variant::operator +=` of src/common/Variant.cpp. Integers wrap at 64 bits.
use caliper_msg_pattern.Prelude.{ℕ, ◌+◌, ◌%◌, ◌^◌, ◌≡◌, arith, if◌then◌else◌}
use caliper_msg_pattern.Prelude.Int.{bits64}
use caliper_msg_pattern.Common.Variant.Types.{
  AttrType, type_inv, type_usr, type_int, type_uint, type_string, type_addr, type_double, type_bool,
  type_type, type_ptr, CaliVariant, get_type, make_variant_from_uint,
}
use caliper_msg_pattern.Common.Variant.Convert.{DoubleOps, to_double, to_int64, to_uint}
use caliper_msg_pattern.Common.Variant.Compare.{same_type}

abbrev pub wrap64 : ℕ → ℕ
wrap64 n = n % 2 ^ 64

module _ (d : DoubleOps) where
  -- Both values are of one type.
  abbrev pub add_same : AttrType → CaliVariant → CaliVariant → CaliVariant
  add_same type_double v w = record v { v_uint = d.plus v.v_uint w.v_uint }
  add_same type_int v w = record v { v_uint = wrap64 (v.v_uint + w.v_uint) }
  add_same type_uint v w = record v { v_uint = wrap64 (v.v_uint + w.v_uint) }
  add_same type_inv v w = v
  add_same type_usr v w = v
  add_same type_string v w = v
  add_same type_addr v w = v
  add_same type_bool v w = v
  add_same type_type v w = v
  add_same type_ptr v w = v

  -- The right value is of another type, and is converted.
  abbrev pub add_other : AttrType → CaliVariant → CaliVariant → CaliVariant
  add_other type_inv v w = w
  add_other type_double v w = record v { v_uint = d.plus v.v_uint (to_double d w).0 }
  add_other type_int v w = record v { v_uint = wrap64 (v.v_uint + bits64 (to_int64 d w).0) }
  add_other type_uint v w = record v { v_uint = wrap64 (v.v_uint + (to_uint d w).0) }
  add_other type_usr v w = v
  add_other type_string v w = v
  add_other type_addr v w = v
  add_other type_bool v w = v
  add_other type_type v w = v
  add_other type_ptr v w = v

  unfoldable pub variant_add : CaliVariant → CaliVariant → CaliVariant
  unfolding get_type to_double to_int64 to_uint
  variant_add v w =
      if same_type (get_type v) (get_type w)
      then add_same (get_type v) v w
      else add_other (get_type v) v w

  -- The sum of two unsigned 64-bit values, and of no value and one.
  pub variant_add_unsigned :
      (a b : ℕ)
      → variant_add (make_variant_from_uint a) (make_variant_from_uint b)
        ≡ make_variant_from_uint (a + b)
  unfolding variant_add make_variant_from_uint
  variant_add_unsigned a b = ground arith
