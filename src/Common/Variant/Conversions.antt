-- ===== src/Common/Variant/Conversions.antt =====
-- The conversions of src/common/cali_variant.c against one another and against the constructors.
use caliper_msg_pattern.Prelude.{ℕ, ◌%◌, ◌^◌, ◌≤◌, ◌≡◌, ◌≢◌, refl, arith, Bool, true, false}
use caliper_msg_pattern.Prelude.Int.{
  ℤ, pos, negsuc, ◌≤ℤ◌, signed64, bits64, int_min, int_max, llong_min, llong_max,
}
use caliper_msg_pattern.Util.Vlenc.{IsU64}
use caliper_msg_pattern.Common.Variant.Types.{
  AttrType, type_inv, type_usr, type_int, type_uint, type_string, type_addr, type_double, type_bool,
  type_type, type_ptr, type_number, attr_type, CaliVariant, get_type, make_variant_from_bool,
  make_variant_from_int64, make_variant_from_uint, make_variant_from_type,
}
use caliper_msg_pattern.Common.Variant.Convert.{
  DoubleOps, to_int_as, to_int, to_int64_as, to_int64, to_uint_as, to_uint, to_bool, to_type,
}

signed64-bits64 : (i : ℤ) → llong_min ≤ℤ i → i ≤ℤ llong_max → signed64 (bits64 i) ≡ i
signed64-bits64 (pos n) lo hi = ground arith
signed64-bits64 (negsuc n) lo hi = ground arith

pub attr_type-type_number : (t : AttrType) → attr_type (type_number t % 2 ^ 32) ≡ t
attr_type-type_number type_inv = refl
attr_type-type_number type_usr = refl
attr_type-type_number type_int = refl
attr_type-type_number type_uint = refl
attr_type-type_number type_string = refl
attr_type-type_number type_addr = refl
attr_type-type_number type_double = refl
attr_type-type_number type_bool = refl
attr_type-type_number type_type = refl
attr_type-type_number type_ptr = refl

module _ (d : DoubleOps) where
  -- A 64-bit integer, an unsigned 64-bit integer, a boolean and a type, each put into a variant
  -- by its constructor, come back by their own conversion, which reports success.
  pub conversions-constructors :
      (i : ℤ) (u : ℕ) (b : Bool) (t : AttrType)
      → llong_min ≤ℤ i
      → i ≤ℤ llong_max
      → IsU64 u
      → (to_int64 d (make_variant_from_int64 i) ≡ (i, true))
        × (to_uint d (make_variant_from_uint u) ≡ (u, true))
        × (to_bool (make_variant_from_bool b) ≡ (b, true))
        × (to_type (make_variant_from_type t) ≡ (t, true))
  unfolding to_int64 to_uint to_bool to_type make_variant_from_bool make_variant_from_int64
      make_variant_from_uint make_variant_from_type
  conversions-constructors i u b t lo hi fits = (
    ground (arith, signed64-bits64 i),
    ground arith,
    elim b as (λ b. to_bool (make_variant_from_bool b) ≡ (b, true)) [ true ↦ refl | false ↦ refl ],
    ground (arith, attr_type-type_number t),
  )

  to_int_as-to_int64_as :
      (t : AttrType) (w : ℕ) (i : ℤ)
      → t ≢ type_double
      → t ≢ type_type
      → to_int_as d t w ≡ (i, true)
      → (to_int64_as d t w ≡ (i, true)) × (int_min ≤ℤ i) × (i ≤ℤ int_max)
  to_int_as-to_int64_as type_inv w i n m e = cc
  to_int_as-to_int64_as _ w i n m e = ground arith

  -- Doubles and types aside: where the conversion to `int` reports success, the value is in the
  -- range of `int`, and the conversion to 64 bits succeeds with the same value.
  pub to_int-to_int64 :
      (v : CaliVariant) (i : ℤ)
      → get_type v ≢ type_double
      → get_type v ≢ type_type
      → to_int d v ≡ (i, true)
      → (to_int64 d v ≡ (i, true)) × (int_min ≤ℤ i) × (i ≤ℤ int_max)
  unfolding to_int to_int64
  to_int-to_int64 v i n m e = to_int_as-to_int64_as (get_type v) v.v_uint i n m e

  -- What the results of the conversions to signed and to unsigned 64 bits say of one another.
  abbrev pub Agree : ℤ × Bool → ℕ × Bool → Type 0
  Agree (i, true) (u, true) = i ≡ pos u
  Agree (i, true) (u, false) = (i ≤ℤ negsuc 0) × (u ≡ 0)
  Agree (i, false) (u, true) = (i ≡ pos 0) × (2 ^ 63 ≤ u)
  Agree (i, false) (u, false) = (i ≡ pos 0) × (u ≡ 0)

  signs_as :
      (t : AttrType) (w : ℕ)
      → t ≢ type_double
      → IsU64 w
      → Agree (to_int64_as d t w) (to_uint_as d t w)
  signs_as type_double w n fits = absurd (n refl)
  signs_as type_int w n fits = ground arith
  signs_as type_uint w n fits = ground arith
  signs_as type_addr w n fits = ground arith
  signs_as type_bool w n fits = refl
  signs_as type_type w n fits = refl
  signs_as _ w n fits = (refl, refl)

  -- Doubles aside, for a 64-bit pattern: where the conversions to signed and unsigned 64 bits both
  -- succeed they give the same number; where only the signed one succeeds the number is negative;
  -- where only the unsigned one succeeds the number is at least 2 ^ 63; and a conversion that fails
  -- gives 0.
  pub to_int64-to_uint :
      (v : CaliVariant)
      → get_type v ≢ type_double
      → IsU64 v.v_uint
      → Agree (to_int64 d v) (to_uint d v)
  unfolding to_int64 to_uint
  to_int64-to_uint v n fits = signs_as (get_type v) v.v_uint n fits
