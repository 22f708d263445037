-- ===== src/Common/Variant/Ordering.antt =====
-- What the results of `variant_compare` and `variant_eq` say of the values.
use caliper_msg_pattern.Prelude.{
  ℕ, zero, suc, ◌+◌, ◌*◌, ◌^◌, ◌<◌, ◌≡◌, refl, sym, ap, ◌∙◌, arith, true, false, if◌then◌else◌,
  ◌==◌, ltb, ==_iff, ==_refl, and_true, Bool-cases, inl, inr,
}
use caliper_msg_pattern.Prelude.Int.{
  ℤ, pos, negsuc, ◌-ℤ◌, ◌≤ℤ◌, signed32, signed64, is_zero, int_min, int_max,
}
use caliper_msg_pattern.Util.Vlenc.{IsU64}
use caliper_msg_pattern.Common.Variant.Types.{
  AttrType, type_inv, type_usr, type_int, type_uint, type_string, type_double, CaliVariant,
  get_type, Memory, extract_size, extract_type, attr_type,
}
use caliper_msg_pattern.Common.Variant.Convert.{DoubleOps}
use caliper_msg_pattern.Common.Variant.Compare.{
  memcmp, strncmp, variant_compare, variant_eq, variant_value_eq, value_eq_as, compare_as, data_eq,
}

-- x - x is 0 or not a number, so it is neither below nor above 0.
pub record SelfDifference (d : DoubleOps) : Type 0 where
  pub not_below : (x : ℕ) → d.less (d.sub x x) 0 ≡ false
  pub not_above : (x : ℕ) → d.less 0 (d.sub x x) ≡ false

strncmp_of_memcmp : (m : Memory) (p q n : ℕ) → memcmp m p q n ≡ pos 0 → strncmp m p q n ≡ pos 0
unfolding memcmp strncmp
strncmp_of_memcmp m p q zero e = refl
strncmp_of_memcmp m p q (suc n) e = ground (arith, strncmp_of_memcmp m (p + 1) (q + 1) n)

memcmp_self : (m : Memory) (p n : ℕ) → memcmp m p p n ≡ pos 0
unfolding memcmp
memcmp_self m p zero = refl
memcmp_self m p (suc n) = ground (arith, memcmp_self m (p + 1) n)

is_zero-eq : (i : ℤ) → is_zero i ≡ true → i ≡ pos 0
is_zero-eq (pos zero) e = refl
is_zero-eq (pos (suc n)) e = cc
is_zero-eq (negsuc n) e = cc

int_size : (ts : ℕ) → extract_size ts < 2 ^ 31 → signed32 (extract_size ts) ≡ pos (extract_size ts)
int_size ts fits = ground arith

module _ (d : DoubleOps) (m : Memory) where
  -- For two unsigned values of 64 bits the wrapping difference finds the order: the result is 0,
  -- below 0 or above 0 as the left value is equal to, below or above the right one.
  pub variant_compare_unsigned :
      (l r : CaliVariant)
      → get_type l ≡ type_uint
      → get_type r ≡ type_uint
      → IsU64 l.v_uint
      → IsU64 r.v_uint
      → variant_compare d m l r ≡ (
          if l.v_uint == r.v_uint then pos 0 else if ltb l.v_uint r.v_uint then negsuc 0 else pos 1)
  unfolding variant_compare
  variant_compare_unsigned l r p q hl hr = rw (p, q, variant_compare) (ground arith)

  -- For two signed values whose difference fits an `int` the result is the difference.
  pub variant_compare_signed :
      (l r : CaliVariant)
      → get_type l ≡ type_int
      → get_type r ≡ type_int
      → IsU64 l.v_uint
      → IsU64 r.v_uint
      → int_min ≤ℤ signed64 l.v_uint -ℤ signed64 r.v_uint
      → signed64 l.v_uint -ℤ signed64 r.v_uint ≤ℤ int_max
      → variant_compare d m l r ≡ signed64 l.v_uint -ℤ signed64 r.v_uint
  unfolding variant_compare
  variant_compare_signed l r p q hl hr lo hi = rw (p, q, variant_compare) (ground arith)

  -- Two signed values that differ by a multiple of 2 ^ 32 which is not 0 are told apart by
  -- `variant_eq`, and yet their comparison returns 0 in both orders.
  pub variant_compare_wraps :
      (l r : CaliVariant) (k : ℕ)
      → get_type l ≡ type_int
      → get_type r ≡ type_int
      → 0 < k
      → l.v_uint ≡ r.v_uint + k * 2 ^ 32
      → IsU64 l.v_uint
      → (variant_compare d m l r ≡ pos 0)
        × (variant_compare d m r l ≡ pos 0)
        × (variant_eq m l r ≡ false)
  unfolding variant_compare variant_eq
  variant_compare_wraps l r k p q hk e hl = (
    rw (p, q, variant_compare) (ground arith),
    rw (p, q, variant_compare) (ground arith),
    rw (p, variant_eq, variant_value_eq) (ground arith),
  )

  memcmp-data_eq :
      (l r : CaliVariant)
      → data_eq m l r ≡ true
      → memcmp m l.v_uint r.v_uint (extract_size l.type_and_size) ≡ pos 0
  memcmp-data_eq l r e = elim (Bool-cases (l.v_uint == r.v_uint)) [
    | inl same ↦
        rw ((==_iff l.v_uint r.v_uint).0 same)
          (memcmp_self m r.v_uint (extract_size l.type_and_size))
    | inr other ↦ is_zero-eq _ (rw other at e)
  ]

  compare_as-value_eq :
      (t : AttrType) (l r : CaliVariant)
      → SelfDifference d
      → l.type_and_size ≡ r.type_and_size
      → extract_size r.type_and_size < 2 ^ 31
      → value_eq_as m t l r ≡ true
      → compare_as d m t l r ≡ pos 0
  compare_as-value_eq type_inv l r law ts fits e = ground arith
  compare_as-value_eq type_usr l r law ts fits e =
      let bytes = memcmp-data_eq l r e in
      rw (ts, int_size r.type_and_size fits) (ground (arith, rw ts at bytes))
  compare_as-value_eq type_string l r law ts fits e =
      let bytes = strncmp_of_memcmp m _ _ _ (memcmp-data_eq l r e) in
      rw (ts, int_size r.type_and_size fits) (ground (arith, rw ts at bytes))
  compare_as-value_eq type_double l r law ts fits e =
      ground (arith, law.not_below l.v_uint, law.not_above l.v_uint)
  compare_as-value_eq _ l r law ts fits e = ground arith

  compare_same :
      (t : AttrType) (l r : CaliVariant)
      → get_type l ≡ t
      → get_type r ≡ t
      → variant_compare d m l r ≡ compare_as d m t l r
  unfolding variant_compare
  compare_same t l r p q = rw (p, q, variant_compare) (rw ==_refl)

  -- For every type: variants that `variant_eq` calls equal, with data below 2 GiB, compare as 0.
  pub variant_compare-variant_eq :
      (l r : CaliVariant)
      → SelfDifference d
      → extract_size r.type_and_size < 2 ^ 31
      → variant_eq m l r ≡ true
      → variant_compare d m l r ≡ pos 0
  unfolding variant_eq
  variant_compare-variant_eq l r law fits e =
      let (same, value) = and_true _ (variant_value_eq m l r) e in
      let ts = (==_iff l.type_and_size r.type_and_size).0 same in
      let types : get_type l ≡ get_type r = ap (λ (t : ℕ). attr_type (extract_type t)) ts in
      compare_same (get_type l) l r refl (sym types)
      ∙ compare_as-value_eq (get_type l) l r law ts fits value
