-- ===== src/Common/Variant/Compare.antt =====
-- `cali_variant_compare` and `cali_variant_eq`. Values of type `int` are integers.
use caliper_msg_pattern.Prelude.{
  ℕ, zero, suc, ◌+◌, ◌-◌, ◌%◌, ◌^◌, Bool, true, ◌&&◌, if◌then◌else◌, ltb, ◌==◌, ◌≡◌, arith, ==_refl,
}
use caliper_msg_pattern.Prelude.Int.{ℤ, pos, negsuc, ◌-ℤ◌, ltbℤ, is_zero, signed32, bits64}
use caliper_msg_pattern.Common.Variant.Types.{
  AttrType, type_inv, type_usr, type_int, type_uint, type_string, type_addr, type_double, type_bool,
  type_type, type_ptr, type_number, CaliVariant, get_type, extract_size, Memory,
}
use caliper_msg_pattern.Common.Variant.Convert.{DoubleOps, bool_value}

-- C's `memcmp`, by the difference of the first bytes that differ.
unfoldable pub memcmp : Memory → ℕ → ℕ → ℕ → ℤ
memcmp m p q zero = pos 0
memcmp m p q (suc n) =
    let rest = memcmp m (p + 1) (q + 1) n in if m p == m q then rest else pos (m p) -ℤ pos (m q)

-- C's `strncmp` stops behind a NUL.
unfoldable pub strncmp : Memory → ℕ → ℕ → ℕ → ℤ
strncmp m p q zero = pos 0
strncmp m p q (suc n) =
    let rest = strncmp m (p + 1) (q + 1) n in
    if m p == m q then (if m p == 0 then pos 0 else rest) else pos (m p) -ℤ pos (m q)

abbrev pub imin : ℤ → ℤ → ℤ
imin l r = if ltbℤ l r then l else r

-- `(cmp ? cmp : (lhssize - rhssize))`
abbrev pub or_sizes : ℤ → ℤ → ℤ → ℤ
or_sizes cmp lhssize rhssize = if is_zero cmp then lhssize -ℤ rhssize else cmp

-- The difference of two 64-bit values as an `int`: the low four bytes.
abbrev pub int_difference : ℕ → ℕ → ℤ
int_difference l r = signed32 (l + 2 ^ 64 - r)

abbrev pub wrap_difference : ℕ → ℕ → ℕ
wrap_difference l r = (l + 2 ^ 64 - r) % 2 ^ 64

abbrev pub same_type : AttrType → AttrType → Bool
same_type s t = type_number s == type_number t

module _ (d : DoubleOps) (m : Memory) where
  -- The branch for two variants of one type.
  abbrev pub compare_as : AttrType → CaliVariant → CaliVariant → ℤ
  compare_as type_inv l r = int_difference l.v_uint r.v_uint
  compare_as type_usr l r =
      let lhssize = signed32 (extract_size l.type_and_size) in
      let rhssize = signed32 (extract_size r.type_and_size) in
      or_sizes (memcmp m l.v_uint r.v_uint (bits64 (imin lhssize rhssize))) lhssize rhssize
  compare_as type_string l r =
      let lhssize = signed32 (extract_size l.type_and_size) in
      let rhssize = signed32 (extract_size r.type_and_size) in
      or_sizes (strncmp m l.v_uint r.v_uint (bits64 (imin lhssize rhssize))) lhssize rhssize
  compare_as type_int l r = int_difference l.v_uint r.v_uint
  compare_as type_addr l r =
      let diff = wrap_difference l.v_uint r.v_uint in
      if diff == 0 then pos 0 else if ltb l.v_uint diff then negsuc 0 else pos 1
  compare_as type_uint l r =
      let diff = wrap_difference l.v_uint r.v_uint in
      if diff == 0 then pos 0 else if ltb l.v_uint diff then negsuc 0 else pos 1
  compare_as type_double l r =
      let diff = d.sub l.v_uint r.v_uint in
      if d.less diff 0 then negsuc 0 else if d.less 0 diff then pos 1 else pos 0
  compare_as type_bool l r = pos (bool_value l.v_uint) -ℤ pos (bool_value r.v_uint)
  compare_as type_type l r = signed32 l.v_uint -ℤ signed32 r.v_uint
  compare_as type_ptr l r = int_difference l.v_uint r.v_uint

  unfoldable pub variant_compare : CaliVariant → CaliVariant → ℤ
  unfolding get_type memcmp strncmp
  variant_compare l r =
      if same_type (get_type l) (get_type r)
      then compare_as (get_type l) l r
      else pos (type_number (get_type l)) -ℤ pos (type_number (get_type r))

module _ (m : Memory) where
  abbrev pub data_eq : CaliVariant → CaliVariant → Bool
  data_eq l r =
      if l.v_uint == r.v_uint
      then true
      else is_zero (memcmp m l.v_uint r.v_uint (extract_size l.type_and_size))

  -- `switch ( _EXTRACT_TYPE(lhs.type_and_size) )`
  abbrev pub value_eq_as : AttrType → CaliVariant → CaliVariant → Bool
  value_eq_as type_usr l r = data_eq l r
  value_eq_as type_string l r = data_eq l r
  value_eq_as _ l r = l.v_uint == r.v_uint

  unfoldable pub variant_value_eq : CaliVariant → CaliVariant → Bool
  unfolding get_type memcmp
  variant_value_eq l r = value_eq_as (get_type l) l r

  unfoldable pub variant_eq : CaliVariant → CaliVariant → Bool
  unfolding variant_value_eq
  variant_eq l r = l.type_and_size == r.type_and_size && variant_value_eq l r

value_eq_refl : (m : Memory) (t : AttrType) (v : CaliVariant) → value_eq_as m t v v ≡ true
value_eq_refl m type_usr v = ground (arith, ==_refl v.v_uint)
value_eq_refl m type_string v = ground (arith, ==_refl v.v_uint)
value_eq_refl m type_inv v = ==_refl v.v_uint
value_eq_refl m type_int v = ==_refl v.v_uint
value_eq_refl m type_uint v = ==_refl v.v_uint
value_eq_refl m type_addr v = ==_refl v.v_uint
value_eq_refl m type_double v = ==_refl v.v_uint
value_eq_refl m type_bool v = ==_refl v.v_uint
value_eq_refl m type_type v = ==_refl v.v_uint
value_eq_refl m type_ptr v = ==_refl v.v_uint

pub variant_eq_refl : (m : Memory) (v : CaliVariant) → variant_eq m v v ≡ true
unfolding variant_eq variant_value_eq
variant_eq_refl m v = simp (==_refl v.type_and_size, value_eq_refl m (get_type v) v)
