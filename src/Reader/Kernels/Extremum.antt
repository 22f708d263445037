-- ===== src/Reader/Kernels/Extremum.antt =====
-- `MinKernel` and `MaxKernel`.
use caliper_msg_pattern.Prelude.{
  ℕ, ◌+◌, Bool, ◌||◌, List, [], ◌∷◌, ◌++◌, if◌then◌else◌, ◌==◌, ltb, Option, none, some,
}
use caliper_msg_pattern.Prelude.Int.{ltbℤ}
use caliper_msg_pattern.Common.Variant.Types.{
  AttrType, type_int, type_uint, type_double, CaliVariant, make_variant_from_double,
  make_variant_from_int64, make_variant_from_uint,
}
use caliper_msg_pattern.Common.Variant.Convert.{DoubleOps, to_double, to_int64, to_uint}
use caliper_msg_pattern.Common.Entry.{
  Attribute, attribute_id, attribute_type, is_null, is_empty_value, Entry, entry_attribute,
  immediate_entry,
}
use caliper_msg_pattern.Reader.Metadata.{MetadataAccess, attr_asvalue, attr_skip_events}
use Prim.Native.String.{String, ◌++◌ as str_append}

-- The `Config` of both kernels: `stat_attr` is `m_stat_attrs.min` or `m_stat_attrs.max`.
pub record ExtremumConfig : Type 0 where
  pub target_attr_name : String
  pub target_attr : Attribute
  pub stat_attr : Attribute
  pub inclusive : Bool

module _ (d : DoubleOps) where
  -- `std::min(a, b)` is `b < a ? b : a`.
  abbrev pub min_as : AttrType → CaliVariant → CaliVariant → CaliVariant
  min_as type_int m v =
      let a = (to_int64 d m).0 in
      let b = (to_int64 d v).0 in make_variant_from_int64 (if ltbℤ b a then b else a)
  min_as type_double m v =
      let a = (to_double d m).0 in
      let b = (to_double d v).0 in make_variant_from_double (if d.less b a then b else a)
  min_as type_uint m v =
      let a = (to_uint d m).0 in
      let b = (to_uint d v).0 in make_variant_from_uint (if ltb b a then b else a)
  min_as _ m v = m

  -- `std::max(a, b)` is `a < b ? b : a`.
  abbrev pub max_as : AttrType → CaliVariant → CaliVariant → CaliVariant
  max_as type_int m v =
      let a = (to_int64 d m).0 in
      let b = (to_int64 d v).0 in make_variant_from_int64 (if ltbℤ a b then b else a)
  max_as type_double m v =
      let a = (to_double d m).0 in
      let b = (to_double d v).0 in make_variant_from_double (if d.less a b then b else a)
  max_as type_uint m v =
      let a = (to_uint d m).0 in
      let b = (to_uint d v).0 in make_variant_from_uint (if ltb a b then b else a)
  max_as _ m v = m

  -- The loop of `MinKernel::aggregate`; the kernel is `m_min`.
  unfoldable pub min_record : AttrType → ℕ → ℕ → CaliVariant → List Entry → CaliVariant
  unfolding to_double to_int64 to_uint entry_attribute
  min_record type tgt_id min_id m [] = m
  min_record type tgt_id min_id m (e ∷ rec) =
      min_record type tgt_id min_id
        (if entry_attribute e == tgt_id || entry_attribute e == min_id
          then (if is_empty_value m then e.value else min_as type m e.value)
          else m)
        rec

  -- The loop of `MaxKernel::aggregate`; the kernel is `m_max`.
  unfoldable pub max_record : AttrType → ℕ → ℕ → CaliVariant → List Entry → CaliVariant
  unfolding to_double to_int64 to_uint entry_attribute
  max_record type tgt_id max_id m [] = m
  max_record type tgt_id max_id m (e ∷ rec) =
      max_record type tgt_id max_id
        (if entry_attribute e == tgt_id || entry_attribute e == max_id
          then (if is_empty_value m then e.value else max_as type m e.value)
          else m)
        rec

module _ (d : DoubleOps) {S : Type 0} (db : MetadataAccess S) where
  -- `MinKernel::Config::get_target_attr`
  unfoldable pub min_target_attr : ExtremumConfig → S → Attribute × ExtremumConfig
  min_target_attr c s =
      if is_null c.target_attr
      then (let attr = db.get_attribute s c.target_attr_name in
          (attr, record c { target_attr = attr }))
      else (c.target_attr, c)

  -- `MinKernel::Config::get_statistics_attributes`; `a` is the caller's `a.min`, and `none` stands
  -- for the result false.
  unfoldable pub min_statistics_attributes :
      ExtremumConfig → S → Attribute → Option Attribute × ExtremumConfig × S
  unfolding attribute_type
  min_statistics_attributes c s a =
      if is_null c.target_attr
      then (none, c, s)
      else if is_null a
      then (let (attr, s') =
            db.create_attribute s
              (str_append (if c.inclusive then "imin#" else "min#") c.target_attr_name)
              (attribute_type c.target_attr) (attr_skip_events + attr_asvalue) in
          (some attr, record c { stat_attr = attr }, s'))
      else (some c.stat_attr, c, s)

  -- `MinKernel::aggregate`
  unfoldable pub min_aggregate :
      CaliVariant → ExtremumConfig → S → List Entry → CaliVariant × ExtremumConfig × S
  unfolding min_target_attr min_statistics_attributes min_record
  min_aggregate m c s rec =
      let (target_attr, c₁) = min_target_attr c s in
      let (stat_attr, c₂, s₂) = min_statistics_attributes c₁ s [] in
      elim stat_attr [
        | none ↦ (m, c₂, s₂)
        | some a ↦ (
          min_record d (attribute_type target_attr) (attribute_id target_attr) (attribute_id a) m
              rec,
          c₂,
          s₂,
        )
      ]

  -- `MinKernel::append_result`
  unfoldable pub min_append_result :
      CaliVariant → ExtremumConfig → S → List Entry → List Entry × ExtremumConfig × S
  unfolding min_statistics_attributes
  min_append_result m c s rec =
      let (stat_attr, c', s') = min_statistics_attributes c s [] in
      if is_empty_value m then (rec, c, s) else elim stat_attr [
        | none ↦ (rec, c', s')
        | some a ↦ (rec ++ immediate_entry a m ∷ [], c', s')
      ]

  -- `MaxKernel::Config::get_target_attr`
  unfoldable pub max_target_attr : ExtremumConfig → S → Attribute × ExtremumConfig
  max_target_attr c s =
      if is_null c.target_attr
      then (let attr = db.get_attribute s c.target_attr_name in
          (attr, record c { target_attr = attr }))
      else (c.target_attr, c)

  -- `MaxKernel::Config::get_statistics_attributes`
  unfoldable pub max_statistics_attributes :
      ExtremumConfig → S → Attribute → Option Attribute × ExtremumConfig × S
  unfolding attribute_type
  max_statistics_attributes c s a =
      if is_null c.target_attr
      then (none, c, s)
      else if is_null a
      then (let (attr, s') =
            db.create_attribute s
              (str_append (if c.inclusive then "imax#" else "max#") c.target_attr_name)
              (attribute_type c.target_attr) (attr_skip_events + attr_asvalue) in
          (some attr, record c { stat_attr = attr }, s'))
      else (some c.stat_attr, c, s)

  -- `MaxKernel::aggregate`
  unfoldable pub max_aggregate :
      CaliVariant → ExtremumConfig → S → List Entry → CaliVariant × ExtremumConfig × S
  unfolding max_target_attr max_statistics_attributes max_record
  max_aggregate m c s rec =
      let (target_attr, c₁) = max_target_attr c s in
      let (stat_attr, c₂, s₂) = max_statistics_attributes c₁ s [] in
      elim stat_attr [
        | none ↦ (m, c₂, s₂)
        | some a ↦ (
          max_record d (attribute_type target_attr) (attribute_id target_attr) (attribute_id a) m
              rec,
          c₂,
          s₂,
        )
      ]

  -- `MaxKernel::append_result`
  unfoldable pub max_append_result :
      CaliVariant → ExtremumConfig → S → List Entry → List Entry × ExtremumConfig × S
  unfolding max_statistics_attributes
  max_append_result m c s rec =
      let (stat_attr, c', s') = max_statistics_attributes c s [] in
      if is_empty_value m then (rec, c, s) else elim stat_attr [
        | none ↦ (rec, c', s')
        | some a ↦ (rec ++ immediate_entry a m ∷ [], c', s')
      ]
