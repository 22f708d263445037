-- ===== src/Reader/Kernels/Average.antt =====
-- `AvgKernel`; `count` is `unsigned`, sums are bit patterns of doubles.
use caliper_msg_pattern.Prelude.{
  ℕ, ◌+◌, List, [], ◌∷◌, ◌++◌, if◌then◌else◌, ◌==◌, ltb, Option, none, some,
}
use caliper_msg_pattern.Common.Variant.Types.{
  type_double, type_uint, make_variant_from_double, make_variant_from_uint,
}
use caliper_msg_pattern.Common.Variant.Convert.{DoubleOps, to_double, to_uint}
use caliper_msg_pattern.Common.Entry.{
  Attribute, attribute_id, is_null, Entry, entry_attribute, immediate_entry,
}
use caliper_msg_pattern.Reader.Metadata.{
  MetadataAccess, attr_asvalue, attr_skip_events, attr_hidden,
}
use caliper_msg_pattern.Reader.Kernels.Sum.{wrap32}
use Prim.Native.String.{String, ◌++◌ as str_append}

-- `AvgKernel::StatisticsAttributes`
pub record AvgAttributes : Type 0 where
  pub avg : Attribute
  pub sum : Attribute
  pub count : Attribute

pub record AvgConfig : Type 0 where
  pub target_attr_name : String
  pub target_attr : Attribute
  pub stat_attrs : AvgAttributes

-- `AvgKernel`; `count` is `unsigned`.
pub record AvgKernel : Type 0 where
  pub count : ℕ
  pub sum : ℕ

module _ (d : DoubleOps) where
  abbrev pub avg_entry : ℕ → ℕ → ℕ → AvgKernel → Entry → AvgKernel
  avg_entry tgt sum count k e =
      let attr = entry_attribute e in
      let v = (to_double d e.value).0 in
      if attr == tgt
      then record { count = wrap32 (k.count + 1); sum = d.plus k.sum v }
      else if attr == sum
      then record k { sum = d.plus k.sum v }
      else if attr == count
      then record k { count = wrap32 (k.count + (to_uint d e.value).0) }
      else k

  -- The loop of `aggregate`.
  unfoldable pub avg_record : ℕ → ℕ → ℕ → AvgKernel → List Entry → AvgKernel
  unfolding to_double to_uint entry_attribute
  avg_record tgt sum count k [] = k
  avg_record tgt sum count k (e ∷ rec) = avg_record tgt sum count (avg_entry tgt sum count k e) rec

module _ (d : DoubleOps) {S : Type 0} (db : MetadataAccess S) where
  unfoldable pub avg_target_attr : AvgConfig → S → Attribute × AvgConfig
  avg_target_attr c s =
      if is_null c.target_attr
      then (let attr = db.get_attribute s c.target_attr_name in
          (attr, record c { target_attr = attr }))
      else (c.target_attr, c)

  -- `get_statistics_attributes`; `a` is the caller's `a.sum`.
  unfoldable pub avg_statistics_attributes :
      AvgConfig → S → Attribute → Option AvgAttributes × AvgConfig × S
  avg_statistics_attributes c s a =
      let prop = attr_skip_events + attr_asvalue in
      if is_null c.target_attr
      then (none, c, s)
      else if is_null a
      then (let (avg, s₁) =
            db.create_attribute s (str_append "avg#" c.target_attr_name) type_double prop in
          let (count, s₂) =
            db.create_attribute s₁ (str_append "avg.count#" c.target_attr_name) type_uint
              (prop + attr_hidden) in
          let (sum, s₃) =
            db.create_attribute s₂ (str_append "avg.sum#" c.target_attr_name) type_double
              (prop + attr_hidden) in
          let attrs : AvgAttributes = record { avg = avg; sum = sum; count = count } in
          (some attrs, record c { stat_attrs = attrs }, s₃))
      else (some c.stat_attrs, c, s)

  -- `AvgKernel::aggregate`
  unfoldable pub avg_aggregate : AvgKernel → AvgConfig → S → List Entry → AvgKernel × AvgConfig × S
  unfolding avg_target_attr avg_statistics_attributes avg_record
  avg_aggregate k c s rec =
      let (target_attr, c₁) = avg_target_attr c s in
      let (attrs, c₂, s₂) = avg_statistics_attributes c₁ s [] in
      elim attrs [
        | none ↦ (k, c₂, s₂)
        | some a ↦ (
          avg_record d (attribute_id target_attr) (attribute_id a.sum) (attribute_id a.count) k rec,
          c₂,
          s₂,
        )
      ]

  -- `AvgKernel::append_result`
  unfoldable pub avg_append_result :
      AvgKernel → AvgConfig → S → List Entry → List Entry × AvgConfig × S
  unfolding avg_statistics_attributes
  avg_append_result k c s rec =
      let (attrs, c', s') = avg_statistics_attributes c s [] in
      if ltb 0 k.count
      then elim attrs [
        | none ↦ (rec, c', s')
        | some a ↦ (
          rec
              ++ (immediate_entry a.avg
                    (make_variant_from_double (d.div k.sum (d.of_uint64 k.count)))
                  ∷ immediate_entry a.sum (make_variant_from_double k.sum)
                  ∷ immediate_entry a.count (make_variant_from_uint k.count)
                  ∷ []),
          c',
          s',
        )
      ]
      else (rec, c, s)
