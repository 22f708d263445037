-- ===== src/Reader/Kernels/Variance.antt =====
-- `VarianceKernel`.
use caliper_msg_pattern.Prelude.{
  ℕ, ◌+◌, List, [], ◌∷◌, ◌++◌, if◌then◌else◌, ◌==◌, ltb, Option, none, some,
}
use caliper_msg_pattern.Common.Variant.Types.{
  type_double, type_uint, make_variant_from_double, make_variant_from_uint,
}
use caliper_msg_pattern.Common.Variant.Convert.{DoubleOps, to_double, to_uint}
use caliper_msg_pattern.Common.Entry.{
  Attribute, attribute_id, is_null, Entry, entry_attribute, immediate_entry,
}
use caliper_msg_pattern.Reader.Metadata.{
  MetadataAccess, attr_asvalue, attr_skip_events, attr_hidden,
}
use caliper_msg_pattern.Reader.Kernels.Sum.{wrap32}
use Prim.Native.String.{String, ◌++◌ as str_append}

-- `VarianceKernel::StatisticsAttributes`
pub record VarianceAttributes : Type 0 where
  pub variance : Attribute
  pub sum : Attribute
  pub sqsum : Attribute
  pub count : Attribute

pub record VarianceConfig : Type 0 where
  pub target_attr_name : String
  pub target_attr : Attribute
  pub stat_attrs : VarianceAttributes

-- `VarianceKernel`
pub record VarianceKernel : Type 0 where
  pub count : ℕ
  pub sum : ℕ
  pub sqsum : ℕ

module _ (d : DoubleOps) where
  abbrev pub variance_entry : ℕ → VarianceAttributes → VarianceKernel → Entry → VarianceKernel
  variance_entry tgt a k e =
      let attr = entry_attribute e in
      let v = (to_double d e.value).0 in
      if attr == tgt
      then record {
        count = wrap32 (k.count + 1);
        sum = d.plus k.sum v;
        sqsum = d.plus k.sqsum (d.mul v v);
      }
      else if attr == attribute_id a.sum
      then record k { sum = d.plus k.sum v }
      else if attr == attribute_id a.sqsum
      then record k { sqsum = d.plus k.sqsum v }
      else if attr == attribute_id a.count
      then record k { count = wrap32 (k.count + (to_uint d e.value).0) }
      else k

  -- The loop of `aggregate`.
  unfoldable pub variance_record :
      ℕ → VarianceAttributes → VarianceKernel → List Entry → VarianceKernel
  unfolding to_double to_uint entry_attribute
  variance_record tgt a k [] = k
  variance_record tgt a k (e ∷ rec) = variance_record tgt a (variance_entry tgt a k e) rec

module _ (d : DoubleOps) {S : Type 0} (db : MetadataAccess S) where
  unfoldable pub variance_target_attr : VarianceConfig → S → Attribute × VarianceConfig
  variance_target_attr c s =
      if is_null c.target_attr
      then (let attr = db.get_attribute s c.target_attr_name in
          (attr, record c { target_attr = attr }))
      else (c.target_attr, c)

  -- `get_statistics_attributes`; `a` is the caller's `a.sum`.
  unfoldable pub variance_statistics_attributes :
      VarianceConfig → S → Attribute → Option VarianceAttributes × VarianceConfig × S
  variance_statistics_attributes c s a =
      let prop = attr_skip_events + attr_asvalue in
      let name = c.target_attr_name in
      if is_null c.target_attr
      then (none, c, s)
      else if is_null a
      then (let (variance, s₁) =
            db.create_attribute s (str_append "variance#" name) type_double prop in
          let (count, s₂) =
            db.create_attribute s₁ (str_append "var.count#" name) type_uint (prop + attr_hidden) in
          let (sum, s₃) =
            db.create_attribute s₂ (str_append "var.sum#" name) type_double (prop + attr_hidden) in
          let (sqsum, s₄) =
            db.create_attribute s₃ (str_append "var.sqsum#" name) type_double
              (prop + attr_hidden) in
          let attrs : VarianceAttributes = record {
            variance = variance;
            sum = sum;
            sqsum = sqsum;
            count = count;
          } in
          (some attrs, record c { stat_attrs = attrs }, s₄))
      else (some c.stat_attrs, c, s)

  -- `VarianceKernel::aggregate`
  unfoldable pub variance_aggregate :
      VarianceKernel → VarianceConfig → S → List Entry → VarianceKernel × VarianceConfig × S
  unfolding variance_target_attr variance_statistics_attributes variance_record
  variance_aggregate k c s rec =
      let (target_attr, c₁) = variance_target_attr c s in
      let (attrs, c₂, s₂) = variance_statistics_attributes c₁ s [] in
      elim attrs [
        | none ↦ (k, c₂, s₂)
        | some a ↦ (variance_record d (attribute_id target_attr) a k rec, c₂, s₂)
      ]

  -- `VarianceKernel::append_result`
  unfoldable pub variance_append_result :
      VarianceKernel → VarianceConfig → S → List Entry → List Entry × VarianceConfig × S
  unfolding variance_statistics_attributes
  variance_append_result k c s rec =
      let (attrs, c', s') = variance_statistics_attributes c s [] in
      let n = d.of_uint64 k.count in
      let avg = d.div k.sum n in
      if ltb 0 k.count
      then elim attrs [
        | none ↦ (rec, c', s')
        | some a ↦ (
          rec
              ++ (immediate_entry a.variance
                    (make_variant_from_double (d.sub (d.div k.sqsum n) (d.mul avg avg)))
                  ∷ immediate_entry a.sum (make_variant_from_double k.sum)
                  ∷ immediate_entry a.sqsum (make_variant_from_double k.sqsum)
                  ∷ immediate_entry a.count (make_variant_from_uint k.count)
                  ∷ []),
          c',
          s',
        )
      ]
      else (rec, c, s)
