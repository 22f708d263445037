-- ===== src/Reader/Kernels/Ratio.antt =====
-- `ScaledRatioKernel`. Doubles are bit patterns; 0 is the pattern of 0.0.
use caliper_msg_pattern.Prelude.{
  ℕ, ◌+◌, Bool, ◌&&◌, ◌||◌, List, [], ◌∷◌, ◌++◌, if◌then◌else◌, ◌==◌, ltb,
}
use caliper_msg_pattern.Common.Variant.Types.{type_double, make_variant_from_double}
use caliper_msg_pattern.Common.Variant.Convert.{DoubleOps, to_double}
use caliper_msg_pattern.Common.Entry.{
  Attribute, attribute_id, is_null, Entry, entry_attribute, immediate_entry,
}
use caliper_msg_pattern.Reader.Metadata.{
  MetadataAccess, attr_asvalue, attr_skip_events, attr_hidden,
}
use Prim.Native.String.{String, ◌++◌ as str_append}

-- `ScaledRatioKernel::Config`
pub record RatioConfig : Type 0 where
  pub tgt1_attr_name : String
  pub tgt2_attr_name : String
  pub tgt1_attr : Attribute
  pub tgt2_attr : Attribute
  pub sum1_attr : Attribute
  pub sum2_attr : Attribute
  pub ratio_attr : Attribute
  pub scale : ℕ
  pub inclusive : Bool

-- `ScaledRatioKernel`
pub record RatioKernel : Type 0 where
  pub sum1 : ℕ
  pub sum2 : ℕ
  pub count : ℕ

module _ (d : DoubleOps) where
  -- One entry of the loop of `aggregate`. The counter is an `int`; its overflow is left out.
  abbrev pub ratio_entry : ℕ → ℕ → ℕ → ℕ → RatioKernel → Entry → RatioKernel
  ratio_entry tgt1 sum1 tgt2 sum2 k e =
      let attr = entry_attribute e in
      let v = (to_double d e.value).0 in
      if attr == tgt1 || attr == sum1
      then record k { sum1 = d.plus k.sum1 v; count = k.count + 1 }
      else if attr == tgt2 || attr == sum2
      then record k { sum2 = d.plus k.sum2 v }
      else k

  unfoldable pub ratio_record : ℕ → ℕ → ℕ → ℕ → RatioKernel → List Entry → RatioKernel
  unfolding to_double entry_attribute
  ratio_record tgt1 sum1 tgt2 sum2 k [] = k
  ratio_record tgt1 sum1 tgt2 sum2 k (e ∷ rec) =
      ratio_record tgt1 sum1 tgt2 sum2 (ratio_entry tgt1 sum1 tgt2 sum2 k e) rec

module _ (d : DoubleOps) {S : Type 0} (db : MetadataAccess S) where
  abbrev pub resolve : String → Attribute → S → Attribute
  resolve name attr s = if is_null attr then db.get_attribute s name else attr

  -- `get_target_attributes`
  unfoldable pub ratio_target_attributes : RatioConfig → S → Attribute × Attribute × RatioConfig
  ratio_target_attributes c s =
      let tgt1 = resolve c.tgt1_attr_name c.tgt1_attr s in
      let tgt2 = resolve c.tgt2_attr_name c.tgt2_attr s in
      (tgt1, tgt2, record c { tgt1_attr = tgt1; tgt2_attr = tgt2 })

  abbrev pub ratio_sum_attr : RatioConfig → String → Attribute → S → Attribute × S
  ratio_sum_attr c name attr s =
      if is_null attr
      then db.create_attribute s (str_append (if c.inclusive then "isr.sum#" else "sr.sum#") name)
          type_double (attr_skip_events + attr_asvalue + attr_hidden)
      else (attr, s)

  -- `get_sum_attributes`
  unfoldable pub ratio_sum_attributes : RatioConfig → S → Attribute × Attribute × RatioConfig × S
  ratio_sum_attributes c s =
      let (sum1, s₁) = ratio_sum_attr c c.tgt1_attr_name c.sum1_attr s in
      let (sum2, s₂) = ratio_sum_attr c c.tgt2_attr_name c.sum2_attr s₁ in
      (sum1, sum2, record c { sum1_attr = sum1; sum2_attr = sum2 }, s₂)

  -- `get_ratio_attribute`
  unfoldable pub get_ratio_attribute : RatioConfig → S → Attribute × RatioConfig × S
  get_ratio_attribute c s =
      if is_null c.ratio_attr
      then (let (attr, s') =
            db.create_attribute s
              (str_append (if c.inclusive then "iratio#" else "ratio#")
                (str_append c.tgt1_attr_name (str_append "/" c.tgt2_attr_name)))
              type_double (attr_skip_events + attr_asvalue) in
          (attr, record c { ratio_attr = attr }, s'))
      else (c.ratio_attr, c, s)

  -- `ScaledRatioKernel::aggregate`
  unfoldable pub ratio_aggregate :
      RatioKernel → RatioConfig → S → List Entry → RatioKernel × RatioConfig × S
  unfolding ratio_target_attributes ratio_sum_attributes ratio_record
  ratio_aggregate k c s rec =
      let (tgt1, tgt2, c₁) = ratio_target_attributes c s in
      let (sum1, sum2, c₂, s₂) = ratio_sum_attributes c₁ s in
      (
        ratio_record d (attribute_id tgt1) (attribute_id sum1) (attribute_id tgt2)
            (attribute_id sum2) k rec,
        c₂,
        s₂,
      )

  -- The second half of `append_result`, once the first sum is in the record.
  unfoldable pub ratio_append_second :
      RatioKernel → Attribute → RatioConfig → S → List Entry → List Entry × RatioConfig × S
  unfolding get_ratio_attribute
  ratio_append_second k sum2_attr c s rec =
      let rec' = rec ++ immediate_entry sum2_attr (make_variant_from_double k.sum2) ∷ [] in
      if d.less 0 k.sum2
      then (if ltb 0 k.count
          then (let (ratio_attr, c', s') = get_ratio_attribute c s in
              let ratio = d.div (d.mul c.scale k.sum1) k.sum2 in
              (rec' ++ immediate_entry ratio_attr (make_variant_from_double ratio) ∷ [], c', s'))
          else (rec', c, s))
      else (rec, c, s)

  -- `ScaledRatioKernel::append_result`
  unfoldable pub ratio_append_result :
      RatioKernel → RatioConfig → S → List Entry → List Entry × RatioConfig × S
  unfolding ratio_sum_attributes ratio_append_second
  ratio_append_result k c s rec =
      let (sum1_attr, sum2_attr, c', s') = ratio_sum_attributes c s in
      let first =
        if ltb 0 k.count && d.less 0 k.sum1
        then rec ++ immediate_entry sum1_attr (make_variant_from_double k.sum1) ∷ []
        else rec in
      ratio_append_second k sum2_attr c' s' first
