-- ===== src/Reader/Kernels/Percent.antt =====
-- `PercentTotalKernel`. Doubles are bit patterns; 0 is the pattern of 0.0.
use caliper_msg_pattern.Prelude.{
  ℕ, ◌+◌, Bool, ◌||◌, List, [], ◌∷◌, ◌++◌, if◌then◌else◌, ◌==◌, Option, none, some,
}
use caliper_msg_pattern.Common.Variant.Types.{type_double, make_variant_from_double}
use caliper_msg_pattern.Common.Variant.Convert.{DoubleOps, to_double}
use caliper_msg_pattern.Common.Entry.{
  Attribute, attribute_id, is_null, Entry, entry_attribute, immediate_entry,
}
use caliper_msg_pattern.Reader.Metadata.{
  MetadataAccess, attr_asvalue, attr_skip_events, attr_hidden,
}
use Prim.Native.String.{String, ◌++◌ as str_append}

-- `PercentTotalKernel::Config`; all kernels of the config add to `total`.
pub record PercentConfig : Type 0 where
  pub target_attr_name : String
  pub target_attr : Attribute
  pub sum_attr : Attribute
  pub percentage_attr : Attribute
  pub total : ℕ
  pub is_inclusive : Bool

-- `PercentTotalKernel`
pub record PercentKernel : Type 0 where
  pub sum : ℕ
  pub isum : ℕ

module _ (d : DoubleOps) where
  -- The loop of `aggregate`.
  unfoldable pub percent_record :
      ℕ → ℕ → PercentKernel → PercentConfig → List Entry → PercentKernel × PercentConfig
  unfolding to_double entry_attribute
  percent_record target_id sum_id k c [] = (k, c)
  percent_record target_id sum_id k c (e ∷ rec) =
      let fits = entry_attribute e == target_id || entry_attribute e == sum_id in
      let v = (to_double d e.value).0 in
      percent_record target_id sum_id
        (if fits then record { sum = d.plus k.sum v; isum = d.plus k.isum v } else k)
        (if fits then record c { total = d.plus c.total v } else c) rec

  -- The loop of `parent_aggregate`.
  unfoldable pub percent_parent_record : ℕ → ℕ → PercentKernel → List Entry → PercentKernel
  unfolding to_double entry_attribute
  percent_parent_record target_id sum_id k [] = k
  percent_parent_record target_id sum_id k (e ∷ rec) =
      percent_parent_record target_id sum_id
        (if entry_attribute e == target_id || entry_attribute e == sum_id
          then record k { isum = d.plus k.isum (to_double d e.value).0 }
          else k)
        rec

module _ (d : DoubleOps) (hundred : ℕ) {S : Type 0} (db : MetadataAccess S) where
  unfoldable pub percent_target_attr : PercentConfig → S → Attribute × PercentConfig
  percent_target_attr c s =
      if is_null c.target_attr
      then (let attr = db.get_attribute s c.target_attr_name in
          (attr, record c { target_attr = attr }))
      else (c.target_attr, c)

  -- `get_percentage_attribute`: the percentage and the sum attribute, or `none` for false.
  unfoldable pub get_percentage_attribute :
      PercentConfig → S → Option (Attribute × Attribute) × PercentConfig × S
  get_percentage_attribute c s =
      if is_null c.target_attr
      then (none, c, s)
      else if is_null c.percentage_attr
      then (let (percentage, s₁) =
            db.create_attribute s
              (str_append (if c.is_inclusive then "ipercent_total#" else "percent_total#")
                c.target_attr_name)
              type_double (attr_skip_events + attr_asvalue) in
          let (sum, s₂) =
            db.create_attribute s₁
              (str_append (if c.is_inclusive then "ipct.sum#" else "pct.sum#") c.target_attr_name)
              type_double (attr_skip_events + attr_asvalue + attr_hidden) in
          (some (percentage, sum), record c { percentage_attr = percentage; sum_attr = sum }, s₂))
      else (some (c.percentage_attr, c.sum_attr), c, s)

  -- `PercentTotalKernel::aggregate`
  unfoldable pub percent_aggregate :
      PercentKernel → PercentConfig → S → List Entry → PercentKernel × PercentConfig × S
  unfolding percent_target_attr get_percentage_attribute percent_record
  percent_aggregate k c s rec =
      let (target_attr, c₁) = percent_target_attr c s in
      let (attrs, c₂, s₂) = get_percentage_attribute c₁ s in
      elim attrs [
        | none ↦ (k, c₂, s₂)
        | some (percentage, sum) ↦
            let (k', c') =
              percent_record d (attribute_id target_attr) (attribute_id sum) k c₂ rec in
            (k', c', s₂)
      ]

  -- `PercentTotalKernel::parent_aggregate`
  unfoldable pub percent_parent_aggregate :
      PercentKernel → PercentConfig → S → List Entry → PercentKernel × PercentConfig × S
  unfolding percent_target_attr get_percentage_attribute percent_parent_record
  percent_parent_aggregate k c s rec =
      let (target_attr, c₁) = percent_target_attr c s in
      let (attrs, c₂, s₂) = get_percentage_attribute c₁ s in
      elim attrs [
        | none ↦ (k, c₂, s₂)
        | some (percentage, sum) ↦
            (percent_parent_record d (attribute_id target_attr) (attribute_id sum) k rec, c₂, s₂)
      ]

  -- `PercentTotalKernel::append_result`; `hundred` is the literal 100.0.
  unfoldable pub percent_append_result :
      PercentKernel → PercentConfig → S → List Entry → List Entry × PercentConfig × S
  unfolding get_percentage_attribute
  percent_append_result k c s rec =
      let (attrs, c', s') = get_percentage_attribute c s in
      if d.less 0 c.total
      then elim attrs [
        | none ↦ (rec, c', s')
        | some (percentage, sum) ↦ (
          rec
              ++ (immediate_entry sum (make_variant_from_double k.sum)
                  ∷ immediate_entry percentage
                      (make_variant_from_double (d.div (d.mul hundred k.isum) c.total))
                  ∷ []),
          c',
          s',
        )
      ]
      else (rec, c, s)
