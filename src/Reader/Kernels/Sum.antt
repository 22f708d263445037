-- ===== src/Reader/Kernels/Sum.antt =====
-- `SumKernel` and `ScaledSumKernel`. The warnings that `get_target_attr` logs are left out.
use caliper_msg_pattern.Prelude.{
  ℕ, ◌+◌, ◌%◌, ◌^◌, Bool, ◌||◌, List, [], ◌∷◌, ◌++◌, if◌then◌else◌, ◌==◌, ltb,
}
use caliper_msg_pattern.Common.Variant.Types.{type_double, CaliVariant, make_variant_from_double}
use caliper_msg_pattern.Common.Variant.Convert.{DoubleOps, to_double}
use caliper_msg_pattern.Common.Variant.Add.{variant_add}
use caliper_msg_pattern.Common.Entry.{
  Attribute, attribute_id, attribute_type, is_null, Entry, entry_attribute, immediate_entry,
}
use caliper_msg_pattern.Reader.Metadata.{
  MetadataAccess, attr_asvalue, attr_skip_events, attr_hidden, find_entry,
}
use Prim.Native.String.{String, ◌++◌ as str_append}

-- `unsigned`
abbrev pub wrap32 : ℕ → ℕ
wrap32 n = n % 2 ^ 32

-- `SumKernel::Config`
pub record SumConfig : Type 0 where
  pub target_attr_name : String
  pub target_attr : Attribute
  pub sum_attr : Attribute
  pub is_inclusive : Bool

-- `SumKernel`
pub record SumKernel : Type 0 where
  pub count : ℕ
  pub sum : CaliVariant

module _ (d : DoubleOps) where
  abbrev pub sum_found : SumKernel → List Entry → SumKernel
  sum_found k [] = k
  sum_found k (e ∷ _) = record { count = wrap32 (k.count + 1); sum = variant_add d k.sum e.value }

  -- The loop of `aggregate`, with its `break`.
  unfoldable pub sum_record : ℕ → ℕ → SumKernel → List Entry → SumKernel
  unfolding variant_add find_entry entry_attribute
  sum_record tgt_id sum_id k rec =
      sum_found k (find_entry (λ e. entry_attribute e == tgt_id || entry_attribute e == sum_id) rec)

module _ (d : DoubleOps) {S : Type 0} (db : MetadataAccess S) where
  unfoldable pub sum_target_attr : SumConfig → S → Attribute × SumConfig
  sum_target_attr c s =
      if is_null c.target_attr
      then (let attr = db.get_attribute s c.target_attr_name in
          (attr, record c { target_attr = attr }))
      else (c.target_attr, c)

  unfoldable pub get_sum_attr : SumConfig → S → Attribute × SumConfig × S
  unfolding attribute_type
  get_sum_attr c s =
      if is_null c.target_attr
      then ([], c, s)
      else if is_null c.sum_attr
      then (let (attr, s') =
            db.create_attribute s
              (str_append (if c.is_inclusive then "inclusive#" else "sum#") c.target_attr_name)
              (attribute_type c.target_attr) (attr_skip_events + attr_asvalue) in
          (attr, record c { sum_attr = attr }, s'))
      else (c.sum_attr, c, s)

  -- `SumKernel::aggregate`
  unfoldable pub sum_aggregate : SumKernel → SumConfig → S → List Entry → SumKernel × SumConfig × S
  unfolding sum_target_attr get_sum_attr sum_record
  sum_aggregate k c s rec =
      let (target_attr, c₁) = sum_target_attr c s in
      if is_null target_attr
      then (k, c₁, s)
      else (let (sum_attr, c₂, s₂) = get_sum_attr c₁ s in
          (sum_record d (attribute_id target_attr) (attribute_id sum_attr) k rec, c₂, s₂))

  -- `SumKernel::append_result`
  unfoldable pub sum_append_result :
      SumKernel → SumConfig → S → List Entry → List Entry × SumConfig × S
  unfolding get_sum_attr
  sum_append_result k c s rec =
      if ltb 0 k.count
      then (let (sum_attr, c', s') = get_sum_attr c s in
          (rec ++ immediate_entry sum_attr k.sum ∷ [], c', s'))
      else (rec, c, s)

-- `ScaledSumKernel::Config`
pub record ScaledSumConfig : Type 0 where
  pub target_attr_name : String
  pub target_attr : Attribute
  pub sum_attr : Attribute
  pub res_attr : Attribute
  pub scale : ℕ
  pub inclusive : Bool

-- `ScaledSumKernel`; `sum` is the bit pattern of a double.
pub record ScaledSumKernel : Type 0 where
  pub count : ℕ
  pub sum : ℕ

module _ (d : DoubleOps) where
  -- The loop of `aggregate`: every entry that fits is added.
  unfoldable pub scaled_sum_record : ℕ → ℕ → ScaledSumKernel → List Entry → ScaledSumKernel
  unfolding to_double entry_attribute
  scaled_sum_record tgt_id sum_id k [] = k
  scaled_sum_record tgt_id sum_id k (e ∷ rec) =
      scaled_sum_record tgt_id sum_id
        (if entry_attribute e == tgt_id || entry_attribute e == sum_id
          then record { count = wrap32 (k.count + 1); sum = d.plus k.sum (to_double d e.value).0 }
          else k)
        rec

module _ (d : DoubleOps) {S : Type 0} (db : MetadataAccess S) where
  unfoldable pub scaled_sum_target_attr : ScaledSumConfig → S → Attribute × ScaledSumConfig
  scaled_sum_target_attr c s =
      if is_null c.target_attr
      then (let attr = db.get_attribute s c.target_attr_name in
          (attr, record c { target_attr = attr }))
      else (c.target_attr, c)

  unfoldable pub scaled_sum_attr : ScaledSumConfig → S → Attribute × ScaledSumConfig × S
  scaled_sum_attr c s =
      if is_null c.sum_attr
      then (let (attr, s') =
            db.create_attribute s
              (str_append (if c.inclusive then "iscsum#" else "scsum#") c.target_attr_name)
              type_double (attr_asvalue + attr_hidden) in
          (attr, record c { sum_attr = attr }, s'))
      else (c.sum_attr, c, s)

  unfoldable pub scaled_sum_result_attr : ScaledSumConfig → S → Attribute × ScaledSumConfig × S
  scaled_sum_result_attr c s =
      if is_null c.res_attr
      then (let (attr, s') =
            db.create_attribute s
              (str_append (if c.inclusive then "iscale#" else "scale#") c.target_attr_name)
              type_double attr_asvalue in
          (attr, record c { res_attr = attr }, s'))
      else (c.res_attr, c, s)

  -- `ScaledSumKernel::aggregate`. There is no early return: while the target is not known its id
  -- is the invalid id.
  unfoldable pub scaled_sum_aggregate :
      ScaledSumKernel → ScaledSumConfig → S → List Entry → ScaledSumKernel × ScaledSumConfig × S
  unfolding scaled_sum_target_attr scaled_sum_attr scaled_sum_record
  scaled_sum_aggregate k c s rec =
      let (target_attr, c₁) = scaled_sum_target_attr c s in
      let (sum_attr, c₂, s₂) = scaled_sum_attr c₁ s in
      (scaled_sum_record d (attribute_id target_attr) (attribute_id sum_attr) k rec, c₂, s₂)

  -- `ScaledSumKernel::append_result`
  unfoldable pub scaled_sum_append_result :
      ScaledSumKernel → ScaledSumConfig → S → List Entry → List Entry × ScaledSumConfig × S
  unfolding scaled_sum_attr scaled_sum_result_attr
  scaled_sum_append_result k c s rec =
      if ltb 0 k.count
      then (let (sum_attr, c₁, s₁) = scaled_sum_attr c s in
          let (res_attr, c₂, s₂) = scaled_sum_result_attr c₁ s₁ in
          (
            rec
                ++ (immediate_entry sum_attr (make_variant_from_double k.sum)
                    ∷ immediate_entry res_attr (make_variant_from_double (d.mul c.scale k.sum))
                    ∷ []),
            c₂,
            s₂,
          ))
      else (rec, c, s)
