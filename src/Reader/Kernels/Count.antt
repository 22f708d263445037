-- ===== src/Reader/Kernels/Count.antt =====
-- `CountKernel` and `ScaledCountKernel`.
use caliper_msg_pattern.Prelude.{ℕ, ◌+◌, List, [], ◌∷◌, ◌++◌, if◌then◌else◌, ◌==◌, ltb}
use caliper_msg_pattern.Common.Variant.Types.{
  type_uint, type_double, make_variant_from_uint, make_variant_from_double,
}
use caliper_msg_pattern.Common.Variant.Convert.{DoubleOps, to_uint}
use caliper_msg_pattern.Common.Variant.Add.{wrap64}
use caliper_msg_pattern.Common.Entry.{
  Attribute, attribute_id, is_null, Entry, entry_attribute, immediate_entry,
}
use caliper_msg_pattern.Reader.Metadata.{MetadataAccess, attr_asvalue, attr_hidden, find_entry}
use Prim.Native.String.{String, ◌++◌ as str_append}

module _ (d : DoubleOps) where
  -- The loop of `aggregate` with its early return, and the `++m_count` behind it.
  abbrev pub count_found : ℕ → List Entry → ℕ
  count_found count [] = wrap64 (count + 1)
  count_found count (e ∷ _) = wrap64 (count + (to_uint d e.value).0)

  unfoldable pub count_record : ℕ → ℕ → List Entry → ℕ
  unfolding to_uint find_entry entry_attribute
  count_record attr_id count rec =
      count_found count (find_entry (λ e. entry_attribute e == attr_id) rec)

module _ (d : DoubleOps) {S : Type 0} (db : MetadataAccess S) where
  -- `CountKernel::Config::attribute`; the config is `m_attr`.
  unfoldable pub count_attribute : Attribute → S → Attribute × S
  count_attribute m_attr s =
      if is_null m_attr then db.create_attribute s "count" type_uint attr_asvalue else (m_attr, s)

  -- `CountKernel::aggregate`: `m_count`, the config and the database.
  unfoldable pub count_aggregate : ℕ → Attribute → S → List Entry → ℕ × Attribute × S
  unfolding count_attribute count_record
  count_aggregate m_count m_attr s rec =
      let (attr, s') = count_attribute m_attr s in
      (count_record d (attribute_id attr) m_count rec, attr, s')

  -- `CountKernel::append_result`
  unfoldable pub count_append_result : ℕ → Attribute → S → List Entry → List Entry × Attribute × S
  unfolding count_attribute
  count_append_result m_count m_attr s rec =
      if ltb 0 m_count
      then (let (attr, s') = count_attribute m_attr s in
          (rec ++ immediate_entry attr (make_variant_from_uint m_count) ∷ [], attr, s'))
      else (rec, m_attr, s)

-- `ScaledCountKernel::Config`; a scale is the bit pattern of a double.
pub record ScaledCountConfig : Type 0 where
  pub count_attr : Attribute
  pub res_attr : Attribute
  pub scale : ℕ
  pub scale_str : String

module _ (d : DoubleOps) {S : Type 0} (db : MetadataAccess S) where
  unfoldable pub get_count_attr : ScaledCountConfig → S → Attribute × ScaledCountConfig × S
  get_count_attr c s =
      if is_null c.count_attr
      then (let (attr, s') =
            db.create_attribute s (str_append "scount#" c.scale_str) type_uint
              (attr_asvalue + attr_hidden) in
          (attr, record c { count_attr = attr }, s'))
      else (c.count_attr, c, s)

  unfoldable pub get_scount_result_attr : ScaledCountConfig → S → Attribute × ScaledCountConfig × S
  get_scount_result_attr c s =
      if is_null c.res_attr
      then (let (attr, s') = db.create_attribute s "scount" type_double attr_asvalue in
          (attr, record c { res_attr = attr }, s'))
      else (c.res_attr, c, s)

  -- `ScaledCountKernel::aggregate`
  unfoldable pub scaled_count_aggregate :
      ℕ → ScaledCountConfig → S → List Entry → ℕ × ScaledCountConfig × S
  unfolding get_count_attr count_record
  scaled_count_aggregate m_count c s rec =
      let (attr, c', s') = get_count_attr c s in
      (count_record d (attribute_id attr) m_count rec, c', s')

  -- `ScaledCountKernel::append_result`
  unfoldable pub scaled_count_append_result :
      ℕ → ScaledCountConfig → S → List Entry → List Entry × ScaledCountConfig × S
  unfolding get_count_attr get_scount_result_attr
  scaled_count_append_result m_count c s rec =
      if ltb 0 m_count
      then (let (count_attr, c₁, s₁) = get_count_attr c s in
          let (res_attr, c₂, s₂) = get_scount_result_attr c₁ s₁ in
          let scaled = d.mul c.scale (d.of_uint64 m_count) in
          (
            rec
                ++ (immediate_entry count_attr (make_variant_from_uint m_count)
                    ∷ immediate_entry res_attr (make_variant_from_double scaled)
                    ∷ []),
            c₂,
            s₂,
          ))
      else (rec, c, s)
