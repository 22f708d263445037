-- ===== src/Reader/Kernels/Any.antt =====
-- `AnyKernel`.
use caliper_msg_pattern.Prelude.{ℕ, ◌+◌, ◌||◌, List, [], ◌∷◌, ◌++◌, if◌then◌else◌, ◌==◌, ltb}
use caliper_msg_pattern.Common.Variant.Types.{CaliVariant}
use caliper_msg_pattern.Common.Entry.{
  Attribute, attribute_id, attribute_type, is_null, is_empty_value, Entry, entry_attribute,
  immediate_entry,
}
use caliper_msg_pattern.Reader.Metadata.{MetadataAccess, attr_asvalue, attr_skip_events, find_entry}
use caliper_msg_pattern.Reader.Kernels.Sum.{wrap32}
use Prim.Native.String.{String, ◌++◌ as str_append}

-- `AnyKernel::Config`
pub record AnyConfig : Type 0 where
  pub target_attr_name : String
  pub target_attr : Attribute
  pub any_attr : Attribute

-- `AnyKernel`
pub record AnyKernel : Type 0 where
  pub count : ℕ
  pub val : CaliVariant

abbrev pub any_found : AnyKernel → List Entry → AnyKernel
any_found k [] = k
any_found k (e ∷ _) = record { count = wrap32 (k.count + 1); val = e.value }

-- The loop of `aggregate`, with its `break`.
unfoldable pub any_record : ℕ → ℕ → AnyKernel → List Entry → AnyKernel
unfolding find_entry entry_attribute
any_record tgt_id any_id k rec =
    any_found k (find_entry (λ e. entry_attribute e == tgt_id || entry_attribute e == any_id) rec)

module _ {S : Type 0} (db : MetadataAccess S) where
  unfoldable pub any_target_attr : AnyConfig → S → Attribute × AnyConfig
  any_target_attr c s =
      if is_null c.target_attr
      then (let attr = db.get_attribute s c.target_attr_name in
          (attr, record c { target_attr = attr }))
      else (c.target_attr, c)

  unfoldable pub get_any_attr : AnyConfig → S → Attribute × AnyConfig × S
  unfolding attribute_type
  get_any_attr c s =
      if is_null c.target_attr
      then ([], c, s)
      else if is_null c.any_attr
      then (let (attr, s') =
            db.create_attribute s (str_append "any#" c.target_attr_name)
              (attribute_type c.target_attr) (attr_skip_events + attr_asvalue) in
          (attr, record c { any_attr = attr }, s'))
      else (c.any_attr, c, s)

  -- `AnyKernel::aggregate`: only while no value is held.
  unfoldable pub any_aggregate : AnyKernel → AnyConfig → S → List Entry → AnyKernel × AnyConfig × S
  unfolding any_target_attr get_any_attr any_record
  any_aggregate k c s rec =
      let (target_attr, c₁) = any_target_attr c s in
      let (any_attr, c₂, s₂) = get_any_attr c₁ s in
      if is_empty_value k.val
      then (if is_null target_attr
          then (k, c₁, s)
          else (any_record (attribute_id target_attr) (attribute_id any_attr) k rec, c₂, s₂))
      else (k, c, s)

  -- `AnyKernel::append_result`
  unfoldable pub any_append_result :
      AnyKernel → AnyConfig → S → List Entry → List Entry × AnyConfig × S
  unfolding get_any_attr
  any_append_result k c s rec =
      if ltb 0 k.count
      then (let (any_attr, c', s') = get_any_attr c s in
          (rec ++ immediate_entry any_attr k.val ∷ [], c', s'))
      else (rec, c, s)
