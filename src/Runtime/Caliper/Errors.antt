-- ===== src/Runtime/Caliper/Errors.antt =====
-- Nesting errors.
use caliper_msg_pattern.Prelude.{
  ℕ, ◌≡◌, ◌≢◌, refl, ap, ◌∙◌, arith, Bool, false, Option, some, if◌then◌else◌, ◌==◌,
}
use caliper_msg_pattern.Common.Variant.Types.{CaliVariant}
use caliper_msg_pattern.Common.Variant.Convert.{DoubleOps}
use caliper_msg_pattern.Common.Entry.{Attribute, attribute_id, Entry, entry_attribute, entry_get}
use caliper_msg_pattern.Runtime.Blackboard
use caliper_msg_pattern.Runtime.MetadataTree.{TreeConfig}
use caliper_msg_pattern.Runtime.Caliper.{
  is_asvalue, has_unaligned, unaligned_key, region_key, get_blackboard_key, no_current, current_of,
  load_current_entry, Caliper, blackboard_of, prop_of, begin, with_error, end_current, end_checked,
  end_on, end, end_with_value_check, set,
}

current_mismatch :
    (a key : ℕ) (merged entry : Entry)
    → (entry_attribute merged == a) ≡ false
    → (key == unaligned_key) ≡ false
    → current_of a key false merged entry ≡ no_current
current_mismatch a key merged entry other aligned = ground arith

load_mismatch :
    (attr : Attribute) (bb : Blackboard.Blackboard) (allow : Bool) (e : Entry)
    → allow ≡ false
    → Blackboard.get bb region_key ≡ some e
    → (entry_attribute e == attribute_id attr) ≡ false
    → load_current_entry attr region_key bb allow ≡ some no_current
unfolding load_current_entry
load_mismatch attr bb allow e strict held other =
    rw (held, strict)
      (ap some (current_mismatch (attribute_id attr) region_key e (entry_get e attr) other refl))

key_aligned :
    (a prop : ℕ)
    → is_asvalue prop ≡ false
    → has_unaligned prop ≡ false
    → get_blackboard_key a prop ≡ region_key
unfolding get_blackboard_key
key_aligned a prop by_ref aligned = rw (by_ref, aligned)

module _ (c : TreeConfig) (d : DoubleOps) where
  -- A thread with a nesting error.
  pub record Ceased (s : Caliper) : Type 0 where
    pub begins : (attr : Attribute) (v : CaliVariant) → begin c d s attr v ≡ some s
    pub ends : (attr : Attribute) → end c d s attr ≡ some s
    pub checked_ends :
        (attr : Attribute) (v : CaliVariant) → end_with_value_check c d s attr v ≡ some s
    pub sets : (attr : Attribute) (v : CaliVariant) → set c d s attr v ≡ some s

  ceased : (s : Caliper) → Ceased (with_error c d s)
  unfolding begin end end_with_value_check set
  ceased s = record {
    begins = λ attr v. refl;
    ends = λ attr. refl;
    checked_ends = λ attr v. refl;
    sets = λ attr v. refl;
  }

  -- Without an error, on the blackboard of the attribute's scope.
  at_flag :
      (s : Caliper) (run : Option Blackboard.Blackboard → Option Caliper)
      (bb : Blackboard.Blackboard) (o : Option Blackboard.Blackboard)
      → s.stack_error ≡ false
      → o ≡ some bb
      → (if s.stack_error then some s else run o) ≡ run (some bb)
  at_flag s run bb o no_error scope = ap (λ b. if b then some s else run o) no_error ∙ ap run scope

  end_on_mismatch :
      (s : Caliper) (attr : Attribute) (bb : Blackboard.Blackboard) (prop : ℕ) (e : Entry)
      → is_asvalue prop ≡ false
      → has_unaligned prop ≡ false
      → s.allow_region_overlap ≡ false
      → Blackboard.get bb region_key ≡ some e
      → (entry_attribute e == attribute_id attr) ≡ false
      → end_on c d (end_current c d prop s attr) prop s attr (some bb) ≡ some (with_error c d s)
  unfolding end_current
  end_on_mismatch s attr bb prop e by_ref aligned strict held other = rw (
    key_aligned (attribute_id attr) prop by_ref aligned,
    load_mismatch attr bb s.allow_region_overlap e strict held other,
  )

  end_checked_mismatch :
      (s : Caliper) (attr : Attribute) (v : CaliVariant) (bb : Blackboard.Blackboard) (prop : ℕ)
      (e : Entry)
      → is_asvalue prop ≡ false
      → has_unaligned prop ≡ false
      → s.allow_region_overlap ≡ false
      → Blackboard.get bb region_key ≡ some e
      → (entry_attribute e == attribute_id attr) ≡ false
      → end_on c d (end_checked c d prop s attr v) prop s attr (some bb) ≡ some (with_error c d s)
  unfolding end_checked
  end_checked_mismatch s attr v bb prop e by_ref aligned strict held other = rw (
    key_aligned (attribute_id attr) prop by_ref aligned,
    load_mismatch attr bb s.allow_region_overlap e strict held other,
  )

  -- Where regions must not overlap, ending an attribute of the region stack that is not the current
  -- one only sets the thread's error flag, be it open further up or not at all; so does
  -- end_with_value_check, with any value. From then on begin, end, end_with_value_check and set do
  -- nothing.
  pub end_mismatch-Ceased :
      (s : Caliper) (attr : Attribute) (bb : Blackboard.Blackboard) (e : Entry)
      → s.stack_error ≡ false
      → s.allow_region_overlap ≡ false
      → is_asvalue (prop_of d attr) ≡ false
      → has_unaligned (prop_of d attr) ≡ false
      → blackboard_of (prop_of d attr) s ≡ some bb
      → Blackboard.get bb region_key ≡ some e
      → entry_attribute e ≢ attribute_id attr
      → (end c d s attr ≡ some (with_error c d s))
        × ((v : CaliVariant) → end_with_value_check c d s attr v ≡ some (with_error c d s))
        × Ceased (with_error c d s)
  unfolding end end_with_value_check
  end_mismatch-Ceased s attr bb e no_error strict by_ref aligned scope held other =
      let prop = prop_of d attr in
      (
        at_flag s (λ o. end_on c d (end_current c d prop s attr) prop s attr o) bb
              (blackboard_of prop s) no_error scope
            ∙ end_on_mismatch s attr bb prop e by_ref aligned strict held (ground arith),
        λ v.
            at_flag s (λ o. end_on c d (end_checked c d prop s attr v) prop s attr o) bb
              (blackboard_of prop s) no_error scope
            ∙ end_checked_mismatch s attr v bb prop e by_ref aligned strict held (ground arith),
        ceased s,
      )
