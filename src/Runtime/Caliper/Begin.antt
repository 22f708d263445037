-- ===== src/Runtime/Caliper/Begin.antt =====
-- `Caliper::begin` of a region in a thread: what is open after it.
use caliper_msg_pattern.Prelude.{
  ℕ, ◌<◌, ◌≡◌, ◌≢◌, refl, ap, ◌∙◌, arith, true, false, not, some, if◌then◌else◌, ◌==◌, Bool-cases,
  inl, inr,
}
use caliper_msg_pattern.Common.Variant.Types.{CaliVariant}
use caliper_msg_pattern.Common.Variant.Convert.{DoubleOps}
use caliper_msg_pattern.Common.Entry.{NodePtr, Attribute, attribute_id, Entry, inv_id, name_attr_id}
use caliper_msg_pattern.Runtime.Blackboard
use caliper_msg_pattern.Runtime.Blackboard.{Blackboard}
use caliper_msg_pattern.Runtime.Blackboard.Set.{Wrote}
use caliper_msg_pattern.Runtime.MetadataTree.{TreeConfig, Tree}
use caliper_msg_pattern.Runtime.MetadataTree.Invariant.{IsTree}
use caliper_msg_pattern.Runtime.Caliper.{
  is_asvalue, has_hidden, has_skip_events, scope_of, scope_thread, get_blackboard_key,
  reference_key, Event, Caliper, invoke, prop_of, begin_as, begin, with_blackboard,
}
use caliper_msg_pattern.Runtime.Caliper.Region.{IsStack, Begun, handle_begin-Begun}

-- What an operation of a thread on its blackboard and the tree leaves alone.
pub record Rest (s s' : Caliper) : Type 0 where
  pub error : s'.stack_error ≡ s.stack_error
  pub process : s'.process_blackboard ≡ s.process_blackboard
  pub channels : s'.active ≡ s.active
  pub overlap : s'.allow_region_overlap ≡ s.allow_region_overlap

pub Rest-refl : (s : Caliper) → Rest s s
Rest-refl s = record { error = refl; process = refl; channels = refl; overlap = refl }

pub Rest-trans : {s u w : Caliper} → Rest s u → Rest u w → Rest s w
Rest-trans g h = record {
  error = h.error ∙ g.error;
  process = h.process ∙ g.process;
  channels = h.channels ∙ g.channels;
  overlap = h.overlap ∙ g.overlap;
}

pub invoke-Rest : (f : ℕ → Event) (prop : ℕ) (s : Caliper) → Rest s (invoke f prop s)
unfolding invoke
invoke-Rest f prop s = elim (Bool-cases (has_skip_events prop)) [
  | inl e ↦ rw e (record { error = refl; process = refl; channels = refl; overlap = refl })
  | inr e ↦ rw e (record { error = refl; process = refl; channels = refl; overlap = refl })
]

invoke-blackboard :
    (f : ℕ → Event) (prop : ℕ) (s : Caliper)
    → (invoke f prop s).thread_blackboard ≡ s.thread_blackboard
unfolding invoke
invoke-blackboard f prop s = ground arith

invoke-tree : (f : ℕ → Event) (prop : ℕ) (s : Caliper) → (invoke f prop s).tree ≡ s.tree
unfolding invoke
invoke-tree f prop s = ground arith

pub key_real : (prop : ℕ) → reference_key prop ≢ inv_id
unfolding reference_key
key_real prop = ground arith

pub key_by_ref :
    (a prop : ℕ) → is_asvalue prop ≡ false → get_blackboard_key a prop ≡ reference_key prop
unfolding get_blackboard_key reference_key
key_by_ref a prop h = ground arith

pub with_thread :
    (prop : ℕ) (s : Caliper) (bb : Blackboard) (t : Tree)
    → (scope_of prop == scope_thread) ≡ true
    → with_blackboard prop s (bb, t) ≡ record s { thread_blackboard = bb; tree = t }
unfolding with_blackboard
with_thread prop s bb t h = rw h

module _ (c : TreeConfig) (d : DoubleOps) (grows : c.can_expand ≡ true) where
  -- A region attribute of the thread: in the context tree, and not the attribute of names.
  pub record IsRegion (attr : Attribute) : Type 0 where
    pub by_ref : is_asvalue (prop_of d attr) ≡ false
    pub thread : (scope_of (prop_of d attr) == scope_thread) ≡ true
    pub other : attribute_id attr ≢ name_attr_id

  abbrev pub attr_key : Attribute → ℕ
  attr_key attr = reference_key (prop_of d attr)

  pub record Opened (s : Caliper) (attr : Attribute) (p : NodePtr) (s' : Caliper) : Type 0 where
    pub begun :
        Begun c grows attr p (attr_key attr) s.thread_blackboard s.tree s'.thread_blackboard s'.tree
    pub rest : Rest s s'

  begin_runs :
      (s : Caliper) (attr : Attribute) (v : CaliVariant)
      → s.stack_error ≡ false
      → begin c d s attr v ≡ begin_as c d (prop_of d attr) s attr v
  unfolding begin
  begin_runs s attr v h = ap (λ b. if b then some s else begin_as c d (prop_of d attr) s attr v) h

  pub begin-Opened :
      (s : Caliper) (attr : Attribute) (v : CaliVariant) (e : Entry) (p : NodePtr)
      → IsRegion attr
      → s.stack_error ≡ false
      → Blackboard.get s.thread_blackboard (attr_key attr) ≡ some e
      → IsStack e p
      → IsTree c s.tree
      → s.tree.next_block < c.num_blocks
      → ((x : Entry)
          → (bb' : Blackboard) × (Blackboard.set s.thread_blackboard
                (attr_key attr)
                x
                (not (has_hidden (prop_of d attr)))
              ≡ some bb')
            × Wrote s.thread_blackboard (attr_key attr) x bb')
      → (s' : Caliper) × (begin c d s attr v ≡ some s') × Opened s attr p s'
  unfolding begin_as
  begin-Opened s attr v e p region no_error reads stack valid space write =
      let prop = prop_of d attr in
      let (bb', t', run, begun) =
        handle_begin-Begun c grows attr v prop s.thread_blackboard s.tree e p region.by_ref reads
          stack valid space write in
      let s1 = invoke (λ ch. Event.pre_begin_evt ch attr v) prop s in
      let s2 : Caliper = record s1 { thread_blackboard = bb'; tree = t' } in
      (
        invoke (λ ch. Event.post_begin_evt ch attr v) prop s2,
        begin_runs s attr v no_error
            ∙ rw (region.thread, run, with_thread prop s1 bb' t' region.thread),
        record {
          begun =
              rw
                (
                  invoke-blackboard (λ ch. Event.post_begin_evt ch attr v) prop s2,
                  invoke-tree (λ ch. Event.post_begin_evt ch attr v) prop s2,
                )
                begun;
          rest = Rest-trans (invoke-Rest (λ ch. Event.pre_begin_evt ch attr v) prop s) (
              Rest-trans {u = s2}
                (record { error = refl; process = refl; channels = refl; overlap = refl })
                (invoke-Rest (λ ch. Event.post_begin_evt ch attr v) prop s2));
        },
      )
