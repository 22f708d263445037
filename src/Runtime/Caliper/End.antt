-- ===== src/Runtime/Caliper/End.antt =====
-- `Caliper::end` of a region in a thread: what the blackboard holds again.
use caliper_msg_pattern.Prelude.{
  ℕ, ◌≡◌, ◌≢◌, refl, ap, ◌∙◌, Bool, true, false, not, some, ◌∷◌, if◌then◌else◌, ◌==◌, ==_refl,
}
use caliper_msg_pattern.Common.Variant.Convert.{DoubleOps}
use caliper_msg_pattern.Common.Entry.{
  NodeData, NodePtr, Attribute, attribute_id, Entry, no_entry, node_entry, inv_id,
}
use caliper_msg_pattern.Runtime.Blackboard
use caliper_msg_pattern.Runtime.Blackboard.{Blackboard}
use caliper_msg_pattern.Runtime.Blackboard.Table.{IsValid}
use caliper_msg_pattern.Runtime.Blackboard.Present.{set_present-Wrote}
use caliper_msg_pattern.Runtime.MetadataTree.{TreeConfig, root}
use caliper_msg_pattern.Runtime.Caliper.{
  has_hidden, handle_end, load_current_entry, Event, Caliper, invoke, prop_of, end_current, end,
  end_on, blackboard_of, BlackboardEntry,
}
use caliper_msg_pattern.Runtime.Caliper.Region.{
  IsStack, bottom, above, entry_get-top, entry_attribute-top, handle_end-bottom, handle_end-above,
}
use caliper_msg_pattern.Runtime.Caliper.Begin.{
  Rest, Rest-trans, invoke-Rest, key_real, key_by_ref, with_thread, IsRegion, attr_key,
}

module _ (c : TreeConfig) (d : DoubleOps) (grows : c.can_expand ≡ true) where
  end_runs :
      (s : Caliper) (attr : Attribute) (current : BlackboardEntry)
      → IsRegion c d grows attr
      → s.stack_error ≡ false
      → load_current_entry attr (attr_key c d grows attr) s.thread_blackboard s.allow_region_overlap
        ≡ some current
      → end c d s attr ≡ end_current c d (prop_of d attr) s attr s.thread_blackboard current
  unfolding end
  end_runs s attr current region no_error load =
      ap
        (λ b.
          if b
          then some s
          else end_on c d (end_current c d (prop_of d attr) s attr) (prop_of d attr) s attr
              (blackboard_of (prop_of d attr) s))
        no_error
      ∙ rw (region.thread, key_by_ref (attribute_id attr) (prop_of d attr) region.by_ref, load)

  -- The region that the node `k` stands for is closed: what the key held below it is there again.
  pub record Closed (s : Caliper) (attr : Attribute) (e : Entry) (s' : Caliper) : Type 0 where
    pub valid : IsValid s'.thread_blackboard
    pub reads :
        (key : ℕ)
        → key ≢ inv_id
        → Blackboard.get s'.thread_blackboard key ≡ (
            if key == attr_key c d grows attr
            then some e
            else Blackboard.get s.thread_blackboard key)
    pub same_tree : s'.tree ≡ s.tree
    pub rest : Rest s s'

  load_top :
      (attr : Attribute) (bb : Blackboard) (allow : Bool) (k : NodeData) (up : NodePtr)
      → IsRegion c d grows attr
      → Blackboard.get bb (attr_key c d grows attr) ≡ some (node_entry k up)
      → k.attribute ≡ attribute_id attr
      → load_current_entry attr (attr_key c d grows attr) bb allow
        ≡ some (record { merged_entry = node_entry k up; entry = node_entry k up })
  unfolding load_current_entry
  load_top attr bb allow k up region reads e = rw (
    reads,
    entry_get-top k up attr e region.other,
    entry_attribute-top k up (attribute_id attr) e region.other,
    ==_refl,
  )

  module _ (s : Caliper) (attr : Attribute) (k : NodeData) (p : NodePtr)
      (region : IsRegion c d grows attr) (same_attr : k.attribute ≡ attribute_id attr)
      (valid : IsValid s.thread_blackboard) where
    abbrev pub top : BlackboardEntry
    top = record { merged_entry = node_entry k p; entry = node_entry k p }

    Closed-by :
        (e : Entry) (bb' : Blackboard)
        → handle_end c attr
            (prop_of d attr)
            (node_entry k p)
            (attr_key c d grows attr)
            s.thread_blackboard
            s.tree
          ≡ some (bb', s.tree)
        → IsValid bb'
        → ((key : ℕ)
            → key ≢ inv_id
            → Blackboard.get bb' key ≡ (
                if key == attr_key c d grows attr
                then some e
                else Blackboard.get s.thread_blackboard key))
        → (s' : Caliper) × (end_current c d (prop_of d attr) s attr s.thread_blackboard top
            ≡ some s')
          × Closed s attr e s'
    unfolding end_current
    Closed-by e bb' run valid' reads =
        let prop = prop_of d attr in
        let s1 = invoke (λ ch. Event.pre_end_evt ch attr k.content) prop s in
        let s2 : Caliper = record s1 { thread_blackboard = bb'; tree = s.tree } in
        (
          s2,
          rw (
            key_by_ref (attribute_id attr) prop region.by_ref,
            run,
            with_thread prop s1 bb' s.tree region.thread,
          ),
          record {
            valid = valid';
            reads = reads;
            same_tree = refl;
            rest =
                Rest-trans (invoke-Rest (λ ch. Event.pre_end_evt ch attr k.content) prop s)
                  (record { error = refl; process = refl; channels = refl; overlap = refl });
          },
        )

  pub top_entry : (k : NodeData) (up : NodePtr) → node_entry k up ≢ no_entry
  top_entry k up e = cc (ap (λ (x : Entry). x.node) e)

  end_current-Closed :
      (s : Caliper) (attr : Attribute) (k : NodeData) {e : Entry} {p : NodePtr}
      → IsRegion c d grows attr
      → k.attribute ≡ attribute_id attr
      → IsValid s.thread_blackboard
      → IsStack e p
      → Blackboard.get s.thread_blackboard (attr_key c d grows attr) ≡ some (node_entry k p)
      → (s' : Caliper) × (end_current c d
            (prop_of d attr)
            s
            attr
            s.thread_blackboard
            (record { merged_entry = node_entry k p; entry = node_entry k p })
          ≡ some s')
        × Closed s attr e s'
  end_current-Closed s attr k region same_attr valid bottom reads =
      let (bb', run, gone) =
        handle_end-bottom c grows attr (prop_of d attr) (attr_key c d grows attr)
          s.thread_blackboard s.tree k region.by_ref valid (key_real (prop_of d attr)) same_attr in
      Closed-by s attr k root region same_attr valid no_entry bb' run gone.valid gone.reads
  end_current-Closed s attr k region same_attr valid (above n b base) reads =
      let (bb', run, w) =
        handle_end-above c grows attr (prop_of d attr) (attr_key c d grows attr) s.thread_blackboard
          s.tree k n b base region.by_ref same_attr
          (λ x.
            set_present-Wrote s.thread_blackboard (attr_key c d grows attr) x
              (node_entry k (n ∷ b ∷ base)) (not (has_hidden (prop_of d attr))) valid
              (key_real (prop_of d attr)) reads (top_entry k (n ∷ b ∷ base))) in
      Closed-by s attr k (n ∷ b ∷ base) region same_attr valid (node_entry n (b ∷ base)) bb' run
        w.valid w.reads

  pub end-Closed :
      (s : Caliper) (attr : Attribute) (k : NodeData) (e : Entry) (p : NodePtr)
      → IsRegion c d grows attr
      → s.stack_error ≡ false
      → k.attribute ≡ attribute_id attr
      → IsValid s.thread_blackboard
      → IsStack e p
      → Blackboard.get s.thread_blackboard (attr_key c d grows attr) ≡ some (node_entry k p)
      → (s' : Caliper) × (end c d s attr ≡ some s') × Closed s attr e s'
  end-Closed s attr k e p region no_error same_attr valid stack reads =
      let (s', run, closed) = end_current-Closed s attr k region same_attr valid stack reads in
      (
        s',
        end_runs s attr _ region no_error
              (load_top attr s.thread_blackboard s.allow_region_overlap k p region reads same_attr)
            ∙ run,
        closed,
      )
