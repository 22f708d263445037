-- ===== src/Runtime/Caliper/Balanced.antt =====
-- Regions of a thread that are properly nested: what begin and end leave behind.
use caliper_msg_pattern.Prelude.{
  ℕ, suc, ◌+◌, ◌≤◌, ◌<◌, ◌≡◌, ◌≢◌, refl, ◌∙◌, arith, true, false, not, some, ◌∷◌,
}
use mathlib.Core.Path.{subst}
use caliper_msg_pattern.Common.Variant.Types.{CaliVariant}
use caliper_msg_pattern.Common.Variant.Convert.{DoubleOps}
use caliper_msg_pattern.Common.Entry.{NodeData, NodePtr, Attribute, Entry, node_entry, inv_id}
use caliper_msg_pattern.Runtime.Blackboard
use caliper_msg_pattern.Runtime.Blackboard.Table.{IsValid}
use caliper_msg_pattern.Runtime.Blackboard.Set.{set-Wrote}
use caliper_msg_pattern.Runtime.Blackboard.Present.{set_present-Wrote}
use caliper_msg_pattern.Runtime.MetadataTree.{TreeConfig}
use caliper_msg_pattern.Runtime.MetadataTree.Invariant.{IsTree}
use caliper_msg_pattern.Runtime.Caliper.{has_hidden, prop_of, Caliper, begin, end}
use caliper_msg_pattern.Runtime.Caliper.Region.{IsStack, above}
use caliper_msg_pattern.Runtime.Caliper.Begin.{
  Rest-refl, Rest-trans, key_real, attr_key, begin-Opened,
}
use caliper_msg_pattern.Runtime.Caliper.End.{top_entry}
use caliper_msg_pattern.Runtime.Caliper.Around.{
  in_sequence, Regions, finished, region, size, run, AllRegions, InRegion, Restored, around,
}

module _ (c : TreeConfig) (d : DoubleOps) (grows : c.can_expand ≡ true) (key : ℕ) where
  Restored-trans :
      {s u w : Caliper}
      → Restored c d grows key s u
      → Restored c d grows key u w
      → Restored c d grows key s w
  Restored-trans g h = record {
    valid = h.valid;
    reads = λ k real. h.reads k real ∙ g.reads k real;
    tree = h.tree;
    rest = Rest-trans g.rest h.rest;
  }

  run_inside :
      (w : Regions) (s : Caliper) (n b : NodeData) (base : NodePtr)
      → AllRegions c d grows key w
      → InRegion c d grows key s n b base
      → s.tree.next_block + size w ≤ c.num_blocks
      → (s' : Caliper) × (run c d w s ≡ some s')
        × Restored c d grows key s s'
        × (s'.tree.next_block ≤ s.tree.next_block + size w)
  unfolding run
  run_inside finished s n b base all inside space = (
    s,
    refl,
    record { valid = inside.valid; reads = λ k real. refl; tree = inside.tree; rest = Rest-refl s },
    omega arith,
  )
  run_inside (region attr v inner rest) s n b base (is_region, same, all_inner, all_rest) inside
        space =
      let e = node_entry n (b ∷ base) in
      let at_key : Blackboard.get s.thread_blackboard (attr_key c d grows attr) ≡ some e =
        rw same inside.holds in
      let (s1, ran1, opened) =
        begin-Opened c d grows s attr v e (n ∷ b ∷ base) is_region inside.no_error at_key
          (above n b base) inside.tree (omega (arith, space))
          (λ x.
            set_present-Wrote s.thread_blackboard (attr_key c d grows attr) x e
              (not (has_hidden (prop_of d attr))) inside.valid (key_real (prop_of d attr)) at_key
              (top_entry c d grows n (b ∷ base))) in
      let (s3, ran3, restored, next) =
        around c d grows key s attr v inner e n (b ∷ base) is_region same inside.no_error
          inside.tree inside.holds (above n b base) (omega (arith, space)) s1 ran1 opened
          (λ k in_region.
            run_inside inner s1 k n (b ∷ base) all_inner in_region
              (omega (arith, space, opened.begun.pushed.next))) in
      let (s', ran', restored', next') =
        run_inside rest s3 n b base all_rest
          (record {
            no_error = restored.rest.error ∙ inside.no_error;
            valid = restored.valid;
            tree = restored.tree;
            holds =
                restored.reads key (subst (λ q. q ≢ inv_id) same (key_real (prop_of d attr)))
                ∙ inside.holds;
          })
          (omega (arith, space, next)) in
      (
        s',
        in_sequence (begin c d s attr v) (run c d inner) (λ u. end c d u attr) (run c d rest) s3
              ran3
            ∙ ran',
        Restored-trans restored restored',
        omega (arith, next, next'),
      )

  -- A thread without nesting errors, whose blackboard and tree are well formed, whose pool can expand
  -- and which has a free slot and blocks for the nodes, runs a region attribute's region and the
  -- properly nested regions inside it: the calls end without a fault and without a nesting error.
  -- Each key of the blackboard then holds what it held before, the blackboard and the tree are well
  -- formed, and the process blackboard, the channels and the settings are as they were.
  pub run-Restored :
      (attr : Attribute) (v : CaliVariant) (inner : Regions) (s : Caliper) (e : Entry)
      (b : NodeData) (base : NodePtr)
      → AllRegions c d grows key (region attr v inner finished)
      → s.stack_error ≡ false
      → IsValid s.thread_blackboard
      → s.thread_blackboard.num_entries < 910
      → IsTree c s.tree
      → Blackboard.get s.thread_blackboard key ≡ some e
      → IsStack e (b ∷ base)
      → s.tree.next_block + suc (size inner) ≤ c.num_blocks
      → (s' : Caliper) × (run c d (region attr v inner finished) s ≡ some s')
        × Restored c d grows key s s'
  unfolding run
  run-Restored attr v inner s e b base (is_region, same, all_inner, _) no_error valid room tree held
        stack space =
      let real = key_real (prop_of d attr) in
      let at_key : Blackboard.get s.thread_blackboard (attr_key c d grows attr) ≡ some e =
        rw same held in
      let (s1, ran1, opened) =
        begin-Opened c d grows s attr v e (b ∷ base) is_region no_error at_key stack tree
          (omega (arith, space))
          (λ x.
            set-Wrote s.thread_blackboard (attr_key c d grows attr) x valid real
              (not (has_hidden (prop_of d attr))) room) in
      let (s3, ran3, restored, next) =
        around c d grows key s attr v inner e b base is_region same no_error tree held stack
          (omega (arith, space)) s1 ran1 opened
          (λ k in_region.
            run_inside inner s1 k b base all_inner in_region
              (omega (arith, space, opened.begun.pushed.next))) in
      (
        s3,
        in_sequence (begin c d s attr v) (run c d inner) (λ u. end c d u attr) (λ u. some u) s3
            ran3,
        restored,
      )
