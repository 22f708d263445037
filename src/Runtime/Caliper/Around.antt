-- ===== src/Runtime/Caliper/Around.antt =====
-- A region of a thread with regions inside it, of which is known what they leave behind.
use caliper_msg_pattern.Prelude.{
  ℕ, suc, ◌+◌, ◌≤◌, ◌<◌, ◌≡◌, ◌≢◌, refl, sym, ap, ◌∙◌, arith, true, false, Option, none, some, ◌∷◌,
  if◌then◌else◌, ◌==◌, ◌>>=◌, ==_refl,
}
use mathlib.Core.Path.{subst}
use native.Mathlib.Decide.{ℕ_discrete}
use caliper_msg_pattern.Common.Variant.Types.{CaliVariant}
use caliper_msg_pattern.Common.Variant.Convert.{DoubleOps}
use caliper_msg_pattern.Common.Entry.{NodeData, NodePtr, Attribute, Entry, node_entry, inv_id}
use caliper_msg_pattern.Runtime.Blackboard
use caliper_msg_pattern.Runtime.Blackboard.Table.{IsValid}
use caliper_msg_pattern.Runtime.MetadataTree.{TreeConfig, Tree}
use caliper_msg_pattern.Runtime.MetadataTree.Invariant.{IsTree}
use caliper_msg_pattern.Runtime.Caliper.{prop_of, Caliper, begin, end}
use caliper_msg_pattern.Runtime.Caliper.Region.{IsStack}
use caliper_msg_pattern.Runtime.Caliper.Begin.{
  Rest, Rest-trans, key_real, IsRegion, attr_key, Opened,
}
use caliper_msg_pattern.Runtime.Caliper.End.{Closed, end-Closed}

bind_assoc :
    {A B C : Type 0} (m : Option A) (f : A → Option B) (g : B → Option C)
    → ((m >>= f) >>= g) ≡ (m >>= λ a. f a >>= g)
bind_assoc none f g = refl
bind_assoc (some a) f g = refl

-- What comes behind three steps that ended.
pub in_sequence :
    {A B C D : Type 0} (m : Option A) (f : A → Option B) (g : B → Option C) (h : C → Option D)
    (x : C)
    → (do a ← m; b ← f a; g b) ≡ some x
    → (do a ← m; b ← f a; y ← g b; h y) ≡ h x
in_sequence none f g h x e = absurd (cc e)
in_sequence (some a) f g h x e = sym (bind_assoc (f a) g h) ∙ ap (λ o. o >>= h) e

-- A program's regions in their order: each with those inside it, and those after it.
pub data Regions : Type 0 where
  finished : Regions
  region : Attribute → CaliVariant → Regions → Regions → Regions

-- The number of regions.
abbrev pub size : Regions → ℕ
size finished = 0
size (region attr v inner rest) = suc (size inner + size rest)

module _ (c : TreeConfig) (d : DoubleOps) where
  -- The calls that a program with these regions makes.
  unfoldable pub run : Regions → Caliper → Option Caliper
  run finished s = some s
  run (region attr v inner rest) s = do
    s1 ← begin c d s attr v
    s2 ← run inner s1
    s3 ← end c d s2 attr
    run rest s3

module _ (c : TreeConfig) (d : DoubleOps) (grows : c.can_expand ≡ true) (key : ℕ) where
  -- All of them are region attributes of the thread with this blackboard key.
  abbrev pub AllRegions : Regions → Type 0
  AllRegions finished = Unit {0}
  AllRegions (region attr v inner rest) =
      IsRegion c d grows attr × (attr_key c d grows attr ≡ key) × AllRegions inner × AllRegions rest

  -- A thread without nesting errors, in an open region.
  pub record InRegion (s : Caliper) (n b : NodeData) (base : NodePtr) : Type 0 where
    pub no_error : s.stack_error ≡ false
    pub valid : IsValid s.thread_blackboard
    pub tree : IsTree c s.tree
    pub holds : Blackboard.get s.thread_blackboard key ≡ some (node_entry n (b ∷ base))

  -- What is as before after properly nested regions.
  pub record Restored (s s' : Caliper) : Type 0 where
    pub valid : IsValid s'.thread_blackboard
    pub reads :
        (k : ℕ)
        → k ≢ inv_id
        → Blackboard.get s'.thread_blackboard k ≡ Blackboard.get s.thread_blackboard k
    pub tree : IsTree c s'.tree
    pub rest : Rest s s'

  Closed-reads :
      (s0 s1 s2 s3 : Caliper) (attr : Attribute) (e e1 : Entry)
      → attr_key c d grows attr ≡ key
      → Blackboard.get s0.thread_blackboard key ≡ some e
      → ((k : ℕ)
          → k ≢ inv_id
          → Blackboard.get s1.thread_blackboard k ≡ (
              if k == attr_key c d grows attr
              then some e1
              else Blackboard.get s0.thread_blackboard k))
      → ((k : ℕ)
          → k ≢ inv_id
          → Blackboard.get s2.thread_blackboard k ≡ Blackboard.get s1.thread_blackboard k)
      → Closed c d grows s2 attr e s3
      → (k : ℕ) → k ≢ inv_id
      → Blackboard.get s3.thread_blackboard k ≡ Blackboard.get s0.thread_blackboard k
  Closed-reads s0 s1 s2 s3 attr e e1 same held first inner closed k real = elim (ℕ_discrete k key) [
    | yes q ↦ closed.reads k real ∙ rw (same, q, ==_refl) (sym held)
    | no ne ↦ closed.reads k real ∙ ground (arith, same, first k real, inner k real)
  ]

  -- One region with what is inside it, on a stack.
  pub around :
      (s : Caliper) (attr : Attribute) (v : CaliVariant) (inner : Regions) (e : Entry)
      (b : NodeData) (base : NodePtr)
      → IsRegion c d grows attr
      → attr_key c d grows attr ≡ key
      → s.stack_error ≡ false
      → IsTree c s.tree
      → Blackboard.get s.thread_blackboard key ≡ some e
      → IsStack e (b ∷ base)
      → s.tree.next_block < c.num_blocks
      → (s1 : Caliper) → begin c d s attr v ≡ some s1
      → Opened c d grows s attr (b ∷ base) s1
      → ((n : NodeData)
          → InRegion s1 n b base
          → (s2 : Caliper) × (run c d inner s1 ≡ some s2)
            × Restored s1 s2
            × (s2.tree.next_block ≤ s1.tree.next_block + size inner))
      → (s3 : Caliper) × ((do s1 ← begin c d s attr v; s2 ← run c d inner s1; end c d s2 attr)
          ≡ some s3)
        × Restored s s3
        × (s3.tree.next_block ≤ s.tree.next_block + suc (size inner))
  around s attr v inner e b base is_region same no_error tree held stack space s1 ran opened
        inside =
      let begun = opened.begun in
      let real = key_real (prop_of d attr) in
      let x = node_entry begun.k (b ∷ base) in
      let top_at : Blackboard.get s1.thread_blackboard (attr_key c d grows attr) ≡ some x =
        begun.wrote.reads (attr_key c d grows attr) real ∙ (rw ==_refl) in
      let top : Blackboard.get s1.thread_blackboard key ≡ some x =
        subst (λ q. Blackboard.get s1.thread_blackboard q ≡ some x) same top_at in
      let (s2, ran2, restored, next) = inside begun.k (record {
        no_error = opened.rest.error ∙ no_error;
        valid = begun.wrote.valid;
        tree = begun.pushed.tree;
        holds = top;
      }) in
      let (s3, ran3, closed) =
        end-Closed c d grows s2 attr begun.k e (b ∷ base) is_region
          (restored.rest.error ∙ opened.rest.error ∙ no_error) begun.pushed.same_attribute
          restored.valid stack (restored.reads (attr_key c d grows attr) real ∙ top_at) in
      (
        s3,
        rw (ran, ran2) ran3,
        record {
          valid = closed.valid;
          reads =
              Closed-reads s s1 s2 s3 attr e (node_entry begun.k (b ∷ base)) same held
                begun.wrote.reads restored.reads closed;
          tree = subst (IsTree c) (sym closed.same_tree) restored.tree;
          rest = Rest-trans opened.rest (Rest-trans restored.rest closed.rest);
        },
        omega (arith, next, begun.pushed.next, ap (λ (t : Tree). t.next_block) closed.same_tree),
      )
