-- ===== src/Reader/Kernels/SumLaws.antt =====
-- What the sum kernel holds after several records, and the sum of sums.
use caliper_msg_pattern.Prelude.{ℕ, ◌+◌, ◌≡◌, refl, ap, ◌∙◌, arith, List, [], ◌∷◌, ◌||◌, ◌==◌}
use native.Mathlib.Nat.{add_assoc}
use caliper_msg_pattern.Common.Variant.Types.{make_empty_variant, make_variant_from_uint}
use caliper_msg_pattern.Common.Variant.Convert.{DoubleOps}
use caliper_msg_pattern.Common.Variant.Add.{variant_add, variant_add_unsigned}
use caliper_msg_pattern.Common.Entry.{Entry, entry_attribute}
use caliper_msg_pattern.Reader.Metadata.{find_entry}
use caliper_msg_pattern.Reader.Kernels.Sum.{SumKernel, sum_record, wrap32}

abbrev pub no_sum : SumKernel
no_sum = record { count = 0; sum = make_empty_variant }

abbrev pub sum : List ℕ → ℕ
sum [] = 0
sum (v ∷ vs) = v + sum vs

module _ (d : DoubleOps) (tgt own : ℕ) where
  -- The first entry that the kernel reads in the record holds the unsigned value.
  abbrev pub Contributes : List Entry → ℕ → Type 0
  Contributes rec v =
      (e : Entry) × (rest : List Entry) × (find_entry
          (λ e. entry_attribute e == tgt || entry_attribute e == own) rec
        ≡ e ∷ rest)
      × (e.value ≡ make_variant_from_uint v)

  abbrev pub AllContribute : List (List Entry) → List ℕ → Type 0
  AllContribute [] [] = Unit {0}
  AllContribute [] (v ∷ vs) = ⊥
  AllContribute (rec ∷ recs) [] = ⊥
  AllContribute (rec ∷ recs) (v ∷ vs) = Contributes rec v × AllContribute recs vs

  abbrev pub sum_all : SumKernel → List (List Entry) → SumKernel
  sum_all k [] = k
  sum_all k (rec ∷ recs) = sum_all (sum_record d tgt own k rec) recs

  sum_step :
      (k : SumKernel) (rec : List Entry) (v : ℕ)
      → Contributes rec v
      → sum_record d tgt own k rec ≡ record {
        count = wrap32 (k.count + 1);
        sum = variant_add d k.sum (make_variant_from_uint v);
      }
  unfolding sum_record
  sum_step k rec v (e, rest, found, ev) = rw (found, ev)

  sum_all_from :
      (n a : ℕ) (recs : List (List Entry)) (vs : List ℕ)
      → AllContribute recs vs
      → (sum_all (record { count = n; sum = make_variant_from_uint a }) recs).sum
        ≡ make_variant_from_uint (a + sum vs)
  sum_all_from n a [] [] all = ap make_variant_from_uint (omega arith)
  sum_all_from n a [] (v ∷ vs) all = absurd all
  sum_all_from n a (rec ∷ recs) [] all = absurd all
  sum_all_from n a (rec ∷ recs) (v ∷ vs) all =
      let step =
        sum_step (record { count = n; sum = make_variant_from_uint a }) rec v all.0
        ∙ ap (λ t. let k : SumKernel = record { count = wrap32 (n + 1); sum = t } in k)
            (variant_add_unsigned d a v) in
      ap (λ k. (sum_all k recs).sum) step
      ∙ sum_all_from (wrap32 (n + 1)) (a + v) recs vs all.1
      ∙ ap make_variant_from_uint (add_assoc a v (sum vs))

  add_first :
      (v : ℕ)
      → variant_add d make_empty_variant (make_variant_from_uint v) ≡ make_variant_from_uint v
  unfolding variant_add make_variant_from_uint
  add_first v = refl

  -- Over one record or more, each contributing an unsigned value, a fresh sum kernel ends with the
  -- unsigned variant of their sum, which wraps at 64 bits.
  pub sum_all-sum :
      (rec : List Entry) (recs : List (List Entry)) (v : ℕ) (vs : List ℕ)
      → AllContribute (rec ∷ recs) (v ∷ vs)
      → (sum_all no_sum (rec ∷ recs)).sum ≡ make_variant_from_uint (sum (v ∷ vs))
  sum_all-sum rec recs v vs all =
      let step =
        sum_step no_sum rec v all.0
        ∙ ap (λ t. let k : SumKernel = record { count = wrap32 (0 + 1); sum = t } in k)
            (add_first v) in
      ap (λ k. (sum_all k recs).sum) step ∙ sum_all_from (wrap32 (0 + 1)) v recs vs all.1
