-- ===== src/Reader/Kernels/CountLaws.antt =====
-- Counting over several records, and counting over the results of counts.
use caliper_msg_pattern.Prelude.{
  ℕ, ◌+◌, ◌<◌, ◌≡◌, refl, ap, ◌∙◌, arith, Bool, true, List, [], ◌∷◌, ◌++◌, ◌==◌,
}
use native.Mathlib.Nat.{zero-add}
use caliper_msg_pattern.Util.Vlenc.{IsU64}
use caliper_msg_pattern.Common.Variant.Types.{make_variant_from_uint}
use caliper_msg_pattern.Common.Variant.Convert.{DoubleOps, to_uint}
use caliper_msg_pattern.Common.Variant.Add.{wrap64}
use caliper_msg_pattern.Common.Entry.{
  Attribute, attribute_id, is_attribute, Entry, entry_attribute, immediate_entry,
}
use caliper_msg_pattern.Reader.Metadata.{MetadataAccess, find_entry}
use caliper_msg_pattern.Reader.Kernels.Count.{
  count_found, count_record, count_aggregate, count_append_result,
}

module _ (p : Entry → Bool) where
  pub find_entry-append_none :
      (xs ys : List Entry) → find_entry p xs ≡ [] → find_entry p (xs ++ ys) ≡ find_entry p ys
  unfolding find_entry
  find_entry-append_none [] ys h = refl
  find_entry-append_none (e ∷ xs) ys h = ground (arith, find_entry-append_none xs ys)

-- The id of an immediate entry is its attribute's.
pub immediate_attribute :
    (attr : Attribute) (v : _)
    → is_attribute attr ≡ true
    → entry_attribute (immediate_entry attr v) ≡ attribute_id attr
unfolding entry_attribute
immediate_attribute [] v h = cc
immediate_attribute (n ∷ up) v h = ground arith

module _ (d : DoubleOps) (attr_id : ℕ) where
  abbrev weight_found : List Entry → ℕ
  weight_found [] = 1
  weight_found (e ∷ _) = (to_uint d e.value).0

  -- What one record adds to the count.
  abbrev pub weight : List Entry → ℕ
  weight rec = weight_found (find_entry (λ e. entry_attribute e == attr_id) rec)

  count_found_weight : (c : ℕ) (es : List Entry) → count_found d c es ≡ wrap64 (c + weight_found es)
  count_found_weight c [] = refl
  count_found_weight c (e ∷ _) = refl

  -- One record after the other.
  abbrev pub count_all : ℕ → List (List Entry) → ℕ
  count_all c [] = c
  count_all c (rec ∷ recs) = count_all (count_record d attr_id c rec) recs

  abbrev pub total_weight : List (List Entry) → ℕ
  total_weight [] = 0
  total_weight (rec ∷ recs) = weight rec + total_weight recs

  -- From a 64-bit count, the count after several records is the sum of what each adds, modulo 2 ^ 64.
  pub count_all-total_weight :
      (c : ℕ) (recs : List (List Entry))
      → IsU64 c
      → count_all c recs ≡ wrap64 (c + total_weight recs)
  count_all-total_weight c [] h = omega arith
  count_all-total_weight c (rec ∷ recs) h =
      let step : count_record d attr_id c rec ≡ wrap64 (c + weight rec) =
        unfold count_record in
        count_found_weight c (find_entry (λ e. entry_attribute e == attr_id) rec) in
      omega (
        arith,
        step,
        count_all-total_weight (count_record d attr_id c rec) recs (omega (arith, step)),
      )

  total_weight-append :
      (A B : List (List Entry)) → total_weight (A ++ B) ≡ total_weight A + total_weight B
  total_weight-append [] B = omega arith
  total_weight-append (rec ∷ A) B = omega (arith, total_weight-append A B)

  -- The result that a kernel appends weighs its count.
  weight_result :
      (attr : Attribute) (key : List Entry) (a : ℕ)
      → is_attribute attr ≡ true
      → attribute_id attr ≡ attr_id
      → find_entry (λ e. entry_attribute e == attr_id) key ≡ []
      → IsU64 a
      → weight (key ++ immediate_entry attr (make_variant_from_uint a) ∷ []) ≡ a
  unfolding find_entry to_uint make_variant_from_uint
  weight_result attr key a valid same absent fits =
      rw (find_entry-append_none _ key _ absent)
        (ground (arith, immediate_attribute attr (make_variant_from_uint a) valid))

module _ (d : DoubleOps) {S : Type 0} (db : MetadataAccess S) where
  -- A kernel that is given the records in order.
  unfoldable pub count_run : ℕ → Attribute → S → List (List Entry) → ℕ × Attribute × S
  count_run c attr s [] = (c, attr, s)
  count_run c attr s (rec ∷ recs) =
      let (c', attr', s') = count_aggregate d db c attr s rec in count_run c' attr' s' recs

  count_run-count_all :
      (c : ℕ) (attr : Attribute) (s : S) (recs : List (List Entry))
      → is_attribute attr ≡ true
      → count_run c attr s recs ≡ (count_all d (attribute_id attr) c recs, attr, s)
  unfolding count_run count_aggregate
  count_run-count_all c attr s [] valid = refl
  count_run-count_all c [] s (rec ∷ recs) valid = cc
  count_run-count_all c (n ∷ up) s (rec ∷ recs) valid =
      count_run-count_all (count_record d n.id c rec) (n ∷ up) s recs valid

  -- The record that a kernel with count `c` writes for a key.
  abbrev pub count_result : ℕ → Attribute → S → List Entry → List Entry
  count_result c attr s key = (count_append_result d db c attr s key).0

  result_lem :
      (c : ℕ) (attr : Attribute) (s : S) (key : List Entry)
      → is_attribute attr ≡ true
      → 0 < c
      → count_result c attr s key ≡ key ++ immediate_entry attr (make_variant_from_uint c) ∷ []
  unfolding count_append_result
  result_lem c [] s key valid h = cc
  result_lem c (n ∷ up) s key valid h = ground arith

  result_weight :
      (c : ℕ) (attr : Attribute) (s : S) (key : List Entry)
      → is_attribute attr ≡ true
      → 0 < c
      → IsU64 c
      → find_entry (λ e. entry_attribute e == attribute_id attr) key ≡ []
      → weight d (attribute_id attr) (count_result c attr s key) ≡ c
  result_weight c attr s key valid h fits absent =
      rw (result_lem c attr s key valid h)
        (weight_result d (attribute_id attr) attr key c valid refl absent fits)

  module _ (attr : Attribute) (s : S) (valid : is_attribute attr ≡ true) where
    run_total :
        (recs : List (List Entry))
        → (count_run 0 attr s recs).0 ≡ wrap64 (total_weight d (attribute_id attr) recs)
    run_total recs =
        ap (λ r. r.0) (count_run-count_all 0 attr s recs valid)
        ∙ count_all-total_weight d (attribute_id attr) 0 recs (omega arith)
        ∙ ap wrap64 (zero-add _)

    -- Counting the results of two groups of records, each written behind a key without the count
    -- attribute, gives the count of all their records, if neither group's count is 0 and the count
    -- attribute is known.
    pub count_run-merge :
        (key₁ key₂ : List Entry) (A B : List (List Entry))
        → find_entry (λ e. entry_attribute e == attribute_id attr) key₁ ≡ []
        → find_entry (λ e. entry_attribute e == attribute_id attr) key₂ ≡ []
        → 0 < (count_run 0 attr s A).0
        → 0 < (count_run 0 attr s B).0
        → (count_run 0 attr s (
            count_result (count_run 0 attr s A).0 attr s key₁
            ∷ count_result (count_run 0 attr s B).0 attr s key₂
            ∷ [])).0
          ≡ (count_run 0 attr s (A ++ B)).0
    count_run-merge key₁ key₂ A B none₁ none₂ some₁ some₂ =
        let a = (count_run 0 attr s A).0 in
        let b = (count_run 0 attr s B).0 in
        let fits₁ : IsU64 a = omega (arith, run_total A) in
        let fits₂ : IsU64 b = omega (arith, run_total B) in
        omega (
          arith,
          run_total A,
          run_total B,
          run_total (A ++ B),
          total_weight-append d (attribute_id attr) A B,
          run_total (count_result a attr s key₁ ∷ count_result b attr s key₂ ∷ []),
          result_weight a attr s key₁ valid some₁ fits₁ none₁,
          result_weight b attr s key₂ valid some₂ fits₂ none₂,
        )
