-- ===== src/Services/Aggregation/Update.antt =====
-- `process_snapshot` and `flush` of src/services/aggregate/AggregationDB.cpp. An access out of range
-- is `none`.
use caliper_msg_pattern.Prelude.{
  ℕ, zero, suc, ◌+◌, min, not, Option, none, some, List, [], ◌∷◌, ◌++◌, if◌then◌else◌, ◌==◌, length,
  get_elem?, ◌>>=◌,
}
use caliper_msg_pattern.Prelude.Int.{pos}
use caliper_msg_pattern.Common.Variant.Types.{
  Memory, make_variant_from_uint, make_variant_from_double,
}
use caliper_msg_pattern.Common.Variant.Convert.{DoubleOps, to_double}
use caliper_msg_pattern.Common.Entry.{Attribute, Entry, is_null, immediate_entry}
use caliper_msg_pattern.Common.Snapshot.{get_immediate_entry}
use caliper_msg_pattern.Services.Aggregation.{
  AggregateKernel, AggregateEntry, AggregationDb, update_kernel, key_view, find_or_create_entry,
}
use caliper_msg_pattern.Services.Aggregation.Process.{
  CaliperAccess, ResultAttributes, AttributeInfo, extract_key,
}

-- An element of a vector, changed.
unfoldable pub change_at {ℓ} : {A : Type ℓ} → (A → A) → List A → ℕ → Option (List A)
change_at f [] i = none
change_at f (x ∷ xs) zero = some (f x ∷ xs)
change_at f (x ∷ xs) (suc i) = do ys ← change_at f xs i; some (x ∷ ys)

abbrev pub count_up : AggregateEntry → AggregateEntry
count_up e = record e { count = e.count + 1 }

module _ (d : DoubleOps) where
  -- The loop over the kernels from `kernels_idx + a` on, `n` of them.
  unfoldable pub update_kernels :
      List Entry → List Attribute → ℕ → ℕ → List AggregateKernel → Option (List AggregateKernel)
  unfolding change_at get_immediate_entry update_kernel to_double
  update_kernels rec attrs zero i kernels = some kernels
  update_kernels rec [] (suc n) i kernels = none
  update_kernels rec (attr ∷ attrs) (suc n) i kernels =
      let e = get_immediate_entry rec attr in
      do
        changed ←
            if is_null e.node
            then some kernels
            else change_at (λ k. update_kernel d k (to_double d e.value).0) kernels i
        update_kernels rec attrs n (i + 1) changed

  -- The count and the kernels of the entry at an index.
  unfoldable pub update_values :
      List Entry → AttributeInfo → ℕ → AggregationDb → Option AggregationDb
  unfolding update_kernels
  update_values rec info idx db = do
    entry ← get_elem? db.entries idx
    entries ← change_at count_up db.entries idx
    kernels ←
        update_kernels rec info.aggr_attrs (min entry.num_kernels (length info.aggr_attrs))
          entry.kernels_idx db.kernels
    some (record db { entries = entries; kernels = kernels })

  module _ {T : Type 0} (c : CaliperAccess T) (grow : ℕ → ℕ → ℕ) (m : Memory) where
    unfoldable pub process_snapshot :
        T → List Entry → AttributeInfo → AggregationDb → Option (AggregationDb × T)
    unfolding extract_key find_or_create_entry update_values
    process_snapshot s [] info db = some (db, s)
    process_snapshot s (e ∷ es) info db =
        let (key, t) = extract_key c d s (e ∷ es) info in
        do
          (idx, found) ←
              find_or_create_entry grow m db key.builder.content key.hash (length info.aggr_attrs)
                (not (c.is_signal t))
          after ← update_values (e ∷ es) info idx found
          some (after, t)

  -- The entries that `flush` adds for the kernels with a value.
  abbrev pub kernel_result : AggregateKernel → ResultAttributes → List Entry
  kernel_result k result =
      if k.count == 0
      then []
      else immediate_entry result.min_attr (make_variant_from_double k.minimum)
        ∷ immediate_entry result.max_attr (make_variant_from_double k.maximum)
        ∷ immediate_entry result.sum_attr (make_variant_from_double k.sum)
        ∷ immediate_entry result.avg_attr
            (make_variant_from_double (d.div k.sum (d.of_int64 (pos k.count))))
        ∷ []

  unfoldable pub kernel_results :
      List AggregateKernel → List ResultAttributes → ℕ → ℕ → Option (List Entry)
  kernel_results kernels results zero i = some []
  kernel_results kernels [] (suc n) i = none
  kernel_results kernels (result ∷ results) (suc n) i = do
    k ← get_elem? kernels i
    rest ← kernel_results kernels results n (i + 1)
    some (kernel_result k result ++ rest)

  -- The record that is written for an entry, the `num_written`-th one.
  unfoldable pub flush_entry :
      AttributeInfo → AggregationDb → ℕ → AggregateEntry → Option (List Entry)
  unfolding key_view kernel_results make_variant_from_uint
  flush_entry info db num_written entry = do
    key ← key_view db.keyents entry
    results ← kernel_results db.kernels info.result_attrs entry.num_kernels entry.kernels_idx
    some (
        key
        ++ results
        ++ (immediate_entry info.count_attr (make_variant_from_uint entry.count)
            ∷ immediate_entry info.slot_attr (make_variant_from_uint num_written)
            ∷ []))

  -- The records that `flush` writes, in order, from the `num_written`-th on.
  unfoldable pub flush_entries :
      AttributeInfo → AggregationDb → List AggregateEntry → ℕ → Option (List (List Entry))
  unfolding flush_entry
  flush_entries info db [] num_written = some []
  flush_entries info db (entry ∷ entries) num_written =
      if entry.count == 0 then flush_entries info db entries num_written else do
        rec ← flush_entry info db num_written entry
        recs ← flush_entries info db entries (num_written + 1)
        some (rec ∷ recs)

  unfoldable pub flush : AttributeInfo → AggregationDb → Option (List (List Entry))
  unfolding flush_entries
  flush info db = flush_entries info db db.entries 0
