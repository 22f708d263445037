-- ===== src/Services/Aggregation/Flush.antt =====
-- `flush` of src/services/aggregate/AggregationDB.cpp on a well-formed database.
use caliper_msg_pattern.Prelude.{
  ℕ, zero, suc, ◌+◌, ◌≤◌, ◌≡◌, refl, inl, inr, arith, some, List, [], ◌∷◌, ◌++◌, if◌then◌else◌,
  ◌==◌, length, get_elem?-some, All, Bool-cases,
}
use caliper_msg_pattern.Common.Variant.Types.{make_variant_from_uint}
use caliper_msg_pattern.Common.Variant.Convert.{DoubleOps}
use caliper_msg_pattern.Common.Entry.{Entry, immediate_entry}
use caliper_msg_pattern.Services.Aggregation.{AggregateEntry, AggregationDb, key_of}
use caliper_msg_pattern.Services.Aggregation.Find.{key_view-in}
use caliper_msg_pattern.Services.Aggregation.Process.{ResultAttributes, AttributeInfo}
use caliper_msg_pattern.Services.Aggregation.Update.{
  kernel_result, kernel_results, flush_entry, flush_entries, flush,
}

-- The number of entries that counted a snapshot.
abbrev pub number_counted : List AggregateEntry → ℕ
number_counted [] = 0
number_counted (e ∷ es) = (if e.count == 0 then 0 else 1) + number_counted es

module _ (d : DoubleOps) (info : AttributeInfo) (db : AggregationDb) where
  -- The key of an entry and its kernels are there, and the kernels have attributes for their
  -- results.
  abbrev pub HasResults : AggregateEntry → Type 0
  HasResults e =
      (e.key_idx + e.key_len ≤ length db.keyents)
      × (e.kernels_idx + e.num_kernels ≤ length db.kernels)
      × (e.num_kernels ≤ length info.result_attrs)

  results-run :
      (results : List ResultAttributes) (n i : ℕ)
      → n ≤ length results
      → i + n ≤ length db.kernels
      → (es : List Entry) × (kernel_results d db.kernels results n i ≡ some es)
  unfolding kernel_results
  results-run results zero i le within = ([], refl)
  results-run [] (suc n) i le within = absurd (omega (arith, le))
  results-run (result ∷ results) (suc n) i le within =
      let (k, got) = get_elem?-some db.kernels i (omega (arith, within)) in
      let (rest, run) = results-run results n (i + 1) (omega (arith, le)) (omega (arith, within)) in
      (kernel_result d k result ++ rest, simp (got, run))

  entry-run :
      (number : ℕ) (e : AggregateEntry)
      → HasResults e
      → (rec : List Entry) × (flush_entry d info db number e ≡ some rec)
  unfolding flush_entry
  entry-run number e (key, within, le) =
      let (es, run) = results-run info.result_attrs e.num_kernels e.kernels_idx le within in
      (
        key_of db.keyents e
            ++ es
            ++ (immediate_entry info.count_attr (make_variant_from_uint e.count)
                ∷ immediate_entry info.slot_attr (make_variant_from_uint number)
                ∷ []),
        rw (key_view-in db.keyents e key, run) refl,
      )

  flush_entries-run :
      (es : List AggregateEntry) (number : ℕ)
      → All HasResults es
      → (recs : List (List Entry)) × (flush_entries d info db es number ≡ some recs)
        × (length recs ≡ number_counted es)
  unfolding flush_entries
  flush_entries-run [] number h = ([], refl, refl)
  flush_entries-run (e ∷ es) number (ok, h) = elim (Bool-cases (e.count == 0)) [
    | inl idle ↦
        let (recs, run, size) = flush_entries-run es number h in
        (recs, simp (idle, run), ground (arith, idle, size))
    | inr counted ↦
        let (rec, one) = entry-run number e ok in
        let (recs, run, size) = flush_entries-run es (number + 1) h in
        (rec ∷ recs, simp (counted, one, run), ground (arith, counted, size))
  ]

  -- On a database whose entries' keys lie in the key buffer, and whose entries' kernels are there and
  -- have attributes for their results, `flush`
  -- reads nothing out of range, and writes one record for each entry that counted a snapshot.
  pub flush-number_counted :
      All HasResults db.entries
      → (recs : List (List Entry)) × (flush d info db ≡ some recs)
        × (length recs ≡ number_counted db.entries)
  unfolding flush
  flush-number_counted h = flush_entries-run db.entries 0 h
