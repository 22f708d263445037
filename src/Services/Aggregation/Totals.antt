-- ===== src/Services/Aggregation/Totals.antt =====
-- src/services/aggregate/AggregationDB.cpp: `process_snapshot` over a sequence of snapshots.
use caliper_msg_pattern.Prelude.{
  ℕ, suc, ◌+◌, ◌%◌, ◌<◌, min, ◌≡◌, refl, inl, inr, arith, Bool, not, ◌&&◌, Option, some, List, [],
  ◌∷◌, length, get_elem?-some, get_elem?-lt, length-append, Bool-cases, ◌>>=◌,
}
use caliper_msg_pattern.Common.Variant.Types.{Memory}
use caliper_msg_pattern.Common.Variant.Convert.{DoubleOps}
use caliper_msg_pattern.Common.Entry.{Entry}
use caliper_msg_pattern.Services.Aggregation.{
  AggregationDb, ChainEnd, at, missing, hashmap_size, must_skip, create_or_skip, create_entry,
  new_entry, find_or_create_entry,
}
use caliper_msg_pattern.Services.Aggregation.Process.{AttributeInfo, CaliperAccess, extract_key}
use caliper_msg_pattern.Services.Aggregation.Update.{update_values, process_snapshot}
use caliper_msg_pattern.Services.Aggregation.Counts.{
  total_count, total_count-append, Recounted-at, update_kernels-runs,
}
use caliper_msg_pattern.Services.Aggregation.Invariant.{IsDb, create_entry-IsDb}
use caliper_msg_pattern.Services.Aggregation.Find.{SearchEnds, search_chain-Ends}

module _ (d : DoubleOps) (rec : List Entry) (info : AttributeInfo) (db : AggregationDb) where
  -- One more in the counts, on a database that stays well formed.
  update_values-counts :
      IsDb db
      → (idx : ℕ) → idx < length db.entries
      → (after : AggregationDb) × (update_values d rec info idx db ≡ some after)
        × IsDb after
        × (total_count after.entries ≡ total_count db.entries + 1)
  unfolding update_values
  update_values-counts valid idx lt =
      let (entry, got) = get_elem?-some db.entries idx lt in
      let r = Recounted-at db.entries idx lt in
      let (ks, run, size) =
        update_kernels-runs d rec info.aggr_attrs (min entry.num_kernels (length info.aggr_attrs))
          entry.kernels_idx db.kernels (omega arith)
          (omega (arith, valid.kernel_ranges idx entry got)) in
      (
        record db { entries = r.changed; kernels = ks },
        simp (got, r.runs, run),
        record {
          first = omega (arith, valid.first, r.same_length);
          heads = λ h. omega (arith, valid.heads h, r.same_length);
          links =
              λ i f g. let (e, k, same) = r.same i f g in omega (arith, valid.links i e k, same);
          ranges = λ i f g.
              let (e, k, same) = r.same (suc i) f g in omega (arith, valid.ranges i e k, same);
          kernel_ranges = λ i f g.
              let (e, k, same) = r.same i f g in
              omega (arith, valid.kernel_ranges i e k, same, size);
        },
        r.total,
      )

module _ (grow : ℕ → ℕ → ℕ) (m : Memory) (db : AggregationDb) (key : List Entry) (n : ℕ) where
  -- The entry that is found or made, on a well-formed database with the counts as they were.
  abbrev FoundWith : ℕ → Bool → Type 0
  FoundWith hash can_alloc =
      (idx : ℕ) × (after : AggregationDb) × (find_or_create_entry grow m db key hash n can_alloc
        ≡ some (idx, after))
      × IsDb after
      × (idx < length after.entries)
      × (total_count after.entries ≡ total_count db.entries)

  module _ (h c : ℕ) where
    length-created : length db.entries < length (create_entry grow db key h n c).entries
    unfolding create_entry
    length-created = omega (arith, length-append db.entries (new_entry db h n (length key) ∷ []))

    total-created : total_count (create_entry grow db key h n c).entries ≡ total_count db.entries
    unfolding create_entry
    total-created =
        omega (arith, total_count-append db.entries (new_entry db h n (length key) ∷ []))

  create_or_skip-counts :
      (h : ℕ) (can_alloc : Bool) (found : ChainEnd)
      → IsDb db
      → SearchEnds m db key (db.hashmap h) found
      → IsDb (create_or_skip grow db key h n can_alloc found).1
        × ((create_or_skip grow db key h n can_alloc found).0
            < length (create_or_skip grow db key h n can_alloc found).1.entries)
        × (total_count (create_or_skip grow db key h n can_alloc found).1.entries
            ≡ total_count db.entries)
  create_or_skip-counts h can_alloc (at i) valid (p, (e, g, k)) =
      (valid, get_elem?-lt db.entries i e g, refl)
  create_or_skip-counts h can_alloc (missing c) valid ends =
      elim (Bool-cases (not can_alloc && must_skip db n (length key))) [
        | inl skips ↦ rw skips (valid, valid.first, refl)
        | inr fits ↦
            rw fits
              (create_entry-IsDb grow db valid key h n c, length-created h c, total-created h c)
      ]

  find_or_create_entry-counts : (hash : ℕ) (can_alloc : Bool) → IsDb db → FoundWith hash can_alloc
  unfolding find_or_create_entry
  find_or_create_entry-counts hash can_alloc valid =
      let h = hash % hashmap_size in
      let (r, run, ends) =
        search_chain-Ends m db key valid (length db.entries) (db.hashmap h) 0
          (omega (arith, valid.heads h)) (valid.heads h) in
      let (ok, lt, same) = create_or_skip-counts h can_alloc r valid ends in
      (
        (create_or_skip grow db key h n can_alloc r).0,
        (create_or_skip grow db key h n can_alloc r).1,
        rw run refl,
        ok,
        lt,
        same,
      )

abbrev pub number_nonempty : List (List Entry) → ℕ
number_nonempty [] = 0
number_nonempty ([] ∷ recs) = number_nonempty recs
number_nonempty ((e ∷ es) ∷ recs) = 1 + number_nonempty recs

number_nonempty-cons :
    (rec : List Entry) (recs : List (List Entry))
    → number_nonempty (rec ∷ recs) ≡ number_nonempty (rec ∷ []) + number_nonempty recs
number_nonempty-cons [] recs = omega arith
number_nonempty-cons (e ∷ es) recs = omega arith

module _ {T : Type 0} (d : DoubleOps) (c : CaliperAccess T) (grow : ℕ → ℕ → ℕ) (m : Memory)
    (info : AttributeInfo) where
  -- Snapshots one after the other.
  unfoldable pub process_snapshots :
      T → List (List Entry) → AggregationDb → Option (AggregationDb × T)
  unfolding process_snapshot
  process_snapshots s [] db = some (db, s)
  process_snapshots s (rec ∷ recs) db = do
    (after, t) ← process_snapshot d c grow m s rec info db
    process_snapshots t recs after

  abbrev Processed : T → List Entry → AggregationDb → Type 0
  Processed s rec db =
      (after : AggregationDb) × (t : T) × (process_snapshot d c grow m s rec info db
        ≡ some (after, t))
      × IsDb after
      × (total_count after.entries ≡ total_count db.entries + number_nonempty (rec ∷ []))

  process_snapshot-counts :
      (s : T) (rec : List Entry) (db : AggregationDb) → IsDb db → Processed s rec db
  unfolding process_snapshot
  process_snapshot-counts s [] db valid = (db, s, refl, valid, omega arith)
  process_snapshot-counts s (e ∷ es) db valid =
      let key = (extract_key c d s (e ∷ es) info).0 in
      let t = (extract_key c d s (e ∷ es) info).1 in
      let (idx, found, run, ok, lt, same) =
        find_or_create_entry-counts grow m db key.builder.content (length info.aggr_attrs) key.hash
          (not (c.is_signal t)) valid in
      let (after, step, fine, total) = update_values-counts d (e ∷ es) info found ok idx lt in
      (after, t, simp (run, step), fine, omega (arith, total, same))

  -- From a well-formed database, whatever the snapshots: processing them ends with no access out
  -- of range, on a well-formed database, and each snapshot that is not empty is counted exactly
  -- once, be it in the entry for skipped records.
  pub process_snapshots-counts :
      (recs : List (List Entry)) (s : T) (db : AggregationDb)
      → IsDb db
      → (after : AggregationDb) × (t : T) × (process_snapshots s recs db ≡ some (after, t))
        × IsDb after
        × (total_count after.entries ≡ total_count db.entries + number_nonempty recs)
  unfolding process_snapshots
  process_snapshots-counts [] s db valid = (db, s, refl, valid, omega arith)
  process_snapshots-counts (rec ∷ recs) s db valid =
      let (mid, t, run, ok, total) = process_snapshot-counts s rec db valid in
      let (after, u, rest, fine, more) = process_snapshots-counts recs t mid ok in
      (after, u, rw run rest, fine, omega (arith, more, total, number_nonempty-cons rec recs))
