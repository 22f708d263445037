-- ===== src/Services/Aggregation/Tests.antt =====
-- The aggregation database on concrete snapshots.
use caliper_msg_pattern.Prelude.{
  ℕ, ◌+◌, ◌≡◌, refl, arith, true, false, some, List, [], ◌∷◌, length, get_elem?, ltb,
}
use caliper_msg_pattern.Prelude.Int.{pos}
use caliper_msg_pattern.Common.Variant.Types.{Memory, make_empty_variant}
use caliper_msg_pattern.Common.Variant.Convert.{DoubleOps}
use caliper_msg_pattern.Common.Entry.{NodeData, Attribute, Entry}
use caliper_msg_pattern.Services.Aggregation.{
  AggregateEntry, AggregationDb, new_db, new_kernel, double_min, key_of, clear,
  find_or_create_entry,
}
use caliper_msg_pattern.Services.Aggregation.Process.{CaliperAccess, AttributeInfo}
use caliper_msg_pattern.Services.Aggregation.Invariant.{IsDb}
use caliper_msg_pattern.Services.Aggregation.Locate.{Located, find_or_create_entry-Located}
use caliper_msg_pattern.Services.Aggregation.Counts.{total_count}
use caliper_msg_pattern.Services.Aggregation.Totals.{
  number_nonempty, process_snapshots, process_snapshots-counts,
}
use caliper_msg_pattern.Services.Aggregation.Update.{flush}
use caliper_msg_pattern.Services.Aggregation.Flush.{number_counted, flush-number_counted}
use caliper_msg_pattern.Services.Aggregation.Clear.{
  new_db-IsDb, new_db-IsHashed, clear_reuses_key, update_all, maximum_stuck,
}

abbrev doubles : DoubleOps
doubles = record {
  sub = λ x y. 0;
  plus = λ x y. x;
  mul = λ x y. x;
  div = λ x y. x;
  less = λ x y. ltb x y;
  to_int = λ x. pos 0;
  to_int64 = λ x. pos 0;
  to_uint64 = λ x. 0;
  of_int64 = λ i. 0;
  of_uint64 = λ n. 0;
}

-- Vectors that grow to what they need.
abbrev grow : ℕ → ℕ → ℕ
grow capacity n = n

abbrev bytes : Memory
bytes = λ a. 0

abbrev skipped_node : NodeData
skipped_node = record { id = 30; attribute = 12; content = make_empty_variant }

abbrev start : AggregationDb
start = new_db 4096 16384 16384 skipped_node []

abbrev node : NodeData
node = record { id = 31; attribute = 13; content = make_empty_variant }

abbrev region : Entry
region = record { node = node ∷ []; value = make_empty_variant }

abbrev no_hash : List Entry → ℕ
no_hash key = 0

abbrev attribute : Attribute
attribute = record { id = 20; attribute = 8; content = make_empty_variant } ∷ []

abbrev caliper : CaliperAccess (Unit {0})
caliper = record {
  get_attribute = λ s id. attribute;
  make_tree_entry = λ s nodes parent. (parent, s);
  is_signal = λ s. false;
}

abbrev info : AttributeInfo
info = record {
  ref_key_attrs = [];
  imm_key_attrs = [];
  aggr_attrs = attribute ∷ [];
  result_attrs = [];
  count_attr = attribute;
  slot_attr = attribute;
  implicit_grouping = true;
  group_nested = false;
}

find_or_create_entry-Located_example : Located grow bytes no_hash start (region ∷ []) 1 true
find_or_create_entry-Located_example =
    find_or_create_entry-Located grow bytes no_hash start (region ∷ []) 1
      (new_db-IsDb 4096 16384 16384 skipped_node [])
      (new_db-IsHashed 4096 16384 16384 skipped_node [] no_hash) (λ k e. refl) true

process_snapshots-counts_example :
    (after : AggregationDb) × (t : Unit {0}) × (process_snapshots doubles caliper grow bytes info tt
        ((region ∷ []) ∷ [] ∷ (region ∷ []) ∷ [])
        start
      ≡ some (after, t))
    × IsDb after
    × (total_count after.entries
        ≡ total_count start.entries + number_nonempty ((region ∷ []) ∷ [] ∷ (region ∷ []) ∷ []))
process_snapshots-counts_example =
    process_snapshots-counts doubles caliper grow bytes info
      ((region ∷ []) ∷ [] ∷ (region ∷ []) ∷ []) tt start
      (new_db-IsDb 4096 16384 16384 skipped_node [])

abbrev skipped_entry : AggregateEntry
skipped_entry = record {
  count = 0;
  key_idx = 0;
  key_len = 1;
  kernels_idx = 0;
  num_kernels = 0;
  next_entry_idx = 0;
}

clear_reuses_key_example :
    (after : AggregationDb) × (find_or_create_entry grow bytes (clear start) (region ∷ []) 31 1 true
      ≡ some (1, after))
    × (get_elem? after.entries 0 ≡ some skipped_entry)
    × (key_of after.keyents skipped_entry ≡ region ∷ [])
clear_reuses_key_example =
    clear_reuses_key grow bytes start skipped_entry region [] 31 1 refl refl refl

maximum_stuck_example : (update_all doubles new_kernel (7 ∷ 9 ∷ [])).maximum ≡ double_min
maximum_stuck_example = maximum_stuck doubles (7 ∷ 9 ∷ []) (refl, (refl, tt))

-- A database with one counted entry, with a kernel.
abbrev one_counted : AggregationDb
one_counted = record start {
  entries =
      skipped_entry
      ∷ record {
        count = 2;
        key_idx = 0;
        key_len = 1;
        kernels_idx = 0;
        num_kernels = 1;
        next_entry_idx = 0;
      }
      ∷ [];
  kernels = update_all doubles new_kernel (7 ∷ []) ∷ [];
}

abbrev with_results : AttributeInfo
with_results = record info {
  result_attrs =
      record {
        min_attr = attribute;
        max_attr = attribute;
        sum_attr = attribute;
        avg_attr = attribute;
      }
      ∷ [];
}

flush-number_counted_example :
    (recs : List (List Entry)) × (flush doubles with_results one_counted ≡ some recs)
    × (length recs ≡ number_counted one_counted.entries)
flush-number_counted_example =
    flush-number_counted doubles with_results one_counted
      ((omega arith, omega arith, omega arith), ((omega arith, omega arith, omega arith), tt))
