-- ===== src/Services/Aggregation.antt =====
-- src/services/aggregate/AggregationDB.cpp, built without CALIPER_ENABLE_HISTOGRAMS: the state, the
-- kernels and the search for an entry. A vector is the list of its elements with its capacity; how
-- a vector grows is a parameter. The entry that a function returns by pointer is its index.
pub mod Process
pub mod Update
pub mod Invariant
pub mod Find
pub mod Locate
pub mod Counts
pub mod Totals
pub mod Clear
pub mod Flush
mod Tests
use caliper_msg_pattern.Prelude.{
  ℕ, zero, suc, ◌+◌, ◌-◌, ◌*◌, ◌%◌, ◌^◌, max, Bool, true, false, ◌&&◌, ◌||◌, not, ◌>>=◌, Option,
  none, some, List, [], ◌∷◌, ◌++◌, if◌then◌else◌, leb, ◌==◌, length, get_elem?, take, drop,
}
use caliper_msg_pattern.Common.Variant.Types.{CaliVariant, Memory, make_empty_variant}
use caliper_msg_pattern.Common.Variant.Convert.{DoubleOps}
use caliper_msg_pattern.Common.Entry.{NodeData, NodePtr, Entry, inv_id, node_entry}
use caliper_msg_pattern.Common.Snapshot.{entry_eq}

-- `AggregateKernel`: doubles are their bit patterns, as in Common/Variant.
pub record AggregateKernel : Type 0 where
  pub minimum : ℕ
  pub maximum : ℕ
  pub sum : ℕ
  pub count : ℕ

-- `std::numeric_limits<double>::max()` and `min()`, the largest and the least positive double.
abbrev pub double_max : ℕ
double_max = 2047 * 2 ^ 52 - 1

abbrev pub double_min : ℕ
double_min = 2 ^ 52

abbrev pub new_kernel : AggregateKernel
new_kernel = record { minimum = double_max; maximum = double_min; sum = 0; count = 0 }

-- `AggregateKernel::update`
unfoldable pub update_kernel : DoubleOps → AggregateKernel → ℕ → AggregateKernel
update_kernel d k val = record {
  minimum = if d.less val k.minimum then val else k.minimum;
  maximum = if d.less k.maximum val then val else k.maximum;
  sum = d.plus k.sum val;
  count = k.count + 1;
}

pub record AggregateEntry : Type 0 where
  pub count : ℕ
  pub key_idx : ℕ
  pub key_len : ℕ
  pub kernels_idx : ℕ
  pub num_kernels : ℕ
  pub next_entry_idx : ℕ

unfoldable pub key_equal : Memory → List Entry → List Entry → Bool
unfolding entry_eq
key_equal m [] [] = true
key_equal m [] (f ∷ fs) = false
key_equal m (e ∷ es) [] = false
key_equal m (e ∷ es) (f ∷ fs) = entry_eq m e f && key_equal m es fs

-- `AggregationDBImpl`
pub record AggregationDb : Type 0 where
  pub max_hash_len : ℕ
  pub entries : List AggregateEntry
  pub keyents : List Entry
  pub kernels : List AggregateKernel
  pub hashmap : ℕ → ℕ
  pub entries_capacity : ℕ
  pub keyents_capacity : ℕ
  pub kernels_capacity : ℕ

-- `m_hashmap.size()`
abbrev pub hashmap_size : ℕ
hashmap_size = 8192

-- The key of an entry, whose elements are all there.
abbrev pub key_of : List Entry → AggregateEntry → List Entry
key_of keyents e = take e.key_len (drop e.key_idx keyents)

-- `SnapshotView(e->key_len, &m_keyents[e->key_idx])`, where `none` is a read out of range.
unfoldable pub key_view : List Entry → AggregateEntry → Option (List Entry)
key_view keyents e =
    if leb (e.key_idx + e.key_len) (length keyents) then some (key_of keyents e) else none

-- What the search along a chain ends with: the index of an entry, or the length of the chain.
pub data ChainEnd : Type 0 where
  at : ℕ → ChainEnd
  missing : ℕ → ChainEnd

module _ (m : Memory) (db : AggregationDb) (key : List Entry) where
  abbrev pub search_at : ℕ → (ℕ → Option ChainEnd) → Option AggregateEntry → Option ChainEnd
  search_at idx next none = none
  search_at idx next (some e) = do
    k ← key_view db.keyents e
    if key_equal m key k then some (at idx) else next e.next_entry_idx

  -- The loop over a chain from `idx`, with fuel; `none` is an index out of range or no fuel.
  unfoldable pub search_chain : ℕ → ℕ → ℕ → Option ChainEnd
  unfolding key_equal key_view
  search_chain zero idx count = if idx == 0 then some (missing count) else none
  search_chain (suc fuel) idx count =
      if idx == 0
      then some (missing count)
      else search_at idx (λ next. search_chain fuel next (count + 1)) (get_elem? db.entries idx)

-- The capacity of a vector with `n` elements: it grows only where they do not fit.
abbrev pub capacity_for : (ℕ → ℕ → ℕ) → ℕ → ℕ → ℕ
capacity_for grow capacity n = if leb n capacity then capacity else grow capacity n

abbrev pub fresh_kernels : ℕ → List AggregateKernel
fresh_kernels zero = []
fresh_kernels (suc n) = new_kernel ∷ fresh_kernels n

abbrev pub set_head : (ℕ → ℕ) → ℕ → ℕ → ℕ → ℕ
set_head hashmap h idx x = if x == h then idx else hashmap x

-- The tests without allocation: whether the record goes to the entry for skipped records.
abbrev pub must_skip : AggregationDb → ℕ → ℕ → Bool
must_skip db num_aggr_attrs key_size =
    leb db.kernels_capacity (length db.kernels + num_aggr_attrs)
    || leb db.keyents_capacity (length db.keyents + key_size)
    || leb db.entries_capacity (length db.entries + 1)

abbrev pub new_entry : AggregationDb → ℕ → ℕ → ℕ → AggregateEntry
new_entry db h num_aggr_attrs key_size = record {
  count = 0;
  key_idx = length db.keyents;
  key_len = key_size;
  kernels_idx = length db.kernels;
  num_kernels = num_aggr_attrs;
  next_entry_idx = db.hashmap h;
}

module _ (grow : ℕ → ℕ → ℕ) where
  -- The end of `find_or_create_entry`: the new entry, at the head of its chain.
  unfoldable pub create_entry : AggregationDb → List Entry → ℕ → ℕ → ℕ → AggregationDb
  create_entry db key h num_aggr_attrs count = record {
    max_hash_len = max db.max_hash_len (count + 1);
    entries = db.entries ++ (new_entry db h num_aggr_attrs (length key) ∷ []);
    keyents = db.keyents ++ key;
    kernels = db.kernels ++ fresh_kernels num_aggr_attrs;
    hashmap = set_head db.hashmap h (length db.entries);
    entries_capacity = capacity_for grow db.entries_capacity (length db.entries + 1);
    keyents_capacity = capacity_for grow db.keyents_capacity (length db.keyents + length key);
    kernels_capacity = capacity_for grow db.kernels_capacity (length db.kernels + num_aggr_attrs);
  }

  abbrev pub create_or_skip :
      AggregationDb → List Entry → ℕ → ℕ → Bool → ChainEnd → ℕ × AggregationDb
  create_or_skip db key h num_aggr_attrs can_alloc (at idx) = (idx, db)
  create_or_skip db key h num_aggr_attrs can_alloc (missing count) =
      if not can_alloc && must_skip db num_aggr_attrs (length key)
      then (0, db)
      else (length db.entries, create_entry db key h num_aggr_attrs count)

  -- The index of the entry for the key, and the database with it.
  unfoldable pub find_or_create_entry :
      Memory → AggregationDb → List Entry → ℕ → ℕ → Bool → Option (ℕ × AggregationDb)
  unfolding search_chain create_entry
  find_or_create_entry m db key hash num_aggr_attrs can_alloc =
      let h = hash % hashmap_size in
      do
        found ← search_chain m db key (length db.entries) (db.hashmap h) 0
        some (create_or_skip db key h num_aggr_attrs can_alloc found)

abbrev pub clear_first : List AggregateEntry → List AggregateEntry
clear_first [] = []
clear_first (e ∷ es) = record e { count = 0 } ∷ es

-- `clear`
unfoldable pub clear : AggregationDb → AggregationDb
clear db = record db {
  entries = clear_first (take 1 db.entries);
  keyents = [];
  kernels = [];
  hashmap = λ x. 0;
}

-- The constructor, with the node of the attribute for skipped records.
abbrev pub new_db : ℕ → ℕ → ℕ → NodeData → NodePtr → AggregationDb
new_db entries_capacity keyents_capacity kernels_capacity n up = record {
  max_hash_len = 0;
  entries =
      record {
        count = 0;
        key_idx = 0;
        key_len = 1;
        kernels_idx = 0;
        num_kernels = 0;
        next_entry_idx = 0;
      }
      ∷ [];
  keyents = node_entry n up ∷ [];
  kernels = [];
  hashmap = λ x. 0;
  entries_capacity = entries_capacity;
  keyents_capacity = keyents_capacity;
  kernels_capacity = kernels_capacity;
}
