-- ===== src/Reader/Aggregator/Entries.antt =====
-- src/reader/Aggregator.cpp: `make_key`, `hash_key` and `get_aggregation_entry`. The null pointer at
-- the start of `m_entries` is not in the list, so the index `i + 1` is the list's `i`. How kernels
-- are made and what they hold is a parameter, and so is the metadata tree. Locks are left out.
use caliper_msg_pattern.Prelude.{
  ℕ, zero, suc, ◌+◌, ◌%◌, ◌^◌, Option, none, some, List, [], ◌∷◌, ◌++◌, if◌then◌else◌, length,
  get_elem?, ◌>>=◌,
}
use caliper_msg_pattern.Common.Variant.Types.{Memory}
use caliper_msg_pattern.Common.Variant.Convert.{DoubleOps, to_uint}
use caliper_msg_pattern.Common.Entry.{NodePtr, Entry, attribute_id, is_null, is_immediate, entry_at}
use caliper_msg_pattern.Services.Aggregation.{key_equal, set_head}

-- `std::reverse_copy`
abbrev pub reverse_onto : List NodePtr → List NodePtr → List NodePtr
reverse_onto [] acc = acc
reverse_onto (n ∷ nodes) acc = reverse_onto nodes (n ∷ acc)

unfoldable pub make_key : (List NodePtr → NodePtr) → List NodePtr → List Entry → List Entry
make_key make_tree_entry nodes immediates =
    let node = make_tree_entry (reverse_onto nodes []) in
    (if is_null node then [] else entry_at node ∷ []) ++ immediates

abbrev pub hash_entry : DoubleOps → Entry → ℕ
hash_entry d e = attribute_id e.node + (if is_immediate e then (to_uint d e.value).0 else 0)

-- The loop of `hash_key`, on a 64-bit number.
unfoldable pub hash_from : DoubleOps → ℕ → List Entry → ℕ
unfolding to_uint
hash_from d hash [] = hash
hash_from d hash (e ∷ key) = hash_from d ((hash + hash_entry d e) % 2 ^ 64) key

unfoldable pub hash_key : DoubleOps → List Entry → ℕ
unfolding hash_from
hash_key d key = hash_from d 0 key

-- `AggregatorImpl::AggregateEntry`
pub record KeyEntry (K : Type 0) : Type 0 where
  pub key : List Entry
  pub kernels : List K
  pub next_entry_idx : ℕ

pub record KeyTable (K : Type 0) : Type 0 where
  pub entries : List (KeyEntry K)
  pub hashmap : ℕ → ℕ

-- `AggregatorImpl()`, `m_hashmap.size()`
abbrev pub new_table : {K : Type 0} → KeyTable K
new_table = record { entries = []; hashmap = λ h. 0 }

abbrev pub table_size : ℕ
table_size = 4096

-- The new entry at the head of its chain.
unfoldable pub add_key : {K : Type 0} → KeyTable K → List Entry → ℕ → List K → KeyTable K
add_key t key h kernels = record {
  entries =
      t.entries ++ (record { key = key; kernels = kernels; next_entry_idx = t.hashmap h } ∷ []);
  hashmap = set_head t.hashmap h (length t.entries + 1);
}

abbrev pub found_or_added :
    {K : Type 0} → KeyTable K → List Entry → ℕ → List K → Option ℕ → ℕ × KeyTable K
found_or_added t key h kernels (some i) = (i, t)
found_or_added t key h kernels none = (length t.entries, add_key t key h kernels)

module _ {K : Type 0} (m : Memory) where
  abbrev pub key_at :
      (ℕ → Option (Option ℕ)) → List Entry → ℕ → Option (KeyEntry K) → Option (Option ℕ)
  key_at next key i none = none
  key_at next key i (some e) =
      if key_equal m key e.key then some (some i) else next e.next_entry_idx

  -- The loop over a chain, with fuel: the entry that has the key, if there is one. `none` outside
  -- is an index out of range or no fuel.
  unfoldable pub search_keys : List (KeyEntry K) → List Entry → ℕ → ℕ → Option (Option ℕ)
  unfolding key_equal
  search_keys es key fuel zero = some none
  search_keys es key zero (suc i) = none
  search_keys es key (suc fuel) (suc i) =
      key_at (λ next. search_keys es key fuel next) key i (get_elem? es i)

  -- `get_aggregation_entry` for a key: the entry's index and the table.
  unfoldable pub get_aggregation_entry :
      DoubleOps → KeyTable K → List Entry → List K → Option (ℕ × KeyTable K)
  unfolding search_keys add_key hash_key
  get_aggregation_entry d t key kernels =
      let h = hash_key d key % table_size in
      do
        found ← search_keys t.entries key (length t.entries) (t.hashmap h)
        some (found_or_added t key h kernels found)
