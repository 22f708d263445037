-- ===== src/Services/Aggregation/Clear.antt =====
-- src/services/aggregate/AggregationDB.cpp: the constructor and `clear`, and a kernel's maximum.
use caliper_msg_pattern.Prelude.{
  ℕ, zero, suc, ◌+◌, ◌-◌, ◌%◌, ◌≤◌, ◌≡◌, refl, ap, arith, true, false, none, some, List, [], ◌∷◌,
  get_elem?, take, All,
}
use caliper_msg_pattern.Common.Variant.Types.{Memory}
use caliper_msg_pattern.Common.Variant.Convert.{DoubleOps}
use caliper_msg_pattern.Common.Entry.{NodeData, NodePtr, Entry}
use caliper_msg_pattern.Services.Aggregation.{
  AggregateKernel, AggregateEntry, AggregationDb, update_kernel, new_kernel, double_min,
  hashmap_size, key_of, clear_first, clear, new_db, create_entry, find_or_create_entry,
  search_chain,
}
use caliper_msg_pattern.Services.Aggregation.Invariant.{IsDb, IsHashed}

none_in : {x : AggregateEntry} → ¬ (none ≡ some x)
none_in h = cc h

some_injective : (g f : AggregateEntry) → some g ≡ some f → g ≡ f
some_injective g f h = cc h

-- A new database is well formed, and its chains are those of its entries' keys.
module _ (a b k : ℕ) (n : NodeData) (up : NodePtr) where
  new_link :
      (i : ℕ) (e : AggregateEntry)
      → get_elem? (new_db a b k n up).entries i ≡ some e
      → e.next_entry_idx ≤ i - 1
  new_link zero e g = omega (arith, ap (λ x. x.next_entry_idx) (some_injective _ e g))
  new_link (suc i) e g = absurd (none_in g)

  new_kernel_range :
      (i : ℕ) (e : AggregateEntry)
      → get_elem? (new_db a b k n up).entries i ≡ some e
      → e.kernels_idx + e.num_kernels ≤ 0
  new_kernel_range zero e g = omega (
    arith,
    ap (λ x. x.kernels_idx) (some_injective _ e g),
    ap (λ x. x.num_kernels) (some_injective _ e g),
  )
  new_kernel_range (suc i) e g = absurd (none_in g)

  pub new_db-IsDb : IsDb (new_db a b k n up)
  new_db-IsDb = record {
    first = omega arith;
    heads = λ h. omega arith;
    links = new_link;
    ranges = λ i e g. absurd (none_in g);
    kernel_ranges = new_kernel_range;
  }

  pub new_db-IsHashed : (hash_of : List Entry → ℕ) → IsHashed hash_of (new_db a b k n up)
  new_db-IsHashed hash_of j e g = absurd (none_in g)

abbrev recount : AggregateEntry → AggregateEntry
recount f = record f { count = 0 }

abbrev cleared : AggregationDb → List AggregateEntry → AggregationDb
cleared db es = record db { entries = es; keyents = []; kernels = []; hashmap = λ x. 0 }

-- The first entry of a cleared database.
cleared_first :
    (es : List AggregateEntry) (f : AggregateEntry)
    → get_elem? es 0 ≡ some f
    → clear_first (take 1 es) ≡ recount f ∷ []
cleared_first [] f g = absurd (cc g)
cleared_first (e ∷ es) f g = ap (λ x. recount x ∷ []) (some_injective e f g)

clear-cleared :
    (db : AggregationDb) (f : AggregateEntry)
    → get_elem? db.entries 0 ≡ some f
    → clear db ≡ cleared db (recount f ∷ [])
unfolding clear
clear-cleared db f g = ap (cleared db) (cleared_first db.entries f g)

-- After `clear`, on a database whose first entry has its key at the place that the constructor
-- gives it, the first key that is stored takes that place: the entry for skipped records then has
-- the first element of that key as its own key.
pub clear_reuses_key :
    (grow : ℕ → ℕ → ℕ) (m : Memory) (db : AggregationDb) (f : AggregateEntry) (e : Entry)
    (key : List Entry) (hash n : ℕ)
    → get_elem? db.entries 0 ≡ some f
    → f.key_idx ≡ 0
    → f.key_len ≡ 1
    → (after : AggregationDb) × (find_or_create_entry grow m (clear db) (e ∷ key) hash n true
        ≡ some (1, after))
      × (get_elem? after.entries 0 ≡ some (record f { count = 0 }))
      × (key_of after.keyents f ≡ e ∷ [])
unfolding find_or_create_entry create_entry search_chain
clear_reuses_key grow m db f e key hash n g i l = (
  create_entry grow (cleared db (recount f ∷ [])) (e ∷ key) (hash % hashmap_size) n 0,
  rw (clear-cleared db f g) refl,
  refl,
  simp (i, l),
)

-- The values that a kernel is updated with, in order.
abbrev pub update_all : DoubleOps → AggregateKernel → List ℕ → AggregateKernel
update_all d k [] = k
update_all d k (v ∷ vs) = update_all d (update_kernel d k v) vs

stuck_step :
    (d : DoubleOps) (v : ℕ) (k : AggregateKernel)
    → k.maximum ≡ double_min
    → d.less double_min v ≡ false
    → (update_kernel d k v).maximum ≡ double_min
unfolding update_kernel
stuck_step d v k e h = simp (e, h)

stuck :
    (d : DoubleOps) (vs : List ℕ) (k : AggregateKernel)
    → k.maximum ≡ double_min
    → All (λ v. d.less double_min v ≡ false) vs
    → (update_all d k vs).maximum ≡ double_min
stuck d [] k e h = e
stuck d (v ∷ vs) k e h = stuck d vs (update_kernel d k v) (stuck_step d v k e h.0) h.1

-- A new kernel that only sees values not above the least positive double, such as negative ones,
-- reports the least positive double as their maximum.
pub maximum_stuck :
    (d : DoubleOps) (vs : List ℕ)
    → All (λ v. d.less double_min v ≡ false) vs
    → (update_all d new_kernel vs).maximum ≡ double_min
maximum_stuck d vs h = stuck d vs new_kernel refl h
