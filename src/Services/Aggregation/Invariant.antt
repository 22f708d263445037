-- ===== src/Services/Aggregation/Invariant.antt =====
-- src/services/aggregate/AggregationDB.cpp: well-formed databases, and the chains of their entries.
use caliper_msg_pattern.Prelude.{
  ℕ, zero, suc, ◌+◌, ◌-◌, ◌%◌, ◌≤◌, ◌<◌, ◌≡◌, refl, sym, ap, ◌∙◌, inl, inr, arith, some, List, [],
  ◌∷◌, ◌++◌, ◌==◌, length, get_elem?, get_elem?-append, get_elem?-last, get_elem?-push,
  range-within, length-append, Bool-cases, ==_iff, ==_refl, range-last,
}
use mathlib.Core.Path.{subst}
use caliper_msg_pattern.Common.Entry.{Entry}
use caliper_msg_pattern.Services.Aggregation.{
  AggregateEntry, AggregationDb, hashmap_size, key_of, create_entry, new_entry, set_head,
  fresh_kernels,
}

-- The first entry, heads of chains in range, links that go to an earlier entry, and ranges of
-- keys and kernels inside their vectors.
pub record IsDb (db : AggregationDb) : Type 0 where
  pub first : 0 < length db.entries
  pub heads : (h : ℕ) → db.hashmap h < length db.entries
  pub links :
      (i : ℕ) (e : AggregateEntry) → get_elem? db.entries i ≡ some e → e.next_entry_idx ≤ i - 1
  pub ranges :
      (i : ℕ) (e : AggregateEntry)
      → get_elem? db.entries (suc i) ≡ some e
      → e.key_idx + e.key_len ≤ length db.keyents
  pub kernel_ranges :
      (i : ℕ) (e : AggregateEntry)
      → get_elem? db.entries i ≡ some e
      → e.kernels_idx + e.num_kernels ≤ length db.kernels

-- `j` is on the chain that starts at the first index.
pub data OnChain (es : List AggregateEntry) (j : ℕ) : ℕ → Type 0 where
  here : 0 < j → OnChain es j j
  there :
      (i : ℕ) (e : AggregateEntry)
      → 0 < i
      → get_elem? es i ≡ some e
      → OnChain es j e.next_entry_idx
      → OnChain es j i

-- Every entry behind the first is on the chain of its key's hash.
abbrev pub IsHashed : (List Entry → ℕ) → AggregationDb → Type 0
IsHashed hash_of db =
    (j : ℕ) (e : AggregateEntry)
    → get_elem? db.entries (suc j) ≡ some e
    → OnChain db.entries (suc j) (db.hashmap (hash_of (key_of db.keyents e) % hashmap_size))

OnChain-append :
    (es more : List AggregateEntry) (j i : ℕ) → OnChain es j i → OnChain (es ++ more) j i
OnChain-append es more j i (here p) = here p
OnChain-append es more j i (there k e p g c) =
    there k e p (get_elem?-append es more k e g) (OnChain-append es more j e.next_entry_idx c)

length-fresh_kernels : (n : ℕ) → length (fresh_kernels n) ≡ n
length-fresh_kernels zero = refl
length-fresh_kernels (suc n) = omega (arith, length-fresh_kernels n)

module _ (grow : ℕ → ℕ → ℕ) (db : AggregationDb) (valid : IsDb db) (key : List Entry) where
  -- The keys of the entries behind the first are what they were.
  pub key-kept :
      (i : ℕ) (e : AggregateEntry)
      → get_elem? db.entries (suc i) ≡ some e
      → key_of (db.keyents ++ key) e ≡ key_of db.keyents e
  key-kept i e g = range-within e.key_idx e.key_len db.keyents key (valid.ranges i e g)

  module _ (h n count : ℕ) where
    abbrev created : AggregateEntry
    created = new_entry db h n (length key)

    key-created : (e : AggregateEntry) → created ≡ e → key_of (db.keyents ++ key) e ≡ key
    key-created e same =
        sym (ap (λ x. key_of (db.keyents ++ key) x) same) ∙ range-last db.keyents key

    link :
        (i : ℕ) (e : AggregateEntry)
        → get_elem? (db.entries ++ (created ∷ [])) i ≡ some e
        → e.next_entry_idx ≤ i - 1
    link i e g = elim (get_elem?-push db.entries created i e g) [
      | inl k ↦ valid.links i e k
      | inr k ↦ omega (arith, k.0, ap (λ x. x.next_entry_idx) k.1, valid.heads h)
    ]

    range :
        (i : ℕ) (e : AggregateEntry)
        → get_elem? (db.entries ++ (created ∷ [])) (suc i) ≡ some e
        → e.key_idx + e.key_len ≤ length (db.keyents ++ key)
    range i e g = elim (get_elem?-push db.entries created (suc i) e g) [
      | inl k ↦ omega (arith, valid.ranges i e k, length-append db.keyents key)
      | inr k ↦
          omega
            (arith, ap (λ x. x.key_idx) k.1, ap (λ x. x.key_len) k.1, length-append db.keyents key)
    ]

    kernel_range :
        (i : ℕ) (e : AggregateEntry)
        → get_elem? (db.entries ++ (created ∷ [])) i ≡ some e
        → e.kernels_idx + e.num_kernels ≤ length (db.kernels ++ fresh_kernels n)
    kernel_range i e g = elim (get_elem?-push db.entries created i e g) [
      | inl k ↦ omega (arith, valid.kernel_ranges i e k, length-append db.kernels (fresh_kernels n))
      | inr k ↦ omega (
        arith,
        ap (λ x. x.kernels_idx) k.1,
        ap (λ x. x.num_kernels) k.1,
        length-append db.kernels (fresh_kernels n),
        length-fresh_kernels n,
      )
    ]

    head : (x : ℕ) → set_head db.hashmap h (length db.entries) x < length db.entries + 1
    head x = ground (arith, valid.heads x)

    pub create_entry-IsDb : IsDb (create_entry grow db key h n count)
    unfolding create_entry
    create_entry-IsDb = record {
      first = omega (arith, length-append db.entries (created ∷ []));
      heads = λ x. omega (arith, head x, length-append db.entries (created ∷ []));
      links = link;
      ranges = range;
      kernel_ranges = kernel_range;
    }

    -- Every chain is kept, one of them behind the new entry.
    chain :
        (j x : ℕ)
        → OnChain db.entries j (db.hashmap x)
        → OnChain (db.entries ++ (created ∷ [])) j (set_head db.hashmap h (length db.entries) x)
    chain j x c = elim (Bool-cases (x == h)) [
      | inl same ↦ rw same (
          there (length db.entries) created valid.first (get_elem?-last db.entries created) (
            OnChain-append db.entries (created ∷ []) j (db.hashmap h)
              (subst (λ y. OnChain db.entries j (db.hashmap y)) ((==_iff x h).0 same) c)))
      | inr other ↦ rw other (OnChain-append db.entries (created ∷ []) j (db.hashmap x) c)
    ]

    -- The new entry is the head of its chain.
    at_head :
        (j : ℕ)
        → j ≡ length db.entries
        → OnChain (db.entries ++ (created ∷ [])) j (set_head db.hashmap h (length db.entries) h)
    at_head j e = rw (==_refl h) (rw e (here valid.first))

  module _ (hash_of : List Entry → ℕ) (n count : ℕ) where
    pub create_entry-IsHashed :
        IsHashed hash_of db
        → IsHashed hash_of (create_entry grow db key (hash_of key % hashmap_size) n count)
    unfolding create_entry
    create_entry-IsHashed hashed j e g = elim (get_elem?-push db.entries _ (suc j) e g) [
      | inl k ↦
          rw (key-kept j e k) (chain (hash_of key % hashmap_size) n count (suc j) _ (hashed j e k))
      | inr k ↦
          rw (key-created (hash_of key % hashmap_size) n count e k.1)
            (at_head (hash_of key % hashmap_size) n count (suc j) k.0)
    ]
