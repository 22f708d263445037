-- ===== src/Reader/Aggregator/Lookup.antt =====
-- `get_aggregation_entry` of src/reader/Aggregator.cpp on a table of keys.
use caliper_msg_pattern.Prelude.{
  ℕ, suc, ◌+◌, ◌%◌, ◌≡◌, refl, sym, ap, ◌⊎◌, inl, inr, arith, true, false, Option, none, some, List,
  [], ◌∷◌, ◌++◌, ◌==◌, ==_iff, ==_refl, length, get_elem?, get_elem?-lt, get_elem?-last,
  get_elem?-push, length-append, Bool-cases,
}
use mathlib.Core.Path.{subst}
use caliper_msg_pattern.Common.Variant.Types.{Memory}
use caliper_msg_pattern.Common.Variant.Convert.{DoubleOps}
use caliper_msg_pattern.Common.Entry.{NodePtr, Entry}
use caliper_msg_pattern.Services.Aggregation.{key_equal, set_head}
use caliper_msg_pattern.Services.Aggregation.Locate.{key_equal_refl}
use caliper_msg_pattern.Reader.Aggregator.Entries.{
  KeyEntry, KeyTable, new_table, table_size, hash_key, search_keys, add_key, get_aggregation_entry,
}
use caliper_msg_pattern.Reader.Aggregator.HashKey.{InTree, hash_key-eq}
use caliper_msg_pattern.Reader.Aggregator.Unique.{
  OnKeys, here, there, OnKeys-append, IsKeyTable, KeysEnd, search_keys-ends,
}

next_index : (n : ℕ) → suc n ≡ n + 1
next_index n = omega arith

index_of : (i n : ℕ) → i ≡ n → suc i ≡ n + 1
index_of i n p = omega (arith, p)

module _ {K : Type 0} (d : DoubleOps) (m : Memory) (tree : ℕ → NodePtr) (t : KeyTable K)
    (valid : IsKeyTable d m tree t) (key : List Entry) (kernels : List K)
    (known : InTree tree key) where
  abbrev pub h : ℕ
  h = hash_key d key % table_size

  abbrev pub added : KeyEntry K
  added = record { key = key; kernels = kernels; next_entry_idx = t.hashmap h }

  abbrev pub Absent : Type 0
  Absent = (j : ℕ) (e : KeyEntry K) → get_elem? t.entries j ≡ some e → key_equal m key e.key ≡ false

  Absent-end : KeysEnd m t.entries key (t.hashmap h) none → Absent
  Absent-end ends j e g = elim (Bool-cases (key_equal m key e.key)) [
    | inl same ↦
        ends j e
          (subst (λ x. OnKeys t.entries (suc j) (t.hashmap (x % table_size)))
            (sym (hash_key-eq d m tree key e.key known (valid.known j e g) same))
            (valid.hashed j e g))
          g
    | inr other ↦ other
  ]

  chain :
      (j x : ℕ)
      → OnKeys t.entries j (t.hashmap x)
      → OnKeys (t.entries ++ (added ∷ [])) j (set_head t.hashmap h (length t.entries + 1) x)
  chain j x c = elim (Bool-cases (x == h)) [
    | inl same ↦ rw same (
        subst (OnKeys (t.entries ++ (added ∷ [])) j) (next_index (length t.entries)) (
          there (length t.entries) added (get_elem?-last t.entries added) (
            OnKeys-append t.entries (added ∷ []) j (t.hashmap h)
              (subst (λ y. OnKeys t.entries j (t.hashmap y)) ((==_iff x h).0 same) c))))
    | inr other ↦ rw other (OnKeys-append t.entries (added ∷ []) j (t.hashmap x) c)
  ]

  at_head :
      (i : ℕ) (e : KeyEntry K)
      → i ≡ length t.entries
      → added ≡ e
      → OnKeys
          (t.entries ++ (added ∷ []))
          (suc i)
          (set_head t.hashmap h (length t.entries + 1) (hash_key d e.key % table_size))
  at_head i e p q =
      subst
        (λ (x : KeyEntry K).
          OnKeys (t.entries ++ (added ∷ [])) (suc i)
            (set_head t.hashmap h (length t.entries + 1) (hash_key d x.key % table_size)))
        q
        (rw (==_refl h) (
          subst (OnKeys (t.entries ++ (added ∷ [])) (suc i)) (index_of i (length t.entries) p)
            (here (omega arith))))

  add_key-IsKeyTable : Absent → IsKeyTable d m tree (add_key t key h kernels)
  unfolding add_key
  add_key-IsKeyTable absent = record {
    heads = λ x. ground (arith, valid.heads x, length-append t.entries (added ∷ []));
    links = λ i e g. elim (get_elem?-push t.entries added i e g) [
      | inl k ↦ valid.links i e k
      | inr k ↦ omega (arith, k.0, ap (λ x. x.next_entry_idx) k.1, valid.heads h)
    ];
    known = λ i e g. elim (get_elem?-push t.entries added i e g) [
      | inl k ↦ valid.known i e k
      | inr k ↦ subst (λ x. InTree tree x.key) k.1 known
    ];
    hashed = λ i e g. elim (get_elem?-push t.entries added i e g) [
      | inl k ↦ chain (suc i) _ (valid.hashed i e k)
      | inr k ↦ at_head i e k.0 k.1
    ];
    unique = λ i j e f ge gf lt. elim (get_elem?-push t.entries added i e ge) [
      | inl a ↦ elim (get_elem?-push t.entries added j f gf) [
        | inl b ↦ valid.unique i j e f a b lt
        | inr b ↦ subst (λ x. key_equal m x.key e.key ≡ false) b.1 (absent i e a)
      ]
      | inr a ↦ absurd (
          omega (
            arith,
            a.0,
            lt,
            get_elem?-lt (t.entries ++ (added ∷ [])) j f gf,
            length-append t.entries (added ∷ []),
          ))
    ];
  }

  -- The entry of the key: it was in the table, or no entry had the key and it is added.
  abbrev pub EntryFound : Type 0
  EntryFound =
      (i : ℕ) × (after : KeyTable K) × (get_aggregation_entry m d t key kernels ≡ some (i, after))
      × IsKeyTable d m tree after
      × ((e : KeyEntry K) × (get_elem? after.entries i ≡ some e) × (key_equal m key e.key ≡ true))
      × ((after ≡ t) ⊎ (Absent × (after.entries ≡ t.entries ++ (added ∷ []))))

  found_or_added-EntryFound :
      (r : Option ℕ)
      → search_keys m t.entries key (length t.entries) (t.hashmap h) ≡ some r
      → KeysEnd m t.entries key (t.hashmap h) r
      → EntryFound
  unfolding get_aggregation_entry
  found_or_added-EntryFound (some i) run ends = (i, t, rw run refl, valid, ends, inl refl)
  found_or_added-EntryFound none run ends = (
    length t.entries,
    add_key t key h kernels,
    rw run refl,
    add_key-IsKeyTable (Absent-end ends),
    (added, get_elem?-last t.entries added, key_equal_refl m key),
    inr (Absent-end ends, refl),
  )

  -- On a table without a key twice, for a key with nodes of the tree, `get_aggregation_entry` ends
  -- at an entry that has the key. The table is as before, or the entry is new, none had its key, and
  -- the table is without a key twice again.
  pub get_aggregation_entry-EntryFound : EntryFound
  get_aggregation_entry-EntryFound =
      let (r, run, ends) =
        search_keys-ends m t.entries key valid.links (length t.entries) (t.hashmap h)
          (valid.heads h) (valid.heads h) in
      found_or_added-EntryFound r run ends

-- The table of a new aggregator.
pub new_table-IsKeyTable :
    {K : Type 0} (d : DoubleOps) (m : Memory) (tree : ℕ → NodePtr)
    → IsKeyTable d m tree (new_table {K = K})
new_table-IsKeyTable d m tree = record {
  heads = λ x. omega arith;
  links = λ i e g. absurd (cc g);
  known = λ i e g. absurd (cc g);
  hashed = λ i e g. absurd (cc g);
  unique = λ i j e f g k lt. absurd (cc g);
}
