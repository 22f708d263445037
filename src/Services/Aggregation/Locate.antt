-- ===== src/Services/Aggregation/Locate.antt =====
-- `find_or_create_entry` of src/services/aggregate/AggregationDB.cpp, on a database whose entries
-- are on the chains of their keys' hashes.
use caliper_msg_pattern.Prelude.{
  ℕ, suc, ◌+◌, ◌%◌, ◌≡◌, refl, sym, ◌⊎◌, inl, inr, arith, Bool, true, false, not, ◌&&◌, some, List,
  [], ◌∷◌, ==_refl, length, get_elem?, get_elem?-append, get_elem?-last, length-append, range-last,
  Bool-cases, and_true,
}
use mathlib.Core.Path.{subst}
use caliper_msg_pattern.Common.Variant.Types.{Memory}
use caliper_msg_pattern.Common.Variant.Compare.{variant_eq_refl}
use caliper_msg_pattern.Common.Entry.{Entry, NodePtr}
use caliper_msg_pattern.Common.Snapshot.{entry_eq, node_eq}
use caliper_msg_pattern.Services.Aggregation.{
  AggregateEntry, AggregationDb, ChainEnd, at, missing, hashmap_size, key_of, key_equal,
  search_chain, must_skip, create_entry, new_entry, find_or_create_entry,
}
use caliper_msg_pattern.Services.Aggregation.Invariant.{
  IsDb, IsHashed, OnChain, key-kept, create_entry-IsDb, create_entry-IsHashed,
}
use caliper_msg_pattern.Services.Aggregation.Find.{Matches, SearchEnds, search_chain-Ends}

node_eq_refl : (p : NodePtr) → node_eq p p ≡ true
node_eq_refl [] = refl
node_eq_refl (n ∷ p) = ==_refl n.id

entry_eq_refl : (m : Memory) (e : Entry) → entry_eq m e e ≡ true
unfolding entry_eq
entry_eq_refl m e = ground (arith, node_eq_refl e.node, variant_eq_refl m e.value)

pub key_equal_refl : (m : Memory) (key : List Entry) → key_equal m key key ≡ true
unfolding key_equal
key_equal_refl m [] = refl
key_equal_refl m (e ∷ es) = simp (entry_eq_refl m e, key_equal_refl m es)

-- No entry behind the first has the key.
abbrev pub HasNone : Memory → AggregationDb → List Entry → Type 0
HasNone m db key =
    (j : ℕ) (e : AggregateEntry)
    → get_elem? db.entries (suc j) ≡ some e
    → key_equal m key (key_of db.keyents e) ≡ false

-- The entries of a database are those of another at their indices, and behind the first they
-- have the same keys.
abbrev pub Keeps : AggregationDb → AggregationDb → Type 0
Keeps db after =
    (i : ℕ) (e : AggregateEntry)
    → get_elem? db.entries (suc i) ≡ some e
    → (get_elem? after.entries (suc i) ≡ some e) × (key_of after.keyents e ≡ key_of db.keyents e)

-- What the search for a key does: it ends at an entry that has the key, made only if none had it,
-- or at the first one, if none has the key and there is no room and no leave to allocate.
pub record Located (grow : ℕ → ℕ → ℕ) (m : Memory) (hash_of : List Entry → ℕ) (db : AggregationDb)
    (key : List Entry) (n : ℕ) (can_alloc : Bool) : Type 0 where
  pub index : ℕ
  pub after : AggregationDb
  pub ends : find_or_create_entry grow m db key (hash_of key) n can_alloc ≡ some (index, after)
  pub valid : IsDb after
  pub hashed : IsHashed hash_of after
  pub keeps : Keeps db after
  pub outcome :
      (Matches m after key index × (after ≡ db))
      ⊎ ((index ≡ length db.entries)
          × Matches m after key index
          × HasNone m db key
          × (length after.entries ≡ length db.entries + 1))
      ⊎ ((index ≡ 0)
          × (can_alloc ≡ false)
          × (must_skip db n (length key) ≡ true)
          × HasNone m db key
          × (after ≡ db))

module _ (grow : ℕ → ℕ → ℕ) (m : Memory) (hash_of : List Entry → ℕ) (db : AggregationDb)
    (key : List Entry) (n : ℕ) (valid : IsDb db) (hashed : IsHashed hash_of db)
    (respects : (k : List Entry) → key_equal m key k ≡ true → hash_of key ≡ hash_of k) where
  -- A search that ends without the key has seen every entry that could have it.
  HasNone-missing :
      (c : ℕ)
      → SearchEnds m db key (db.hashmap (hash_of key % hashmap_size)) (missing c)
      → HasNone m db key
  HasNone-missing c ends j e g = elim (Bool-cases (key_equal m key (key_of db.keyents e))) [
    | inl same ↦
        ends (suc j) e
          (subst (λ x. OnChain db.entries (suc j) (db.hashmap (x % hashmap_size)))
            (sym (respects (key_of db.keyents e) same)) (hashed j e g))
          g
    | inr other ↦ other
  ]

  abbrev after_create : ℕ → AggregationDb
  after_create c = create_entry grow db key (hash_of key % hashmap_size) n c

  created-Matches : (c : ℕ) → Matches m (after_create c) key (length db.entries)
  unfolding create_entry
  created-Matches c = (
    valid.first,
    (
      new_entry db (hash_of key % hashmap_size) n (length key),
      get_elem?-last db.entries _,
      rw (range-last db.keyents key) (key_equal_refl m key),
    ),
  )

  Keeps-create : (c : ℕ) → Keeps db (after_create c)
  unfolding create_entry
  Keeps-create c i e g =
      (get_elem?-append db.entries _ (suc i) e g, key-kept grow db valid key i e g)

  length-created : (c : ℕ) → length (after_create c).entries ≡ length db.entries + 1
  unfolding create_entry
  length-created c = length-append db.entries _

  create_or_skip-Located :
      (can_alloc : Bool) (found : ChainEnd)
      → search_chain m db key (length db.entries) (db.hashmap (hash_of key % hashmap_size)) 0
        ≡ some found
      → SearchEnds m db key (db.hashmap (hash_of key % hashmap_size)) found
      → Located grow m hash_of db key n can_alloc
  unfolding find_or_create_entry
  create_or_skip-Located can_alloc (at i) run ends = record {
    index = i;
    after = db;
    ends = rw run refl;
    valid = valid;
    hashed = hashed;
    keeps = λ i e g. (g, refl);
    outcome = inl (ends, refl);
  }
  create_or_skip-Located can_alloc (missing c) run ends =
      elim (Bool-cases (not can_alloc && must_skip db n (length key))) [
        | inl skips ↦ record {
          index = 0;
          after = db;
          ends = simp (run, skips);
          valid = valid;
          hashed = hashed;
          keeps = λ i e g. (g, refl);
          outcome = inr (
              inr (
                refl,
                ground (arith, and_true (not can_alloc) (must_skip db n (length key)) skips),
                (and_true (not can_alloc) (must_skip db n (length key)) skips).1,
                HasNone-missing c ends,
                refl,
              ));
        }
        | inr fits ↦ record {
          index = length db.entries;
          after = after_create c;
          ends = simp (run, fits);
          valid = create_entry-IsDb grow db valid key (hash_of key % hashmap_size) n c;
          hashed = create_entry-IsHashed grow db valid key hash_of n c hashed;
          keeps = Keeps-create c;
          outcome = inr (inl (refl, created-Matches c, HasNone-missing c ends, length-created c));
        }
      ]

  -- On a well-formed database whose entries are on the chains of their keys' hashes, where equal
  -- keys have equal hashes: the search ends, at an entry that has the key, which is made only if no
  -- entry had it, or at the first entry, if none has it, there is no room and allocating is not
  -- allowed. The database stays well formed and hashed, and the other entries keep their keys.
  pub find_or_create_entry-Located : (can_alloc : Bool) → Located grow m hash_of db key n can_alloc
  find_or_create_entry-Located can_alloc =
      let (r, run, ends) =
        search_chain-Ends m db key valid (length db.entries)
          (db.hashmap (hash_of key % hashmap_size)) 0
          (omega (arith, valid.heads (hash_of key % hashmap_size)))
          (valid.heads (hash_of key % hashmap_size)) in
      create_or_skip-Located can_alloc r run ends
