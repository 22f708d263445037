-- ===== src/Reader/Aggregator/Unique.antt =====
-- src/reader/Aggregator.cpp: the table of keys that `get_aggregation_entry` keeps.
use caliper_msg_pattern.Prelude.{
  ℕ, zero, suc, ◌%◌, ◌≤◌, ◌<◌, ◌≡◌, refl, ◌⊎◌, inl, inr, arith, true, false, Option, none, some,
  List, ◌++◌, length, get_elem?, get_elem?-some, get_elem?-append, Bool-cases,
}
use mathlib.Core.Path.{subst}
use caliper_msg_pattern.Common.Variant.Types.{Memory}
use caliper_msg_pattern.Common.Variant.Convert.{DoubleOps}
use caliper_msg_pattern.Common.Entry.{NodePtr, Entry}
use caliper_msg_pattern.Services.Aggregation.{key_equal}
use caliper_msg_pattern.Reader.Aggregator.Entries.{
  KeyEntry, KeyTable, table_size, hash_key, search_keys,
}
use caliper_msg_pattern.Reader.Aggregator.HashKey.{InTree}

-- `j` is on the chain that starts at the first index.
pub data OnKeys {K : Type 0} (es : List (KeyEntry K)) (j : ℕ) : ℕ → Type 0 where
  here : 0 < j → OnKeys es j j
  there :
      (i : ℕ) (e : KeyEntry K)
      → get_elem? es i ≡ some e
      → OnKeys es j e.next_entry_idx
      → OnKeys es j (suc i)

module _ {K : Type 0} where
  OnKeys-positive : (es : List (KeyEntry K)) (j i : ℕ) → OnKeys es j i → 0 < i
  OnKeys-positive es j i (here p) = p
  OnKeys-positive es j i (there k e g c) = omega arith

  same_key_entry : (o : Option (KeyEntry K)) (e f : KeyEntry K) → o ≡ some e → o ≡ some f → e ≡ f
  same_key_entry o e f g k = cc (g, k)

  OnKeys-step :
      (es : List (KeyEntry K)) (j i k : ℕ) (e : KeyEntry K)
      → OnKeys es j k
      → k ≡ suc i
      → get_elem? es i ≡ some e
      → (j ≡ suc i) ⊎ OnKeys es j e.next_entry_idx
  OnKeys-step es j i k e (here p) eq g = inl eq
  OnKeys-step es j i k e (there n f h c) eq g = inr (
      subst (λ x. OnKeys es j x.next_entry_idx)
        (same_key_entry (get_elem? es n) f e h
          (subst (λ x. get_elem? es x ≡ some e) (omega (arith, eq)) g))
        c)

  pub OnKeys-append :
      (es more : List (KeyEntry K)) (j i : ℕ) → OnKeys es j i → OnKeys (es ++ more) j i
  OnKeys-append es more j i (here p) = here p
  OnKeys-append es more j i (there k e g c) =
      there k e (get_elem?-append es more k e g) (OnKeys-append es more j e.next_entry_idx c)

-- Chains in range that go to earlier entries and hold every entry of their hash, keys with nodes
-- of one tree, and no key twice.
pub record IsKeyTable {K : Type 0} (d : DoubleOps) (m : Memory) (tree : ℕ → NodePtr)
    (t : KeyTable K) : Type 0 where
  pub heads : (h : ℕ) → t.hashmap h ≤ length t.entries
  pub links : (i : ℕ) (e : KeyEntry K) → get_elem? t.entries i ≡ some e → e.next_entry_idx ≤ i
  pub known : (i : ℕ) (e : KeyEntry K) → get_elem? t.entries i ≡ some e → InTree tree e.key
  pub hashed :
      (i : ℕ) (e : KeyEntry K)
      → get_elem? t.entries i ≡ some e
      → OnKeys t.entries (suc i) (t.hashmap (hash_key d e.key % table_size))
  pub unique :
      (i j : ℕ) (e f : KeyEntry K)
      → get_elem? t.entries i ≡ some e
      → get_elem? t.entries j ≡ some f
      → i < j
      → key_equal m f.key e.key ≡ false

module _ {K : Type 0} (m : Memory) (es : List (KeyEntry K)) (key : List Entry) where
  abbrev pub KeysEnd : ℕ → Option ℕ → Type 0
  KeysEnd idx (some i) =
      (e : KeyEntry K) × (get_elem? es i ≡ some e) × (key_equal m key e.key ≡ true)
  KeysEnd idx none =
      (j : ℕ) (e : KeyEntry K)
      → OnKeys es (suc j) idx
      → get_elem? es j ≡ some e
      → key_equal m key e.key ≡ false

  KeysEnd-back :
      (i : ℕ) (e : KeyEntry K) (r : Option ℕ)
      → get_elem? es i ≡ some e
      → key_equal m key e.key ≡ false
      → KeysEnd e.next_entry_idx r
      → KeysEnd (suc i) r
  KeysEnd-back i e (some k) g other ends = ends
  KeysEnd-back i e none g other ends = λ j f c k.
      elim (OnKeys-step es (suc j) i (suc i) e c refl g) [
        | inl same ↦
            subst (λ x. key_equal m key x.key ≡ false)
              (same_key_entry (get_elem? es i) e f g
                (subst (λ x. get_elem? es x ≡ some f) (omega (arith, same)) k))
              other
        | inr rest ↦ ends j f rest k
      ]

  pub search_keys-ends :
      ((i : ℕ) (e : KeyEntry K) → get_elem? es i ≡ some e → e.next_entry_idx ≤ i)
      → (fuel idx : ℕ) → idx ≤ fuel
      → idx ≤ length es
      → (r : Option ℕ) × (search_keys m es key fuel idx ≡ some r) × KeysEnd idx r
  unfolding search_keys
  search_keys-ends links fuel zero le lt =
      (none, refl, λ j e c g. absurd (omega (arith, OnKeys-positive es (suc j) 0 c)))
  search_keys-ends links zero (suc i) le lt = absurd (omega (arith, le))
  search_keys-ends links (suc fuel) (suc i) le lt =
      let (e, g) = get_elem?-some es i (omega (arith, lt)) in
      elim (Bool-cases (key_equal m key e.key)) [
        | inl same ↦ (some i, simp (g, same), (e, g, same))
        | inr other ↦
            let (r, run, ends) =
              search_keys-ends links fuel e.next_entry_idx (omega (arith, links i e g, le))
                (omega (arith, links i e g, lt)) in
            (r, simp (g, other, run), KeysEnd-back i e r g other ends)
      ]
