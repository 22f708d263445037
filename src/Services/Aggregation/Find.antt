-- ===== src/Services/Aggregation/Find.antt =====
-- `find_or_create_entry` of src/services/aggregate/AggregationDB.cpp.
use caliper_msg_pattern.Prelude.{
  ℕ, zero, suc, ◌+◌, ◌≤◌, ◌<◌, ◌≡◌, refl, ◌⊎◌, inl, inr, arith, true, false, Option, some, List,
  ◌==◌, length, get_elem?, get_elem?-some, Bool-cases, ==_iff, le→leb,
}
use caliper_msg_pattern.Common.Variant.Types.{Memory}
use mathlib.Core.Path.{subst}
use caliper_msg_pattern.Common.Entry.{Entry}
use caliper_msg_pattern.Services.Aggregation.{
  AggregateEntry, AggregationDb, ChainEnd, at, missing, key_of, key_view, key_equal, search_chain,
}
use caliper_msg_pattern.Services.Aggregation.Invariant.{IsDb, OnChain, here, there}

OnChain-positive : (es : List AggregateEntry) (j i : ℕ) → OnChain es j i → 0 < i
OnChain-positive es j i (here p) = p
OnChain-positive es j i (there k e p g c) = p

same_entry : (o : Option AggregateEntry) (e f : AggregateEntry) → o ≡ some e → o ≡ some f → e ≡ f
same_entry o e f g k = cc (g, k)

OnChain-step :
    (es : List AggregateEntry) (j i : ℕ) (e : AggregateEntry)
    → OnChain es j i
    → get_elem? es i ≡ some e
    → (j ≡ i) ⊎ OnChain es j e.next_entry_idx
OnChain-step es j i e (here p) g = inl refl
OnChain-step es j i e (there k f p h c) g =
    inr (subst (λ x. OnChain es j x.next_entry_idx) (same_entry (get_elem? es k) f e h g) c)

pub key_view-in :
    (keyents : List Entry) (e : AggregateEntry)
    → e.key_idx + e.key_len ≤ length keyents
    → key_view keyents e ≡ some (key_of keyents e)
unfolding key_view
key_view-in keyents e h = rw (le→leb (e.key_idx + e.key_len) (length keyents) h) refl

-- An entry other than the skip entry has its key in the key buffer.
key_in_range :
    (db : AggregationDb)
    → IsDb db
    → (idx : ℕ) (e : AggregateEntry) → (idx == 0) ≡ false
    → get_elem? db.entries idx ≡ some e
    → e.key_idx + e.key_len ≤ length db.keyents
key_in_range db valid zero e z g = absurd (ground (arith, z))
key_in_range db valid (suc i) e z g = valid.ranges i e g

module _ (m : Memory) (db : AggregationDb) (key : List Entry) where
  abbrev pub Matches : ℕ → Type 0
  Matches i =
      (0 < i)
      × ((e : AggregateEntry) × (get_elem? db.entries i ≡ some e)
          × (key_equal m key (key_of db.keyents e) ≡ true))

  -- What a search from an index ends with: an entry that has the key, or no entry of the chain
  -- has it.
  abbrev pub SearchEnds : ℕ → ChainEnd → Type 0
  SearchEnds idx (at i) = Matches i
  SearchEnds idx (missing n) =
      (j : ℕ) (e : AggregateEntry)
      → OnChain db.entries j idx
      → get_elem? db.entries j ≡ some e
      → key_equal m key (key_of db.keyents e) ≡ false

  abbrev pub Ends : ℕ → ℕ → ℕ → Type 0
  Ends fuel idx count =
      (r : ChainEnd) × (search_chain m db key fuel idx count ≡ some r) × SearchEnds idx r

  search-nowhere : (fuel idx count : ℕ) → (idx == 0) ≡ true → Ends fuel idx count
  unfolding search_chain
  search-nowhere zero idx count z = (
    missing count,
    rw z refl,
    λ j e c g. absurd (omega (arith, OnChain-positive db.entries j idx c, (==_iff idx 0).0 z)),
  )
  search-nowhere (suc fuel) idx count z = (
    missing count,
    rw z refl,
    λ j e c g. absurd (omega (arith, OnChain-positive db.entries j idx c, (==_iff idx 0).0 z)),
  )

  -- From the next entry of the chain to the one before it, which has another key.
  SearchEnds-back :
      (idx : ℕ) (e : AggregateEntry) (r : ChainEnd)
      → get_elem? db.entries idx ≡ some e
      → key_equal m key (key_of db.keyents e) ≡ false
      → SearchEnds e.next_entry_idx r
      → SearchEnds idx r
  SearchEnds-back idx e (at i) g other ends = ends
  SearchEnds-back idx e (missing n) g other ends = λ j f c k.
      elim (OnChain-step db.entries j idx e c g) [
        | inl same ↦
            subst (λ x. key_equal m key (key_of db.keyents x) ≡ false)
              (same_entry (get_elem? db.entries idx) e f g
                (subst (λ x. get_elem? db.entries x ≡ some f) same k))
              other
        | inr rest ↦ ends j f rest k
      ]

  -- The search ends with enough fuel.
  pub search_chain-Ends :
      IsDb db → (fuel idx count : ℕ) → idx ≤ fuel → idx < length db.entries → Ends fuel idx count
  unfolding search_chain
  search_chain-Ends valid zero idx count le lt = search-nowhere zero idx count (ground (arith, le))
  search_chain-Ends valid (suc fuel) idx count le lt = elim (Bool-cases (idx == 0)) [
    | inl z ↦ search-nowhere (suc fuel) idx count z
    | inr z ↦
        let (e, g) = get_elem?-some db.entries idx lt in
        let in_range = key_in_range db valid idx e z g in
        elim (Bool-cases (key_equal m key (key_of db.keyents e))) [
          | inl same ↦ (
            at idx,
            simp (z, g, key_view-in db.keyents e (in_range), same),
            (ground (arith, z), (e, g, same)),
          )
          | inr other ↦
              let (r, run, ends) =
                search_chain-Ends valid fuel e.next_entry_idx (count + 1)
                  (omega (arith, valid.links idx e g, le))
                  (omega (arith, valid.links idx e g, lt)) in
              (
                r,
                simp (z, g, key_view-in db.keyents e (in_range), other, run),
                SearchEnds-back idx e r g other ends,
              )
        ]
  ]
