-- ===== src/Runtime/Blackboard/Set.antt =====
-- `Blackboard::set` and `exchange` against the table as a map.
use caliper_msg_pattern.Prelude.{
  ℕ, ◌+◌, ◌<◌, ◌≡◌, ◌≢◌, refl, sym, ◌∙◌, ◌/◌, le→ltb, arith, Bool, some, if◌then◌else◌, ◌==◌, inl,
  inr, ◌⊎◌, ==_refl,
}
use mathlib.Core.Path.{subst}
use native.Mathlib.Decide.{ℕ_discrete}
use caliper_msg_pattern.Common.Entry.{Entry, no_entry, inv_id}
use caliper_msg_pattern.Runtime.Blackboard.{
  nmax, Slot, Table, Blackboard, store, counted, place, find_existing_entry, add, get, set,
  exchange,
}
use caliper_msg_pattern.Runtime.Blackboard.Probe.{IsFree, find_free-EndsAt}
use caliper_msg_pattern.Runtime.Blackboard.Table.{
  IsValid, used-update, IsFree-of_used, weight, Found, find_Found, Reads, get-Reads, get-eq,
}
use caliper_msg_pattern.Runtime.Blackboard.Update.{
  IsTable-of_keys, store_keys, written, placed-IsTable, Reads-self, Reads-other,
}

pub weight_used : (s : Slot) → s.key ≢ inv_id → weight s ≡ 1
weight_used s p = ground arith

pub weight_free : (s : Slot) → s.key ≡ inv_id → weight s ≡ 0
weight_free s p = ground arith

pub IsFree-of_ends : (t : Table) (j : ℕ) → ((t j).key ≡ inv_id) ⊎ IsFree t j → IsFree t j
IsFree-of_ends t j (inl e) = e
IsFree-of_ends t j (inr e) = e

-- What a call that wrote `v` under `key` leaves behind.
pub record Wrote (bb : Blackboard) (key : ℕ) (v : Entry) (bb' : Blackboard) : Type 0 where
  pub valid : IsValid bb'
  pub reads : (k : ℕ) → k ≢ inv_id → get bb' k ≡ (if k == key then some v else get bb k)

module _ (bb : Blackboard) (key : ℕ) (v : Entry) (valid : IsValid bb) (real : key ≢ inv_id) where
  -- A table that reads as the old one but for the key.
  wrote :
      (bb' : Blackboard)
      → IsValid bb'
      → Reads bb'.hashtable key v
      → ((k : ℕ) (e : Entry)
          → k ≢ inv_id
          → k ≢ key
          → Reads bb.hashtable k e
          → Reads bb'.hashtable k e)
      → Wrote bb key v bb'
  wrote bb' valid' self other = record { valid = valid'; reads = reads }
    where
      reads : (k : ℕ) → k ≢ inv_id → get bb' k ≡ (if k == key then some v else get bb k)
      reads k kr = elim (ℕ_discrete k key) [
        | yes e ↦ rw (e, ==_refl) (get-eq bb' key v valid' real self)
        | no ne ↦
            let (e, run, old) = get-Reads bb k valid kr in
            get-eq bb' k e valid' kr (other k e kr ne old) ∙ sym run ∙ ground arith
      ]

  -- The slot that holds the key is overwritten.
  pub store-Wrote :
      (j : ℕ) → j < nmax → (bb.hashtable j).key ≡ key → Wrote bb key v (counted (store bb j v))
  store-Wrote j hj held =
      let t = bb.hashtable in
      let here : (t j).key ≢ inv_id = λ e. real (sym held ∙ e) in
      wrote (counted (store bb j v))
        (record {
          table = IsTable-of_keys t _ (store_keys t j v) valid.table;
          entries = omega (
            arith,
            valid.entries,
            used-update t j (record { key = (t j).key; value = v }) nmax hj,
            weight_used (t j) here,
            weight_used (record { key = (t j).key; value = v }) here,
          );
          room = valid.room;
        })
        (subst (λ k. Reads (written t (t j).key v j) k v) held (Reads-self t (t j).key v j hj here))
        (λ k e kr ne. Reads-other t (t j).key v j hj here k e kr (λ q. ne (q ∙ held)) (inl refl))

  -- A new key goes to a free slot, unless the table is full.
  add-Wrote :
      (incl : Bool)
      → ((s : ℕ) → s < nmax → (bb.hashtable s).key ≢ key)
      → bb.num_entries < 910
      → (bb' : Blackboard) × (add bb key v incl ≡ some bb') × Wrote bb key v (counted bb')
  unfolding add
  add-Wrote incl absent space =
      let t = bb.hashtable in
      let (f, hf, free) = IsFree-of_used t nmax (omega (arith, valid.entries, valid.room)) in
      let (j, run, hj, ends, before) = find_free-EndsAt t key f hf free in
      let empty : IsFree t j = IsFree-of_ends t j ends in
      (
        place bb j key v incl,
        rw (run, le→ltb nmax (bb.num_entries + (nmax / 10 + 10)) (omega arith)),
        wrote (counted (place bb j key v incl))
            (record {
              table = placed-IsTable t key v j hj real valid.table empty absent before;
              entries = omega (
                arith,
                valid.entries,
                used-update t j (record { key = key; value = v }) nmax hj,
                weight_free (t j) empty,
                weight_used (record { key = key; value = v }) real,
              );
              room = omega arith;
            })
            (Reads-self t key v j hj real)
            (λ k e kr ne. Reads-other t key v j hj real k e kr ne (inr empty)),
      )

  -- On a valid blackboard with room for one more entry, for a valid key, `set` ends, keeps the
  -- invariant, and writes the value under the key and nothing under other keys.
  pub set-Wrote :
      (incl : Bool)
      → bb.num_entries < 910
      → (bb' : Blackboard) × (set bb key v incl ≡ some bb') × Wrote bb key v bb'
  unfolding set
  set-Wrote incl space =
      let (j, run, hj, found, before) = find_Found bb key valid real in at_slot j run hj found
    where
      at_slot :
          (j : ℕ)
          → find_existing_entry bb.hashtable key ≡ some j
          → j < nmax
          → Found bb.hashtable key j
          → (bb' : Blackboard) × (set bb key v incl ≡ some bb') × Wrote bb key v bb'
      at_slot j run hj (inl e) =
          (counted (store bb j v), ground (arith, run, e), store-Wrote j hj e)
      at_slot j run hj (inr (free, absent)) =
          let (bb', added, w) = add-Wrote incl absent space in
          (counted bb', ground (arith, run, absent j hj, added), w)

  -- On a valid blackboard with room for one more entry, for a valid key, `exchange` ends and returns
  -- what `get` returns before the call; it keeps the invariant, and writes the value under the key
  -- and nothing under other keys.
  pub exchange-Wrote :
      (incl : Bool)
      → bb.num_entries < 910
      → (old : Entry) × (bb' : Blackboard) × (exchange bb key v incl ≡ some (old, bb'))
        × (get bb key ≡ some old)
        × Wrote bb key v bb'
  unfolding exchange get
  exchange-Wrote incl space =
      let (j, run, hj, found, before) = find_Found bb key valid real in at_slot j run hj found
    where
      at_slot :
          (j : ℕ)
          → find_existing_entry bb.hashtable key ≡ some j
          → j < nmax
          → Found bb.hashtable key j
          → (old : Entry) × (bb' : Blackboard) × (exchange bb key v incl ≡ some (old, bb'))
            × (get bb key ≡ some old)
            × Wrote bb key v bb'
      at_slot j run hj (inl e) = (
        (bb.hashtable j).value,
        counted (store bb j v),
        ground (arith, run, e),
        ground (arith, run, e),
        store-Wrote j hj e,
      )
      at_slot j run hj (inr (free, absent)) =
          let (bb', added, w) = add-Wrote incl absent space in
          (
            no_entry,
            counted bb',
            ground (arith, run, absent j hj, added),
            ground (arith, run, absent j hj),
            w,
          )
