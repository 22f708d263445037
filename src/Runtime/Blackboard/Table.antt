-- ===== src/Runtime/Blackboard/Table.antt =====
-- The table as a map from keys to entries, the invariant, and the number of slots in use.
use caliper_msg_pattern.Prelude.{
  ℕ, zero, suc, ◌+◌, ◌%◌, ◌≤◌, ◌<◌, ◌≡◌, ◌≢◌, refl, sym, ap, ◌∙◌, arith, some, if◌then◌else◌, ◌==◌,
  Bool-cases, inl, inr, ◌⊎◌,
}
use native.Mathlib.Decide.{ℕ_discrete, dec_lt}
use caliper_msg_pattern.Common.Entry.{Entry, no_entry, inv_id}
use caliper_msg_pattern.Runtime.Blackboard.{
  nmax, Slot, Table, Blackboard, update, free_slot, empty_blackboard, find_existing_entry, get,
}
use caliper_msg_pattern.Runtime.Blackboard.Probe.{dist, IsFree, PassedBy, find_existing-EndsAt}

abbrev pub home : Table → ℕ → ℕ
home t s = (t s).key % nmax

-- Between the home of an entry and the entry no slot is free, and no key is there twice.
pub record IsTable (t : Table) : Type 0 where
  pub chain :
      (s x : ℕ)
      → s < nmax
      → x < nmax
      → (t s).key ≢ inv_id
      → dist (home t s) x < dist (home t s) s
      → (t x).key ≢ inv_id
  pub unique : (s x : ℕ) → s < nmax → x < nmax → (t s).key ≢ inv_id → (t s).key ≡ (t x).key → s ≡ x

-- The number of the first `n` slots that are in use.
abbrev pub weight : Slot → ℕ
weight s = if s.key == inv_id then 0 else 1

unfoldable pub used : Table → ℕ → ℕ
used t zero = 0
used t (suc n) = weight (t n) + used t n

pub IsFree-of_used : (t : Table) (n : ℕ) → used t n < n → (f : ℕ) × (f < n) × IsFree t f
unfolding used
IsFree-of_used t zero h = absurd (omega arith)
IsFree-of_used t (suc n) h = elim (Bool-cases ((t n).key == inv_id)) [
  | inl e ↦ (n, omega arith, ground arith)
  | inr e ↦ let (f, lt, free) = IsFree-of_used t n (ground arith) in (f, omega arith, free)
]

used-update_above :
    (t : Table) (i : ℕ) (s : Slot) (n : ℕ) → n ≤ i → used (update t i s) n ≡ used t n
unfolding used
used-update_above t i s zero h = refl
used-update_above t i s (suc n) h = ground (arith, used-update_above t i s n)

pub used-update :
    (t : Table) (i : ℕ) (s : Slot) (n : ℕ)
    → i < n
    → used (update t i s) n + weight (t i) ≡ used t n + weight s
unfolding used
used-update t i s zero h = absurd (omega arith)
used-update t i s (suc n) h = elim (ℕ_discrete n i) [
  | yes e ↦ ground (arith, used-update_above t i s n)
  | no ne ↦ ground (arith, used-update t i s n)
]

pub record IsValid (bb : Blackboard) : Type 0 where
  pub table : IsTable bb.hashtable
  pub entries : used bb.hashtable nmax ≡ bb.num_entries
  pub room : bb.num_entries ≤ 910

-- The slot of a key, or its absence.
abbrev pub Found : Table → ℕ → ℕ → Type 0
Found t key j = ((t j).key ≡ key) ⊎ (IsFree t j × ((s : ℕ) → s < nmax → (t s).key ≢ key))

pub Found-of_ends :
    (t : Table) (key j : ℕ)
    → IsTable t
    → key ≢ inv_id
    → j < nmax
    → ((t j).key ≡ key) ⊎ IsFree t j
    → PassedBy t key (key % nmax) j
    → Found t key j
Found-of_ends t key j valid real hj (inl e) before = inl e
Found-of_ends t key j valid real hj (inr free) before = inr (free, absent)
  where
    absent : (s : ℕ) → s < nmax → (t s).key ≢ key
    absent s hs e =
        let at_home : home t s ≡ key % nmax = ap (λ (k : ℕ). k % nmax) e in
        elim (dec_lt (dist (key % nmax) s) (dist (key % nmax) j)) [
          | yes lt ↦ (before s hs lt).0 e
          | no ge ↦ elim (ℕ_discrete s j) [
            | yes same ↦ real (sym e ∙ (rw same free))
            | no other ↦ valid.chain s j hs hj (λ f. real (sym e ∙ f)) (omega arith) free
          ]
        ]

pub find_Found :
    (bb : Blackboard) (key : ℕ)
    → IsValid bb
    → key ≢ inv_id
    → (j : ℕ) × (find_existing_entry bb.hashtable key ≡ some j)
      × (j < nmax)
      × Found bb.hashtable key j
      × PassedBy bb.hashtable key (key % nmax) j
find_Found bb key valid real =
    let (f, hf, free) =
      IsFree-of_used bb.hashtable nmax (omega (arith, valid.entries, valid.room)) in
    let (j, run, hj, ends, before) = find_existing-EndsAt bb.hashtable key f hf free in
    (j, run, hj, Found-of_ends bb.hashtable key j valid.table real hj ends before, before)

-- What the table holds for a key.
abbrev pub Reads : Table → ℕ → Entry → Type 0
Reads t key e =
    ((s : ℕ) × (s < nmax) × ((t s).key ≡ key) × ((t s).value ≡ e))
    ⊎ (((s : ℕ) → s < nmax → (t s).key ≢ key) × (e ≡ no_entry))

-- On a valid blackboard, for a valid key, `get` ends, and returns the value of a slot that holds
-- the key, or the empty entry if no slot does.
pub get-Reads :
    (bb : Blackboard) (key : ℕ)
    → IsValid bb
    → key ≢ inv_id
    → (e : Entry) × (get bb key ≡ some e) × Reads bb.hashtable key e
unfolding get
get-Reads bb key valid real =
    let (j, run, hj, found, before) = find_Found bb key valid real in at_slot j run hj found
  where
    at_slot :
        (j : ℕ)
        → find_existing_entry bb.hashtable key ≡ some j
        → j < nmax
        → Found bb.hashtable key j
        → (e : Entry) × (get bb key ≡ some e) × Reads bb.hashtable key e
    at_slot j run hj (inl e) =
        ((bb.hashtable j).value, ground (arith, run, e), inl (j, hj, e, refl))
    at_slot j run hj (inr (free, absent)) =
        (no_entry, ground (arith, run, absent j hj), inr (absent, refl))

-- A table holds one thing for a key.
pub Reads-unique :
    (t : Table) (key : ℕ) (e f : Entry)
    → IsTable t
    → key ≢ inv_id
    → Reads t key e
    → Reads t key f
    → e ≡ f
Reads-unique t key e f valid real (inl (s, hs, ks, vs)) (inl (x, hx, kx, vx)) =
    let same = valid.unique s x hs hx (λ q. real (sym ks ∙ q)) (ks ∙ sym kx) in
    sym vs ∙ ap (λ i. (t i).value) same ∙ vx
Reads-unique t key e f valid real (inl (s, hs, ks, vs)) (inr (absent, ef)) = absurd (absent s hs ks)
Reads-unique t key e f valid real (inr (absent, ee)) (inl (x, hx, kx, vx)) = absurd (absent x hx kx)
Reads-unique t key e f valid real (inr (absent, ee)) (inr (absent', ef)) = ee ∙ sym ef

-- So a result of `get` is known from what the table holds.
pub get-eq :
    (bb : Blackboard) (key : ℕ) (e : Entry)
    → IsValid bb
    → key ≢ inv_id
    → Reads bb.hashtable key e
    → get bb key ≡ some e
get-eq bb key e valid real reads =
    let (f, run, reads') = get-Reads bb key valid real in
    run ∙ ap some (Reads-unique bb.hashtable key f e valid.table real reads' reads)

-- A new blackboard.
pub used_empty : (n : ℕ) → used (λ _. free_slot) n ≡ 0
unfolding used
used_empty zero = refl
used_empty (suc n) = omega (arith, used_empty n)

abbrev pub empty_table : Table
empty_table = λ _. free_slot

pub empty-IsTable : IsTable empty_table
empty-IsTable = record {
  chain = λ s x hs hx p lt. absurd (p refl);
  unique = λ s x hs hx p e. absurd (p refl);
}

pub empty-IsValid : IsValid empty_blackboard
empty-IsValid = record { table = empty-IsTable; entries = used_empty nmax; room = omega arith }

-- Nothing is stored on it.
pub get_empty : (key : ℕ) → key ≢ inv_id → get empty_blackboard key ≡ some no_entry
get_empty key real =
    get-eq empty_blackboard key no_entry empty-IsValid real (inr ((λ s hs e. real (sym e)), refl))
