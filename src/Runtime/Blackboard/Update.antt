-- ===== src/Runtime/Blackboard/Update.antt =====
-- Writing one slot of the table.
use caliper_msg_pattern.Prelude.{ℕ, ◌%◌, ◌<◌, ◌≡◌, ◌≢◌, sym, ap, ◌∙◌, arith, inl, inr, ◌⊎◌, ==_refl}
use native.Mathlib.Decide.{ℕ_discrete}
use caliper_msg_pattern.Common.Entry.{Entry, inv_id}
use caliper_msg_pattern.Runtime.Blackboard.{nmax, Slot, Table, update}
use caliper_msg_pattern.Runtime.Blackboard.Probe.{dist, IsFree, PassedBy}
use caliper_msg_pattern.Runtime.Blackboard.Table.{home, IsTable, Reads}

pub update_self {ℓ} : {A : Type ℓ} (t : ℕ → A) (i : ℕ) (a : A) → update t i a i ≡ a
update_self t i a = rw ==_refl

pub update_ne {ℓ} : {A : Type ℓ} (t : ℕ → A) (i x : ℕ) (a : A) → x ≢ i → update t i a x ≡ t x
update_ne t i x a ne = ground arith

-- A table whose keys are those of another.
pub IsTable-of_keys : (t u : Table) → ((x : ℕ) → (u x).key ≡ (t x).key) → IsTable t → IsTable u
IsTable-of_keys t u same v = record {
  chain = λ s x hs hx p q. rw same (v.chain s x hs hx (rw same at p) (rw same at q));
  unique = λ s x hs hx p q. v.unique s x hs hx (λ e. p (same s ∙ e)) (sym (same s) ∙ q ∙ same x);
}

pub store_keys :
    (t : Table) (i : ℕ) (v : Entry) (x : ℕ)
    → (update t i (record { key = (t i).key; value = v }) x).key ≡ (t x).key
store_keys t i v x = elim (ℕ_discrete x i) [
  | yes e ↦ rw (e, ==_refl)
  | no ne ↦ ap (λ s. s.key) (update_ne t i x _ ne)
]

pub key_eq : {a b : Slot} → a ≡ b → a.key ≡ b.key
key_eq p = ap (λ s. s.key) p

pub value_eq : {a b : Slot} → a ≡ b → a.value ≡ b.value
value_eq p = ap (λ s. s.value) p

module _ (t : Table) (key : ℕ) (v : Entry) (j : ℕ) where
  -- The table in which `add` or `set` has written the slot `j`.
  abbrev pub written : Table
  written = update t j (record { key = key; value = v })

  pub written_self : written j ≡ record { key = key; value = v }
  written_self = update_self t j (record { key = key; value = v })

  pub written_ne : (x : ℕ) → x ≢ j → written x ≡ t x
  written_ne x ne = update_ne t j x (record { key = key; value = v }) ne

  module _ (hj : j < nmax) (real : key ≢ inv_id) where
    written_used : (x : ℕ) → (t x).key ≢ inv_id → (written x).key ≢ inv_id
    written_used x p = elim (ℕ_discrete x j) [
      | yes e ↦ λ q. real (sym (key_eq (ap written e ∙ written_self)) ∙ q)
      | no ne ↦ λ q. p (sym (key_eq (written_ne x ne)) ∙ q)
    ]

    -- A new key in a free slot, with no free slot between its home and there.
    pub placed-IsTable :
        IsTable t
        → IsFree t j
        → ((s : ℕ) → s < nmax → (t s).key ≢ key)
        → PassedBy t inv_id (key % nmax) j
        → IsTable written
    placed-IsTable valid free absent before = record { chain = chain; unique = unique }
      where
        chain :
            (s x : ℕ)
            → s < nmax
            → x < nmax
            → (written s).key ≢ inv_id
            → dist (home written s) x < dist (home written s) s
            → (written x).key ≢ inv_id
        chain s x hs hx p lt = elim (ℕ_discrete s j) [
          | yes e ↦ written_used x (before x hx (rw (e, written_self) at lt)).0
          | no ne ↦
              written_used x
                (valid.chain s x hs hx (rw (written_ne s ne) at p) (rw (written_ne s ne) at lt))
        ]

        unique :
            (s x : ℕ)
            → s < nmax
            → x < nmax
            → (written s).key ≢ inv_id
            → (written s).key ≡ (written x).key
            → s ≡ x
        unique s x hs hx p q = elim (ℕ_discrete s j) [
          | yes e ↦ elim (ℕ_discrete x j) [
            | yes e' ↦ e ∙ sym e'
            | no ne' ↦ absurd (
                absent x hx
                  (key_eq (sym (written_ne x ne')) ∙ sym q ∙ key_eq (ap written e ∙ written_self)))
          ]
          | no ne ↦ elim (ℕ_discrete x j) [
            | yes e' ↦ absurd (
                absent s hs
                  (key_eq (sym (written_ne s ne)) ∙ q ∙ key_eq (ap written e' ∙ written_self)))
            | no ne' ↦
                valid.unique s x hs hx (rw (written_ne s ne) at p)
                  (key_eq (sym (written_ne s ne)) ∙ q ∙ key_eq (written_ne x ne'))
          ]
        ]

    pub Reads-self : Reads written key v
    Reads-self = inl (j, hj, key_eq written_self, value_eq written_self)

    -- The slot was free or held the key, so no other key is touched.
    pub Reads-other :
        (k : ℕ) (e : Entry)
        → k ≢ inv_id
        → k ≢ key
        → ((t j).key ≡ key) ⊎ IsFree t j
        → Reads t k e
        → Reads written k e
    Reads-other k e kr ne slot (inl (s, hs, ks, vs)) =
        inl (s, hs, key_eq (written_ne s apart) ∙ ks, value_eq (written_ne s apart) ∙ vs)
      where
        apart : s ≢ j
        apart q = elim slot [
          | inl e ↦ ne (sym ks ∙ ap (λ i. (t i).key) q ∙ e)
          | inr f ↦ kr (sym ks ∙ ap (λ i. (t i).key) q ∙ f)
        ]
    Reads-other k e kr ne slot (inr (absent, ee)) = inr (absent', ee)
      where
        absent' : (s : ℕ) → s < nmax → (written s).key ≢ k
        absent' s hs q = elim (ℕ_discrete s j) [
          | yes e ↦ ne (sym q ∙ key_eq (ap written e ∙ written_self))
          | no ne' ↦ absent s hs (key_eq (sym (written_ne s ne')) ∙ q)
        ]
