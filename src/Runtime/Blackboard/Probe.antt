-- ===== src/Runtime/Blackboard/Probe.antt =====
-- Where the probing loops end. Distances go forward round the table.
use caliper_msg_pattern.Prelude.{
  ℕ, zero, suc, ◌+◌, ◌-◌, ◌%◌, ◌<◌, ◌≡◌, ◌≢◌, refl, arith, ◌||◌, Option, some, ◌==◌, Bool-cases,
  inl, inr, ◌⊎◌,
}
use native.Mathlib.Decide.{ℕ_discrete}
use caliper_msg_pattern.Common.Entry.{inv_id}
use caliper_msg_pattern.Runtime.Blackboard.{
  nmax, Table, probe, free_probe, find_existing_entry, find_free_slot,
}

abbrev pub dist : ℕ → ℕ → ℕ
dist a b = (b + nmax - a) % nmax

abbrev pub IsFree : Table → ℕ → Type 0
IsFree t i = (t i).key ≡ inv_id

pub next_lt : (i : ℕ) → (i + 1) % nmax < nmax
next_lt i = omega arith

pub dist_next : (i x : ℕ) → i < nmax → x < nmax → x ≢ i → dist ((i + 1) % nmax) x + 1 ≡ dist i x
dist_next i x hi hx ne = omega arith

pub dist_self : (i : ℕ) → i < nmax → dist i i ≡ 0
dist_self i hi = omega arith

-- The slots from `i` up to `j`, and not `j`, are used by keys other than `key`.
abbrev pub PassedBy : Table → ℕ → ℕ → ℕ → Type 0
PassedBy t key i j =
    (x : ℕ) → x < nmax → dist i x < dist i j → ((t x).key ≢ key) × ((t x).key ≢ inv_id)

passed_next :
    (t : Table) (key i j : ℕ)
    → i < nmax
    → j < nmax
    → (t i).key ≢ key
    → (t i).key ≢ inv_id
    → PassedBy t key ((i + 1) % nmax) j
    → PassedBy t key i j
passed_next t key i j hi hj p q rest x hx lt = elim (ℕ_discrete x i) [
  | yes e ↦ rw e (p, q)
  | no ne ↦ elim (ℕ_discrete j i) [
    | yes e ↦ absurd (omega arith)
    | no ne' ↦ rest x hx (omega (arith, dist_next i x hi hx ne, dist_next i j hi hj ne'))
  ]
]

-- What a probing loop that started at `i` found.
abbrev pub EndsAt : Table → ℕ → ℕ → Option ℕ → Type 0
EndsAt t key i r =
    (j : ℕ) × (r ≡ some j) × (j < nmax) × (((t j).key ≡ key) ⊎ IsFree t j) × PassedBy t key i j

-- With a free slot within reach of the fuel the loop ends, at the first slot that is free or
-- holds the key.
pub probe-EndsAt :
    (t : Table) (key f fuel i : ℕ)
    → f < nmax
    → IsFree t f
    → i < nmax
    → dist i f < fuel
    → EndsAt t key i (probe t fuel i key)
unfolding probe
probe-EndsAt t key f zero i hf free hi h = absurd (omega arith)
probe-EndsAt t key f (suc fuel) i hf free hi h =
    elim (Bool-cases ((t i).key == key || (t i).key == inv_id)) [
      | inl stop ↦ (i, rw stop, hi, ground arith, λ x hx lt. absurd (omega (arith, dist_self i hi)))
      | inr go ↦
          let this : (t i).key ≢ key = ground arith in
          let used : (t i).key ≢ inv_id = ground arith in
          let ne : f ≢ i = λ e. used (rw (← e) free) in
          let (j, run, hj, ends, before) =
            probe-EndsAt t key f fuel ((i + 1) % nmax) hf free (next_lt i)
              (omega (arith, dist_next i f hi hf ne)) in
          (j, rw go run, hj, ends, passed_next t key i j hi hj this used before)
    ]

-- Looking for the invalid key is looking for a free slot.
pub free_probe-probe : (t : Table) (fuel i : ℕ) → free_probe t fuel i ≡ probe t fuel i inv_id
unfolding free_probe probe
free_probe-probe t zero i = refl
free_probe-probe t (suc fuel) i = ground (arith, free_probe-probe t fuel ((i + 1) % nmax))

pub dist_lt : (a b : ℕ) → dist a b < nmax
dist_lt a b = omega arith

pub find_existing-EndsAt :
    (t : Table) (key f : ℕ)
    → f < nmax
    → IsFree t f
    → EndsAt t key (key % nmax) (find_existing_entry t key)
unfolding find_existing_entry
find_existing-EndsAt t key f hf free =
    probe-EndsAt t key f nmax (key % nmax) hf free (omega arith) (dist_lt (key % nmax) f)

pub find_free-EndsAt :
    (t : Table) (key f : ℕ)
    → f < nmax
    → IsFree t f
    → EndsAt t inv_id (key % nmax) (find_free_slot t key)
unfolding find_free_slot
find_free-EndsAt t key f hf free =
    rw free_probe-probe
      (probe-EndsAt t inv_id f nmax (key % nmax) hf free (omega arith) (dist_lt (key % nmax) f))
