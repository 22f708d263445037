-- ===== src/Runtime/Blackboard/Delete.antt =====
-- `Blackboard::del` against the table as a map.
use caliper_msg_pattern.Prelude.{
  ℕ, zero, suc, ◌+◌, ◌%◌, ◌<◌, ◌≡◌, ◌≢◌, refl, sym, ap, ◌∙◌, arith, Option, some, if◌then◌else◌,
  ◌==◌, Bool-cases, inl, inr, ==_refl, ◌>>=◌,
}
use native.Mathlib.Decide.{ℕ_discrete}
use caliper_msg_pattern.Common.Entry.{Entry, no_entry, inv_id}
use caliper_msg_pattern.Runtime.Blackboard.{
  nmax, Table, Blackboard, update, free_slot, fills, shift_back, find_existing_entry, get, del,
  removed,
}
use caliper_msg_pattern.Runtime.Blackboard.Probe.{dist, dist_lt, IsFree, next_lt, dist_next}
use caliper_msg_pattern.Runtime.Blackboard.Table.{
  home, IsTable, IsValid, used, used-update, IsFree-of_used, Found, find_Found, Reads, get-Reads,
  get-eq,
}
use caliper_msg_pattern.Runtime.Blackboard.Update.{update_self, update_ne, key_eq, value_eq}
use caliper_msg_pattern.Runtime.Blackboard.Set.{weight_used, weight_free}
use caliper_msg_pattern.Runtime.Blackboard.Shift.{
  Holed, moved_hole, moved_ne, next_ne, free_ne_here, stop-IsTable, kept-Holed, moved-Holed,
}

-- The table with the hole at `i` freed.
abbrev pub freed : Table → ℕ → Table
freed t i = update t i free_slot

freed_self : (t : Table) (i s : ℕ) → s ≡ i → freed t i s ≡ free_slot
freed_self t i s e = ap (freed t i) e ∙ update_self t i free_slot

freed_ne : (t : Table) (i s : ℕ) → s ≢ i → freed t i s ≡ t s
freed_ne t i s ne = update_ne t i s free_slot ne

-- A key that is read from a table with a hole is read from a slot beside the hole.
freed_slot : (t : Table) (i s k : ℕ) → k ≢ inv_id → (freed t i s).key ≡ k → s ≢ i
freed_slot t i s k real e q = real (sym e ∙ key_eq (freed_self t i s q))

module _ (t : Table) (i j f : ℕ) (inv : Holed t i j f) (p : (t ((j + 1) % nmax)).key ≢ inv_id) where
  abbrev n : ℕ
  n = (j + 1) % nmax

  abbrev t' : Table
  t' = update t i (t n)

  -- Moving an entry into the hole changes nothing that is read.
  moved-Reads : (k : ℕ) (e : Entry) → k ≢ inv_id → Reads (freed t i) k e → Reads (freed t' n) k e
  moved-Reads k e real (inl (s, hs, ks, vs)) = elim (ℕ_discrete s n) [
    | yes sn ↦
        let at_i : freed t' n i ≡ freed t i s =
          freed_ne t' n i (λ q. next_ne t i j f inv (sym q))
          ∙ moved_hole t i j f inv
          ∙ ap t (sym sn)
          ∙ sym (freed_ne t i s (freed_slot t i s k real ks)) in
        inl (i, inv.hole_lt, key_eq at_i ∙ ks, value_eq at_i ∙ vs)
    | no sn ↦
        let si = freed_slot t i s k real ks in
        let at_s : freed t' n s ≡ freed t i s =
          freed_ne t' n s sn ∙ moved_ne t i j f inv s si ∙ sym (freed_ne t i s si) in
        inl (s, hs, key_eq at_s ∙ ks, value_eq at_s ∙ vs)
  ]
  moved-Reads k e real (inr (absent, ee)) = inr (absent', ee)
    where
      absent' : (s : ℕ) → s < nmax → (freed t' n s).key ≢ k
      absent' s hs q =
          let sn = freed_slot t' n s k real q in
          elim (ℕ_discrete s i) [
            | yes si ↦ absurd (
                absent n (next_lt j) (
                  key_eq (freed_ne t i n (next_ne t i j f inv))
                  ∙ sym (key_eq (freed_ne t' n s sn ∙ ap t' si ∙ moved_hole t i j f inv))
                  ∙ q))
            | no si ↦ absent s hs (
                key_eq (freed_ne t i s si)
                ∙ sym (key_eq (freed_ne t' n s sn ∙ moved_ne t i j f inv s si))
                ∙ q)
          ]

  moved_count : used t' nmax ≡ used t nmax
  moved_count = omega (
    arith,
    used-update t i (t n) nmax inv.hole_lt,
    weight_used (t i) inv.hole_used,
    weight_used (t n) p,
  )

-- What the loop leaves: a table whose hole can be freed.
pub record Shifted (t : Table) (i : ℕ) (r : Option (Table × ℕ)) : Type 0 where
  pub last : Table
  pub hole : ℕ
  pub runs : r ≡ some (last, hole)
  pub hole_lt : hole < nmax
  pub hole_used : (last hole).key ≢ inv_id
  pub table : IsTable (freed last hole)
  pub same_count : used last nmax ≡ used t nmax
  pub same_reads :
      (k : ℕ) (e : Entry) → k ≢ inv_id → Reads (freed t i) k e → Reads (freed last hole) k e

-- The loop ends when a free slot is within reach of the fuel.
shift_back-Shifted :
    (fuel : ℕ) (t : Table) (i j f : ℕ)
    → Holed t i j f
    → dist j f < fuel
    → Shifted t i (shift_back t fuel i j)
unfolding shift_back
shift_back-Shifted zero t i j f inv h = absurd (omega arith)
shift_back-Shifted (suc fuel) t i j f inv h =
    elim (Bool-cases ((t ((j + 1) % nmax)).key == inv_id)) [
      | inl e ↦ record {
        last = t;
        hole = i;
        runs = rw e;
        hole_lt = inv.hole_lt;
        hole_used = inv.hole_used;
        table = stop-IsTable t i j f inv (ground arith);
        same_count = refl;
        same_reads = λ k e' real r. r;
      }
      | inr e ↦
          let p : (t ((j + 1) % nmax)).key ≢ inv_id = ground arith in
          let closer : dist ((j + 1) % nmax) f < fuel =
            omega (arith, dist_next j f inv.here_lt inv.free_lt (free_ne_here t i j f inv)) in
          elim (Bool-cases (fills i ((j + 1) % nmax) (home t ((j + 1) % nmax)))) [
            | inl goes ↦
                let r =
                  shift_back-Shifted fuel (update t i (t ((j + 1) % nmax))) ((j + 1) % nmax)
                    ((j + 1) % nmax) f (moved-Holed t i j f inv p goes) closer in
                record {
                  last = r.last;
                  hole = r.hole;
                  runs = rw (e, goes) r.runs;
                  hole_lt = r.hole_lt;
                  hole_used = r.hole_used;
                  table = r.table;
                  same_count = r.same_count ∙ moved_count t i j f inv p;
                  same_reads = λ k e' real reads.
                      r.same_reads k e' real (moved-Reads t i j f inv p k e' real reads);
                }
            | inr stays ↦
                let r =
                  shift_back-Shifted fuel t i ((j + 1) % nmax) f (kept-Holed t i j f inv p stays)
                    closer in
                record {
                  last = r.last;
                  hole = r.hole;
                  runs = rw (e, stays) r.runs;
                  hole_lt = r.hole_lt;
                  hole_used = r.hole_used;
                  table = r.table;
                  same_count = r.same_count;
                  same_reads = r.same_reads;
                }
          ]
    ]

-- What a call of `del` leaves behind.
pub record Deleted (bb : Blackboard) (key : ℕ) (bb' : Blackboard) : Type 0 where
  pub valid : IsValid bb'
  pub reads : (k : ℕ) → k ≢ inv_id → get bb' k ≡ (if k == key then some no_entry else get bb k)

module _ (bb : Blackboard) (key : ℕ) (valid : IsValid bb) (real : key ≢ inv_id) where
  deleted :
      (bb' : Blackboard)
      → IsValid bb'
      → Reads bb'.hashtable key no_entry
      → ((k : ℕ) (e : Entry)
          → k ≢ inv_id
          → k ≢ key
          → Reads bb.hashtable k e
          → Reads bb'.hashtable k e)
      → Deleted bb key bb'
  deleted bb' valid' self other = record { valid = valid'; reads = reads }
    where
      reads : (k : ℕ) → k ≢ inv_id → get bb' k ≡ (if k == key then some no_entry else get bb k)
      reads k kr = elim (ℕ_discrete k key) [
        | yes e ↦ rw (e, ==_refl) (get-eq bb' key no_entry valid' real self)
        | no ne ↦
            let (e, run, old) = get-Reads bb k valid kr in
            get-eq bb' k e valid' kr (other k e kr ne old) ∙ sym run ∙ ground arith
      ]

  module _ (i : ℕ) (hi : i < nmax) (held : (bb.hashtable i).key ≡ key) where
    abbrev t : Table
    t = bb.hashtable

    here : (t i).key ≢ inv_id
    here e = real (sym held ∙ e)

    -- The loop starts with the hole at the deleted entry.
    start-Holed : (f : ℕ) → f < nmax → IsFree t f → Holed t i i f
    start-Holed f hf free = record {
      hole_lt = hi;
      here_lt = hi;
      free_lt = hf;
      free = free;
      hole_used = here;
      here_used = here;
      ahead = from_hole f hf (λ e. here (ap (λ x. (t x).key) (sym e) ∙ free));
      unique = λ s x hs hx ns nx q e. valid.table.unique s x hs hx q e;
      path = λ s x hs hx ns nx q lt. valid.table.chain s x hs hx q lt;
      past = λ s hs ns q lt. from_hole s hs ns;
    }
      where
        from_hole : (s : ℕ) → s < nmax → s ≢ i → dist i i < dist i s
        from_hole s hs ne = omega arith

    -- Without the entry the key is absent, and the other keys read as before.
    freed_self-Reads : Reads (freed t i) key no_entry
    freed_self-Reads = inr (absent, refl)
      where
        absent : (s : ℕ) → s < nmax → (freed t i s).key ≢ key
        absent s hs q =
            let si = freed_slot t i s key real q in
            let ks : (t s).key ≡ key = sym (key_eq (freed_ne t i s si)) ∙ q in
            si (valid.table.unique s i hs hi (λ r. real (sym ks ∙ r)) (ks ∙ sym held))

    freed_other-Reads :
        (k : ℕ) (e : Entry) → k ≢ inv_id → k ≢ key → Reads t k e → Reads (freed t i) k e
    freed_other-Reads k e kr ne (inl (s, hs, ks, vs)) =
        let si : s ≢ i = λ q. ne (sym ks ∙ ap (λ x. (t x).key) q ∙ held) in
        inl (s, hs, key_eq (freed_ne t i s si) ∙ ks, value_eq (freed_ne t i s si) ∙ vs)
    freed_other-Reads k e kr ne (inr (absent, ee)) = inr (absent', ee)
      where
        absent' : (s : ℕ) → s < nmax → (freed t i s).key ≢ k
        absent' s hs q = elim (ℕ_discrete s i) [
          | yes si ↦ kr (sym q ∙ key_eq (freed_self t i s si))
          | no si ↦ absent s hs (sym (key_eq (freed_ne t i s si)) ∙ q)
        ]

    removed-Deleted :
        (f : ℕ)
        → f < nmax
        → IsFree t f
        → (bb' : Blackboard) × ((do (u, hole) ← shift_back t nmax i i; some (removed bb u hole))
            ≡ some bb')
          × Deleted bb key bb'
    removed-Deleted f hf free =
        let r = shift_back-Shifted nmax t i i f (start-Holed f hf free) (dist_lt i f) in
        let one : used (freed r.last r.hole) nmax + 1 ≡ used t nmax = omega (
          arith,
          used-update r.last r.hole free_slot nmax r.hole_lt,
          weight_used (r.last r.hole) r.hole_used,
          weight_free free_slot refl,
          r.same_count,
        ) in
        (
          removed bb r.last r.hole,
          rw r.runs,
          deleted (removed bb r.last r.hole)
              (record {
                table = r.table;
                entries = omega (arith, one, valid.entries);
                room = omega (arith, valid.room);
              })
              (r.same_reads key no_entry real freed_self-Reads)
              (λ k e kr ne old. r.same_reads k e kr (freed_other-Reads k e kr ne old)),
        )

  -- On a valid blackboard, for a valid key, `del` ends, keeps the blackboard valid, leaves nothing
  -- under the key, and keeps what is read under every other key.
  pub del-Deleted : (bb' : Blackboard) × (del bb key ≡ some bb') × Deleted bb key bb'
  unfolding del
  del-Deleted =
      let (j, run, hj, found, before) = find_Found bb key valid real in at_slot j run hj found
    where
      at_slot :
          (j : ℕ)
          → find_existing_entry bb.hashtable key ≡ some j
          → j < nmax
          → Found bb.hashtable key j
          → (bb' : Blackboard) × (del bb key ≡ some bb') × Deleted bb key bb'
      at_slot j run hj (inl e) =
          let (f, hf, free) =
            IsFree-of_used bb.hashtable nmax (omega (arith, valid.entries, valid.room)) in
          let (bb', runs, d) = removed-Deleted j hj e f hf free in
          (bb', rw (run, e, ==_refl) runs, d)
      at_slot j run hj (inr (free, absent)) = (
        bb,
        ground (arith, run, absent j hj),
        deleted bb valid (inr (absent, refl)) (λ k e kr ne old. old),
      )
