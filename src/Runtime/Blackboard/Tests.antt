-- ===== src/Runtime/Blackboard/Tests.antt =====
-- The blackboard's operations on a table with one entry and on a full table.
use caliper_msg_pattern.Prelude.{
  ℕ, zero, suc, ◌<◌, ◌≡◌, ◌≢◌, refl, sym, ◌∙◌, arith, true, false, some, if◌then◌else◌, [], ◌∷◌,
  ltb, ltb→lt, min, Bool-cases, inl, inr,
}
use caliper_msg_pattern.Common.Entry.{Entry, no_entry, inv_id}
use caliper_msg_pattern.Runtime.Blackboard.{
  nmax, Table, Blackboard, free_slot, empty_blackboard, place, counted, get, set, exchange, del,
  snapshot,
}
use caliper_msg_pattern.Runtime.Blackboard.Table.{
  IsTable, IsValid, used, used-update, used_empty, empty_table, empty-IsTable,
}
use caliper_msg_pattern.Runtime.Blackboard.Update.{placed-IsTable}
use caliper_msg_pattern.Runtime.Blackboard.Set.{Wrote, set-Wrote, exchange-Wrote}
use caliper_msg_pattern.Runtime.Blackboard.Full.{skipping, set-skipping}
use caliper_msg_pattern.Runtime.Blackboard.Delete.{Deleted, del-Deleted}

abbrev value : Entry
value = record { node = []; value = record { type_and_size = 3; v_uint = 42 } }

five-real : 5 ≢ inv_id
five-real = omega arith

key-real : 1026 ≢ inv_id
key-real = omega arith

-- The entry 5 in its home slot.
abbrev one_entry : Blackboard
one_entry = counted (place empty_blackboard 5 5 value true)

one-IsValid : IsValid one_entry
one-IsValid = record {
  table =
      placed-IsTable empty_table 5 value 5 (omega arith) five-real empty-IsTable refl
        (λ s hs e. five-real (sym e)) (λ x hx lt. absurd (omega arith));
  entries = omega (
    arith,
    used_empty nmax,
    used-update empty_table 5 (record { key = 5; value = value }) nmax (omega arith),
  );
  room = omega arith;
}

-- The key 1026 has the home slot 5 too.
set-Wrote_example :
    (bb' : Blackboard) × (set one_entry 1026 value true ≡ some bb') × Wrote one_entry 1026 value bb'
set-Wrote_example = set-Wrote one_entry 1026 value one-IsValid key-real true (omega arith)

exchange-Wrote_example :
    (old : Entry) × (bb' : Blackboard) × (exchange one_entry 5 no_entry false ≡ some (old, bb'))
    × (get one_entry 5 ≡ some old)
    × Wrote one_entry 5 no_entry bb'
exchange-Wrote_example =
    exchange-Wrote one_entry 5 no_entry one-IsValid five-real false (omega arith)

del-Deleted_example : (bb' : Blackboard) × (del one_entry 5 ≡ some bb') × Deleted one_entry 5 bb'
del-Deleted_example = del-Deleted one_entry 5 one-IsValid five-real

-- A snapshot takes the included entry.
snapshot_one : snapshot one_entry ≡ value ∷ []
unfolding snapshot
snapshot_one = refl

-- The keys 0 to 909, each in its home slot.
abbrev full_table : Table
full_table s = if ltb s 910 then record { key = s; value = value } else free_slot

full_key : (s : ℕ) → (full_table s).key ≢ inv_id → (s < 910) × ((full_table s).key ≡ s)
full_key s p = elim (Bool-cases (ltb s 910)) [
  | inl t ↦ (ground arith, rw t)
  | inr t ↦ absurd (p (rw t))
]

full-IsTable : IsTable full_table
full-IsTable = record {
  chain = λ s x hs hx p lt. let k = full_key s p in absurd (omega (arith, rw k.1 at lt));
  unique = λ s x hs hx p e. sym (full_key s p).1 ∙ e ∙ (full_key x (λ q. p (e ∙ q))).1;
}

used_full : (n : ℕ) → used full_table n ≡ min n 910
unfolding used
used_full zero = omega arith
used_full (suc n) = ground (arith, used_full n)

abbrev full : Blackboard
full = record empty_blackboard { hashtable = full_table; num_entries = 910 }

full-IsValid : IsValid full
full-IsValid = record {
  table = full-IsTable;
  entries = omega (arith, used_full nmax);
  room = omega arith;
}

full_absent : (s : ℕ) → s < nmax → (full_table s).key ≢ 950
full_absent s hs e = elim (Bool-cases (ltb s 910)) [
  | inl t ↦ omega (arith, rw t at e, ltb→lt s 910 t)
  | inr t ↦ omega (arith, rw t at e)
]

set-skipping_example :
    (set full 950 value true ≡ some (counted (skipping full)))
    × (exchange full 950 value true ≡ some (no_entry, counted (skipping full)))
set-skipping_example = set-skipping full 950 value true full-IsValid (omega arith) refl full_absent
