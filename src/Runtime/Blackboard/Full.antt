-- ===== src/Runtime/Blackboard/Full.antt =====
-- `set` and `exchange` on a table that takes no more entries.
use caliper_msg_pattern.Prelude.{ℕ, ◌+◌, ◌/◌, ◌<◌, ◌≡◌, ◌≢◌, arith, Bool, some, lt→ltb}
use caliper_msg_pattern.Common.Entry.{Entry, no_entry, inv_id}
use caliper_msg_pattern.Runtime.Blackboard.{nmax, Blackboard, counted, add, set, exchange}
use caliper_msg_pattern.Runtime.Blackboard.Probe.{find_free-EndsAt}
use caliper_msg_pattern.Runtime.Blackboard.Table.{IsValid, IsFree-of_used, find_Found}

-- The blackboard with one more skipped entry.
abbrev pub skipping : Blackboard → Blackboard
skipping bb = record bb { num_skipped = bb.num_skipped + 1 }

module _ (bb : Blackboard) (key : ℕ) (v : Entry) (incl : Bool) (valid : IsValid bb)
    (real : key ≢ inv_id) where
  add-skipping : bb.num_entries ≡ 910 → add bb key v incl ≡ some (skipping bb)
  unfolding add
  add-skipping full =
      let (f, hf, free) = IsFree-of_used bb.hashtable nmax (omega (arith, valid.entries)) in
      let (j, run, hj, ends, before) = find_free-EndsAt bb.hashtable key f hf free in
      rw (run, lt→ltb nmax (bb.num_entries + (nmax / 10 + 10)) (omega arith))

  -- On a valid blackboard that holds 910 entries, for a valid key that no slot holds, `set` and
  -- `exchange` end and store nothing: they count a skipped entry and an update, and `exchange`
  -- returns the empty entry.
  pub set-skipping :
      bb.num_entries ≡ 910
      → ((s : ℕ) → s < nmax → (bb.hashtable s).key ≢ key)
      → (set bb key v incl ≡ some (counted (skipping bb)))
        × (exchange bb key v incl ≡ some (no_entry, counted (skipping bb)))
  unfolding set exchange
  set-skipping full absent =
      let (j, run, hj, found, before) = find_Found bb key valid real in
      (
        ground (arith, run, absent j hj, add-skipping full),
        ground (arith, run, absent j hj, add-skipping full),
      )
