-- ===== src/Runtime/Blackboard/Present.antt =====
-- `Blackboard::set` for a key that has an entry: it needs no room.
use caliper_msg_pattern.Prelude.{ℕ, ◌<◌, ◌≡◌, ◌≢◌, arith, Bool, some, inl, inr}
use caliper_msg_pattern.Common.Entry.{Entry, no_entry, inv_id}
use caliper_msg_pattern.Runtime.Blackboard.{
  nmax, Blackboard, store, counted, find_existing_entry, get, set,
}
use caliper_msg_pattern.Runtime.Blackboard.Table.{IsValid, Found, find_Found}
use caliper_msg_pattern.Runtime.Blackboard.Set.{Wrote, store-Wrote}

-- On a valid blackboard, for a valid key that has an entry, `set` ends and writes the value under the
-- key and nothing under other keys, however full the table is.
pub set_present-Wrote :
    (bb : Blackboard) (key : ℕ) (v e : Entry) (incl : Bool)
    → IsValid bb
    → key ≢ inv_id
    → get bb key ≡ some e
    → e ≢ no_entry
    → (bb' : Blackboard) × (set bb key v incl ≡ some bb') × Wrote bb key v bb'
unfolding get set
set_present-Wrote bb key v e incl valid real reads some_entry =
    let (j, run, hj, found, before) = find_Found bb key valid real in at_slot j run hj found
  where
    at_slot :
        (j : ℕ)
        → find_existing_entry bb.hashtable key ≡ some j
        → j < nmax
        → Found bb.hashtable key j
        → (bb' : Blackboard) × (set bb key v incl ≡ some bb') × Wrote bb key v bb'
    at_slot j run hj (inl held) = (
      counted (store bb j v),
      ground (arith, run, held),
      store-Wrote bb key v valid real j hj held,
    )
    at_slot j run hj (inr (free, absent)) =
        absurd (some_entry (ground (arith, run, reads, absent j hj)))
