-- ===== src/Runtime/Blackboard.antt =====
-- src/caliper/Blackboard.h, Blackboard.cpp: the process and thread blackboards, a hash table with
-- linear probing. An array is a function of the index. An `int` used as a bit field is the function
-- of its 32 bits. The lock is left out: operations follow one another.
pub mod Probe
pub mod Table
pub mod Update
pub mod Set
pub mod Present
pub mod Full
pub mod Circle
pub mod Shift
pub mod Delete
mod Tests
use caliper_msg_pattern.Prelude.{
  ℕ, zero, suc, ◌+◌, ◌*◌, ◌/◌, ◌%◌, ◌^◌, max, ◌-◌, Bool, true, false, not, ◌&&◌, ◌||◌, Option, none,
  some, List, [], ◌∷◌, ◌++◌, if◌then◌else◌, ◌==◌, ltb, leb, ◌>>=◌,
}
use caliper_msg_pattern.Common.Entry.{Entry, no_entry, inv_id}

-- `Nmax`
abbrev pub nmax : ℕ
nmax = 1021

-- `blackboard_entry_t`
pub record Slot : Type 0 where
  pub key : ℕ
  pub value : Entry

abbrev pub free_slot : Slot
free_slot = record { key = inv_id; value = no_entry }

abbrev pub Table : Type 0
Table = ℕ → Slot

abbrev pub update {ℓ} : {A : Type ℓ} → (ℕ → A) → ℕ → A → ℕ → A
update t i a x = if x == i then a else t x

pub record Blackboard : Type 0 where
  pub hashtable : Table
  pub toc : ℕ → ℕ → Bool
  pub toctoc : ℕ → Bool
  pub num_entries : ℕ
  pub max_num_entries : ℕ
  pub num_skipped : ℕ
  pub ucount : ℕ

-- The constructor.
abbrev pub empty_blackboard : Blackboard
empty_blackboard = record {
  hashtable = λ _. free_slot;
  toc = λ _ _. false;
  toctoc = λ _. false;
  num_entries = 0;
  max_num_entries = 0;
  num_skipped = 0;
  ucount = 0;
}

-- The loop of `find_existing_entry`, on fuel; `none` if the fuel runs out.
unfoldable pub probe : Table → ℕ → ℕ → ℕ → Option ℕ
probe t zero i key = none
probe t (suc fuel) i key =
    let next = probe t fuel ((i + 1) % nmax) key in
    if (t i).key == key || (t i).key == inv_id then some i else next

unfoldable pub find_existing_entry : Table → ℕ → Option ℕ
find_existing_entry t key = probe t nmax (key % nmax) key

-- The loop of `find_free_slot`.
unfoldable pub free_probe : Table → ℕ → ℕ → Option ℕ
free_probe t zero i = none
free_probe t (suc fuel) i =
    let next = free_probe t fuel ((i + 1) % nmax) in if (t i).key == inv_id then some i else next

unfoldable pub find_free_slot : Table → ℕ → Option ℕ
find_free_slot t key = free_probe t nmax (key % nmax)

abbrev pub set_bit : (ℕ → ℕ → Bool) → ℕ → ℕ → Bool → ℕ → ℕ → Bool
set_bit toc w b v = update toc w (update (toc w) b v)

-- The writes of `Blackboard::add` to the free slot `i`.
abbrev pub place : Blackboard → ℕ → ℕ → Entry → Bool → Blackboard
place bb i key value include_in_snapshots = record bb {
  hashtable = update bb.hashtable i (record { key = key; value = value });
  toc = if include_in_snapshots then set_bit bb.toc (i / 32) (i % 32) true else bb.toc;
  toctoc = if include_in_snapshots then update bb.toctoc (i / 32) true else bb.toctoc;
  num_entries = bb.num_entries + 1;
  max_num_entries = max (bb.num_entries + 1) bb.max_num_entries;
}

-- `Blackboard::add`
unfoldable pub add : Blackboard → ℕ → Entry → Bool → Option Blackboard
add bb key value include_in_snapshots = do
  i ← find_free_slot bb.hashtable key
  if ltb nmax (bb.num_entries + (nmax / 10 + 10))
      then some (record bb { num_skipped = bb.num_skipped + 1 })
      else some (place bb i key value include_in_snapshots)

-- `++ucount`
abbrev pub counted : Blackboard → Blackboard
counted bb = record bb { ucount = (bb.ucount + 1) % 2 ^ 32 }

-- `Blackboard::get`
unfoldable pub get : Blackboard → ℕ → Option Entry
get bb key = do
  i ← find_existing_entry bb.hashtable key
  if (bb.hashtable i).key == key then some (bb.hashtable i).value else some no_entry

abbrev pub store : Blackboard → ℕ → Entry → Blackboard
store bb i value = record bb {
  hashtable = update bb.hashtable i (record { key = (bb.hashtable i).key; value = value });
}

-- `Blackboard::set`
unfoldable pub set : Blackboard → ℕ → Entry → Bool → Option Blackboard
set bb key value include_in_snapshots = do
  i ← find_existing_entry bb.hashtable key
  bb' ←
      if (bb.hashtable i).key == key
      then some (store bb i value)
      else add bb key value include_in_snapshots
  some (counted bb')

-- `Blackboard::exchange`
unfoldable pub exchange : Blackboard → ℕ → Entry → Bool → Option (Entry × Blackboard)
exchange bb key value include_in_snapshots = do
  i ← find_existing_entry bb.hashtable key
  if (bb.hashtable i).key == key
      then some ((bb.hashtable i).value, counted (store bb i value))
      else do bb' ← add bb key value include_in_snapshots; some (no_entry, counted bb')

-- Whether the entry at `j`, whose home is `k`, may fill the hole at `i`.
abbrev pub fills : ℕ → ℕ → ℕ → Bool
fills i j k = (ltb i j && (leb k i || ltb j k)) || (ltb j i && (leb k i && ltb j k))

-- The loop of `del` that moves later entries back; the table and the hole at its end.
unfoldable pub shift_back : Table → ℕ → ℕ → ℕ → Option (Table × ℕ)
shift_back t zero i j = none
shift_back t (suc fuel) i j =
    let j' = (j + 1) % nmax in
    let moved = shift_back (update t i (t j')) fuel j' j' in
    let kept = shift_back t fuel i j' in
    if (t j').key == inv_id
    then some (t, i)
    else if fills i j' ((t j').key % nmax)
    then moved
    else kept

-- `toc[w] == 0`
unfoldable pub none_set : (ℕ → Bool) → ℕ → Bool
none_set word zero = true
none_set word (suc n) = not (word n) && none_set word n

-- The writes of `del` after its loop, which left the table `t` and the slot `hole`.
abbrev pub removed : Blackboard → Table → ℕ → Blackboard
removed bb t hole =
    let toc = set_bit bb.toc (hole / 32) (hole % 32) false in
    record bb {
      hashtable = update t hole free_slot;
      toc = toc;
      toctoc =
          if none_set (toc (hole / 32)) 32 then update bb.toctoc (hole / 32) false else bb.toctoc;
      num_entries = bb.num_entries - 1;
      ucount = (bb.ucount + 1) % 2 ^ 32;
    }

-- `Blackboard::del`
unfoldable pub del : Blackboard → ℕ → Option Blackboard
del bb key = do
  i ← find_existing_entry bb.hashtable key
  if not ((bb.hashtable i).key == key)
      then some bb
      else do (t, hole) ← shift_back bb.hashtable nmax i i; some (removed bb t hole)

-- `first_high_bit(x) - 1` on the bits from `b` on, of which there are `n`.
unfoldable pub first_bit : (ℕ → Bool) → ℕ → ℕ → Option ℕ
first_bit word zero b = none
first_bit word (suc n) b = let next = first_bit word n (b + 1) in if word b then some b else next

-- The inner loop of `snapshot`: the entries of one word of the table of contents.
unfoldable pub word_entries : Table → ℕ → ℕ → (ℕ → Bool) → List Entry
unfolding first_bit
word_entries t i zero word = []
word_entries t i (suc fuel) word = elim (first_bit word 32 0) [
  | none ↦ []
  | some j ↦ (t (i * 32 + j)).value ∷ word_entries t i fuel (update word j false)
]

-- The outer loop of `snapshot`.
unfoldable pub toc_entries : Table → (ℕ → ℕ → Bool) → ℕ → (ℕ → Bool) → List Entry
unfolding first_bit word_entries
toc_entries t toc zero word = []
toc_entries t toc (suc fuel) word = elim (first_bit word 32 0) [
  | none ↦ []
  | some i ↦ word_entries t i 32 (toc i) ++ toc_entries t toc fuel (update word i false)
]

-- `Blackboard::snapshot`: the entries appended, in order. A word has 32 bits, so 32 rounds do.
unfoldable pub snapshot : Blackboard → List Entry
unfolding toc_entries
snapshot bb = toc_entries bb.hashtable bb.toc 32 bb.toctoc
