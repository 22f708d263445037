-- ===== src/Common/Snapshot.antt =====
-- include/caliper/SnapshotRecord.h, and the equality of entries of include/caliper/common/Entry.h.
-- A snapshot view is the list of its entries; a builder's `m_len` is the length of its list.
pub mod Build
mod Tests
use caliper_msg_pattern.Prelude.{
  ℕ, ◌+◌, ◌-◌, min, Bool, true, false, not, ◌&&◌, ◌||◌, List, [], ◌∷◌, ◌++◌, if◌then◌else◌, ltb,
  ◌==◌, length, take,
}
use caliper_msg_pattern.Common.Variant.Types.{Memory}
use caliper_msg_pattern.Common.Variant.Compare.{wrap_difference, variant_eq}
use caliper_msg_pattern.Common.Entry.{
  NodePtr, Attribute, Entry, no_entry, attribute_id, entry_get, is_null, is_immediate, has_id,
}

-- Two pointers that are equal or whose nodes have one id.
abbrev pub node_eq : NodePtr → NodePtr → Bool
node_eq [] [] = true
node_eq [] (k ∷ q) = false
node_eq (n ∷ p) [] = false
node_eq (n ∷ p) (k ∷ q) = n.id == k.id

-- `operator ==` on entries
unfoldable pub entry_eq : Memory → Entry → Entry → Bool
unfolding variant_eq
entry_eq m l r =
    node_eq l.node r.node
    && (not (is_immediate l) || (is_immediate l && variant_eq m l.value r.value))

-- `SnapshotView::get`
unfoldable pub snapshot_get : List Entry → Attribute → Entry
unfolding entry_get
snapshot_get [] attr = no_entry
snapshot_get (e ∷ es) attr =
    let ret = entry_get e attr in
    let rest = snapshot_get es attr in if not (is_null ret.node) then ret else rest

abbrev pub immediate_from : List Entry → ℕ → Entry
immediate_from [] attr_id = no_entry
immediate_from (e ∷ es) attr_id = if has_id e.node attr_id then e else immediate_from es attr_id

-- `SnapshotView::get_immediate_entry`
unfoldable pub get_immediate_entry : List Entry → Attribute → Entry
get_immediate_entry rec attr = immediate_from rec (attribute_id attr)

pub record SnapshotBuilder : Type 0 where
  pub capacity : ℕ
  pub content : List Entry
  pub skipped : ℕ

-- `SnapshotBuilder(size_t, Entry*)`
abbrev pub new_builder : ℕ → SnapshotBuilder
new_builder n = record { capacity = n; content = []; skipped = 0 }

-- `append(const Entry&)`
unfoldable pub build_entry : SnapshotBuilder → Entry → SnapshotBuilder
build_entry b e =
    if ltb (length b.content) b.capacity
    then record b { content = b.content ++ (e ∷ []) }
    else record b { skipped = b.skipped + 1 }

-- `append(size_t, const Entry*)`
unfoldable pub build_entries : SnapshotBuilder → List Entry → SnapshotBuilder
build_entries b es =
    let num_copied = min (length es) (wrap_difference b.capacity (length b.content)) in
    record b {
      content = b.content ++ take num_copied es;
      skipped = b.skipped + (length es - num_copied);
    }

-- One entry after the other, by the append of a single one.
unfoldable pub build_each : SnapshotBuilder → List Entry → SnapshotBuilder
unfolding build_entry
build_each b [] = b
build_each b (e ∷ es) = build_each (build_entry b e) es
