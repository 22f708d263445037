-- ===== src/Runtime/Caliper.antt =====
-- src/caliper/Caliper.cpp: begin, end, end_with_value_check, set and get of a thread, on the thread's
-- blackboard, the process blackboard and the context tree. The services' callbacks are recorded as
-- events, one for each active channel. The signal lock is left out. The result `none` is a fault: a
-- null node that is read, a value that is copied to null, or a probing loop without an end. Results
-- are stated as `some`, which excludes all three.
pub mod Region
pub mod Begin
pub mod End
pub mod Around
pub mod Balanced
pub mod Errors
mod Tests
use caliper_msg_pattern.Prelude.{
  ℕ, suc, ◌+◌, ◌*◌, ◌/◌, ◌%◌, Bool, true, false, not, ◌&&◌, ◌||◌, Option, none, some, List, [], ◌∷◌,
  ◌++◌, map, if◌then◌else◌, ◌==◌, ◌>>=◌,
}
use caliper_msg_pattern.Prelude.Int.{bits64}
use caliper_msg_pattern.Common.Variant.Types.{Memory, CaliVariant}
use caliper_msg_pattern.Common.Variant.Convert.{DoubleOps}
use caliper_msg_pattern.Common.Variant.Compare.{variant_eq}
use caliper_msg_pattern.Common.Entry.{
  NodePtr, Attribute, attribute_id, properties, Entry, no_entry, node_entry, immediate_entry,
  entry_attribute, entry_get, is_null,
}
use caliper_msg_pattern.Runtime.Blackboard
use caliper_msg_pattern.Runtime.Blackboard.{Blackboard}
use caliper_msg_pattern.Runtime.MetadataTree.{
  TreeConfig, Tree, root, same_node, get_child, remove_first_in_path, replace_first_in_path,
}

-- The property flags, as bits of the number.
abbrev pub is_asvalue : ℕ → Bool
is_asvalue prop = prop % 2 == 1

abbrev pub has_skip_events : ℕ → Bool
has_skip_events prop = prop / 64 % 2 == 1

abbrev pub has_hidden : ℕ → Bool
has_hidden prop = prop / 128 % 2 == 1

abbrev pub has_unaligned : ℕ → Bool
has_unaligned prop = prop / 1024 % 2 == 1

-- `prop & CALI_ATTR_SCOPE_MASK`
abbrev pub scope_of : ℕ → ℕ
scope_of prop = prop / 4 % 16 * 4

abbrev pub scope_process : ℕ
scope_process = 12

abbrev pub scope_thread : ℕ
scope_thread = 20

-- `REGION_KEY`, `UNALIGNED_KEY`
abbrev pub region_key : ℕ
region_key = 1

abbrev pub unaligned_key : ℕ
unaligned_key = 2

unfoldable pub get_blackboard_key : ℕ → ℕ → ℕ
get_blackboard_key attr_id prop =
    if is_asvalue prop then attr_id else if has_unaligned prop then unaligned_key else region_key

unfoldable pub reference_key : ℕ → ℕ
reference_key prop = if has_unaligned prop then unaligned_key else region_key

-- `Entry(Node*)` reads the node.
abbrev pub entry_of : NodePtr → Option Entry
entry_of [] = none
entry_of (n ∷ up) = some (node_entry n up)

module _ (c : TreeConfig) where
  unfoldable pub handle_begin :
      Attribute → CaliVariant → ℕ → Blackboard → Tree → Option (Blackboard × Tree)
  handle_begin attr value prop blackboard tree =
      if is_asvalue prop
      then (do
        bb ←
            Blackboard.set blackboard (attribute_id attr) (immediate_entry attr value)
              (not (has_hidden prop))
        some (bb, tree))
      else (do
        current ← Blackboard.get blackboard (reference_key prop)
        (node, t) ← get_child c tree (attribute_id attr) value current.node
        entry ← entry_of node
        bb ← Blackboard.set blackboard (reference_key prop) entry (not (has_hidden prop))
        some (bb, t))

  -- The end of `handle_end`, with the node that `remove_first_in_path` returned.
  unfoldable pub put_back : ℕ → NodePtr × Tree → ℕ → Blackboard → Option (Blackboard × Tree)
  put_back prop (node, t) key blackboard =
      if same_node node root then (do bb ← Blackboard.del blackboard key; some (bb, t)) else (do
        entry ← entry_of node
        bb ← Blackboard.set blackboard key entry (not (has_hidden prop))
        some (bb, t))

  unfoldable pub handle_end :
      Attribute → ℕ → Entry → ℕ → Blackboard → Tree → Option (Blackboard × Tree)
  handle_end attr prop merged_entry key blackboard tree =
      if is_asvalue prop
      then (do bb ← Blackboard.del blackboard key; some (bb, tree))
      else put_back prop (remove_first_in_path c tree merged_entry.node (attribute_id attr)) key
          blackboard

  unfoldable pub handle_set :
      Attribute → CaliVariant → ℕ → Blackboard → Tree → Option (Blackboard × Tree)
  handle_set attr value prop blackboard tree =
      if is_asvalue prop
      then (do
        bb ←
            Blackboard.set blackboard (attribute_id attr) (immediate_entry attr value)
              (not (has_hidden prop))
        some (bb, tree))
      else (do
        current ← Blackboard.get blackboard (reference_key prop)
        (node, t) ← replace_first_in_path c tree current.node (attribute_id attr) value
        entry ← entry_of node
        bb ← Blackboard.set blackboard (reference_key prop) entry (not (has_hidden prop))
        some (bb, t))

-- `BlackboardEntry`
pub record BlackboardEntry : Type 0 where
  pub merged_entry : Entry
  pub entry : Entry

abbrev pub no_current : BlackboardEntry
no_current = record { merged_entry = no_entry; entry = no_entry }

abbrev pub current_of : ℕ → ℕ → Bool → Entry → Entry → BlackboardEntry
current_of attr_id key allow_overlap merged entry =
    if entry_attribute merged == attr_id
    then record { merged_entry = merged; entry = entry }
    else if is_null entry.node
    then no_current
    else if not (key == unaligned_key) && not allow_overlap
    then no_current
    else record { merged_entry = merged; entry = entry }

unfoldable pub load_current_entry : Attribute → ℕ → Blackboard → Bool → Option BlackboardEntry
unfolding Blackboard.get entry_get entry_attribute
load_current_entry attr key blackboard allow_overlap = do
  merged ← Blackboard.get blackboard key
  some (current_of (attribute_id attr) key allow_overlap merged (entry_get merged attr))

-- The calls of the services' callbacks, with the number of the channel.
pub data Event : Type 0 where
  pre_begin_evt post_begin_evt pre_end_evt pre_set_evt : ℕ → Attribute → CaliVariant → Event

-- The state that a thread works on: `ThreadData`, the process blackboard of `GlobalData`, the
-- channels that are active, and the callbacks so far.
pub record Caliper : Type 0 where
  pub thread_blackboard : Blackboard
  pub process_blackboard : Blackboard
  pub tree : Tree
  pub stack_error : Bool
  pub active : List ℕ
  pub allow_region_overlap : Bool
  pub events : List Event

-- The loop over the channels, if the attribute does not skip events.
unfoldable pub invoke : (ℕ → Event) → ℕ → Caliper → Caliper
invoke event prop s =
    if has_skip_events prop then s else record s { events = s.events ++ map event s.active }

-- The blackboard of a scope, and writing it back.
abbrev pub blackboard_of : ℕ → Caliper → Option Blackboard
blackboard_of prop s =
    if scope_of prop == scope_thread
    then some s.thread_blackboard
    else if scope_of prop == scope_process
    then some s.process_blackboard
    else none

unfoldable pub with_blackboard : ℕ → Caliper → Blackboard × Tree → Caliper
with_blackboard prop s (bb, t) =
    if scope_of prop == scope_thread
    then record s { thread_blackboard = bb; tree = t }
    else record s { process_blackboard = bb; tree = t }

-- A change of the scope's blackboard and the tree; without one of the two scopes there is none.
abbrev pub on_blackboard :
    Option Blackboard → (Blackboard → Option (Blackboard × Tree)) → ℕ → Caliper → Option Caliper
on_blackboard none change prop s = some s
on_blackboard (some bb) change prop s = do r ← change bb; some (with_blackboard prop s r)

abbrev pub prop_of : DoubleOps → Attribute → ℕ
prop_of d attr = bits64 (properties d attr)

module _ (c : TreeConfig) (d : DoubleOps) where
  -- `Caliper::begin`, for an attribute with these properties.
  unfoldable pub begin_as : ℕ → Caliper → Attribute → CaliVariant → Option Caliper
  begin_as prop s attr v =
      let before = invoke (λ ch. pre_begin_evt ch attr v) prop s in
      do
        after ←
            on_blackboard (blackboard_of prop s) (λ bb. handle_begin c attr v prop bb s.tree) prop
              before
        some (invoke (λ ch. post_begin_evt ch attr v) prop after)

  unfoldable pub begin : Caliper → Attribute → CaliVariant → Option Caliper
  begin s attr v = if s.stack_error then some s else begin_as (prop_of d attr) s attr v

  abbrev pub with_error : Caliper → Caliper
  with_error s = record s { stack_error = true }

  -- `Caliper::end` from the current entry on.
  unfoldable pub end_current :
      ℕ → Caliper → Attribute → Blackboard → BlackboardEntry → Option Caliper
  end_current prop s attr bb current =
      if is_null current.entry.node then some (with_error s) else (do
        r ←
            handle_end c attr prop current.merged_entry
              (get_blackboard_key (attribute_id attr) prop) bb s.tree
        some (
            with_blackboard prop (invoke (λ ch. pre_end_evt ch attr current.entry.value) prop s) r))

  abbrev pub end_on :
      (Blackboard → BlackboardEntry → Option Caliper)
      → ℕ
      → Caliper
      → Attribute
      → Option Blackboard
      → Option Caliper
  end_on finish prop s attr none = some s
  end_on finish prop s attr (some bb) = do
    current ←
        load_current_entry attr (get_blackboard_key (attribute_id attr) prop) bb
          s.allow_region_overlap
    finish bb current

  unfoldable pub end : Caliper → Attribute → Option Caliper
  end s attr =
      let prop = prop_of d attr in
      if s.stack_error
      then some s
      else end_on (end_current prop s attr) prop s attr (blackboard_of prop s)

  -- `Caliper::end_with_value_check` from the current entry on.
  unfoldable pub end_checked :
      ℕ → Caliper → Attribute → CaliVariant → Blackboard → BlackboardEntry → Option Caliper
  end_checked prop s attr v bb current =
      if is_null current.entry.node || not (variant_eq s.tree.memory v current.entry.value)
      then some (with_error s)
      else end_current prop s attr bb current

  unfoldable pub end_with_value_check : Caliper → Attribute → CaliVariant → Option Caliper
  end_with_value_check s attr v =
      let prop = prop_of d attr in
      if s.stack_error
      then some s
      else end_on (end_checked prop s attr v) prop s attr (blackboard_of prop s)

  unfoldable pub set : Caliper → Attribute → CaliVariant → Option Caliper
  set s attr v =
      let prop = prop_of d attr in
      if s.stack_error
      then some s
      else on_blackboard (blackboard_of prop s) (λ bb. handle_set c attr v prop bb s.tree) prop
          (invoke (λ ch. pre_set_evt ch attr v) prop s)

  abbrev pub get_on : Attribute → ℕ → Option Blackboard → Option Entry
  get_on attr key none = some no_entry
  get_on attr key (some bb) = do e ← Blackboard.get bb key; some (entry_get e attr)

  -- `Caliper::get`
  unfoldable pub get : Caliper → Attribute → Option Entry
  get s attr =
      let prop = prop_of d attr in
      get_on attr (get_blackboard_key (attribute_id attr) prop) (blackboard_of prop s)

  abbrev pub exchange_on :
      Attribute → CaliVariant → ℕ → Option Blackboard → Option (Entry × Blackboard)
  exchange_on attr v prop none = none
  exchange_on attr v prop (some bb) =
      Blackboard.exchange bb (get_blackboard_key (attribute_id attr) prop) (immediate_entry attr v)
        (not (has_hidden prop))

  -- `Caliper::exchange`: there is no test for a scope without a blackboard.
  unfoldable pub exchange : Caliper → Attribute → CaliVariant → Option (CaliVariant × Caliper)
  unfolding get_blackboard_key Blackboard.exchange properties
  exchange s attr v = do
    (old, bb) ← exchange_on attr v (prop_of d attr) (blackboard_of (prop_of d attr) s)
    some (old.value, with_blackboard (prop_of d attr) s (bb, s.tree))

  -- `Caliper::begin`, `end` and `set` on the blackboard of a channel, with its callbacks if it is
  -- active. The results are the channel's blackboard, the tree, the callbacks and the error flag.
  abbrev pub channel_events : Bool → ℕ → Event → List Event
  channel_events active prop event = if not (has_skip_events prop) && active then event ∷ [] else []

  unfoldable pub channel_begin :
      ℕ
      → Bool
      → Attribute
      → CaliVariant
      → Blackboard
      → Tree
      → Option (Blackboard × Tree × List Event)
  unfolding handle_begin properties
  channel_begin ch active attr v bb t = do
    (bb', t') ← handle_begin c attr v (prop_of d attr) bb t
    some (
      bb',
      t',
      channel_events active (prop_of d attr) (pre_begin_evt ch attr v)
          ++ channel_events active (prop_of d attr) (post_begin_evt ch attr v),
    )

  abbrev pub channel_end_current :
      ℕ
      → Bool
      → Attribute
      → Blackboard
      → Tree
      → BlackboardEntry
      → Option (Blackboard × Tree × List Event × Bool)
  channel_end_current ch active attr bb t current =
      let prop = prop_of d attr in
      if is_null current.entry.node then some (bb, t, [], true) else (do
        (bb', t') ←
            handle_end c attr prop current.merged_entry
              (get_blackboard_key (attribute_id attr) prop) bb t
        some (bb', t', channel_events active prop (pre_end_evt ch attr current.entry.value), false))

  unfoldable pub channel_end :
      ℕ
      → Bool
      → Bool
      → Attribute
      → Blackboard
      → Tree
      → Option (Blackboard × Tree × List Event × Bool)
  unfolding load_current_entry handle_end get_blackboard_key properties
  channel_end ch active allow_overlap attr bb t = do
    current ←
        load_current_entry attr (get_blackboard_key (attribute_id attr) (prop_of d attr)) bb
          allow_overlap
    channel_end_current ch active attr bb t current

  unfoldable pub channel_set :
      ℕ
      → Bool
      → Attribute
      → CaliVariant
      → Blackboard
      → Tree
      → Option (Blackboard × Tree × List Event)
  unfolding handle_set properties
  channel_set ch active attr v bb t = do
    (bb', t') ← handle_set c attr v (prop_of d attr) bb t
    some (bb', t', channel_events active (prop_of d attr) (pre_set_evt ch attr v))
