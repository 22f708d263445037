-- ===== src/Common/NodeBuffer/Visit.antt =====
-- src/common/NodeBuffer.cpp: a buffer that nodes were appended to, and `for_each` on it.
use caliper_msg_pattern.Prelude.{
  ℕ, ◌+◌, ◌≤◌, ◌<◌, ◌≡◌, refl, sym, ap, ◌∙◌, arith, Bool, true, false, Option, some, List, [], ◌∷◌,
  ◌++◌, if◌then◌else◌, ltb, le→leb, length, drop, length-append, length-drop, drop-add, drop-append,
  append_assoc, append-nil, All, ◌>>=◌,
}
use caliper_msg_pattern.Util.Vlenc.{IsU64, vlenc_u64}
use caliper_msg_pattern.Util.Vlenc.Bounds.{vlenc_u64_shape}
use caliper_msg_pattern.Common.Variant.Types.{type_number}
use caliper_msg_pattern.Common.NodeBuffer.{
  NodeInfo, NodeBuffer, new_node_buffer, have_parent, id_and_flag, pack_parent, node_bytes,
  pack_node, reserve, max_packed_size, append_node, visit_nodes, for_each_node,
}
use caliper_msg_pattern.Common.NodeBuffer.RoundTrip.{
  IsPackable, flag_of, type_fits, unpack_node-split, total, content_fits,
}

-- The packed bytes of nodes, one behind the other.
abbrev pub pack_nodes : List NodeInfo → List ℕ
pack_nodes [] = []
pack_nodes (info ∷ infos) = node_bytes info ++ pack_nodes infos

-- `append` on nodes one after the other.
unfoldable pub append_nodes_of : NodeBuffer → List NodeInfo → Option NodeBuffer
unfolding append_node
append_nodes_of nb [] = some nb
append_nodes_of nb (info ∷ infos) = do next ← append_node nb info; append_nodes_of next infos

parent_size : (info : NodeInfo) → IsU64 info.parent_id → length (pack_parent info) ≤ 10
parent_size info h = at (have_parent info)
  where
    at : (b : Bool) → length (if b then (vlenc_u64 info.parent_id).1 else []) ≤ 10
    at true = omega (arith, (vlenc_u64_shape info.parent_id h))
    at false = omega arith

number_size : (v : ℕ) → IsU64 v → (1 ≤ length (vlenc_u64 v).1) × (length (vlenc_u64 v).1 ≤ 10)
number_size v h =
    let (bytes, same, low, high) = vlenc_u64_shape v h in
    (omega (arith, same, low), omega (arith, same, high))

-- A packed node takes a byte at least, and no more than `max_packed_size`.
pack_node_size :
    (info : NodeInfo)
    → IsPackable info
    → (0 < length (node_bytes info)) × (length (node_bytes info) ≤ max_packed_size info)
unfolding node_bytes
pack_node_size info ok =
    let (a, a2) =
      number_size (id_and_flag info) (flag_of (have_parent info) info.node_id ok.id_fits).2 in
    let (b, b2) = number_size info.attr_id ok.attr_fits in
    let (t, t2) = number_size (type_number info.value.type) (type_fits info.value.type) in
    let (s, s2) = number_size (length info.value.content) (content_fits info ok) in
    (
      omega (arith, a, total info [] 0 [] ok),
      omega (arith, a2, b2, t2, s2, parent_size info ok.parent_fits, total info [] 0 [] ok),
    )

reserve_enough : (nb : NodeBuffer) (min : ℕ) → min ≤ (reserve nb min).reserved_len
unfolding reserve
reserve_enough nb min = ground arith

reserve_keeps : (nb : NodeBuffer) (min : ℕ) → (reserve nb min).buffer ≡ nb.buffer
unfolding reserve
reserve_keeps nb min = ground arith

reserve_count : (nb : NodeBuffer) (min : ℕ) → (reserve nb min).count ≡ nb.count
unfolding reserve
reserve_count nb min = ground arith

-- What a buffer holds after nodes were appended.
abbrev Holds : NodeBuffer → List ℕ → ℕ → NodeBuffer → Type 0
Holds nb bytes n after = (after.buffer ≡ nb.buffer ++ bytes) × (after.count ≡ nb.count + n)

-- An append stays in the reserved bytes.
append_node-Holds :
    (nb : NodeBuffer) (info : NodeInfo)
    → IsPackable info
    → (after : NodeBuffer) × (append_node nb info ≡ some after) × Holds nb (node_bytes info) 1 after
unfolding append_node pack_node
append_node-Holds nb info ok =
    let min = length nb.buffer + max_packed_size info in
    let r = reserve nb min in
    let fits = le→leb (length r.buffer + length (node_bytes info)) r.reserved_len (
      omega (
        arith,
        reserve_enough nb min,
        ap (λ (xs : List ℕ). length xs) (reserve_keeps nb min),
        (pack_node_size info ok).1,
      )) in
    (
      record r { count = r.count + 1; buffer = r.buffer ++ node_bytes info },
      simp (ok.own_data, fits),
      (
        ap (λ (xs : List ℕ). xs ++ node_bytes info) (reserve_keeps nb min),
        ap (λ (n : ℕ). n + 1) (reserve_count nb min),
      ),
    )

append_nodes_of-Holds :
    (infos : List NodeInfo) (nb : NodeBuffer)
    → All IsPackable infos
    → (after : NodeBuffer) × (append_nodes_of nb infos ≡ some after)
      × Holds nb (pack_nodes infos) (length infos) after
unfolding append_nodes_of
append_nodes_of-Holds [] nb h = (nb, refl, (sym (append-nil nb.buffer), omega arith))
append_nodes_of-Holds (info ∷ infos) nb (ok, h) =
    let (next, run, (bytes, one)) = append_node-Holds nb info ok in
    let (after, rest, (more, n)) = append_nodes_of-Holds infos next h in
    (
      after,
      rw run rest,
      (
        more
            ∙ ap (λ (xs : List ℕ). xs ++ pack_nodes infos) bytes
            ∙ append_assoc nb.buffer (node_bytes info) (pack_nodes infos),
        omega (arith, n, one),
      ),
    )

inside :
    (info : NodeInfo) (buf rest : List ℕ) (pos : ℕ)
    → IsPackable info
    → drop pos buf ≡ node_bytes info ++ rest
    → ltb pos (length buf) ≡ true
inside info buf rest pos ok e = ground (
  arith,
  (pack_node_size info ok).0,
  length-drop pos buf,
  ap (λ (xs : List ℕ). length xs) e,
  length-append (node_bytes info) rest,
)

-- The loop reads the nodes that stand in the buffer.
visit_nodes-packed :
    (infos : List NodeInfo) (buf : List ℕ) (pos : ℕ)
    → All IsPackable infos
    → drop pos buf ≡ pack_nodes infos
    → visit_nodes buf (length infos) pos ≡ some infos
unfolding visit_nodes
visit_nodes-packed [] buf pos h e = refl
visit_nodes-packed (info ∷ infos) buf pos (ok, h) e =
    let run = unpack_node-split info buf pos (pack_nodes infos) ok e in
    let rest = visit_nodes-packed infos buf (pos + length (node_bytes info)) h (
      drop-add pos (length (node_bytes info)) buf
      ∙ ap (drop (length (node_bytes info))) e
      ∙ drop-append (node_bytes info) (pack_nodes infos)) in
    simp (inside info buf (pack_nodes infos) pos ok e, run, rest)

-- Nodes that the format can hold, whose values are of any type but a pointer, appended to a new buffer one after the other: no append writes
-- behind the reserved bytes, and `for_each` then calls its function with these nodes, in order.
pub for_each_node-append :
    (infos : List NodeInfo)
    → All IsPackable infos
    → (after : NodeBuffer) × (append_nodes_of new_node_buffer infos ≡ some after)
      × (after.count ≡ length infos)
      × (for_each_node after ≡ some infos)
unfolding for_each_node
for_each_node-append infos h =
    let (after, run, (bytes, n)) = append_nodes_of-Holds infos new_node_buffer h in
    (
      after,
      run,
      omega (arith, n),
      ap (λ (k : ℕ). visit_nodes after.buffer k 0) (omega (arith, n))
          ∙ visit_nodes-packed infos after.buffer 0 h bytes,
    )
