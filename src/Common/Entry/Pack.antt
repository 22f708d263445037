-- ===== src/Common/Entry/Pack.antt =====
-- `Entry::pack` and `Entry::unpack` of src/common/Entry.cpp. A buffer is as in Util/Vlenc. The
-- database's `node` is a parameter. Following the null pointer is a fault, `none`.
use caliper_msg_pattern.Prelude.{
  ℕ, ◌+◌, ◌≡◌, ◌∙◌, arith, true, false, not, Option, none, some, List, [], ◌∷◌, ◌++◌, length, drop,
  drop-append, append_assoc, if◌then◌else◌, ◌==◌, ◌>>=◌, Bool-cases, inl, inr,
}
use caliper_msg_pattern.Util.Vlenc.{IsU64, vlenc_u64, vldec_u64}
use caliper_msg_pattern.Util.Vlenc.RoundTrip.{vldec_u64-split, drop-vlenc_u64}
use caliper_msg_pattern.Common.Variant.Types.{CaliVariant}
use caliper_msg_pattern.Common.Variant.Pack.{variant_pack, variant_unpack}
use caliper_msg_pattern.Common.Variant.RoundTrip.{IsVariant, variant_unpack-split}
use caliper_msg_pattern.Common.Entry.{
  NodePtr, Entry, node_entry, is_null, is_immediate, attribute_id, data_of, name_attr_id,
}

abbrev pub pack_at : NodePtr → CaliVariant → Option (ℕ × List ℕ)
pack_at [] v = none
pack_at (n ∷ up) v =
    let (k, bytes) = vlenc_u64 n.id in
    let (l, more) = variant_pack v in
    if n.attribute == name_attr_id then some (k + l, bytes ++ more) else some (k, bytes)

-- The number of bytes and the bytes.
unfoldable pub entry_pack : Entry → Option (ℕ × List ℕ)
entry_pack e = pack_at e.node e.value

abbrev pub unpack_at : List ℕ → NodePtr → ℕ → Option (Entry × ℕ)
unpack_at buf [] p = none
unpack_at buf (n ∷ up) p =
    if not (n.attribute == name_attr_id)
    then some (node_entry n up, p)
    else do (v, q, okay) ← variant_unpack buf p; some (record { node = n ∷ up; value = v }, q)

-- The entry read from `buffer + pos`, and the position behind it.
unfoldable pub entry_unpack : (ℕ → NodePtr) → List ℕ → ℕ → Option (Entry × ℕ)
entry_unpack node buf pos = do (id, p) ← vldec_u64 buf pos; unpack_at buf (node id) p

-- An entry that the database knows: it is not empty, its node is found by its id, an immediate
-- entry's value is a variant, and a reference entry's value is its node's.
pub record IsKnown (node : ℕ → NodePtr) (e : Entry) : Type 0 where
  pub not_null : is_null e.node ≡ false
  pub id_fits : IsU64 (attribute_id e.node)
  pub found : node (attribute_id e.node) ≡ e.node
  pub immediate_value : is_immediate e ≡ true → IsVariant e.value
  pub reference_value : is_immediate e ≡ false → e.value ≡ data_of e.node

-- What packing an entry and unpacking it from the middle of a buffer does.
abbrev pub Returns : (ℕ → NodePtr) → Entry → List ℕ → List ℕ → Type 0
Returns node e front rest =
    (n : ℕ) × (bytes : List ℕ) × (entry_pack e ≡ some (n, bytes))
    × (entry_unpack node (front ++ (bytes ++ rest)) (length front) ≡ some (e, length front + n))

module _ (node : ℕ → NodePtr) (front rest : List ℕ) where
  Returns-at :
      (p : NodePtr) (v : CaliVariant)
      → IsKnown node (record { node = p; value = v })
      → Returns node (record { node = p; value = v }) front rest
  unfolding entry_pack entry_unpack
  Returns-at [] v known = absurd (cc (known.not_null))
  Returns-at (n ∷ up) v known = elim (Bool-cases (n.attribute == name_attr_id)) [
    | inl imm ↦
        let (k, bytes) = vlenc_u64 n.id in
        let (l, more) = variant_pack v in
        let buf = front ++ ((bytes ++ more) ++ rest) in
        let start : drop (length front) buf ≡ bytes ++ (more ++ rest) =
          drop-append front _ ∙ append_assoc bytes more rest in
        let first = vldec_u64-split n.id buf (length front) (more ++ rest) known.id_fits start in
        let second =
          variant_unpack-split v buf (length front + k) rest (known.immediate_value imm)
            (drop-vlenc_u64 n.id buf (length front) (more ++ rest) start) in
        (k + l, bytes ++ more, rw imm, rw (first, known.found, imm, second) (ground arith))
    | inr ref ↦
        let (k, bytes) = vlenc_u64 n.id in
        let first =
          vldec_u64-split n.id (front ++ (bytes ++ rest)) (length front) rest known.id_fits
            (drop-append front _) in
        (k, bytes, rw ref, rw (first, known.found, ref) (ground (arith, known.reference_value ref)))
  ]

-- An entry that the database knows can be packed, and wherever its bytes stand in a buffer,
-- unpacking there gives the entry back and moves the position behind the bytes.
pub entry_unpack-entry_pack :
    (node : ℕ → NodePtr) (e : Entry) (front rest : List ℕ)
    → IsKnown node e
    → Returns node e front rest
entry_unpack-entry_pack node e front rest known = Returns-at node front rest e.node e.value known
