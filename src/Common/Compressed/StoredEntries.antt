-- ===== src/Common/Compressed/StoredEntries.antt =====
-- What appending entries of both kinds leaves in the two sections.
use caliper_msg_pattern.Prelude.{
  ℕ, zero, suc, ◌+◌, ◌≡◌, sym, refl, ◌∙◌, inl, inr, arith, ◌&&◌, List, [], ◌∷◌, ◌++◌, length, take,
  drop, append_assoc, append-nil, ltb, leb, ◌==◌, if◌then◌else◌, Bool-cases,
}
use mathlib.Core.Path.{subst}
use caliper_msg_pattern.Common.Variant.Types.{CaliVariant}
use caliper_msg_pattern.Common.Entry.{NodeData, NodePtr, Entry, is_immediate, entry_attribute}
use caliper_msg_pattern.Common.Compressed.{
  write, CompressedRecord, blocksize, encode_immediates, append_immediate_block, append_blocks,
  append_all, append_immediates, entries_loop, append_entries,
}
use caliper_msg_pattern.Common.Compressed.Block.{
  IsRecord, Grown, immediate_block-Grown, add_byte_ne, write_outside,
}
use caliper_msg_pattern.Common.Compressed.Append.{append_nodes-Grown, append_immediates-Grown}
use caliper_msg_pattern.Common.Compressed.Stored.{
  Stored, Stored-twice, Stored-skips, append_nodes-Stored,
}
use caliper_msg_pattern.Common.Compressed.StoredImmediates.{
  Behind, Behind-twice, rearrange, append_nodes-Behind, append_immediates-Behind,
}
use caliper_msg_pattern.Common.Compressed.Entries.{
  filled, entries_loop-Looped, append_entries-Grown,
}

-- The nodes of the entries that refer to one.
abbrev pub nodes_of : List Entry → List NodeData
nodes_of [] = []
nodes_of (e ∷ es) = elim e.node [
  | [] ↦ nodes_of es
  | n ∷ up ↦ if is_immediate e then nodes_of es else n ∷ nodes_of es
]

-- The attributes and values of the immediate entries.
abbrev pub immediates_of : List Entry → List (ℕ × CaliVariant)
immediates_of [] = []
immediates_of (e ∷ es) = elim e.node [
  | [] ↦ immediates_of es
  | n ∷ up ↦
      if is_immediate e then (entry_attribute e, e.value) ∷ immediates_of es else immediates_of es
]

immediate_block-Stored :
    (r : CompressedRecord) (block : List (ℕ × CaliVariant))
    → IsRecord r
    → Stored r [] (append_immediate_block r block).1
unfolding append_immediate_block
immediate_block-Stored r block valid =
    let (len, tmp) = encode_immediates block in
    elim (Bool-cases
      (ltb (r.num_imm + length block) 128 && leb (r.imm_pos + r.imm_len + len) r.buffer_len)) [
        | inl t ↦ rw t (
            inl (
              refl,
              refl,
              λ x ge lt.
                  add_byte_ne (write r.buffer (r.imm_pos + r.imm_len) tmp) r.imm_pos (length block)
                    x (omega arith)
                  ∙ write_outside r.buffer (r.imm_pos + r.imm_len) x tmp (omega arith),
            ))
        | inr t ↦ rw t (inl (refl, refl, λ x ge lt. refl))
      ]

immediate_blocks-Stored :
    (fuel : ℕ) (r : CompressedRecord) (xs : List (ℕ × CaliVariant)) (k : ℕ)
    → IsRecord r
    → Stored r [] (append_blocks append_immediate_block fuel r xs k).1
unfolding append_blocks
immediate_blocks-Stored zero r xs k valid = inl (refl, refl, λ x ge lt. refl)
immediate_blocks-Stored (suc fuel) r [] k valid = inl (refl, refl, λ x ge lt. refl)
immediate_blocks-Stored (suc fuel) r (x ∷ xs) k valid =
    let head = take blocksize (x ∷ xs) in
    let (s, q) = append_immediate_block r head in
    Stored-twice r q _ [] [] (immediate_block-Stored r head valid) (
      immediate_blocks-Stored fuel q (drop blocksize (x ∷ xs)) (k + s)
        (immediate_block-Grown r valid head).valid)

append_immediates-Stored :
    (r : CompressedRecord) (entries : List (ℕ × CaliVariant))
    → IsRecord r
    → Stored r [] (append_immediates r entries).1
unfolding append_immediates append_all
append_immediates-Stored r entries valid =
    Stored-skips r _ [] _ (immediate_blocks-Stored (length entries) r entries 0 valid)

regroup : (r q : CompressedRecord) (xs ys : List NodeData) → xs ≡ ys → Stored r xs q → Stored r ys q
regroup r q xs ys e h = subst (λ (ns : List NodeData). Stored r ns q) e h

module _ (es : List Entry)
    (ih : (r : CompressedRecord) (nodes : List NodeData) (imm : List (ℕ × CaliVariant)) (k : ℕ)
      → IsRecord r
      → Stored r (nodes ++ nodes_of es) (entries_loop r es nodes imm k).1) where
  entry-Stored :
      (p : NodePtr) (v : CaliVariant) (r : CompressedRecord) (nodes : List NodeData)
      (imm : List (ℕ × CaliVariant)) (k : ℕ)
      → IsRecord r
      → Stored r
          (nodes ++ nodes_of (record { node = p; value = v } ∷ es))
          (entries_loop r (record { node = p; value = v } ∷ es) nodes imm k).1
  unfolding entries_loop
  entry-Stored [] v r nodes imm k valid = ih r nodes imm k valid
  entry-Stored (n ∷ up) v r nodes imm k valid =
      let e : Entry = record { node = n ∷ up; value = v } in
      let imm' = imm ++ (entry_attribute e, v) ∷ [] in
      let nodes' = nodes ++ n ∷ [] in
      let one_more : nodes' ++ nodes_of es ≡ nodes ++ n ∷ nodes_of es =
        append_assoc nodes (n ∷ []) (nodes_of es) in
      elim (Bool-cases (is_immediate e)) [
        | inl i ↦ elim (Bool-cases (length imm + 1 == blocksize)) [
          | inl full ↦
              let g = append_immediates-Grown r imm' valid in
              rw (i, full)
                (Stored-twice r _ _ [] (nodes ++ nodes_of es)
                  (append_immediates-Stored r imm' valid) (ih _ nodes [] _ g.valid))
          | inr room ↦ rw (i, room) (ih r nodes imm' k valid)
        ]
        | inr i ↦ elim (Bool-cases (length nodes + 1 == blocksize)) [
          | inl full ↦
              let g = append_nodes-Grown r nodes' valid in
              rw (i, full)
                (regroup r _ _ _ one_more (
                  Stored-twice r _ _ nodes' (nodes_of es) (append_nodes-Stored r nodes' valid).1
                    (ih _ [] imm _ g.valid)))
          | inr room ↦ rw (i, room) (regroup r _ _ _ one_more (ih r nodes' imm k valid))
        ]
      ]

entries_loop-Stored :
    (es : List Entry) (r : CompressedRecord) (nodes : List NodeData) (imm : List (ℕ × CaliVariant))
    (k : ℕ)
    → IsRecord r
    → Stored r (nodes ++ nodes_of es) (entries_loop r es nodes imm k).1
unfolding entries_loop
entries_loop-Stored [] r nodes imm k valid =
    let g = append_nodes-Grown r nodes valid in
    Stored-twice r _ _ nodes [] (append_nodes-Stored r nodes valid).1
      (append_immediates-Stored _ imm g.valid)
entries_loop-Stored (e ∷ es) r nodes imm k valid =
    entry-Stored es (entries_loop-Stored es) e.node e.value r nodes imm k valid

module _ (es : List Entry)
    (ih : (r : CompressedRecord) (nodes : List NodeData) (imm : List (ℕ × CaliVariant)) (k : ℕ)
      → IsRecord r
      → Behind r (imm ++ immediates_of es) (entries_loop r es nodes imm k).1) where
  entry-Behind :
      (p : NodePtr) (v : CaliVariant) (r : CompressedRecord) (nodes : List NodeData)
      (imm : List (ℕ × CaliVariant)) (k : ℕ)
      → IsRecord r
      → Behind r
          (imm ++ immediates_of (record { node = p; value = v } ∷ es))
          (entries_loop r (record { node = p; value = v } ∷ es) nodes imm k).1
  unfolding entries_loop
  entry-Behind [] v r nodes imm k valid = ih r nodes imm k valid
  entry-Behind (n ∷ up) v r nodes imm k valid =
      let e : Entry = record { node = n ∷ up; value = v } in
      let imm' = imm ++ (entry_attribute e, v) ∷ [] in
      let nodes' = nodes ++ n ∷ [] in
      let one_more : imm' ++ immediates_of es ≡ imm ++ (entry_attribute e, v) ∷ immediates_of es =
        append_assoc imm ((entry_attribute e, v) ∷ []) (immediates_of es) in
      elim (Bool-cases (is_immediate e)) [
        | inl i ↦ elim (Bool-cases (length imm + 1 == blocksize)) [
          | inl full ↦
              let g = append_immediates-Grown r imm' valid in
              let (s, run, rest) = entries_loop-Looped es _ nodes [] _ g.valid in
              rw (i, full)
                (rearrange r _ _ _ one_more (
                  Behind-twice r _ _ imm' (immediates_of es) _ _ _
                    (append_immediates-Behind r imm' valid) (ih _ nodes [] _ g.valid) valid rest))
          | inr room ↦ rw (i, room) (rearrange r _ _ _ one_more (ih r nodes imm' k valid))
        ]
        | inr i ↦ elim (Bool-cases (length nodes + 1 == blocksize)) [
          | inl full ↦
              let g = append_nodes-Grown r nodes' valid in
              let (s, run, rest) = entries_loop-Looped es _ [] imm _ g.valid in
              rw (i, full)
                (Behind-twice r _ _ [] (imm ++ immediates_of es) _ _ _
                  (append_nodes-Behind r nodes') (ih _ [] imm _ g.valid) valid rest)
          | inr room ↦ rw (i, room) (ih r nodes' imm k valid)
        ]
      ]

entries_loop-Behind :
    (es : List Entry) (r : CompressedRecord) (nodes : List NodeData) (imm : List (ℕ × CaliVariant))
    (k : ℕ)
    → IsRecord r
    → Behind r (imm ++ immediates_of es) (entries_loop r es nodes imm k).1
unfolding entries_loop
entries_loop-Behind [] r nodes imm k valid =
    let g = append_nodes-Grown r nodes valid in
    rearrange r _ _ _ (sym (append-nil imm)) (
      Behind-twice r _ _ [] imm _ _ _ (append_nodes-Behind r nodes)
        (append_immediates-Behind _ imm g.valid) valid (append_immediates-Grown _ imm g.valid))
entries_loop-Behind (e ∷ es) r nodes imm k valid =
    entry-Behind es (entries_loop-Behind es) e.node e.value r nodes imm k valid

-- Appending a list of entries to a record keeps its sections inside the buffer and its count bytes
-- equal to its counts, changes no memory behind the buffer, and keeps the bytes of the record's
-- immediate entries in their section. The counts of the entries go up by the number of entries that
-- are not empty less the number returned, and the record's count of skipped entries by the number
-- returned. Either no node is counted and the node section is as it was, or nodes are counted and the
-- node section starts with the encoding of one or more of the nodes that the entries refer to, which
-- follow one another among these. In the immediate section the encodings of the immediate entries
-- that are counted, in order, stand behind those that were there.
pub append_entries-Stored :
    (r : CompressedRecord) (es : List Entry)
    → IsRecord r
    → Grown r (filled es) (append_entries r es).0 (append_entries r es).0 (append_entries r es).1
      × Stored r (nodes_of es) (append_entries r es).1
      × Behind r (immediates_of es) (append_entries r es).1
unfolding append_entries
append_entries-Stored r es valid = (
  append_entries-Grown r es valid,
  entries_loop-Stored es r [] [] 0 valid,
  entries_loop-Behind es r [] [] 0 valid,
)
