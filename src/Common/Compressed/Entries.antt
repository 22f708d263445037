-- ===== src/Common/Compressed/Entries.antt =====
-- Appending a list of entries of both kinds.
use caliper_msg_pattern.Prelude.{
  ℕ, ◌+◌, ◌≡◌, ◌∙◌, arith, List, [], ◌∷◌, ◌++◌, length, length-append, if◌then◌else◌, ◌==◌,
  Bool-cases, inl, inr,
}
use mathlib.Core.Path.{subst}
use native.Mathlib.Nat.{zero-add}
use caliper_msg_pattern.Common.Variant.Types.{CaliVariant}
use caliper_msg_pattern.Common.Entry.{
  NodeData, NodePtr, Entry, is_null, is_immediate, entry_attribute,
}
use caliper_msg_pattern.Common.Compressed.{
  CompressedRecord, blocksize, entries_loop, append_entries,
}
use caliper_msg_pattern.Common.Compressed.Block.{IsRecord, Grown}
use caliper_msg_pattern.Common.Compressed.Append.{
  Grown-twice, append_nodes-Grown, append_immediates-Grown,
}

-- The number of the entries that are not empty.
abbrev pub filled : List Entry → ℕ
filled [] = 0
filled (e ∷ es) = (if is_null e.node then 0 else 1) + filled es

-- What the loop did with the entries and with what was in the arrays.
abbrev pub Looped : CompressedRecord → ℕ → ℕ → ℕ × CompressedRecord → Type 0
Looped r n k result = (s : ℕ) × (result.0 ≡ k + s) × Grown r n s s result.1

-- After a full array was appended.
flushed-Looped :
    (r q : CompressedRecord) (m n s k : ℕ) (result : ℕ × CompressedRecord)
    → Grown r m s s q
    → Looped q n (k + s) result
    → Looped r (m + n) k result
flushed-Looped r q m n s k result g (z, run, h) =
    (s + z, omega (arith, run), Grown-twice r q result.1 m s s n z z g h)

recount :
    (r : CompressedRecord) (m n k : ℕ) (result : ℕ × CompressedRecord)
    → m ≡ n
    → Looped r m k result
    → Looped r n k result
recount r m n k result e l = subst (λ (t : ℕ). Looped r t k result) e l

module _ (es : List Entry)
    (ih : (r : CompressedRecord) (nodes : List NodeData) (imm : List (ℕ × CaliVariant)) (k : ℕ)
      → IsRecord r
      → Looped r (length nodes + length imm + filled es) k (entries_loop r es nodes imm k)) where
  entry-Looped :
      (p : NodePtr) (v : CaliVariant) (r : CompressedRecord) (nodes : List NodeData)
      (imm : List (ℕ × CaliVariant)) (k : ℕ)
      → IsRecord r
      → Looped r
          (length nodes + length imm + filled (record { node = p; value = v } ∷ es))
          k
          (entries_loop r (record { node = p; value = v } ∷ es) nodes imm k)
  unfolding entries_loop
  entry-Looped [] v r nodes imm k valid = recount r _ _ k _ (omega arith) (ih r nodes imm k valid)
  entry-Looped (n ∷ up) v r nodes imm k valid =
      let e : Entry = record { node = n ∷ up; value = v } in
      let imm' = imm ++ (entry_attribute e, v) ∷ [] in
      let nodes' = nodes ++ n ∷ [] in
      let size : length imm' ≡ length imm + 1 = length-append imm _ in
      let size' : length nodes' ≡ length nodes + 1 = length-append nodes _ in
      elim (Bool-cases (is_immediate e)) [
        | inl i ↦ elim (Bool-cases (length imm + 1 == blocksize)) [
          | inl full ↦
              let g = append_immediates-Grown r imm' valid in
              rw (i, full)
                (recount r _ _ k _ (omega (arith, size))
                  (flushed-Looped r _ (length imm') _ _ k _ g (ih _ nodes [] _ g.valid)))
          | inr room ↦
              rw (i, room) (recount r _ _ k _ (omega (arith, size)) (ih r nodes imm' k valid))
        ]
        | inr i ↦ elim (Bool-cases (length nodes + 1 == blocksize)) [
          | inl full ↦
              let g = append_nodes-Grown r nodes' valid in
              rw (i, full)
                (recount r _ _ k _ (omega (arith, size'))
                  (flushed-Looped r _ (length nodes') _ _ k _ g (ih _ [] imm _ g.valid)))
          | inr room ↦
              rw (i, room) (recount r _ _ k _ (omega (arith, size')) (ih r nodes' imm k valid))
        ]
      ]

pub entries_loop-Looped :
    (es : List Entry) (r : CompressedRecord) (nodes : List NodeData) (imm : List (ℕ × CaliVariant))
    (k : ℕ)
    → IsRecord r
    → Looped r (length nodes + length imm + filled es) k (entries_loop r es nodes imm k)
unfolding entries_loop
entries_loop-Looped [] r nodes imm k valid =
    let g = append_nodes-Grown r nodes valid in
    let h = append_immediates-Grown _ imm g.valid in
    recount r _ _ k _ (omega arith)
      (_, omega arith, Grown-twice r _ _ (length nodes) _ _ (length imm) _ _ g h)
entries_loop-Looped (e ∷ es) r nodes imm k valid =
    entry-Looped es (entries_loop-Looped es) e.node e.value r nodes imm k valid

-- Appending a list of entries to a record keeps its sections inside the buffer and its count bytes
-- equal to its counts, changes no memory behind the buffer, and keeps the bytes of the record's
-- immediate entries in their section. The counts of the entries go up by the number of entries that
-- are not empty less the number returned, and the record's count of skipped entries by the number
-- returned.
pub append_entries-Grown :
    (r : CompressedRecord) (es : List Entry)
    → IsRecord r
    → Grown r (filled es) (append_entries r es).0 (append_entries r es).0 (append_entries r es).1
unfolding append_entries
append_entries-Grown r es valid =
    let (s, run, g) = entries_loop-Looped es r [] [] 0 valid in
    let same : (entries_loop r es [] [] 0).0 ≡ s = run ∙ zero-add s in
    let count : length {A = NodeData} [] + length {A = ℕ × CaliVariant} [] + filled es ≡ filled es =
      omega arith in
    rw same (subst (λ n. Grown r n s s (entries_loop r es [] [] 0).1) count g)
