-- ===== src/Common/Compressed/Append.antt =====
-- What appending entries of one kind does to a record, block by block.
use caliper_msg_pattern.Prelude.{
  ℕ, zero, suc, ◌+◌, ◌≤◌, ◌≡◌, refl, ◌∙◌, arith, List, [], ◌∷◌, length, length-take, length-drop,
  take, drop,
}
use mathlib.Core.Path.{subst}
use native.Mathlib.Nat.{zero-add}
use caliper_msg_pattern.Common.Variant.Types.{CaliVariant}
use caliper_msg_pattern.Common.Entry.{NodeData}
use caliper_msg_pattern.Common.Compressed.{
  CompressedRecord, blocksize, append_node_block, append_immediate_block, append_blocks, append_all,
  append_nodes, append_immediates,
}
use caliper_msg_pattern.Common.Compressed.Block.{
  IsRecord, Grown, node_block-Grown, immediate_block-Grown,
}

-- Growing twice, with the counts of the skipped entries added up.
pub Grown-twice :
    (r q t : CompressedRecord) (m s k n z l : ℕ)
    → Grown r m s k q
    → Grown q n z l t
    → Grown r (m + n) (s + z) (k + l) t
Grown-twice r q t m s k n z l g h = record {
  valid = h.valid;
  same_len = h.same_len ∙ g.same_len;
  outside = λ x le. h.outside x (omega (arith, g.same_len)) ∙ g.outside x le;
  counted = omega (arith, g.counted, h.counted);
  skips = omega (arith, g.skips, h.skips);
  imm_grows = omega (arith, g.imm_grows, h.imm_grows);
  imm_kept = λ i ge lt. h.imm_kept i ge (omega (arith, g.imm_grows)) ∙ g.imm_kept i ge lt;
}

Grown-none : (r : CompressedRecord) → IsRecord r → Grown r 0 0 0 r
Grown-none r valid = record {
  valid = valid;
  same_len = refl;
  outside = λ x le. refl;
  counted = omega arith;
  skips = omega arith;
  imm_grows = omega arith;
  imm_kept = λ i ge lt. refl;
}

Grown-skips :
    (r t : CompressedRecord) (n s : ℕ)
    → Grown r n s 0 t
    → Grown r n s s (record t { skipped = t.skipped + s })
Grown-skips r t n s g = record {
  valid = record {
    nodes_fit = g.valid.nodes_fit;
    imm_fit = g.valid.imm_fit;
    pos_bound = g.valid.pos_bound;
    len_bound = g.valid.len_bound;
    within = g.valid.within;
    node_count = g.valid.node_count;
    imm_count = g.valid.imm_count;
  };
  same_len = g.same_len;
  outside = g.outside;
  counted = g.counted;
  skips = omega (arith, g.skips);
  imm_grows = g.imm_grows;
  imm_kept = g.imm_kept;
}

module _ {A : Type 0} (block : CompressedRecord → List A → ℕ × CompressedRecord)
    (step : (r : CompressedRecord)
      → IsRecord r
      → (xs : List A) → Grown r (length xs) (block r xs).0 0 (block r xs).1) where
  pub append_blocks-Grown :
      (fuel : ℕ) (r : CompressedRecord) (xs : List A) (k : ℕ)
      → IsRecord r
      → length xs ≤ fuel
      → (s : ℕ) × ((append_blocks block fuel r xs k).0 ≡ k + s)
        × Grown r (length xs) s 0 (append_blocks block fuel r xs k).1
  unfolding append_blocks
  append_blocks-Grown zero r [] k valid h = (0, omega arith, Grown-none r valid)
  append_blocks-Grown zero r (x ∷ xs) k valid h = absurd (omega arith)
  append_blocks-Grown (suc fuel) r [] k valid h = (0, omega arith, Grown-none r valid)
  append_blocks-Grown (suc fuel) r (x ∷ xs) k valid h =
      let head = take blocksize (x ∷ xs) in
      let tail = drop blocksize (x ∷ xs) in
      let (s, q) = block r head in
      let g = step r valid head in
      let shorter : length tail ≤ fuel = omega (arith, length-drop blocksize (x ∷ xs)) in
      let (z, run, rest) = append_blocks-Grown fuel q tail (k + s) g.valid shorter in
      let whole : length head + length tail ≡ length (x ∷ xs) =
        omega (arith, length-take blocksize (x ∷ xs), length-drop blocksize (x ∷ xs)) in
      (
        s + z,
        omega (arith, run),
        subst (λ n. Grown r n (s + z) 0 (append_blocks block fuel q tail (k + s)).1) whole
            (Grown-twice r q _ (length head) s 0 (length tail) z 0 g rest),
      )

  append_all-Grown :
      (r : CompressedRecord) (xs : List A)
      → IsRecord r
      → Grown r
          (length xs)
          (append_all block r xs).0
          (append_all block r xs).0
          (append_all block r xs).1
  unfolding append_all
  append_all-Grown r xs valid =
      let (s, run, g) = append_blocks-Grown (length xs) r xs 0 valid (omega arith) in
      let run' : (append_blocks block (length xs) r xs 0).0 ≡ s = run ∙ zero-add s in
      Grown-skips r _ (length xs) _ (rw run' g)

-- Appending nodes to a record keeps its sections inside the buffer and its count bytes equal to its
-- counts, changes no memory behind the buffer, and keeps the bytes of the record's immediate entries
-- in their section. The counts of the entries go up by the number of nodes less the number returned,
-- and the record's count of skipped entries by the number returned.
pub append_nodes-Grown :
    (r : CompressedRecord) (nodes : List NodeData)
    → IsRecord r
    → Grown r
        (length nodes)
        (append_nodes r nodes).0
        (append_nodes r nodes).0
        (append_nodes r nodes).1
unfolding append_nodes
append_nodes-Grown r nodes valid = append_all-Grown append_node_block node_block-Grown r nodes valid

-- The same for immediate entries.
pub append_immediates-Grown :
    (r : CompressedRecord) (entries : List (ℕ × CaliVariant))
    → IsRecord r
    → Grown r
        (length entries)
        (append_immediates r entries).0
        (append_immediates r entries).0
        (append_immediates r entries).1
unfolding append_immediates
append_immediates-Grown r entries valid =
    append_all-Grown append_immediate_block immediate_block-Grown r entries valid
