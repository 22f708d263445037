-- ===== src/Common/Compressed/Stored.antt =====
-- What appending nodes leaves in the node section.
use caliper_msg_pattern.Prelude.{
  ℕ, zero, suc, ◌+◌, ◌≤◌, ◌<◌, ◌≡◌, refl, sym, ap, ◌∙◌, ◌⊎◌, inl, inr, arith, ◌&&◌, List, [], ◌∷◌,
  ◌++◌, length, length-take, length-drop, take, drop, take-append-drop, append_assoc, append-nil,
  ltb, leb, Bool-cases,
}
use mathlib.Core.Path.{subst}
use caliper_msg_pattern.Common.Entry.{NodeData}
use caliper_msg_pattern.Common.Compressed.{
  nth, write, save_memmove, CompressedRecord, blocksize, encode_nodes, append_node_block,
  append_blocks, append_all, append_nodes,
}
use caliper_msg_pattern.Common.Compressed.Block.{
  IsRecord, Grown, node_block-Grown, add_byte_ne, length-encode_nodes,
}
use caliper_msg_pattern.Common.Compressed.Append.{append_nodes-Grown}
use caliper_msg_pattern.Common.Compressed.Overwrite.{write_at}

-- The node section is as it was.
abbrev pub Untouched : CompressedRecord → CompressedRecord → Type 0
Untouched r r' =
    (r'.num_nodes ≡ r.num_nodes)
    × (r'.imm_pos ≡ r.imm_pos)
    × ((x : ℕ) → 1 ≤ x → x < r.imm_pos → r'.buffer x ≡ r.buffer x)

-- Nodes were counted, and the node section starts with the bytes of some of the given nodes, which
-- follow one another.
pub record Starts (r : CompressedRecord) (nodes : List NodeData) (r' : CompressedRecord)
    : Type 0 where
  pub before : List NodeData
  pub block : List NodeData
  pub after : List NodeData
  pub all : nodes ≡ before ++ (block ++ after)
  pub inhabited : 1 ≤ length block
  pub more : r.num_nodes < r'.num_nodes
  pub fits : 1 + length (encode_nodes block).1 ≤ r'.imm_pos
  pub bytes :
      (i : ℕ) → i < length (encode_nodes block).1 → r'.buffer (1 + i) ≡ nth (encode_nodes block).1 i

abbrev pub Stored : CompressedRecord → List NodeData → CompressedRecord → Type 0
Stored r nodes r' = Untouched r r' ⊎ Starts r nodes r'

pub Stored-twice :
    (r q t : CompressedRecord) (xs ys : List NodeData)
    → Stored r xs q
    → Stored q ys t
    → Stored r (xs ++ ys) t
Stored-twice r q t xs ys (inl (n, p, b)) (inl (m, o, c)) =
    inl (m ∙ n, o ∙ p, λ x ge lt. c x ge (omega (arith, p)) ∙ b x ge lt)
Stored-twice r q t xs ys (inr s) (inl (m, o, c)) = inr (record {
  before = s.before;
  block = s.block;
  after = s.after ++ ys;
  all = ap (λ l. l ++ ys) s.all ∙ simp append_assoc;
  inhabited = s.inhabited;
  more = omega (arith, s.more, m);
  fits = omega (arith, s.fits, o);
  bytes = λ i lt. c (1 + i) (omega arith) (omega (arith, s.fits)) ∙ s.bytes i lt;
})
Stored-twice r q t xs ys (inl (n, p, b)) (inr s) = inr (record {
  before = xs ++ s.before;
  block = s.block;
  after = s.after;
  all = ap (λ l. xs ++ l) s.all ∙ sym (append_assoc xs s.before (s.block ++ s.after));
  inhabited = s.inhabited;
  more = omega (arith, s.more, n);
  fits = s.fits;
  bytes = s.bytes;
})
Stored-twice r q t xs ys (inr u) (inr s) = inr (record {
  before = xs ++ s.before;
  block = s.block;
  after = s.after;
  all = ap (λ l. xs ++ l) s.all ∙ sym (append_assoc xs s.before (s.block ++ s.after));
  inhabited = s.inhabited;
  more = omega (arith, s.more, u.more);
  fits = s.fits;
  bytes = s.bytes;
})

pub Stored-skips :
    (r q : CompressedRecord) (nodes : List NodeData) (n : ℕ)
    → Stored r nodes q
    → Stored r nodes (record q { skipped = n })
Stored-skips r q nodes n (inl u) = inl u
Stored-skips r q nodes n (inr s) = inr (record {
  before = s.before;
  block = s.block;
  after = s.after;
  all = s.all;
  inhabited = s.inhabited;
  more = s.more;
  fits = s.fits;
  bytes = s.bytes;
})

node_block-Stored :
    (r : CompressedRecord) (block : List NodeData)
    → IsRecord r
    → 1 ≤ length block
    → Stored r block (append_node_block r block).1
unfolding append_node_block
node_block-Stored r block valid some_nodes =
    let (len, tmp) = encode_nodes block in
    let size : len ≡ length tmp = length-encode_nodes block in
    let moved = save_memmove r.buffer (r.imm_pos + len) r.imm_pos r.imm_len in
    elim (Bool-cases
      (ltb (r.num_nodes + length block) 128 && leb (r.imm_pos + r.imm_len + len) r.buffer_len)) [
        | inl t ↦ rw t (
            inr (record {
              before = [];
              block = block;
              after = [];
              all = sym (append-nil block);
              inhabited = some_nodes;
              more = omega (arith, some_nodes);
              fits = omega (arith, valid.pos_bound, size);
              bytes = λ i lt.
                  add_byte_ne (write moved 1 tmp) 0 (length block) (1 + i) (omega arith)
                  ∙ write_at moved 1 i tmp lt;
            }))
        | inr t ↦ rw t (inl (refl, refl, λ x ge lt. refl))
      ]

node_blocks-Stored :
    (fuel : ℕ) (r : CompressedRecord) (nodes : List NodeData) (k : ℕ)
    → IsRecord r
    → length nodes ≤ fuel
    → Stored r nodes (append_blocks append_node_block fuel r nodes k).1
unfolding append_blocks
node_blocks-Stored zero r nodes k valid h = inl (refl, refl, λ x ge lt. refl)
node_blocks-Stored (suc fuel) r [] k valid h = inl (refl, refl, λ x ge lt. refl)
node_blocks-Stored (suc fuel) r (x ∷ xs) k valid h =
    let head = take blocksize (x ∷ xs) in
    let tail = drop blocksize (x ∷ xs) in
    let (s, q) = append_node_block r head in
    let g = node_block-Grown r valid head in
    let first = node_block-Stored r head valid (omega (arith, length-take blocksize (x ∷ xs))) in
    let rest =
      node_blocks-Stored fuel q tail (k + s) g.valid
        (omega (arith, length-drop blocksize (x ∷ xs))) in
    subst (λ ns. Stored r ns (append_blocks append_node_block fuel q tail (k + s)).1)
      (take-append-drop blocksize (x ∷ xs)) (Stored-twice r q _ head tail first rest)

-- Appending nodes to a record keeps its sections inside the buffer and its count bytes equal to its
-- counts, changes no memory behind the buffer, and keeps the bytes of the record's immediate entries
-- in their section. The counts of the entries go up by the number of nodes less the number returned,
-- and the record's count of skipped entries by the number returned. Either no node is counted and the
-- node section is as it was, or nodes are counted and the node section starts with the encoding of
-- one or more of the nodes, which follow one another in the list.
pub append_nodes-Stored :
    (r : CompressedRecord) (nodes : List NodeData)
    → IsRecord r
    → Grown r
        (length nodes)
        (append_nodes r nodes).0
        (append_nodes r nodes).0
        (append_nodes r nodes).1
      × Stored r nodes (append_nodes r nodes).1
unfolding append_nodes append_all
append_nodes-Stored r nodes valid = (
  append_nodes-Grown r nodes valid,
  Stored-skips r _ nodes _ (node_blocks-Stored (length nodes) r nodes 0 valid (omega arith)),
)
