-- ===== src/Common/Compressed/StoredImmediates.antt =====
-- What appending entries leaves in the immediate section.
use caliper_msg_pattern.Prelude.{
  ℕ, zero, suc, ◌+◌, ◌-◌, ◌≤◌, ◌<◌, ◌≡◌, refl, sym, ap, ◌∙◌, inl, inr, arith, ◌&&◌, List, [], ◌∷◌,
  ◌++◌, length, length-append, length-drop, take, drop, take-append-drop, append_assoc, ltb, leb,
  Bool-cases,
}
use mathlib.Core.List.{Sublist}
use mathlib.Core.List.Sublist as Sub
use mathlib.Core.Path.{subst}
use caliper_msg_pattern.Common.Variant.Types.{CaliVariant}
use caliper_msg_pattern.Common.Entry.{NodeData}
use caliper_msg_pattern.Common.Compressed.{
  nth, write, CompressedRecord, blocksize, encode_immediates, append_node_block,
  append_immediate_block, append_blocks, append_all, append_nodes, append_immediates,
}
use caliper_msg_pattern.Common.Compressed.Block.{
  IsRecord, Grown, immediate_block-Grown, add_byte_ne, length-encode_immediates,
}
use caliper_msg_pattern.Common.Compressed.Append.{append_blocks-Grown}
use caliper_msg_pattern.Common.Compressed.Overwrite.{write_at}

abbrev bytes_of : List (ℕ × CaliVariant) → List ℕ
bytes_of xs = (encode_immediates xs).1

-- Behind the immediate entries that were there stand the encodings of those of the given ones that
-- were kept, in order, and they are counted.
pub record Behind (r : CompressedRecord) (xs : List (ℕ × CaliVariant)) (r' : CompressedRecord)
    : Type 0 where
  pub kept : List (ℕ × CaliVariant)
  pub among : Sublist kept xs
  pub counted : r'.num_imm ≡ r.num_imm + length kept
  pub longer : r'.imm_len ≡ r.imm_len + length (bytes_of kept)
  pub bytes :
      (i : ℕ)
      → i < length (bytes_of kept)
      → r'.buffer (r'.imm_pos + (r.imm_len + i)) ≡ nth (bytes_of kept) i

nothing-Sublist : (xs : List (ℕ × CaliVariant)) → Sublist [] xs
nothing-Sublist [] = Sub.refl []
nothing-Sublist (x ∷ xs) = Sub.cons x (nothing-Sublist xs)

bytes_of-append :
    (xs ys : List (ℕ × CaliVariant)) → bytes_of (xs ++ ys) ≡ bytes_of xs ++ bytes_of ys
unfolding encode_immediates
bytes_of-append [] ys = refl
bytes_of-append ((attr, v) ∷ xs) ys = simp (bytes_of-append xs ys, append_assoc)

nth-left : (xs ys : List ℕ) (i : ℕ) → i < length xs → nth (xs ++ ys) i ≡ nth xs i
nth-left [] ys i lt = absurd (omega (arith, lt))
nth-left (x ∷ xs) ys zero lt = refl
nth-left (x ∷ xs) ys (suc i) lt = nth-left xs ys i (omega (arith, lt))

nth-right : (xs ys : List ℕ) (i : ℕ) → nth (xs ++ ys) (length xs + i) ≡ nth ys i
nth-right [] ys i = let e : 0 + i ≡ i = omega arith in ap (nth ys) e
nth-right (x ∷ xs) ys i =
    let e : suc (length xs) + i ≡ suc (length xs + i) = omega arith in
    ap (nth (x ∷ (xs ++ ys))) e ∙ nth-right xs ys i

pub Behind-twice :
    (r q t : CompressedRecord) (xs ys : List (ℕ × CaliVariant)) (n s k : ℕ)
    → Behind r xs q
    → Behind q ys t
    → IsRecord r
    → Grown q n s k t
    → Behind r (xs ++ ys) t
Behind-twice r q t xs ys n s k a b valid g =
    let both = bytes_of-append a.kept b.kept in
    let size : length (bytes_of (a.kept ++ b.kept))
        ≡ length (bytes_of a.kept) + length (bytes_of b.kept) =
      ap (λ (l : List ℕ). length l) both ∙ length-append (bytes_of a.kept) (bytes_of b.kept) in
    record {
      kept = a.kept ++ b.kept;
      among = Sub.append a.among b.among;
      counted = omega (arith, a.counted, b.counted, length-append a.kept b.kept);
      longer = omega (arith, a.longer, b.longer, size);
      bytes = λ i lt. elim (Bool-cases (ltb i (length (bytes_of a.kept)))) [
        | inl early ↦
            let low : i < length (bytes_of a.kept) = ground arith in
            g.imm_kept (r.imm_len + i) (omega (arith, valid.len_bound)) (omega (arith, a.longer))
            ∙ a.bytes i low
            ∙ sym (nth-left (bytes_of a.kept) (bytes_of b.kept) i low)
            ∙ ap (λ (l : List ℕ). nth l i) (sym both)
        | inr late ↦
            let high : length (bytes_of a.kept) ≤ i = ground arith in
            let j = i - length (bytes_of a.kept) in
            let split : i ≡ length (bytes_of a.kept) + j = omega (arith, high) in
            ap (λ (x : ℕ). t.buffer (t.imm_pos + x)) (omega (arith, a.longer, high))
            ∙ b.bytes j (omega (arith, size, high))
            ∙ sym (nth-right (bytes_of a.kept) (bytes_of b.kept) j)
            ∙ ap (λ (x : ℕ). nth (bytes_of a.kept ++ bytes_of b.kept) x) (sym split)
            ∙ ap (λ (l : List ℕ). nth l i) (sym both)
      ];
    }

pub Behind-skips :
    (r q : CompressedRecord) (xs : List (ℕ × CaliVariant)) (n : ℕ)
    → Behind r xs q
    → Behind r xs (record q { skipped = n })
Behind-skips r q xs n b = record {
  kept = b.kept;
  among = b.among;
  counted = b.counted;
  longer = b.longer;
  bytes = b.bytes;
}

-- The immediate section has the same entries.
pub Behind-none :
    (r q : CompressedRecord) (xs : List (ℕ × CaliVariant))
    → q.num_imm ≡ r.num_imm
    → q.imm_len ≡ r.imm_len
    → Behind r xs q
unfolding encode_immediates
Behind-none r q xs n l = record {
  kept = [];
  among = nothing-Sublist xs;
  counted = omega (arith, n);
  longer = omega (arith, l);
  bytes = λ i lt. absurd (omega (arith, lt));
}

pub rearrange :
    (r q : CompressedRecord) (xs ys : List (ℕ × CaliVariant))
    → xs ≡ ys
    → Behind r xs q
    → Behind r ys q
rearrange r q xs ys e h = subst (λ (zs : List (ℕ × CaliVariant)). Behind r zs q) e h

immediate_block-Behind :
    (r : CompressedRecord) (block : List (ℕ × CaliVariant))
    → IsRecord r
    → Behind r block (append_immediate_block r block).1
unfolding append_immediate_block
immediate_block-Behind r block valid =
    let (len, tmp) = encode_immediates block in
    let size : len ≡ length tmp = length-encode_immediates block in
    elim (Bool-cases
      (ltb (r.num_imm + length block) 128 && leb (r.imm_pos + r.imm_len + len) r.buffer_len)) [
        | inl t ↦ rw t (record {
          kept = block;
          among = Sub.refl block;
          counted = refl;
          longer = omega (arith, size);
          bytes = λ i lt.
              add_byte_ne (write r.buffer (r.imm_pos + r.imm_len) tmp) r.imm_pos (length block)
                (r.imm_pos + (r.imm_len + i)) (omega (arith, valid.len_bound))
              ∙ ap (write r.buffer (r.imm_pos + r.imm_len) tmp) (omega arith)
              ∙ write_at r.buffer (r.imm_pos + r.imm_len) i tmp lt;
        })
        | inr t ↦ rw t (Behind-none r _ block refl refl)
      ]

node_blocks_immediates :
    (fuel : ℕ) (r : CompressedRecord) (nodes : List NodeData) (k : ℕ)
    → ((append_blocks append_node_block fuel r nodes k).1.num_imm ≡ r.num_imm)
      × ((append_blocks append_node_block fuel r nodes k).1.imm_len ≡ r.imm_len)
unfolding append_blocks append_node_block
node_blocks_immediates zero r nodes k = (refl, refl)
node_blocks_immediates (suc fuel) r [] k = (refl, refl)
node_blocks_immediates (suc fuel) r (x ∷ xs) k =
    let head = take blocksize (x ∷ xs) in
    let (s, q) = append_node_block r head in
    let (n, l) = node_blocks_immediates fuel q (drop blocksize (x ∷ xs)) (k + s) in
    (n ∙ ground arith, l ∙ ground arith)

immediate_blocks-Behind :
    (fuel : ℕ) (r : CompressedRecord) (xs : List (ℕ × CaliVariant)) (k : ℕ)
    → IsRecord r
    → length xs ≤ fuel
    → Behind r xs (append_blocks append_immediate_block fuel r xs k).1
unfolding append_blocks
immediate_blocks-Behind zero r [] k valid h = Behind-none r r [] refl refl
immediate_blocks-Behind zero r (x ∷ xs) k valid h = absurd (omega (arith, h))
immediate_blocks-Behind (suc fuel) r [] k valid h = Behind-none r r [] refl refl
immediate_blocks-Behind (suc fuel) r (x ∷ xs) k valid h =
    let head = take blocksize (x ∷ xs) in
    let tail = drop blocksize (x ∷ xs) in
    let (s, q) = append_immediate_block r head in
    let g = immediate_block-Grown r valid head in
    let shorter : length tail ≤ fuel = omega (arith, h, length-drop blocksize (x ∷ xs)) in
    let (z, run, more) =
      append_blocks-Grown append_immediate_block immediate_block-Grown fuel q tail (k + s) g.valid
        shorter in
    let rest = immediate_blocks-Behind fuel q tail (k + s) g.valid shorter in
    rearrange r _ _ _ (take-append-drop blocksize (x ∷ xs)) (
      Behind-twice r q _ head tail (length tail) z 0 (immediate_block-Behind r head valid) rest
        valid more)

pub append_nodes-Behind :
    (r : CompressedRecord) (nodes : List NodeData) → Behind r [] (append_nodes r nodes).1
unfolding append_nodes append_all
append_nodes-Behind r nodes =
    let (n, l) = node_blocks_immediates (length nodes) r nodes 0 in Behind-none r _ [] n l

pub append_immediates-Behind :
    (r : CompressedRecord) (entries : List (ℕ × CaliVariant))
    → IsRecord r
    → Behind r entries (append_immediates r entries).1
unfolding append_immediates append_all
append_immediates-Behind r entries valid =
    Behind-skips r _ entries _
      (immediate_blocks-Behind (length entries) r entries 0 valid (omega arith))
