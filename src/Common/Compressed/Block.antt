-- ===== src/Common/Compressed/Block.antt =====
-- What one block of entries does to a record: its counters, its count bytes, and the memory behind
-- its buffer.
use caliper_msg_pattern.Prelude.{
  ℕ, ◌+◌, ◌-◌, ◌≤◌, ◌<◌, ◌≡◌, ◌≢◌, refl, ap, ◌∙◌, arith, ◌&&◌, List, [], ◌∷◌, ◌++◌, length,
  length-append, ltb, leb, Bool-cases, inl, inr,
}
use caliper_msg_pattern.Util.Vlenc.{vlenc_u64}
use caliper_msg_pattern.Util.Vlenc.RoundTrip.{length-vlenc_u64}
use caliper_msg_pattern.Common.Variant.Types.{CaliVariant}
use caliper_msg_pattern.Common.Variant.Pack.{variant_pack}
use caliper_msg_pattern.Common.Entry.{NodeData}
use caliper_msg_pattern.Common.Compressed.{
  Buffer, write, save_memmove, CompressedRecord, add_byte, encode_nodes, append_node_block,
  encode_immediates, append_immediate_block,
}
use caliper_msg_pattern.Common.Compressed.Move.{shifted, save_memmove-shifted}

-- The sections lie in the buffer, and the count bytes hold the counts.
pub record IsRecord (r : CompressedRecord) : Type 0 where
  pub nodes_fit : r.num_nodes < 128
  pub imm_fit : r.num_imm < 128
  pub pos_bound : 1 ≤ r.imm_pos
  pub len_bound : 1 ≤ r.imm_len
  pub within : r.imm_pos + r.imm_len ≤ r.buffer_len
  pub node_count : r.buffer 0 ≡ r.num_nodes
  pub imm_count : r.buffer r.imm_pos ≡ r.num_imm

-- What appending `n` entries did that skipped `s` of them and added `k` to the record's own count.
-- The bytes of the immediate entries that were there still stand at the start of their section.
pub record Grown (r : CompressedRecord) (n s k : ℕ) (r' : CompressedRecord) : Type 0 where
  pub valid : IsRecord r'
  pub same_len : r'.buffer_len ≡ r.buffer_len
  pub outside : (x : ℕ) → r.buffer_len ≤ x → r'.buffer x ≡ r.buffer x
  pub counted : r'.num_nodes + r'.num_imm + s ≡ r.num_nodes + r.num_imm + n
  pub skips : r'.skipped ≡ r.skipped + k
  pub imm_grows : r.imm_len ≤ r'.imm_len
  pub imm_kept :
      (i : ℕ) → 1 ≤ i → i < r.imm_len → r'.buffer (r'.imm_pos + i) ≡ r.buffer (r.imm_pos + i)

pub write_outside : (buf : Buffer) (p x : ℕ) (bytes : List ℕ) → x < p → write buf p bytes x ≡ buf x
write_outside buf p x bytes h = ground arith

write_behind :
    (buf : Buffer) (p x : ℕ) (bytes : List ℕ) → p + length bytes ≤ x → write buf p bytes x ≡ buf x
write_behind buf p x bytes h = ground arith

shifted_before : (buf : Buffer) (dst src n x : ℕ) → x < dst → shifted buf dst src n x ≡ buf x
shifted_before buf dst src n x h = ground arith

shifted_behind : (buf : Buffer) (dst src n x : ℕ) → dst + n ≤ x → shifted buf dst src n x ≡ buf x
shifted_behind buf dst src n x h = ground arith

shifted_start : (buf : Buffer) (dst src n : ℕ) → 1 ≤ n → shifted buf dst src n dst ≡ buf src
shifted_start buf dst src n h =
    let e : src + (dst - dst) ≡ src = omega arith in ground (arith, ap buf e)

shifted_inside :
    (buf : Buffer) (dst src n i : ℕ) → i < n → shifted buf dst src n (dst + i) ≡ buf (src + i)
shifted_inside buf dst src n i h =
    let e : src + (dst + i - dst) ≡ src + i = omega arith in ground (arith, ap buf e)

pub add_byte_ne : (buf : Buffer) (p k x : ℕ) → x ≢ p → add_byte buf p k x ≡ buf x
add_byte_ne buf p k x h = ground arith

add_byte_self : (buf : Buffer) (p k v : ℕ) → buf p ≡ v → v + k < 256 → add_byte buf p k p ≡ v + k
add_byte_self buf p k v e h = ground arith

pub length-encode_nodes :
    (nodes : List NodeData) → (encode_nodes nodes).0 ≡ length (encode_nodes nodes).1
unfolding encode_nodes
length-encode_nodes [] = refl
length-encode_nodes (node ∷ nodes) =
    rw length-append (omega (arith, length-vlenc_u64 node.id, length-encode_nodes nodes))

length-variant_pack : (v : CaliVariant) → (variant_pack v).0 ≡ length (variant_pack v).1
unfolding variant_pack
length-variant_pack v =
    rw length-append (omega (arith, length-vlenc_u64 v.type_and_size, length-vlenc_u64 v.v_uint))

pub length-encode_immediates :
    (entries : List (ℕ × CaliVariant))
    → (encode_immediates entries).0 ≡ length (encode_immediates entries).1
unfolding encode_immediates
length-encode_immediates [] = refl
length-encode_immediates ((attr, v) ∷ rest) = omega (
  arith,
  length-append (vlenc_u64 attr).1 ((variant_pack v).1 ++ (encode_immediates rest).1),
  length-append (variant_pack v).1 (encode_immediates rest).1,
  length-vlenc_u64 attr,
  length-variant_pack v,
  length-encode_immediates rest,
)

module _ (r : CompressedRecord) (valid : IsRecord r) where
  module _ (tmp : List ℕ) (blk : ℕ) where
    abbrev len : ℕ
    len = length tmp

    abbrev moved : Buffer
    moved = save_memmove r.buffer (r.imm_pos + len) r.imm_pos r.imm_len

    at_moved : (x : ℕ) → moved x ≡ shifted r.buffer (r.imm_pos + len) r.imm_pos r.imm_len x
    at_moved x = save_memmove-shifted r.buffer (r.imm_pos + len) r.imm_pos r.imm_len x (omega arith)

    -- The buffer after a block of nodes.
    abbrev with_nodes : Buffer
    with_nodes = add_byte (write moved 1 tmp) 0 blk

    with_nodes_count : r.num_nodes + blk < 128 → with_nodes 0 ≡ r.num_nodes + blk
    with_nodes_count fits =
        add_byte_self (write moved 1 tmp) 0 blk r.num_nodes
          (write_outside moved 1 0 tmp (omega arith)
            ∙ at_moved 0
            ∙ shifted_before r.buffer (r.imm_pos + len) r.imm_pos r.imm_len 0
                (omega (arith, valid.pos_bound))
            ∙ valid.node_count)
          (omega arith)

    with_nodes_imm : with_nodes (r.imm_pos + len) ≡ r.num_imm
    with_nodes_imm =
        add_byte_ne (write moved 1 tmp) 0 blk (r.imm_pos + len) (omega (arith, valid.pos_bound))
        ∙ write_behind moved 1 (r.imm_pos + len) tmp (omega (arith, valid.pos_bound))
        ∙ at_moved (r.imm_pos + len)
        ∙ shifted_start r.buffer (r.imm_pos + len) r.imm_pos r.imm_len valid.len_bound
        ∙ valid.imm_count

    with_nodes_outside : (x : ℕ) → r.imm_pos + r.imm_len + len ≤ x → with_nodes x ≡ r.buffer x
    with_nodes_outside x h =
        add_byte_ne (write moved 1 tmp) 0 blk x (omega (arith, valid.pos_bound))
        ∙ write_behind moved 1 x tmp (omega (arith, valid.pos_bound, valid.len_bound))
        ∙ at_moved x
        ∙ shifted_behind r.buffer (r.imm_pos + len) r.imm_pos r.imm_len x (omega arith)

    with_nodes_kept :
        (i : ℕ)
        → 1 ≤ i
        → i < r.imm_len
        → with_nodes (r.imm_pos + len + i) ≡ r.buffer (r.imm_pos + i)
    with_nodes_kept i ge lt =
        add_byte_ne (write moved 1 tmp) 0 blk (r.imm_pos + len + i) (omega (arith, valid.pos_bound))
        ∙ write_behind moved 1 (r.imm_pos + len + i) tmp (omega (arith, valid.pos_bound))
        ∙ at_moved (r.imm_pos + len + i)
        ∙ shifted_inside r.buffer (r.imm_pos + len) r.imm_pos r.imm_len i lt

    -- The buffer after a block of immediate entries.
    abbrev with_imm : Buffer
    with_imm = add_byte (write r.buffer (r.imm_pos + r.imm_len) tmp) r.imm_pos blk

    with_imm_count : r.num_imm + blk < 128 → with_imm r.imm_pos ≡ r.num_imm + blk
    with_imm_count fits =
        add_byte_self (write r.buffer (r.imm_pos + r.imm_len) tmp) r.imm_pos blk r.num_imm
          (write_outside r.buffer (r.imm_pos + r.imm_len) r.imm_pos tmp
              (omega (arith, valid.len_bound))
            ∙ valid.imm_count)
          (omega arith)

    with_imm_nodes : with_imm 0 ≡ r.num_nodes
    with_imm_nodes =
        add_byte_ne (write r.buffer (r.imm_pos + r.imm_len) tmp) r.imm_pos blk 0
          (omega (arith, valid.pos_bound))
        ∙ write_outside r.buffer (r.imm_pos + r.imm_len) 0 tmp (omega (arith, valid.pos_bound))
        ∙ valid.node_count

    with_imm_outside : (x : ℕ) → r.imm_pos + r.imm_len + len ≤ x → with_imm x ≡ r.buffer x
    with_imm_outside x h =
        add_byte_ne (write r.buffer (r.imm_pos + r.imm_len) tmp) r.imm_pos blk x
          (omega (arith, valid.len_bound))
        ∙ write_behind r.buffer (r.imm_pos + r.imm_len) x tmp h

    with_imm_kept :
        (i : ℕ) → 1 ≤ i → i < r.imm_len → with_imm (r.imm_pos + i) ≡ r.buffer (r.imm_pos + i)
    with_imm_kept i ge lt =
        add_byte_ne (write r.buffer (r.imm_pos + r.imm_len) tmp) r.imm_pos blk (r.imm_pos + i)
          (omega arith)
        ∙ write_outside r.buffer (r.imm_pos + r.imm_len) (r.imm_pos + i) tmp (omega arith)

  -- A block that is skipped leaves all but the needed length.
  skipped-Grown : (n needed : ℕ) → Grown r n n 0 (record r { needed_len = needed })
  skipped-Grown n needed = record {
    valid = record {
      nodes_fit = valid.nodes_fit;
      imm_fit = valid.imm_fit;
      pos_bound = valid.pos_bound;
      len_bound = valid.len_bound;
      within = valid.within;
      node_count = valid.node_count;
      imm_count = valid.imm_count;
    };
    same_len = refl;
    outside = λ x h. refl;
    counted = refl;
    skips = omega arith;
    imm_grows = omega arith;
    imm_kept = λ i ge lt. refl;
  }

  -- A node block is counted as stored or as skipped.
  pub node_block-Grown :
      (block : List NodeData)
      → Grown r (length block) (append_node_block r block).0 0 (append_node_block r block).1
  unfolding append_node_block
  node_block-Grown block =
      let (len, tmp) = encode_nodes block in
      let size : len ≡ length tmp = length-encode_nodes block in
      elim (Bool-cases
        (ltb (r.num_nodes + length block) 128 && leb (r.imm_pos + r.imm_len + len) r.buffer_len)) [
          | inl t ↦
              let fits : r.num_nodes + length block < 128 = ground arith in
              let room : r.imm_pos + r.imm_len + len ≤ r.buffer_len = ground arith in
              rw (t, size)
                (record {
                  valid = record {
                    nodes_fit = fits;
                    imm_fit = valid.imm_fit;
                    pos_bound = omega (arith, valid.pos_bound);
                    len_bound = valid.len_bound;
                    within = omega (arith, room);
                    node_count = with_nodes_count tmp (length block) fits;
                    imm_count = with_nodes_imm tmp (length block);
                  };
                  same_len = refl;
                  outside = λ x h. with_nodes_outside tmp (length block) x (omega (arith, room));
                  counted = omega arith;
                  skips = omega arith;
                  imm_grows = omega arith;
                  imm_kept = with_nodes_kept tmp (length block);
                })
          | inr t ↦ rw t (skipped-Grown (length block) (r.needed_len + len))
        ]

  -- So is a block of immediate entries.
  pub immediate_block-Grown :
      (block : List (ℕ × CaliVariant))
      → Grown r
          (length block)
          (append_immediate_block r block).0
          0
          (append_immediate_block r block).1
  unfolding append_immediate_block
  immediate_block-Grown block =
      let (len, tmp) = encode_immediates block in
      let size : len ≡ length tmp = length-encode_immediates block in
      elim (Bool-cases
        (ltb (r.num_imm + length block) 128 && leb (r.imm_pos + r.imm_len + len) r.buffer_len)) [
          | inl t ↦
              let fits : r.num_imm + length block < 128 = ground arith in
              let room : r.imm_pos + r.imm_len + len ≤ r.buffer_len = ground arith in
              rw (t, size)
                (record {
                  valid = record {
                    nodes_fit = valid.nodes_fit;
                    imm_fit = fits;
                    pos_bound = valid.pos_bound;
                    len_bound = omega (arith, valid.len_bound);
                    within = omega (arith, room);
                    node_count = with_imm_nodes tmp (length block);
                    imm_count = with_imm_count tmp (length block) fits;
                  };
                  same_len = refl;
                  outside = λ x h. with_imm_outside tmp (length block) x (omega (arith, room));
                  counted = omega arith;
                  skips = omega arith;
                  imm_grows = omega arith;
                  imm_kept = with_imm_kept tmp (length block);
                })
          | inr t ↦ rw t (skipped-Grown (length block) (r.needed_len + len))
        ]
