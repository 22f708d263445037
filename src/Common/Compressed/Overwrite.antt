-- ===== src/Common/Compressed/Overwrite.antt =====
-- Where the bytes of a block of nodes go.
use caliper_msg_pattern.Prelude.{
  ℕ, suc, ◌+◌, ◌-◌, ◌≤◌, ◌<◌, ◌≡◌, refl, ap, ◌∙◌, arith, true, ◌&&◌, List, [], ◌∷◌, length, ltb,
  leb,
}
use caliper_msg_pattern.Common.Entry.{NodeData}
use caliper_msg_pattern.Common.Compressed.{
  Buffer, nth, window, write, save_memmove, CompressedRecord, encode_nodes, append_node_block,
}
use caliper_msg_pattern.Common.Compressed.Block.{IsRecord, add_byte_ne}

window_of_eq :
    (buf : Buffer) (p : ℕ) (bytes : List ℕ)
    → ((i : ℕ) → i < length bytes → buf (p + i) ≡ nth bytes i)
    → window buf p (length bytes) ≡ bytes
unfolding window
window_of_eq buf p [] h = refl
window_of_eq buf p (b ∷ bytes) h =
    ap (λ x. x ∷ window buf (p + 1) (length bytes)) (ap buf (omega arith) ∙ h 0 (omega arith))
    ∙ ap (λ t. b ∷ t)
        (window_of_eq buf (p + 1) bytes (λ i lt. ap buf (omega arith) ∙ h (suc i) (omega arith)))

pub write_at :
    (buf : Buffer) (p i : ℕ) (bytes : List ℕ)
    → i < length bytes
    → write buf p bytes (p + i) ≡ nth bytes i
write_at buf p i bytes h = let e : p + i - p ≡ i = omega arith in ground (arith, ap (nth bytes) e)

-- A block of nodes that is stored in a record goes to the start of its node section, also where the
-- section holds nodes already: the bytes from offset 1 on are then those of the block.
pub node_block_overwrites :
    (r : CompressedRecord) (block : List NodeData)
    → IsRecord r
    → r.num_nodes + length block < 128
    → r.imm_pos + r.imm_len + (encode_nodes block).0 ≤ r.buffer_len
    → window (append_node_block r block).1.buffer 1 (length (encode_nodes block).1)
      ≡ (encode_nodes block).1
unfolding append_node_block
node_block_overwrites r block valid fits room =
    let (len, tmp) = encode_nodes block in
    let moved = save_memmove r.buffer (r.imm_pos + len) r.imm_pos r.imm_len in
    let stored : (ltb (r.num_nodes + length block) 128
          && leb (r.imm_pos + r.imm_len + len) r.buffer_len)
        ≡ true =
      ground arith in
    rw stored (
      window_of_eq _ 1 tmp (λ i lt.
        add_byte_ne (write moved 1 tmp) 0 (length block) (1 + i) (omega arith)
        ∙ write_at moved 1 i tmp lt))
