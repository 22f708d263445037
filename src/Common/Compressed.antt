-- ===== src/Common/Compressed.antt =====
-- src/common/CompressedSnapshotRecord.h, CompressedSnapshotRecord.cpp: the encoder. Memory at and
-- behind the record's buffer is a function of the offset.
pub mod Move
pub mod Block
pub mod Append
pub mod Overwrite
pub mod Stored
pub mod Entries
pub mod StoredImmediates
pub mod StoredEntries
mod Tests
use caliper_msg_pattern.Prelude.{
  ℕ, zero, suc, ◌+◌, ◌-◌, ◌%◌, min, Bool, true, false, ◌&&◌, List, [], ◌∷◌, ◌++◌, length, take,
  drop, if◌then◌else◌, ◌==◌, ltb, leb,
}
use caliper_msg_pattern.Util.Vlenc.{vlenc_u64}
use caliper_msg_pattern.Common.Variant.Types.{CaliVariant}
use caliper_msg_pattern.Common.Variant.Pack.{variant_pack}
use caliper_msg_pattern.Common.Entry.{
  NodeData, NodePtr, Entry, entry_attribute, is_reference, is_immediate,
}

abbrev pub Buffer : Type 0
Buffer = ℕ → ℕ

abbrev pub nth : List ℕ → ℕ → ℕ
nth [] i = 0
nth (b ∷ bs) zero = b
nth (b ∷ bs) (suc i) = nth bs i

-- `memcpy` from the buffer to a local array, and back.
unfoldable pub window : Buffer → ℕ → ℕ → List ℕ
window buf p zero = []
window buf p (suc n) = buf p ∷ window buf (p + 1) n

abbrev pub write : Buffer → ℕ → List ℕ → Buffer
write buf p bytes x = if leb p x && ltb x (p + length bytes) then nth bytes (x - p) else buf x

-- The loop of `save_memmove`, on fuel: blocks of 64 bytes, the last one first.
unfoldable pub move_blocks : ℕ → Buffer → ℕ → ℕ → ℕ → Buffer
unfolding window
move_blocks zero buf dst src len = buf
move_blocks (suc fuel) buf dst src len =
    let blk = min len 64 in
    let rest =
      move_blocks fuel (write buf (dst + (len - blk)) (window buf (src + (len - blk)) blk)) dst src
        (len - blk) in
    if len == 0 then buf else rest

-- Each round takes off a byte or more, so `len` rounds do.
unfoldable pub save_memmove : Buffer → ℕ → ℕ → ℕ → Buffer
unfolding move_blocks
save_memmove buf dst src len = if src == dst then buf else move_blocks len buf dst src len

-- `CompressedSnapshotRecord`
pub record CompressedRecord : Type 0 where
  pub buffer : Buffer
  pub buffer_len : ℕ
  pub num_nodes : ℕ
  pub num_imm : ℕ
  pub imm_pos : ℕ
  pub imm_len : ℕ
  pub needed_len : ℕ
  pub skipped : ℕ

-- The constructor over a given buffer.
abbrev pub new_record : ℕ → Buffer → CompressedRecord
new_record len buf = record {
  buffer = λ x. if ltb x len then 0 else buf x;
  buffer_len = len;
  num_nodes = 0;
  num_imm = 0;
  imm_pos = 1;
  imm_len = 1;
  needed_len = 2;
  skipped = 0;
}

-- `m_blocksize`
abbrev pub blocksize : ℕ
blocksize = 4

-- `m_buffer[p] += k` on a byte
abbrev pub add_byte : Buffer → ℕ → ℕ → Buffer
add_byte buf p k x = if x == p then (buf x + k) % 256 else buf x

-- The encoding of a block of nodes: `len` and `tmp`.
unfoldable pub encode_nodes : List NodeData → ℕ × List ℕ
encode_nodes [] = (0, [])
encode_nodes (node ∷ nodes) =
    let (n, bytes) = vlenc_u64 node.id in
    let (k, more) = encode_nodes nodes in (n + k, bytes ++ more)

-- One round of `append(size_t, const Node* const [])`: the number of skipped entries.
unfoldable pub append_node_block : CompressedRecord → List NodeData → ℕ × CompressedRecord
unfolding encode_nodes save_memmove
append_node_block r block =
    let (len, tmp) = encode_nodes block in
    let blk = length block in
    if ltb (r.num_nodes + blk) 128 && leb (r.imm_pos + r.imm_len + len) r.buffer_len
    then (
      0,
      record r {
        buffer =
            add_byte (write (save_memmove r.buffer (r.imm_pos + len) r.imm_pos r.imm_len) 1 tmp) 0
              blk;
        imm_pos = r.imm_pos + len;
        num_nodes = r.num_nodes + blk;
        needed_len = r.needed_len + len;
      },
    )
    else (blk, record r { needed_len = r.needed_len + len })

-- The encoding of a block of immediate entries.
unfoldable pub encode_immediates : List (ℕ × CaliVariant) → ℕ × List ℕ
unfolding variant_pack
encode_immediates [] = (0, [])
encode_immediates ((attr, value) ∷ rest) =
    let (n, bytes) = vlenc_u64 attr in
    let (l, packed) = variant_pack value in
    let (k, more) = encode_immediates rest in (n + l + k, bytes ++ (packed ++ more))

-- One round of `append(size_t, const cali_id_t[], const Variant[])`.
unfoldable pub append_immediate_block :
    CompressedRecord → List (ℕ × CaliVariant) → ℕ × CompressedRecord
unfolding encode_immediates
append_immediate_block r block =
    let (len, tmp) = encode_immediates block in
    let blk = length block in
    if ltb (r.num_imm + blk) 128 && leb (r.imm_pos + r.imm_len + len) r.buffer_len
    then (
      0,
      record r {
        buffer = add_byte (write r.buffer (r.imm_pos + r.imm_len) tmp) r.imm_pos blk;
        imm_len = r.imm_len + len;
        num_imm = r.num_imm + blk;
        needed_len = r.needed_len + len;
      },
    )
    else (blk, record r { needed_len = r.needed_len + len })

-- The loop over blocks of entries of either kind, on fuel, with `skipped`. Each round takes an
-- entry or more, so as many rounds as entries do.
module _ {A : Type 0} (block : CompressedRecord → List A → ℕ × CompressedRecord) where
  unfoldable pub append_blocks : ℕ → CompressedRecord → List A → ℕ → ℕ × CompressedRecord
  append_blocks zero r xs skipped = (skipped, r)
  append_blocks (suc fuel) r [] skipped = (skipped, r)
  append_blocks (suc fuel) r (x ∷ xs) skipped =
      let (s, r') = block r (take blocksize (x ∷ xs)) in
      append_blocks fuel r' (drop blocksize (x ∷ xs)) (skipped + s)

  -- With the `m_skipped += skipped` behind the loop.
  unfoldable pub append_all : CompressedRecord → List A → ℕ × CompressedRecord
  unfolding append_blocks
  append_all r xs =
      let (s, r') = append_blocks (length xs) r xs 0 in (s, record r' { skipped = r'.skipped + s })

-- `append(size_t, const Node* const [])`
unfoldable pub append_nodes : CompressedRecord → List NodeData → ℕ × CompressedRecord
unfolding append_all append_node_block
append_nodes r nodes = append_all append_node_block r nodes

-- `append(size_t, const cali_id_t[], const Variant[])`
unfoldable pub append_immediates : CompressedRecord → List (ℕ × CaliVariant) → ℕ × CompressedRecord
unfolding append_all append_immediate_block
append_immediates r entries = append_all append_immediate_block r entries

-- The loop of `append(size_t, const Entry[])`, with the arrays `nodes` and `attr`, `data` and with
-- `skipped`. A full array is appended; behind the loop what is left in both is.
unfoldable pub entries_loop :
    CompressedRecord
    → List Entry
    → List NodeData
    → List (ℕ × CaliVariant)
    → ℕ
    → ℕ × CompressedRecord
entries_loop r [] nodes imm skipped =
    let (s, r₁) = append_nodes r nodes in
    let (z, r₂) = append_immediates r₁ imm in (skipped + s + z, r₂)
entries_loop r (e ∷ es) nodes imm skipped = elim e.node [
  | [] ↦ entries_loop r es nodes imm skipped
  | n ∷ up ↦
      let kept = entries_loop r es nodes (imm ++ (entry_attribute e, e.value) ∷ []) skipped in
      let (z, r₁) = append_immediates r (imm ++ (entry_attribute e, e.value) ∷ []) in
      let flushed = entries_loop r₁ es nodes [] (skipped + z) in
      let kept' = entries_loop r es (nodes ++ n ∷ []) imm skipped in
      let (s, r₂) = append_nodes r (nodes ++ n ∷ []) in
      let flushed' = entries_loop r₂ es [] imm (skipped + s) in
      if is_immediate e
      then (if length imm + 1 == blocksize then flushed else kept)
      else if length nodes + 1 == blocksize
      then flushed'
      else kept'
]

-- `append(size_t, const Entry[])`
unfoldable pub append_entries : CompressedRecord → List Entry → ℕ × CompressedRecord
append_entries r es = entries_loop r es [] [] 0
