-- ===== src/Common/Compressed/Tests.antt =====
-- A record that is new, and entries appended to it.
use caliper_msg_pattern.Prelude.{ℕ, ◌≡◌, refl, arith, List, [], ◌∷◌, length, if◌then◌else◌, leb}
use caliper_msg_pattern.Util.Vlenc.{vlenc_loop, vlenc_u64}
use caliper_msg_pattern.Common.Variant.Types.{CaliVariant, make_empty_variant}
use caliper_msg_pattern.Common.Entry.{NodeData, Entry}
use caliper_msg_pattern.Common.Compressed.{
  Buffer, window, save_memmove, CompressedRecord, new_record, encode_nodes, append_node_block,
  append_nodes, append_entries,
}
use caliper_msg_pattern.Common.Compressed.Move.{shifted, save_memmove-shifted}
use caliper_msg_pattern.Common.Compressed.Block.{IsRecord, Grown}
use caliper_msg_pattern.Common.Compressed.Stored.{Stored, append_nodes-Stored}
use caliper_msg_pattern.Common.Compressed.Overwrite.{node_block_overwrites}
use caliper_msg_pattern.Common.Compressed.Entries.{filled}
use caliper_msg_pattern.Common.Compressed.StoredImmediates.{Behind}
use caliper_msg_pattern.Common.Compressed.StoredEntries.{
  nodes_of, immediates_of, append_entries-Stored,
}

abbrev memory : Buffer
memory = λ x. x

-- A record of 64 bytes.
abbrev fresh : CompressedRecord
fresh = new_record 64 memory

fresh-IsRecord : IsRecord fresh
fresh-IsRecord = record {
  nodes_fit = omega arith;
  imm_fit = omega arith;
  pos_bound = omega arith;
  len_bound = omega arith;
  within = omega arith;
  node_count = refl;
  imm_count = refl;
}

abbrev value : CaliVariant
value = record { type_and_size = 3; v_uint = 42 }

abbrev node : NodeData
node = record { id = 5; attribute = 20; content = value }

abbrev node_list : List NodeData
node_list = node ∷ node ∷ node ∷ node ∷ node ∷ []

abbrev immediates : List (ℕ × CaliVariant)
immediates = (7, value) ∷ []

abbrev attribute_node : NodeData
attribute_node = record { id = 7; attribute = 8; content = make_empty_variant }

abbrev entries : List Entry
entries =
    record { node = node ∷ []; value = value }
    ∷ record { node = []; value = make_empty_variant }
    ∷ record { node = attribute_node ∷ []; value = value }
    ∷ []

save_memmove-shifted_example : save_memmove memory 3 1 100 50 ≡ shifted memory 3 1 100 50
save_memmove-shifted_example = save_memmove-shifted memory 3 1 100 50 (omega arith)

append_nodes-Stored_example :
    Grown fresh
      (length node_list)
      (append_nodes fresh node_list).0
      (append_nodes fresh node_list).0
      (append_nodes fresh node_list).1
    × Stored fresh node_list (append_nodes fresh node_list).1
append_nodes-Stored_example = append_nodes-Stored fresh node_list fresh-IsRecord

append_entries-Stored_example :
    Grown fresh
      (filled entries)
      (append_entries fresh entries).0
      (append_entries fresh entries).0
      (append_entries fresh entries).1
    × Stored fresh (nodes_of entries) (append_entries fresh entries).1
    × Behind fresh (immediates_of entries) (append_entries fresh entries).1
append_entries-Stored_example = append_entries-Stored fresh entries fresh-IsRecord

-- A record that holds one node, 9.
abbrev holding : CompressedRecord
holding = record {
  buffer = λ x. if leb 3 x then 0 else if leb 2 x then 0 else if leb 1 x then 9 else 1;
  buffer_len = 64;
  num_nodes = 1;
  num_imm = 0;
  imm_pos = 2;
  imm_len = 1;
  needed_len = 3;
  skipped = 0;
}

holding-IsRecord : IsRecord holding
holding-IsRecord = record {
  nodes_fit = omega arith;
  imm_fit = omega arith;
  pos_bound = omega arith;
  len_bound = omega arith;
  within = omega arith;
  node_count = refl;
  imm_count = refl;
}

one_byte : (encode_nodes (node ∷ [])).0 ≡ 1
unfolding encode_nodes vlenc_u64 vlenc_loop
one_byte = refl

node_block_overwrites_example :
    window (append_node_block holding (node ∷ [])).1.buffer 1 (length (encode_nodes (node ∷ [])).1)
    ≡ (encode_nodes (node ∷ [])).1
node_block_overwrites_example =
    node_block_overwrites holding (node ∷ []) holding-IsRecord (omega arith)
      (omega (arith, one_byte))
