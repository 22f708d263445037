-- ===== src/Reader/MetadataDb/Tests.antt =====
-- A database with the bootstrap nodes, and a stream of an attribute and two nested regions.
use caliper_msg_pattern.Prelude.{
  ℕ, ◌*◌, ◌≡◌, refl, arith, true, false, none, List, [], ◌∷◌, inl, inr, length,
}
use caliper_msg_pattern.Common.Variant.Types.{Memory, CaliVariant}
use caliper_msg_pattern.Common.Entry.{inv_id}
use caliper_msg_pattern.Runtime.MetadataTree.Bootstrap.{bootstrap_nodes}
use caliper_msg_pattern.Reader.MetadataDb.{
  Db, map_id, db_node, db_create_node, merge_node, merge_node_mapped,
}
use caliper_msg_pattern.Reader.MetadataDb.Nodes.{Merged}
use caliper_msg_pattern.Reader.MetadataDb.Merge.{parent_at, is_valid_info, merge_node-Merged}
use caliper_msg_pattern.Reader.MetadataDb.Records.{NodeRecord, IsStream}
use caliper_msg_pattern.Reader.MetadataDb.Stream.{Mirrored, merge_stream-Mirrored}
use caliper_msg_pattern.Reader.MetadataDb.Bootstrap.{
  bootstrap_loop, setup_bootstrap_nodes, setup-IsDb, setup-HasBootstrap,
}
use caliper_msg_pattern.Reader.MetadataDb.Again.{merge_node-again, merge_node_mapped_null}

-- The bytes of a text at each multiple of 64.
abbrev bytes : Memory
bytes a = a

abbrev print : CaliVariant → List ℕ
print v = []

abbrev texts : ℕ → ℕ
texts i = 64 * i

abbrev start : Db
start = setup_bootstrap_nodes bytes print texts

start_length : length start.nodes ≡ 12
unfolding setup_bootstrap_nodes bootstrap_loop db_create_node bootstrap_nodes db_node
start_length = refl

abbrev seven : CaliVariant
seven = record { type_and_size = 2; v_uint = 7 }

-- The stream's attribute has the identifier 20, and its regions 30 and 31.
abbrev stream : List NodeRecord
stream =
    record { id = 20; attribute = 8; parent = 3; content = seven }
    ∷ record { id = 30; attribute = 20; parent = inv_id; content = seven }
    ∷ record { id = 31; attribute = 20; parent = 30; content = seven }
    ∷ []

stream-IsStream : IsStream [] stream
stream-IsStream = (
  record { own = omega arith; others = tt },
  record { attribute = inl (omega arith); parent = inr (inl (omega arith)); content = refl },
  (
    record { own = omega arith; others = omega arith },
    record { attribute = inr (inl (refl, refl)); parent = inl refl; content = refl },
    (
      record { own = omega arith; others = omega arith },
      record {
        attribute = inr (inr (inl (refl, refl)));
        parent = inr (inr (inl refl));
        content = refl;
      },
      tt,
    ),
  ),
)

merge_stream-Mirrored_example : Mirrored bytes print start [] [] stream
merge_stream-Mirrored_example =
    merge_stream-Mirrored bytes print start stream (setup-IsDb bytes print texts)
      (setup-HasBootstrap bytes print texts) stream-IsStream (omega (arith, start_length))

ok_info : is_valid_info start 20 8 3 seven ≡ true
unfolding setup_bootstrap_nodes bootstrap_loop db_create_node bootstrap_nodes db_node
ok_info = refl

bad_info : is_valid_info start 20 (map_id 5 []) (map_id 3 []) seven ≡ false
unfolding map_id setup_bootstrap_nodes bootstrap_loop db_create_node bootstrap_nodes db_node
bad_info = refl

merge_node-Merged_example :
    Merged bytes start 8 seven (parent_at start 3) (merge_node bytes print start 20 8 3 seven)
merge_node-Merged_example =
    merge_node-Merged start (omega (arith, start_length)) bytes print 20 8 3 seven
      (setup-IsDb bytes print texts) ok_info

merge_node-again_example :
    merge_node bytes print (merge_node bytes print start 20 8 3 seven).1 20 8 3 seven
    ≡ merge_node bytes print start 20 8 3 seven
merge_node-again_example =
    merge_node-again bytes print start 20 8 3 seven (setup-IsDb bytes print texts)
      (omega (arith, start_length)) ok_info
      (inr ((setup-HasBootstrap bytes print texts).nodes 3 (omega arith)))

merge_node_mapped_null_example : merge_node_mapped bytes print start 20 5 3 seven [] ≡ none
merge_node_mapped_null_example =
    merge_node_mapped_null bytes print start 20 5 3 seven [] (omega (arith, start_length)) bad_info
