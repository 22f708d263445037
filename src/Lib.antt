-- ===== src/Lib.antt =====
-- Caliper, a performance instrumentation and profiling library: a model of the parts that keep and
-- process data.
--
-- The runtime (src/caliper) keeps the current values of attributes on blackboards and takes
-- snapshots of them. A region that begins is a node of the context tree under the node of the
-- region around it, and the blackboard holds the current node; its end puts back the node above.
-- The data model (src/common, include/caliper/common) has variants, which hold a value of one of
-- ten types, and entries, which point into the tree of context nodes or hold an attribute and a
-- variant. Snapshots are packed with variable-length integers. The reader (src/reader) merges the
-- node records of the streams that were written into one database, and aggregates the snapshot
-- records with kernels, which an aggregator keeps for each key and which append their result to
-- the key's record; the record selector leaves out what a query filters. The aggregation service
-- (src/services/aggregate) does such an aggregation at run time, in a hash table of keys with
-- their kernels.
--
-- Files and code:
--   Prelude                 shared helpers: lists, options, Boolean tests, integers of C; Prelude.Mask
--                           has the mask that rounds to a power of two
--   Util.Vlenc              src/common/util/vlenc.h: vlenc_u64, vldec_u64
--   Util.LockfreeTree       include/caliper/common/lockfree-tree.hpp: the calls of append as processes
--                           whose steps interleave
--   Common.Variant.Types    include/caliper/common/cali_types.h, cali_variant.h and
--                           src/common/cali_variant.c: the struct, cali_make_variant and the other
--                           constructors
--   Common.Variant.Convert  src/common/cali_variant.c: cali_variant_to_int and its siblings
--   Common.Variant.Compare  src/common/cali_variant.c: cali_variant_compare, cali_variant_eq
--   Common.Variant.Pack     src/common/cali_variant.c: cali_variant_pack, cali_variant_unpack
--   Common.Variant.Text     src/common/Variant.cpp: Variant::to_string; src/common/cali_types.c:
--                           cali_type2string, cali_string2type
--   Common.Variant.Add      src/common/Variant.cpp: Variant::operator +=
--   Common.Entry            Node.h, Attribute.h, Entry.h in include/caliper/common and
--                           src/common/Attribute.cpp, Entry.cpp; a node pointer is the path from
--                           the node to the root
--   Common.Entry.Pack       src/common/Entry.cpp: Entry::pack, Entry::unpack
--   Common.Compressed       src/common/CompressedSnapshotRecord.h, CompressedSnapshotRecord.cpp:
--                           save_memmove and the three append functions; a buffer is a function
--                           of the offset
--   Common.NodeBuffer       src/common/NodeBuffer.h, NodeBuffer.cpp: packing nodes, append, for_each; a
--                           buffer is the list of its bytes in use, a value its type and the bytes
--                           of its data
--   Runtime.Blackboard      src/caliper/Blackboard.h, Blackboard.cpp: add, get, set, exchange, del,
--                           snapshot; one function each, from state to state
--   Runtime.MemoryPool      src/caliper/MemoryPool.cpp: expand, allocate, merge, in the arithmetic of
--                           size_t; the addresses of new chunks are parameters
--   Runtime.MetadataTree    src/caliper/MetadataTree.h, MetadataTree.cpp: node blocks, get_child,
--                           get_or_copy_node, paths without a node, the bootstrap nodes
--   Runtime.Caliper         src/caliper/Caliper.cpp: begin, end, end_with_value_check, set, get and
--                           exchange, on the blackboards and the tree; the callbacks are a list
--   Common.Snapshot         include/caliper/SnapshotRecord.h: SnapshotView, SnapshotBuilder
--   Reader.Metadata         include/caliper/common/CaliperMetadataAccessInterface.h, as a record
--                           that the kernels take
--   Reader.MetadataDb       src/reader/CaliperMetadataDB.cpp: node, attribute, create_node, merge_node,
--                           make_tree_entry with nodes, merge_snapshot, merge_entry and merge_global
--                           of nodes, setup_bootstrap_nodes; the map of a stream is a list of pairs
--   Reader.Kernels          src/reader/Aggregator.cpp: the eleven kernels, with their configs
--   Reader.Aggregator       src/reader/Aggregator.cpp: the key attributes of AggregatorImpl, the
--                           nodes of a record that make its key, and the hash table of keys
--   Reader.RecordSelector   src/reader/RecordSelector.cpp and Condition of
--                           include/caliper/reader/QuerySpec.h: the filters of a query, and the
--                           text that describes them
--   Services.Aggregation    src/services/aggregate/AggregationDB.h, AggregationDB.cpp, without
--                           histograms: the hash chains, the kernels, process_snapshot, clear, flush
--   Services.SplayTree      src/services/alloc/SplayTree.hpp: splaying, insert, find, remove; a node
--                           is its subtrees under the frames of its ancestors
--
-- Fuel: vlenc_u64 shifts at most 9 times, as 64 bits are ten groups of seven. The probing loops and
-- the loop of Blackboard::del take the number of slots, 1021, as fuel: a loop that has seen each slot
-- once has seen a free one, if there is one. The loops of Blackboard::snapshot take 32, the number of
-- bits of a word. save_memmove and the append functions of compressed records take the number of
-- bytes and of entries, as each round handles one or more. The search along a hash chain takes the
-- number of entries, as each link goes to an entry that was made earlier; the same holds for the
-- aggregator's table of keys.
--
-- Doubles are bit patterns, with the arithmetic and the conversions as parameters (DoubleOps). What
-- a pointer in a variant points at is a parameter (Memory). The metadata database that the kernels
-- use is a parameter (MetadataAccess). Locks are left out, and calls follow one another, but for the
-- calls of append on the lock-free tree; there each access to shared memory is a step, and the steps
-- are sequentially consistent.
--
-- The count of a run-time kernel and of an entry is a natural number without a bound, where the
-- source has an int and a size_t. A number of bytes or of entries that the source keeps in size_t is
-- one too, but for the memory pool's. In begin, end and set of Runtime.Caliper, `none` is a read or
-- write through a null pointer, a block index out of range, or fuel that ran out.
--
-- The text of a number, an address or raw bytes is a parameter of to_string.
--
-- Not modelled: values from texts, property names, file formats, the query language, the configuration,
-- the management of channels, the services but for the aggregation database and
-- the splay tree, and the third-party libraries under ext.
pub mod Prelude
pub mod Util
pub mod Common
pub mod Runtime
pub mod Reader
pub mod Services
