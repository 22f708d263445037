-- ===== src/Common/NodeBuffer.antt =====
-- src/common/NodeBuffer.h and NodeBuffer.cpp. The buffer is the list of the bytes in use; a store
-- behind the reserved bytes and a read behind the bytes in use are faults, `none`. A value is its
-- type and the bytes that `data()` points at, `size()` of them. A pointer's data is memory outside
-- the value, which need not be there, and a pointer that is read back points into the buffer: to
-- pack or to read one is `none` too.
pub mod RoundTrip
pub mod Visit
mod Tests
use caliper_msg_pattern.Prelude.{
  ℕ, zero, suc, ◌+◌, ◌*◌, ◌/◌, ◌%◌, ◌^◌, Bool, true, false, not, Option, none, some, List, [], ◌∷◌,
  ◌++◌, if◌then◌else◌, ltb, leb, ◌==◌, length, take, drop, ◌>>=◌,
}
use caliper_msg_pattern.Util.Vlenc.{vlenc_u64, vldec_u64}
use caliper_msg_pattern.Common.Variant.Types.{
  AttrType, type_number, attr_type, type_inv, type_usr, type_int, type_uint, type_string, type_addr,
  type_double, type_bool, type_type, type_ptr,
}
use caliper_msg_pattern.Common.Entry.{inv_id}

pub record NodeValue : Type 0 where
  pub type : AttrType
  pub content : List ℕ

-- `NodeBuffer::NodeInfo`
pub record NodeInfo : Type 0 where
  pub node_id : ℕ
  pub attr_id : ℕ
  pub parent_id : ℕ
  pub value : NodeValue

pub record NodeBuffer : Type 0 where
  pub count : ℕ
  pub reserved_len : ℕ
  pub buffer : List ℕ

-- `NodeBuffer()`
abbrev pub new_node_buffer : NodeBuffer
new_node_buffer = record { count = 0; reserved_len = 0; buffer = [] }

abbrev pub have_parent : NodeInfo → Bool
have_parent info = not (info.parent_id == inv_id)

-- `u`, with the flag in the lowest bit.
abbrev pub id_and_flag : NodeInfo → ℕ
id_and_flag info = (2 * info.node_id + (if have_parent info then 1 else 0)) % 2 ^ 64

abbrev pub pack_parent : NodeInfo → List ℕ
pack_parent info = if have_parent info then (vlenc_u64 info.parent_id).1 else []

-- Whether a value of a type has `n` bytes of data that are its own; `n` is its `size()`.
unfoldable pub has_data : AttrType → ℕ → Bool
has_data type_inv n = n == 0
has_data type_usr n = ltb n (2 ^ 32)
has_data type_int n = n == 8
has_data type_uint n = n == 8
has_data type_string n = ltb n (2 ^ 32)
has_data type_addr n = n == 8
has_data type_double n = n == 8
has_data type_bool n = n == 1
has_data type_type n = n == 4
has_data type_ptr n = false

-- The bytes of a node, one field behind the other.
unfoldable pub node_bytes : NodeInfo → List ℕ
unfolding vlenc_u64
node_bytes info =
    (vlenc_u64 (id_and_flag info)).1
    ++ ((vlenc_u64 info.attr_id).1
        ++ (pack_parent info
            ++ ((vlenc_u64 (type_number info.value.type)).1
                ++ ((vlenc_u64 (length info.value.content)).1 ++ info.value.content))))

-- The bytes that `pack_node` writes; their number is what it returns.
unfoldable pub pack_node : NodeInfo → Option (List ℕ)
unfolding has_data node_bytes
pack_node info =
    if has_data info.value.type (length info.value.content) then some (node_bytes info) else none

-- A read from the buffer: `size` bytes, if they are in use.
abbrev pub read_bytes : List ℕ → ℕ → ℕ → Option (List ℕ)
read_bytes buf pos size =
    if leb (pos + size) (length buf) then some (take size (drop pos buf)) else none

-- `Variant(type, buf + pos, size)`: the data of the value. A type of a fixed size reads as many bytes
-- and does not look at `size`; the size of a string is kept in 32 bits.
unfoldable pub read_data : List ℕ → ℕ → ℕ → AttrType → Option (List ℕ)
read_data buf pos size type_inv = some []
read_data buf pos size type_usr = do
  bytes ← read_bytes buf pos size
  some (take (size % 2 ^ 32) bytes)
read_data buf pos size type_int = read_bytes buf pos 8
read_data buf pos size type_uint = read_bytes buf pos 8
read_data buf pos size type_string = do
  bytes ← read_bytes buf pos size
  some (take (size % 2 ^ 32) bytes)
read_data buf pos size type_addr = read_bytes buf pos 8
read_data buf pos size type_double = read_bytes buf pos 8
read_data buf pos size type_bool = read_bytes buf pos 1
read_data buf pos size type_type = read_bytes buf pos 4
read_data buf pos size type_ptr = none

abbrev pub unpack_parent : List ℕ → ℕ → ℕ → Option (ℕ × ℕ)
unpack_parent buf u pos = if u % 2 == 1 then vldec_u64 buf pos else some (inv_id, pos)

-- The node read from `buf + pos`, and the position behind it.
unfoldable pub unpack_node : List ℕ → ℕ → Option (NodeInfo × ℕ)
unfolding vldec_u64 read_data
unpack_node buf pos = do
  (u, p) ← vldec_u64 buf pos
  (attr, q) ← vldec_u64 buf p
  (parent, r) ← unpack_parent buf u q
  (t, s) ← vldec_u64 buf r
  (size, k) ← vldec_u64 buf s
  content ← read_data buf k size (attr_type t)
  some (
    record {
      node_id = u / 2;
      attr_id = attr;
      parent_id = parent;
      value = record { type = attr_type t; content = content };
    },
    k + size,
  )

-- `reserve`: a new allocation keeps the bytes in use.
unfoldable pub reserve : NodeBuffer → ℕ → NodeBuffer
reserve nb min = if leb min nb.reserved_len then nb else record nb { reserved_len = 4096 + min * 2 }

abbrev pub max_packed_size : NodeInfo → ℕ
max_packed_size info = 50 + length info.value.content

-- A store of the bytes behind those in use.
abbrev pub store_node : NodeBuffer → List ℕ → Option NodeBuffer
store_node nb bytes =
    if leb (length nb.buffer + length bytes) nb.reserved_len
    then some (record nb { count = nb.count + 1; buffer = nb.buffer ++ bytes })
    else none

-- `append(const NodeInfo&)`
unfoldable pub append_node : NodeBuffer → NodeInfo → Option NodeBuffer
unfolding reserve pack_node
append_node nb info = do
  bytes ← pack_node info
  store_node (reserve nb (length nb.buffer + max_packed_size info)) bytes

-- `import`, with the bytes that the caller then puts into the buffer.
unfoldable pub import_nodes : NodeBuffer → List ℕ → ℕ → NodeBuffer
unfolding reserve
import_nodes nb bytes count = record (reserve nb (length bytes)) { count = count; buffer = bytes }

-- `for_each` from the `i`-th node on: the nodes that the function is called with, in order.
unfoldable pub visit_nodes : List ℕ → ℕ → ℕ → Option (List NodeInfo)
unfolding unpack_node
visit_nodes buf zero pos = some []
visit_nodes buf (suc left) pos =
    if ltb pos (length buf)
    then (do (info, p) ← unpack_node buf pos; infos ← visit_nodes buf left p; some (info ∷ infos))
    else some []

unfoldable pub for_each_node : NodeBuffer → Option (List NodeInfo)
unfolding visit_nodes
for_each_node nb = visit_nodes nb.buffer nb.count 0
