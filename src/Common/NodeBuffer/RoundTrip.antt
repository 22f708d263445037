-- ===== src/Common/NodeBuffer/RoundTrip.antt =====
-- src/common/NodeBuffer.cpp: nodes that are appended and read back.
use caliper_msg_pattern.Prelude.{
  ℕ, ◌+◌, ◌*◌, ◌/◌, ◌%◌, ◌^◌, ◌≤◌, ◌<◌, ◌≡◌, refl, sym, ap, ◌∙◌, arith, Bool, true, false, not,
  some, List, [], ◌∷◌, ◌++◌, if◌then◌else◌, leb, ◌==◌, length, drop, length-append, length-drop,
  take, take-append, append_assoc, append-nil, ltb, ==_iff, ◌>>=◌,
}
use native.Mathlib.Nat.{add-zero}
use mathlib.Core.Path.{subst}
use caliper_msg_pattern.Util.Vlenc.{IsU64, vlenc_u64, vldec_u64}
use caliper_msg_pattern.Util.Vlenc.RoundTrip.{vldec_u64-split, drop-vlenc_u64}
use caliper_msg_pattern.Util.Vlenc.Bounds.{vlenc_u64_shape}
use caliper_msg_pattern.Common.Variant.Types.{
  AttrType, type_number, attr_type, type_inv, type_usr, type_int, type_uint, type_string, type_addr,
  type_double, type_bool, type_type, type_ptr,
}
use caliper_msg_pattern.Common.Entry.{inv_id}
use caliper_msg_pattern.Common.NodeBuffer.{
  NodeInfo, have_parent, id_and_flag, pack_parent, has_data, node_bytes, read_bytes, read_data,
  unpack_parent, unpack_node,
}

attr_type_of : (t : AttrType) → attr_type (type_number t) ≡ t
attr_type_of type_inv = refl
attr_type_of type_usr = refl
attr_type_of type_int = refl
attr_type_of type_uint = refl
attr_type_of type_string = refl
attr_type_of type_addr = refl
attr_type_of type_double = refl
attr_type_of type_bool = refl
attr_type_of type_type = refl
attr_type_of type_ptr = refl

pub type_fits : (t : AttrType) → IsU64 (type_number t)
type_fits t = grind arith

-- A node that the format can hold: its numbers have 64 bits, and its value is not a pointer and has
-- as many bytes as its type.
pub record IsPackable (info : NodeInfo) : Type 0 where
  pub id_fits : info.node_id < 2 ^ 63
  pub attr_fits : IsU64 info.attr_id
  pub parent_fits : IsU64 info.parent_id
  pub own_data : has_data info.value.type (length info.value.content) ≡ true

-- A number read where its encoding stands, and what stands behind it.
field :
    (v : ℕ) (buf : List ℕ) (pos : ℕ) (rest : List ℕ)
    → IsU64 v
    → drop pos buf ≡ (vlenc_u64 v).1 ++ rest
    → (vldec_u64 buf pos ≡ some (v, pos + length (vlenc_u64 v).1))
      × (drop (pos + length (vlenc_u64 v).1) buf ≡ rest)
field v buf pos rest h e =
    let (bytes, same, low, high) = vlenc_u64_shape v h in
    (
      vldec_u64-split v buf pos rest h e ∙ ap (λ (n : ℕ). some (v, pos + n)) same,
      sym (ap (λ (n : ℕ). drop (pos + n) buf) same) ∙ drop-vlenc_u64 v buf pos rest e,
    )

-- The number and the flag in one.
pub flag_of :
    (b : Bool) (n : ℕ)
    → n < 2 ^ 63
    → (((2 * n + (if b then 1 else 0)) % 2 ^ 64) / 2 ≡ n)
      × ((((2 * n + (if b then 1 else 0)) % 2 ^ 64) % 2 == 1) ≡ b)
      × IsU64 ((2 * n + (if b then 1 else 0)) % 2 ^ 64)
flag_of true n h = (omega (arith, h), ground (arith, h), omega arith)
flag_of false n h = (omega (arith, h), ground (arith, h), omega arith)

is_inv : (n : ℕ) → not (n == inv_id) ≡ false → inv_id ≡ n
is_inv n h = ground arith

parent_at :
    (b : Bool) (parent : ℕ) (buf : List ℕ) (pos : ℕ) (rest : List ℕ)
    → IsU64 parent
    → not (parent == inv_id) ≡ b
    → drop pos buf ≡ (if b then (vlenc_u64 parent).1 else []) ++ rest
    → ((if b then vldec_u64 buf pos else some (inv_id, pos))
        ≡ some (parent, pos + length (if b then (vlenc_u64 parent).1 else [])))
      × (drop (pos + length (if b then (vlenc_u64 parent).1 else [])) buf ≡ rest)
parent_at true parent buf pos rest fits given e = field parent buf pos rest fits e
parent_at false parent buf pos rest fits given e = (
  ap (λ (n : ℕ). some (n, pos)) (is_inv parent given)
      ∙ ap (λ (n : ℕ). some (parent, n)) (sym (add-zero pos)),
  ap (λ (n : ℕ). drop n buf) (add-zero pos) ∙ e,
)

parent_field :
    (info : NodeInfo) (buf : List ℕ) (pos : ℕ) (rest : List ℕ)
    → IsPackable info
    → drop pos buf ≡ pack_parent info ++ rest
    → (unpack_parent buf (id_and_flag info) pos
        ≡ some (info.parent_id, pos + length (pack_parent info)))
      × (drop (pos + length (pack_parent info)) buf ≡ rest)
parent_field info buf pos rest ok e =
    rw ((flag_of (have_parent info) info.node_id ok.id_fits).1)
      (parent_at (have_parent info) info.parent_id buf pos rest ok.parent_fits refl e)

within :
    (bytes buf rest : List ℕ) (k : ℕ)
    → drop k buf ≡ bytes ++ rest
    → k ≤ length buf
    → leb (k + length bytes) (length buf) ≡ true
within bytes buf rest k e le =
    ground (arith, length-drop k buf, ap (λ (xs : List ℕ). length xs) e, length-append bytes rest)

-- The bytes of the data.
bytes_field :
    (bytes buf rest : List ℕ) (k : ℕ)
    → drop k buf ≡ bytes ++ rest
    → k ≤ length buf
    → read_bytes buf k (length bytes) ≡ some bytes
bytes_field bytes buf rest k e le =
    rw (within bytes buf rest k e le) (rw e (ap some (take-append bytes rest)))

-- The bytes of a type that has a fixed size.
fixed_field :
    (n : ℕ) (bytes buf rest : List ℕ) (k : ℕ)
    → (length bytes == n) ≡ true
    → drop k buf ≡ bytes ++ rest
    → k ≤ length buf
    → read_bytes buf k n ≡ some bytes
fixed_field n bytes buf rest k same e le =
    subst (λ size. read_bytes buf k size ≡ some bytes) ((==_iff (length bytes) n).0 same)
      (bytes_field bytes buf rest k e le)

-- The bytes of a type that has any size.
sized_field :
    (bytes buf rest : List ℕ) (k : ℕ)
    → ltb (length bytes) (2 ^ 32) ≡ true
    → drop k buf ≡ bytes ++ rest
    → k ≤ length buf
    → (do got ← read_bytes buf k (length bytes); some (take (length bytes % 2 ^ 32) got))
      ≡ some bytes
sized_field bytes buf rest k short e le = rw (bytes_field bytes buf rest k e le) (
    ap some (
      ap (λ (n : ℕ). take n bytes) (ground (arith, short))
      ∙ ap (take (length bytes)) (sym (append-nil bytes))
      ∙ take-append bytes []))

no_bytes : (bytes : List ℕ) → (length bytes == 0) ≡ true → [] ≡ bytes
no_bytes [] h = refl
no_bytes (b ∷ bytes) h = absurd (ground (arith, h))

data_field :
    (t : AttrType) (bytes buf rest : List ℕ) (k : ℕ)
    → has_data t (length bytes) ≡ true
    → drop k buf ≡ bytes ++ rest
    → k ≤ length buf
    → read_data buf k (length bytes) t ≡ some bytes
unfolding has_data read_data
data_field type_inv bytes buf rest k h e le = ap some (no_bytes bytes h)
data_field type_usr bytes buf rest k h e le = sized_field bytes buf rest k h e le
data_field type_int bytes buf rest k h e le = fixed_field 8 bytes buf rest k h e le
data_field type_uint bytes buf rest k h e le = fixed_field 8 bytes buf rest k h e le
data_field type_string bytes buf rest k h e le = sized_field bytes buf rest k h e le
data_field type_addr bytes buf rest k h e le = fixed_field 8 bytes buf rest k h e le
data_field type_double bytes buf rest k h e le = fixed_field 8 bytes buf rest k h e le
data_field type_bool bytes buf rest k h e le = fixed_field 1 bytes buf rest k h e le
data_field type_type bytes buf rest k h e le = fixed_field 4 bytes buf rest k h e le
data_field type_ptr bytes buf rest k h e le = absurd (ground (arith, h))

-- The size of the data is a number of 64 bits.
pub size_fits : (t : AttrType) (n : ℕ) → has_data t n ≡ true → IsU64 n
unfolding has_data
size_fits type_inv n h = ground (arith, h)
size_fits type_usr n h = ground (arith, h)
size_fits type_int n h = ground (arith, h)
size_fits type_uint n h = ground (arith, h)
size_fits type_string n h = ground (arith, h)
size_fits type_addr n h = ground (arith, h)
size_fits type_double n h = ground (arith, h)
size_fits type_bool n h = ground (arith, h)
size_fits type_type n h = ground (arith, h)
size_fits type_ptr n h = absurd (ground (arith, h))

pub content_fits : (info : NodeInfo) → IsPackable info → IsU64 (length info.value.content)
content_fits info ok = size_fits info.value.type (length info.value.content) ok.own_data

-- What stands behind a number starts inside the buffer.
behind-within :
    (v : ℕ) (buf : List ℕ) (pos : ℕ) (rest : List ℕ)
    → IsU64 v
    → drop pos buf ≡ (vlenc_u64 v).1 ++ rest
    → pos + length (vlenc_u64 v).1 ≤ length buf
behind-within v buf pos rest h e =
    let (bytes, same, low, high) = vlenc_u64_shape v h in
    omega (
      arith,
      length-drop pos buf,
      ap (λ (xs : List ℕ). length xs) e,
      length-append (vlenc_u64 v).1 rest,
      same,
      low,
    )

module _ (info : NodeInfo) (buf : List ℕ) (pos : ℕ) (rest : List ℕ) (ok : IsPackable info) where
  abbrev a_bytes : List ℕ
  a_bytes = (vlenc_u64 (id_and_flag info)).1

  abbrev b_bytes : List ℕ
  b_bytes = (vlenc_u64 info.attr_id).1

  abbrev t_bytes : List ℕ
  t_bytes = (vlenc_u64 (type_number info.value.type)).1

  abbrev s_bytes : List ℕ
  s_bytes = (vlenc_u64 (length info.value.content)).1

  -- The fields one behind the other.
  whole :
      node_bytes info ++ rest
      ≡ a_bytes
        ++ (b_bytes ++ (pack_parent info ++ (t_bytes ++ (s_bytes ++ (info.value.content ++ rest)))))
  unfolding node_bytes
  whole = simp append_assoc

  pub total :
      pos
        + length a_bytes
        + length b_bytes
        + length (pack_parent info)
        + length t_bytes
        + length s_bytes
        + length info.value.content
      ≡ pos + length (node_bytes info)
  unfolding node_bytes
  total = omega (
    arith,
    length-append a_bytes _,
    length-append b_bytes _,
    length-append (pack_parent info) _,
    length-append t_bytes _,
    length-append s_bytes info.value.content,
  )

  -- A node that was packed is read back from where it stands, to the end of its bytes.
  pub unpack_node-split :
      drop pos buf ≡ node_bytes info ++ rest
      → unpack_node buf pos ≡ some (info, pos + length (node_bytes info))
  unfolding unpack_node
  unpack_node-split e =
      let (half, parity, fits) = flag_of (have_parent info) info.node_id ok.id_fits in
      let (u, eu) = field (id_and_flag info) buf pos _ fits (e ∙ whole) in
      let (a, ea) = field info.attr_id buf (pos + length a_bytes) _ ok.attr_fits eu in
      let (q, eq) = parent_field info buf (pos + length a_bytes + length b_bytes) _ ok ea in
      let (t, et) =
        field (type_number info.value.type) buf
          (pos + length a_bytes + length b_bytes + length (pack_parent info)) _
          (type_fits info.value.type) eq in
      let (s, es) =
        field (length info.value.content) buf
          (pos + length a_bytes + length b_bytes + length (pack_parent info) + length t_bytes) _
          (content_fits info ok) et in
      let c =
        data_field info.value.type info.value.content buf rest
          (pos
            + length a_bytes
            + length b_bytes
            + length (pack_parent info)
            + length t_bytes
            + length s_bytes)
          ok.own_data es
          (behind-within (length info.value.content) buf _ _ (content_fits info ok) et) in
      simp (u, a, q, t, s, attr_type_of info.value.type, c, half)
        (ap (λ (n : ℕ). some (info, n)) total)
