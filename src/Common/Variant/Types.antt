-- ===== src/Common/Variant/Types.antt =====
-- The types of values, the variant struct, its accessors and its constructors.
use caliper_msg_pattern.Prelude.{ℕ, zero, suc, ◌+◌, ◌*◌, ◌/◌, ◌%◌, ◌^◌, Bool, if◌then◌else◌, ◌==◌}
use caliper_msg_pattern.Prelude.Int.{ℤ, bits64}

-- `cali_attr_type`
pub data AttrType : Type 0 where
  type_inv type_usr type_int type_uint type_string : AttrType
  type_addr type_double type_bool type_type type_ptr : AttrType

-- The enumerator's number.
abbrev pub type_number : AttrType → ℕ
type_number type_inv = 0
type_number type_usr = 1
type_number type_int = 2
type_number type_uint = 3
type_number type_string = 4
type_number type_addr = 5
type_number type_double = 6
type_number type_bool = 7
type_number type_type = 8
type_number type_ptr = 9

-- `CALI_MAXTYPE`
abbrev pub max_type : ℕ
max_type = 9

-- `(t <= CALI_MAXTYPE ? (cali_attr_type) t : CALI_TYPE_INV)`
abbrev pub attr_type : ℕ → AttrType
attr_type zero = type_inv
attr_type (suc zero) = type_usr
attr_type (suc (suc zero)) = type_int
attr_type (suc (suc (suc zero))) = type_uint
attr_type (suc (suc (suc (suc zero)))) = type_string
attr_type (suc (suc (suc (suc (suc zero))))) = type_addr
attr_type (suc (suc (suc (suc (suc (suc zero)))))) = type_double
attr_type (suc (suc (suc (suc (suc (suc (suc zero))))))) = type_bool
attr_type (suc (suc (suc (suc (suc (suc (suc (suc zero)))))))) = type_type
attr_type (suc (suc (suc (suc (suc (suc (suc (suc (suc zero))))))))) = type_ptr
attr_type (suc (suc (suc (suc (suc (suc (suc (suc (suc (suc t)))))))))) = type_inv

-- `cali_variant_t`
pub record CaliVariant : Type 0 where
  pub type_and_size : ℕ
  pub v_uint : ℕ

-- `_EXTRACT_TYPE`, `_EXTRACT_SIZE`
abbrev pub extract_type : ℕ → ℕ
extract_type ts = ts % 256

abbrev pub extract_size : ℕ → ℕ
extract_size ts = ts / 2 ^ 32

abbrev pub make_empty_variant : CaliVariant
make_empty_variant = record { type_and_size = 0; v_uint = 0 }

abbrev pub is_empty : CaliVariant → Bool
is_empty v = v.type_and_size == 0

unfoldable pub get_type : CaliVariant → AttrType
get_type v = attr_type (extract_type v.type_and_size)

-- The sizes are those of an LP64 machine.
abbrev pub size_as : AttrType → ℕ → ℕ
size_as type_inv ts = 0
size_as type_usr ts = extract_size ts
size_as type_string ts = extract_size ts
size_as type_int ts = 8
size_as type_uint ts = 8
size_as type_addr ts = 8
size_as type_double ts = 8
size_as type_bool ts = 1
size_as type_type ts = 4
size_as type_ptr ts = 8

unfoldable pub get_size : CaliVariant → ℕ
unfolding get_type
get_size v = size_as (get_type v) v.type_and_size

-- What a pointer argument points at, as the type reads it.
abbrev pub Memory : Type 0
Memory = ℕ → ℕ

-- `*((const uint64_t*) ptr)` and its likes: `n` bytes, lowest first.
unfoldable pub load : Memory → ℕ → ℕ → ℕ
load m p zero = 0
load m p (suc n) = m p + 256 * load m (p + 1) n

-- Three bytes of the data, in the bits 8 to 31.
unfoldable pub data_hash : Memory → ℕ → ℕ → ℕ
data_hash m p zero = 0
data_hash m p (suc n) = m p * 2 ^ 24 + m (p + suc n / 2) * 2 ^ 16 + m (p + n) * 2 ^ 8

abbrev pub make_variant_as : Memory → AttrType → ℕ → ℕ → CaliVariant
make_variant_as m type_inv p size = record { type_and_size = 0; v_uint = 0 }
make_variant_as m type_usr p size = record {
  type_and_size = size * 2 ^ 32 % 2 ^ 64 + data_hash m p size + 1;
  v_uint = p;
}
make_variant_as m type_string p size = record {
  type_and_size = size * 2 ^ 32 % 2 ^ 64 + data_hash m p size + 4;
  v_uint = p;
}
make_variant_as m type_int p size = record { type_and_size = 2; v_uint = load m p 8 }
make_variant_as m type_uint p size = record { type_and_size = 3; v_uint = load m p 8 }
make_variant_as m type_addr p size = record { type_and_size = 5; v_uint = load m p 8 }
make_variant_as m type_double p size = record { type_and_size = 6; v_uint = load m p 8 }
make_variant_as m type_bool p size = record { type_and_size = 7; v_uint = load m p 1 }
make_variant_as m type_type p size = record { type_and_size = 8; v_uint = load m p 4 }
make_variant_as m type_ptr p size = record { type_and_size = 9; v_uint = p }

unfoldable pub make_variant : Memory → AttrType → ℕ → ℕ → CaliVariant
unfolding load data_hash
make_variant m type p size = make_variant_as m type p size

unfoldable pub make_variant_from_bool : Bool → CaliVariant
make_variant_from_bool value = record { type_and_size = 7; v_uint = if value then 1 else 0 }

-- An `int` widens to 64 bits.
unfoldable pub make_variant_from_int : ℤ → CaliVariant
make_variant_from_int value = record { type_and_size = 2; v_uint = bits64 value }

unfoldable pub make_variant_from_int64 : ℤ → CaliVariant
make_variant_from_int64 value = record { type_and_size = 2; v_uint = bits64 value }

unfoldable pub make_variant_from_uint : ℕ → CaliVariant
make_variant_from_uint value = record { type_and_size = 3; v_uint = value % 2 ^ 64 }

-- A double is its bit pattern.
unfoldable pub make_variant_from_double : ℕ → CaliVariant
make_variant_from_double bits = record { type_and_size = 6; v_uint = bits % 2 ^ 64 }

unfoldable pub make_variant_from_type : AttrType → CaliVariant
make_variant_from_type value = record { type_and_size = 8; v_uint = type_number value }

unfoldable pub make_variant_from_ptr : ℕ → CaliVariant
make_variant_from_ptr p = record { type_and_size = 9; v_uint = p % 2 ^ 64 }

unfoldable pub get_ptr : CaliVariant → ℕ
get_ptr v = if v.type_and_size == 9 then v.v_uint else 0
