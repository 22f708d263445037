-- ===== src/Common/Variant/RoundTrip.antt =====
-- Packing and unpacking of variants: `cali_variant_pack` against `cali_variant_unpack`.
use caliper_msg_pattern.Prelude.{
  ℕ, ◌+◌, ◌≤◌, ◌≡◌, sym, ap, ◌∙◌, arith, Bool, true, false, some, List, ◌++◌, length, length-append,
  drop, drop-append, append_assoc, Option-cases, inl, inr,
}
use native.Mathlib.Nat.{add_assoc}
use caliper_msg_pattern.Util.Vlenc.{IsU64, vlenc_u64, vldec_u64}
use caliper_msg_pattern.Util.Vlenc.RoundTrip.{vldec_u64-split, drop-vlenc_u64}
use caliper_msg_pattern.Util.Vlenc.Bounds.{vlenc_u64_shape, vldec_u64_takes}
use caliper_msg_pattern.Common.Variant.Types.{
  CaliVariant, extract_type, max_type, make_empty_variant,
}
use caliper_msg_pattern.Common.Variant.Pack.{variant_pack, variant_unpack}

-- Both words of the struct are 64-bit values, and the type is one of the enumerators.
pub record IsVariant (v : CaliVariant) : Type 0 where
  pub ts_fits : IsU64 v.type_and_size
  pub value_fits : IsU64 v.v_uint
  pub type_known : extract_type v.type_and_size ≤ max_type

pub variant_unpack-split :
    (v : CaliVariant) (buf : List ℕ) (p : ℕ) (rest : List ℕ)
    → IsVariant v
    → drop p buf ≡ (variant_pack v).1 ++ rest
    → variant_unpack buf p ≡ some (v, p + (variant_pack v).0, true)
unfolding variant_pack variant_unpack
variant_unpack-split v buf p rest h e =
    let (n, bytes) = vlenc_u64 v.type_and_size in
    let (k, more) = vlenc_u64 v.v_uint in
    let first =
      vldec_u64-split v.type_and_size buf p (more ++ rest) h.ts_fits
        (e ∙ append_assoc bytes more rest) in
    let behind : drop (p + n) buf ≡ more ++ rest =
      drop-vlenc_u64 v.type_and_size buf p (more ++ rest) (e ∙ append_assoc bytes more rest) in
    let second = vldec_u64-split v.v_uint buf (p + n) rest h.value_fits behind in
    ground (arith, first, second)

-- A packed variant with 64-bit words and a known type, anywhere in a buffer, is read back by
-- `variant_unpack` as it was; the position moves behind the bytes that were written, and `*okptr`
-- is true.
pub variant_unpack-variant_pack :
    (v : CaliVariant) (front rest : List ℕ)
    → IsVariant v
    → variant_unpack (front ++ ((variant_pack v).1 ++ rest)) (length front)
      ≡ some (v, length front + (variant_pack v).0, true)
variant_unpack-variant_pack v front rest h =
    variant_unpack-split v _ (length front) rest h (drop-append front _)

pub drop-variant_pack :
    (v : CaliVariant) (buf : List ℕ) (p : ℕ) (rest : List ℕ)
    → drop p buf ≡ (variant_pack v).1 ++ rest
    → drop (p + (variant_pack v).0) buf ≡ rest
unfolding variant_pack
drop-variant_pack v buf p rest e =
    let (n, bytes) = vlenc_u64 v.type_and_size in
    let (k, more) = vlenc_u64 v.v_uint in
    let behind : drop (p + n) buf ≡ more ++ rest =
      drop-vlenc_u64 v.type_and_size buf p (more ++ rest) (e ∙ append_assoc bytes more rest) in
    ap (λ (t : ℕ). drop t buf) (sym (add_assoc p n k))
    ∙ drop-vlenc_u64 v.v_uint buf (p + n) rest behind

pub variant_pack_size :
    (v : CaliVariant) → IsVariant v → (variant_pack v).0 ≡ length (variant_pack v).1
unfolding variant_pack
variant_pack_size v h = rw length-append (
    omega (arith, vlenc_u64_shape v.type_and_size h.ts_fits, vlenc_u64_shape v.v_uint h.value_fits))

-- A packed variant with 64-bit words and a known type takes 2 to 20 bytes.
pub variant_pack_bounds :
    (v : CaliVariant) → IsVariant v → (2 ≤ (variant_pack v).0) × ((variant_pack v).0 ≤ 20)
unfolding variant_pack
variant_pack_bounds v h =
    omega (arith, vlenc_u64_shape v.type_and_size h.ts_fits, vlenc_u64_shape v.v_uint h.value_fits)

-- What a call that returned `v`, the position `p'` and `okay` did.
abbrev pub Unpacked : List ℕ → ℕ → CaliVariant → ℕ → Bool → Type 0
Unpacked buf p v p' true = IsVariant v × (p + 2 ≤ p') × (p' ≤ p + 20) × (p' ≤ length buf)
Unpacked buf p v p' false = (v ≡ make_empty_variant) × (p' ≡ p)

-- The branch that reads the value.
unpack_reads :
    (buf : List ℕ) (p ts q value q' : ℕ)
    → vldec_u64 buf p ≡ some (ts, q)
    → vldec_u64 buf q ≡ some (value, q')
    → extract_type ts ≤ max_type
    → Unpacked buf p (record { type_and_size = ts; v_uint = value }) q' true
unpack_reads buf p ts q value q' first second known =
    let t = vldec_u64_takes buf p ts q first in
    let u = vldec_u64_takes buf q value q' second in
    (
      record { ts_fits = t.0; value_fits = u.0; type_known = known },
      omega arith,
      omega arith,
      omega arith,
    )

-- On any buffer: what `variant_unpack` returns with `*okptr` true has 64-bit words and a known
-- type, and the position moved by 2 to 20 bytes inside the buffer; with `*okptr` false it returns
-- the empty variant and the position stays.
pub variant_unpack_takes :
    (buf : List ℕ) (p : ℕ) (v : CaliVariant) (p' : ℕ) (okay : Bool)
    → variant_unpack buf p ≡ some (v, p', okay)
    → Unpacked buf p v p' okay
unfolding variant_unpack
variant_unpack_takes buf p v p' false e = ground arith
variant_unpack_takes buf p v p' true e = elim (Option-cases (vldec_u64 buf p)) [
  | inl stop ↦ cc (rw (stop, variant_unpack) at e)
  | inr ((ts, q), first) ↦ elim (Option-cases (vldec_u64 buf q)) [
    | inl stop ↦ absurd (ground (arith, first, stop))
    | inr ((value, q'), second) ↦ ground (arith, first, second, unpack_reads buf p ts q value q')
  ]
]
