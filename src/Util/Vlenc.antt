-- ===== src/Util/Vlenc.antt =====
-- src/common/util/vlenc.h: variable-length encoding of 64-bit unsigned integers.
-- A buffer is the list of its bytes. Writing through `buf++` yields the bytes written; reading past
-- the bytes that the buffer holds is a fault, `none`. `x & 0x7F` is `x % 128`, `x >> 7` is
-- `x / 128`, and `|` joins disjoint bits, so it is `+`.
pub mod RoundTrip
pub mod Bounds
mod Tests
use caliper_msg_pattern.Prelude.{
  ℕ, zero, suc, ◌+◌, ◌*◌, ◌/◌, ◌%◌, ◌^◌, ◌<◌, ltb, leb, if◌then◌else◌, ◌&&◌, Option, none, some,
  List, [], ◌∷◌, drop,
}

abbrev pub IsByte : ℕ → Type 0
IsByte b = b < 256

abbrev pub IsU64 : ℕ → Type 0
IsU64 v = v < 2 ^ 64

-- The loop `while (val > 0x7F)` and the byte behind it: the bytes written and their number.
-- The last store keeps the low byte of `val`.
unfoldable pub vlenc_loop : ℕ → ℕ → ℕ → ℕ × List ℕ
vlenc_loop zero val nbytes = (nbytes + 1, (val % 256) ∷ [])
vlenc_loop (suc fuel) val nbytes =
    let (n, bytes) = vlenc_loop fuel (val / 128) (nbytes + 1) in
    if ltb 0x7F val then (n, (val % 128 + 0x80) ∷ bytes) else (nbytes + 1, (val % 256) ∷ [])

-- Nine shifts by seven bits leave at most one bit of a 64-bit value.
unfoldable pub vlenc_u64 : ℕ → ℕ × List ℕ
vlenc_u64 val = vlenc_loop 9 val 0

-- `val |= ((uint64_t) (buf[p] & 0x7F) << (7*p))`
abbrev pub add_group : ℕ → ℕ → ℕ → ℕ
add_group val b p = val + b % 128 * 2 ^ (7 * p) % 2 ^ 64

-- The list holds the bytes from `buf[p]` on. The byte that ends the loop is read once more.
unfoldable pub vldec_loop : List ℕ → ℕ → ℕ → Option (ℕ × ℕ)
vldec_loop [] p val = none
vldec_loop (b ∷ bs) p val =
    let more = vldec_loop bs (p + 1) (add_group val b p) in
    if ltb p 9 && leb 0x80 b then more else some (add_group val b p, p + 1)

-- The value read from `buf + pos`, and `pos` behind it.
unfoldable pub vldec_u64 : List ℕ → ℕ → Option (ℕ × ℕ)
vldec_u64 buf pos = elim (vldec_loop (drop pos buf) 0 0) [
  | none ↦ none
  | some (val, p) ↦ some (val, pos + p)
]
