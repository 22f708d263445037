-- ===== src/Util/Vlenc/Tests.antt =====
-- The encoding on concrete values.
use caliper_msg_pattern.Prelude.{
  ℕ, ◌+◌, ◌≤◌, ◌<◌, ◌≡◌, refl, arith, some, List, [], ◌∷◌, ◌++◌, length, All,
}
use caliper_msg_pattern.Util.Vlenc.{IsByte, IsU64, vlenc_loop, vlenc_u64, vldec_loop, vldec_u64}
use caliper_msg_pattern.Util.Vlenc.RoundTrip.{vldec_u64-vlenc_u64}
use caliper_msg_pattern.Util.Vlenc.Bounds.{vlenc_u64_shape, vldec_u64_takes}

abbrev front : List ℕ
front = 7 ∷ []

abbrev bytes_300 : List ℕ
bytes_300 = 172 ∷ 2 ∷ []

-- 300 is 0b10_0101100.
encoding_300 : vlenc_u64 300 ≡ (2, 172 ∷ 2 ∷ [])
unfolding vlenc_u64 vlenc_loop
encoding_300 = refl

decoding_300 : vldec_u64 (172 ∷ 2 ∷ []) 0 ≡ some (300, 2)
unfolding vldec_u64 vldec_loop
decoding_300 = refl

vldec_u64-vlenc_u64_example :
    vldec_u64 (front ++ ((vlenc_u64 300).1 ++ (9 ∷ []))) (length front)
    ≡ some (300, length front + (vlenc_u64 300).0)
vldec_u64-vlenc_u64_example = vldec_u64-vlenc_u64 300 front (9 ∷ []) (omega arith)

vlenc_u64_shape_example :
    All IsByte (vlenc_u64 300).1
    × ((vlenc_u64 300).0 ≡ length (vlenc_u64 300).1)
    × (1 ≤ (vlenc_u64 300).0)
    × ((vlenc_u64 300).0 ≤ 10)
vlenc_u64_shape_example = vlenc_u64_shape 300 (omega arith)

vldec_u64_takes_example : IsU64 300 × (0 < 2) × (2 ≤ length bytes_300) × (2 ≤ 0 + 10)
vldec_u64_takes_example = vldec_u64_takes bytes_300 0 300 2 decoding_300
