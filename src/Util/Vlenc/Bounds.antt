-- ===== src/Util/Vlenc/Bounds.antt =====
-- The sizes of encodings, and what `vldec_u64` does on any buffer.
use caliper_msg_pattern.Prelude.{
  ℕ, zero, suc, ◌+◌, ◌-◌, ◌*◌, ◌/◌, ◌%◌, ◌^◌, ◌≤◌, ◌<◌, ◌≡◌, ap, arith, some, List, [], ◌∷◌, length,
  drop, length-drop, All, Option-cases, inl, inr,
}
use caliper_msg_pattern.Util.Vlenc.{
  IsByte, IsU64, vlenc_loop, vlenc_u64, add_group, vldec_loop, vldec_u64,
}
use native.Mathlib.Decide.{dec_lt}
use native.Mathlib.Nat.{add-zero}
use caliper_msg_pattern.Util.Vlenc.RoundTrip.{nbytes_lem, seven_suc}

vlenc_loop_shape :
    (f w n : ℕ)
    → w < 128 ^ suc f
    → All IsByte (vlenc_loop f w n).1
      × (1 ≤ length (vlenc_loop f w n).1)
      × (length (vlenc_loop f w n).1 ≤ f + 1)
unfolding vlenc_loop
vlenc_loop_shape zero w n h = omega arith
vlenc_loop_shape (suc f) w n h = ground (arith, vlenc_loop_shape f (w / 128) (n + 1) (omega arith))

-- A 64-bit value takes 1 to 10 bytes, the number that `vlenc_u64` returns is the number of bytes
-- that it stored, and each of them fits a byte.
pub vlenc_u64_shape :
    (v : ℕ)
    → IsU64 v
    → All IsByte (vlenc_u64 v).1
      × ((vlenc_u64 v).0 ≡ length (vlenc_u64 v).1)
      × (1 ≤ (vlenc_u64 v).0)
      × ((vlenc_u64 v).0 ≤ 10)
unfolding vlenc_u64
vlenc_u64_shape v h = ground (arith, nbytes_lem 9 v 0, vlenc_loop_shape 9 v 0)

group_below : (val b p : ℕ) → val < 2 ^ (7 * p) → add_group val b p < 2 ^ (7 * (p + 1))
group_below val b p h =
    let r : b % 128 * 2 ^ (7 * p) ≤ 127 * 2 ^ (7 * p) = grind arith in
    let m : b % 128 * 2 ^ (7 * p) % 2 ^ 64 ≤ b % 128 * 2 ^ (7 * p) = omega arith in
    omega (arith, seven_suc p, r, m)

seven_mono : (k d : ℕ) → 2 ^ (7 * k) ≤ 2 ^ (7 * (k + d))
seven_mono k zero = rw add-zero (omega arith)
seven_mono k (suc d) =
    let e : 2 ^ (7 * (k + suc d)) ≡ 2 ^ (7 * (k + d + 1)) =
      ap (λ (t : ℕ). 2 ^ (7 * t)) (omega arith) in
    omega (arith, e, seven_suc (k + d), seven_mono k d)

-- The last group, also the tenth, of which one bit is kept.
group_fits : (val b p : ℕ) → p ≤ 9 → val < 2 ^ (7 * p) → IsU64 (add_group val b p)
group_fits val b p hp h = elim (dec_lt p 9) [
  | yes q ↦
      let nine : p + 1 + (8 - p) ≡ 9 = omega arith in
      let e : 2 ^ (7 * (p + 1 + (8 - p))) ≡ 2 ^ 63 = ap (λ (t : ℕ). 2 ^ (7 * t)) nine in
      omega (arith, e, group_below val b p h, seven_mono (p + 1) (8 - p))
  | no q ↦
      let e : p ≡ 9 = omega arith in rw e (let h' : val < 2 ^ (7 * 9) = rw e at h in omega arith)
]

vldec_loop_takes :
    (buf : List ℕ) (p acc val p' : ℕ)
    → p ≤ 9
    → acc < 2 ^ (7 * p)
    → vldec_loop buf p acc ≡ some (val, p')
    → IsU64 val × (p < p') × (p' ≤ p + length buf) × (p' ≤ 10)
unfolding vldec_loop
vldec_loop_takes [] p acc val p' hp h e = cc
vldec_loop_takes (b ∷ bs) p acc val p' hp h e = ground (
  arith,
  group_fits acc b p,
  group_below acc b p,
  vldec_loop_takes bs (p + 1) (add_group acc b p) val p',
)

-- On any buffer: when `vldec_u64` returns, the value is a 64-bit value, and the position has moved
-- by 1 to 10 bytes, all of them inside the buffer.
pub vldec_u64_takes :
    (buf : List ℕ) (pos val pos' : ℕ)
    → vldec_u64 buf pos ≡ some (val, pos')
    → IsU64 val × (pos < pos') × (pos' ≤ length buf) × (pos' ≤ pos + 10)
unfolding vldec_u64
vldec_u64_takes buf pos val pos' e = elim (Option-cases (vldec_loop (drop pos buf) 0 0)) [
  | inl stop ↦ cc (rw (stop, vldec_u64) at e)
  | inr ((v, p), run) ↦
      ground (arith, run, length-drop pos buf, vldec_loop_takes (drop pos buf) 0 0 v p)
]
