-- ===== src/Util/Vlenc/RoundTrip.antt =====
-- `vlenc_u64` against `vldec_u64`.
use caliper_msg_pattern.Prelude.{
  ℕ, zero, suc, ◌+◌, ◌*◌, ◌/◌, ◌%◌, ◌^◌, ◌≤◌, ◌<◌, ◌≡◌, ap, ◌∙◌, arith, some, List, ◌++◌, length,
  drop, drop-add, drop-append,
}
use caliper_msg_pattern.Util.Vlenc.{IsU64, vlenc_loop, vlenc_u64, add_group, vldec_loop, vldec_u64}
use native.Mathlib.Nat.{div-add-mod, zero-add}
use native.Mathlib.Numerals.{towards_suc}

pow_seven : (p : ℕ) → 2 ^ (7 * p + 7) ≡ 128 * 2 ^ (7 * p)
pow_seven p = simp towards_suc (omega arith)

pub seven_suc : (p : ℕ) → 2 ^ (7 * (p + 1)) ≡ 128 * 2 ^ (7 * p)
seven_suc p = ap (λ (t : ℕ). 2 ^ t) (omega arith) ∙ pow_seven p

-- The lowest group of `w` and the rest, both shifted by `7 * p`.
split_group : (w p : ℕ) → w * 2 ^ (7 * p) ≡ w % 128 * 2 ^ (7 * p) + w / 128 * 2 ^ (7 * (p + 1))
split_group w p = omega (
  arith,
  ap (λ (t : ℕ). t * 2 ^ (7 * p)) (div-add-mod w 128),
  ap (λ (t : ℕ). w / 128 * t) (seven_suc p),
)

-- The number of bytes is what the loop counts.
pub nbytes_lem : (f w n : ℕ) → (vlenc_loop f w n).0 ≡ n + length (vlenc_loop f w n).1
unfolding vlenc_loop
nbytes_lem zero w n = omega arith
nbytes_lem (suc f) w n = ground (arith, nbytes_lem f (w / 128) (n + 1))

pub length-vlenc_u64 : (v : ℕ) → (vlenc_u64 v).0 ≡ length (vlenc_u64 v).1
unfolding vlenc_u64
length-vlenc_u64 v = nbytes_lem 9 v 0 ∙ zero-add _

-- `w` is what is still to be written, and it counts from bit `7 * p` on.
vldec_loop-vlenc_loop :
    (f w n p acc : ℕ) (rest : List ℕ)
    → w < 128 ^ suc f
    → p + f ≤ 9
    → IsU64 (acc + w * 2 ^ (7 * p))
    → vldec_loop ((vlenc_loop f w n).1 ++ rest) p acc
      ≡ some (acc + w * 2 ^ (7 * p), p + length (vlenc_loop f w n).1)
unfolding vlenc_loop vldec_loop
vldec_loop-vlenc_loop zero w n p acc rest hw hp fits = ground (arith)
vldec_loop-vlenc_loop (suc f) w n p acc rest hw hp fits = ground (
  arith,
  split_group w p,
  vldec_loop-vlenc_loop f (w / 128) (n + 1) (p + 1) (add_group acc (w % 128 + 128) p) rest
      (omega arith),
)

pub vldec_u64-split :
    (v : ℕ) (buf : List ℕ) (pos : ℕ) (rest : List ℕ)
    → IsU64 v
    → drop pos buf ≡ (vlenc_u64 v).1 ++ rest
    → vldec_u64 buf pos ≡ some (v, pos + (vlenc_u64 v).0)
unfolding vldec_u64 vlenc_u64
vldec_u64-split v buf pos rest h e =
    rw (e, vldec_u64) (ground (arith, nbytes_lem 9 v 0, vldec_loop-vlenc_loop 9 v 0 0 0 rest))

-- Wherever the bytes that `vlenc_u64` wrote for a 64-bit value stand in a buffer, `vldec_u64` at
-- their position returns the value, and advances the position by the number of bytes that
-- `vlenc_u64` returned.
pub vldec_u64-vlenc_u64 :
    (v : ℕ) (front rest : List ℕ)
    → IsU64 v
    → vldec_u64 (front ++ ((vlenc_u64 v).1 ++ rest)) (length front)
      ≡ some (v, length front + (vlenc_u64 v).0)
vldec_u64-vlenc_u64 v front rest h = vldec_u64-split v _ (length front) rest h (drop-append front _)

-- The position behind an encoding.
pub drop-vlenc_u64 :
    (v : ℕ) (buf : List ℕ) (pos : ℕ) (rest : List ℕ)
    → drop pos buf ≡ (vlenc_u64 v).1 ++ rest
    → drop (pos + (vlenc_u64 v).0) buf ≡ rest
unfolding vlenc_u64
drop-vlenc_u64 v buf pos rest e =
    drop-add pos _ buf
    ∙ ap (drop (vlenc_loop 9 v 0).0) e
    ∙ ap (λ (n : ℕ). drop n ((vlenc_loop 9 v 0).1 ++ rest)) (nbytes_lem 9 v 0 ∙ zero-add _)
    ∙ drop-append (vlenc_loop 9 v 0).1 rest
