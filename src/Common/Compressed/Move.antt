-- ===== src/Common/Compressed/Move.antt =====
-- `save_memmove` against a move of all bytes at once.
use caliper_msg_pattern.Prelude.{
  ℕ, zero, suc, ◌+◌, ◌-◌, ◌≤◌, ◌<◌, ◌≡◌, min, refl, sym, ap, ◌∙◌, arith, true, false, ◌&&◌, length,
  if◌then◌else◌, ltb, leb, ==_refl, Bool-cases, inl, inr,
}
use native.Mathlib.Decide.{ℕ_discrete, dec_lt}
use caliper_msg_pattern.Common.Compressed.{Buffer, nth, window, write, move_blocks, save_memmove}

pub length-window : (buf : Buffer) (p n : ℕ) → length (window buf p n) ≡ n
unfolding window
length-window buf p zero = refl
length-window buf p (suc n) = omega (arith, length-window buf (p + 1) n)

pub nth-window : (buf : Buffer) (p n i : ℕ) → i < n → nth (window buf p n) i ≡ buf (p + i)
unfolding window
nth-window buf p zero i h = absurd (omega arith)
nth-window buf p (suc n) zero h = ap buf (omega arith)
nth-window buf p (suc n) (suc i) h = nth-window buf (p + 1) n i (omega arith) ∙ ap buf (omega arith)

-- All bytes moved at once.
abbrev pub shifted : Buffer → ℕ → ℕ → ℕ → Buffer
shifted buf dst src len x = if leb dst x && ltb x (dst + len) then buf (src + (x - dst)) else buf x

write-window :
    (buf : Buffer) (dst src n x : ℕ) → write buf dst (window buf src n) x ≡ shifted buf dst src n x
write-window buf dst src n x = elim (Bool-cases (leb dst x && ltb x (dst + n))) [
  | inl t ↦ rw (length-window, t) (nth-window buf src n (x - dst) (ground arith))
  | inr t ↦ rw (length-window, t)
]

-- The last block, then the bytes before it.
shifted-shifted :
    (buf : Buffer) (dst src a b x : ℕ)
    → src ≤ dst
    → shifted (shifted buf (dst + a) (src + a) b) dst src a x ≡ shifted buf dst src (a + b) x
shifted-shifted buf dst src a b x h = elim (dec_lt x (dst + a)) [
  | yes lo ↦ ground arith
  | no hi ↦
      let same : leb dst x ≡ true = ground arith in
      let out : ltb x (dst + a) ≡ false = ground arith in
      elim (dec_lt x (dst + a + b)) [
        | yes q ↦
            let e : src + a + (x - (dst + a)) ≡ src + (x - dst) = omega arith in
            ground (arith, ap buf e)
        | no q ↦ ground arith
      ]
]

shifted_of_eq :
    (t u : Buffer) (dst src n x : ℕ)
    → ((y : ℕ) → t y ≡ u y)
    → shifted t dst src n x ≡ shifted u dst src n x
shifted_of_eq t u dst src n x same = rw (same (src + (x - dst)), same x) refl

move_blocks-shifted :
    (fuel : ℕ) (buf : Buffer) (dst src len x : ℕ)
    → src ≤ dst
    → len ≤ fuel
    → move_blocks fuel buf dst src len x ≡ shifted buf dst src len x
unfolding move_blocks
move_blocks-shifted zero buf dst src len x h k = ground arith
move_blocks-shifted (suc fuel) buf dst src len x h k = elim (ℕ_discrete len 0) [
  | yes e ↦ ground arith
  | no ne ↦
      let blk = min len 64 in
      let rest = len - blk in
      let split : rest + blk ≡ len = omega arith in
      let last = write buf (dst + rest) (window buf (src + rest) blk) in
      let step : move_blocks (suc fuel) buf dst src len x ≡ move_blocks fuel last dst src rest x =
        ground arith in
      step
      ∙ move_blocks-shifted fuel last dst src rest x h (omega arith)
      ∙ shifted_of_eq last _ dst src rest x (write-window buf (dst + rest) (src + rest) blk)
      ∙ shifted-shifted buf dst src rest blk x h
      ∙ ap (λ (n : ℕ). shifted buf dst src n x) split
]

in_place : (buf : Buffer) (p n x : ℕ) → shifted buf p p n x ≡ buf x
in_place buf p n x = elim (Bool-cases (leb p x && ltb x (p + n))) [
  | inl t ↦ let below : p ≤ x = ground arith in rw t (ap buf (omega arith))
  | inr t ↦ rw t
]

-- To a place at or behind the source, which may overlap it, `save_memmove` moves every byte of the
-- source as it was, and changes no byte outside the destination.
pub save_memmove-shifted :
    (buf : Buffer) (dst src len x : ℕ)
    → src ≤ dst
    → save_memmove buf dst src len x ≡ shifted buf dst src len x
unfolding save_memmove
save_memmove-shifted buf dst src len x h = elim (ℕ_discrete src dst) [
  | yes e ↦ rw (e, ==_refl) (sym (in_place buf dst len x))
  | no ne ↦ ground (arith, move_blocks-shifted len buf dst src len x h)
]
