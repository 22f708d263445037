-- ===== src/Prelude/Mask.antt =====
-- `x & -a` for a power of two `a`, on 64 bits.
use Prim.Native.Nat.{
  ℕ, zero, suc, ◌+◌, ◌-◌, ◌*◌, ◌/◌, ◌%◌, ◌^◌, ◌≤◌, ◌<◌, min, bit_and, digits, bit_and-bitwise,
}
use mathlib.Core.Path.{◌≡◌, refl, sym, ap, ◌∙◌}
use mathlib.Core.Path.{subst}
use native.Mathlib.Omega.{arith}

-- The digits of the conjunction do not depend on the bound for their number.
digits_bound :
    (n k a b : ℕ) → a ≤ n → a ≤ k → digits (λ _. zero) min n a b ≡ digits (λ _. zero) min k a b
digits_bound zero zero a b h j = refl
digits_bound zero (suc k) zero b h j = refl
digits_bound zero (suc k) (suc a) b h j = absurd (omega arith)
digits_bound (suc n) zero zero b h j = refl
digits_bound (suc n) zero (suc a) b h j = absurd (omega arith)
digits_bound (suc n) (suc k) zero b h j = refl
digits_bound (suc n) (suc k) (suc a) b h j =
    omega (arith, digits_bound n k (suc a / 2) (b / 2) (omega arith) (omega arith))

bit_and_none : (b : ℕ) → bit_and 0 b ≡ 0
bit_and_none b = bit_and-bitwise 0 b

-- The lowest bit, and the others.
bit_and_halves : (a b : ℕ) → bit_and a b ≡ 2 * bit_and (a / 2) (b / 2) + min (a % 2) (b % 2)
bit_and_halves zero b = omega (arith, bit_and_none b, bit_and_none (b / 2))
bit_and_halves (suc a) b = omega (
  arith,
  digits_bound a (suc a / 2) (suc a / 2) (b / 2) (omega arith) (omega arith),
  bit_and-bitwise (suc a) b,
  bit_and-bitwise (suc a / 2) (b / 2),
)

bit_and_odd : (x b : ℕ) → bit_and x (2 * b + 1) ≡ 2 * bit_and (x / 2) b + x % 2
bit_and_odd x b =
    let half : (2 * b + 1) / 2 ≡ b = omega arith in
    omega (arith, bit_and_halves x (2 * b + 1), ap (bit_and (x / 2)) half)

bit_and_even : (x b : ℕ) → bit_and x (2 * b) ≡ 2 * bit_and (x / 2) b
bit_and_even x b =
    let half : (2 * b) / 2 ≡ b = omega arith in
    omega (arith, bit_and_halves x (2 * b), ap (bit_and (x / 2)) half)

bit_and-zero : (n x : ℕ) → x ≤ n → bit_and x 0 ≡ 0
bit_and-zero zero x h =
    let e : x ≡ 0 = omega arith in ap (λ (t : ℕ). bit_and t 0) e ∙ bit_and_none 0
bit_and-zero (suc n) zero h = bit_and_none 0
bit_and-zero (suc n) (suc x) h =
    omega (arith, bit_and_even (suc x) 0, bit_and-zero n (suc x / 2) (omega arith))

-- `m` ones, with `k` zeros behind them.
mask : ℕ → ℕ → ℕ
mask zero zero = 0
mask zero (suc m) = 2 * mask zero m + 1
mask (suc k) m = 2 * mask k m

pow-suc : (k : ℕ) → 2 ^ suc k ≡ 2 * 2 ^ k
pow-suc k = omega arith

pub pow-positive : (k : ℕ) → 0 < 2 ^ k
pow-positive zero = omega arith
pow-positive (suc k) = omega (arith, pow-positive k, pow-suc k)

mask-pow : (k m : ℕ) → mask k m + 2 ^ k ≡ 2 ^ (k + m)
unfolding mask
mask-pow zero zero = omega arith
mask-pow zero (suc m) =
    let e : 0 + suc m ≡ suc (0 + m) = omega arith in
    omega (arith, mask-pow zero m, pow-suc (0 + m), ap (λ (t : ℕ). 2 ^ t) e)
mask-pow (suc k) m =
    let e : suc k + m ≡ suc (k + m) = omega arith in
    omega (arith, mask-pow k m, pow-suc (k + m), pow-suc k, ap (λ (t : ℕ). 2 ^ t) e)

bit_and-ones : (m x : ℕ) → x < 2 ^ m → bit_and x (mask zero m) ≡ x
unfolding mask
bit_and-ones zero x h = omega (arith, bit_and-zero x x (omega arith))
bit_and-ones (suc m) x h =
    omega (arith, bit_and_odd x (mask zero m), bit_and-ones m (x / 2) (omega (arith, pow-suc m)))

-- A multiple of `2 ^ k` that is at most `2 ^ k - 1` below `x`.
pub record RoundsDown (k x r : ℕ) : Type 0 where
  pub multiple : ℕ
  pub exact : r ≡ multiple * 2 ^ k
  pub below : r ≤ x
  pub near : x < r + 2 ^ k

double : (q p : ℕ) → 2 * (q * p) ≡ q * (2 * p)
double q p = grind arith

bit_and-mask : (k m x : ℕ) → x < 2 ^ (k + m) → RoundsDown k x (bit_and x (mask k m))
unfolding mask
bit_and-mask zero m x h =
    let e : 0 + m ≡ m = omega arith in
    let same = bit_and-ones m x (subst (λ (t : ℕ). x < 2 ^ t) e h) in
    record {
      multiple = x;
      exact = omega (arith, same);
      below = omega (arith, same);
      near = omega (arith, same);
    }
bit_and-mask (suc k) m x h =
    let e : suc k + m ≡ suc (k + m) = omega arith in
    let lt : x < 2 ^ suc (k + m) = subst (λ (t : ℕ). x < 2 ^ t) e h in
    let r = bit_and-mask k m (x / 2) (omega (arith, pow-suc (k + m))) in
    let even = bit_and_even x (mask k m) in
    record {
      multiple = r.multiple;
      exact =
          even
          ∙ ap (λ (t : ℕ). 2 * t) r.exact
          ∙ double r.multiple (2 ^ k)
          ∙ ap (λ (t : ℕ). r.multiple * t) (sym (pow-suc k));
      below = omega (arith, even, r.below);
      near = omega (arith, even, r.near, pow-suc k);
    }

-- `x & -a` on 64 bits, for a power of two.
pub bit_and-RoundsDown :
    (k x : ℕ) → k < 64 → x < 2 ^ 64 → RoundsDown k x (bit_and x ((2 ^ 64 - 2 ^ k) % 2 ^ 64))
bit_and-RoundsDown k x small h =
    let m = 64 - k in
    let width : k + m ≡ 64 = omega arith in
    let whole : 2 ^ (k + m) ≡ 2 ^ 64 = ap (λ (t : ℕ). 2 ^ t) width in
    let negated : mask k m ≡ (2 ^ 64 - 2 ^ k) % 2 ^ 64 =
      omega (arith, mask-pow k m, whole, pow-positive k) in
    subst (λ (y : ℕ). RoundsDown k x (bit_and x y)) negated
      (bit_and-mask k m x (omega (arith, whole)))
