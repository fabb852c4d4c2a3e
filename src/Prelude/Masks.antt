-- ===== src/Prelude/Masks.antt =====
-- `x & (2^k - 1)`, the index of an open-addressing table, as a remainder; `x | (y << k)` for an
-- `x` of k bits, the assembly of a little-endian word, as a sum.
use Prim.Native.Nat.{
  ℕ, zero, suc, ◌+◌, ◌-◌, ◌*◌, ◌/◌, ◌%◌, ◌^◌, ◌≤◌, ◌<◌, min, max, bit_and, bit_or, digits,
  bit_and-bitwise, bit_or-bitwise,
}
use mathlib.Core.Path.{◌≡◌, refl, ap, ◌∙◌}
use native.Mathlib.Nat.{pow-suc}
use native.Mathlib.Omega.{arith}

pub pow_pos : (k : ℕ) → 0 < 2 ^ k
pow_pos zero = omega arith
pow_pos (suc k) = omega (arith, pow_pos k, pow-suc 2 k)

double_mod : (a m : ℕ) → 0 < m → a / 2 % m * 2 + a % 2 ≡ a % (m * 2)
double_mod a m h = grind arith

mask_zero : (n a : ℕ) → digits (λ b. zero) min n a 0 ≡ 0
mask_zero zero a = refl
mask_zero (suc n) zero = refl
mask_zero (suc n) (suc a) = omega (arith, mask_zero n (suc a / 2))

zero_mod : (k : ℕ) → 0 % 2 ^ k ≡ 0
zero_mod k = grind (arith, pow_pos k)

mask_digits : (k n a m : ℕ) → m ≡ 2 ^ k - 1 → a ≤ n → digits (λ b. zero) min n a m ≡ a % 2 ^ k
mask_digits zero n a m e h = let e' : m ≡ 0 = omega arith in rw (e', mask_zero n a) (omega arith)
mask_digits (suc k) zero a m e h =
    let a0 : a ≡ 0 = omega arith in rw a0 (omega (arith, zero_mod (suc k)))
mask_digits (suc k) (suc n) zero m e h = omega (arith, zero_mod (suc k))
mask_digits (suc k) (suc n) (suc a) m e h = omega (
  arith,
  mask_digits k n (suc a / 2) (m / 2) (omega (arith, pow_pos k, pow-suc 2 k)) (omega arith),
  double_mod (suc a) (2 ^ k) (pow_pos k),
  pow_pos k,
  ap (λ (t : ℕ). suc a % t) (pow-suc 2 k),
  pow-suc 2 k,
)

pub bit_and_mask : (a k : ℕ) → bit_and a (2 ^ k - 1) ≡ a % 2 ^ k
bit_and_mask a k = bit_and-bitwise a (2 ^ k - 1) ∙ mask_digits k a a (2 ^ k - 1) refl (omega arith)

or_digits : (k n x y m : ℕ) → m ≡ y * 2 ^ k → x < 2 ^ k → x ≤ n → digits (λ b. b) max n x m ≡ x + m
or_digits k zero x y m e hx hn = omega arith
or_digits k (suc n) zero y m e hx hn = omega arith
or_digits zero (suc n) (suc x) y m e hx hn = absurd (omega arith)
or_digits (suc k) (suc n) (suc x) y m e hx hn =
    let double : m ≡ y * 2 ^ k * 2 = omega (arith, ap (λ (t : ℕ). y * t) (pow-suc 2 k)) in
    omega (
      arith,
      double,
      or_digits k n (suc x / 2) y (m / 2) (omega (arith, double)) (omega (arith, pow-suc 2 k))
          (omega arith),
    )

pub bit_or_shifted : (x y k : ℕ) → x < 2 ^ k → bit_or x (y * 2 ^ k) ≡ x + y * 2 ^ k
bit_or_shifted x y k h =
    bit_or-bitwise x (y * 2 ^ k) ∙ or_digits k x x y (y * 2 ^ k) refl h (omega arith)
