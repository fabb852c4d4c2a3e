-- ===== src/Prelude/Zeros.antt =====
-- When `|` and `^` give zero.
use Prim.Native.Nat.{
  ℕ, zero, suc, ◌/◌, ◌%◌, ◌≤◌, max, bit_or, bit_xor, digits, differ, bit_or-bitwise,
  bit_xor-bitwise,
}
use mathlib.Core.Path.{◌≡◌, refl, sym, ap, ◌∙◌}
use native.Mathlib.Omega.{arith}

or_digits : (n a b : ℕ) → a ≤ n → digits (λ b. b) max n a b ≡ 0 → (a ≡ 0) × (b ≡ 0)
or_digits zero a b h e = (omega arith, e)
or_digits (suc n) zero b h e = (refl, e)
or_digits (suc n) (suc a) b h e =
    let (high, low) = or_digits n (suc a / 2) (b / 2) (omega arith) (omega arith) in
    absurd (omega arith)

pub bit_or-eq-zero : (a b : ℕ) → bit_or a b ≡ 0 → (a ≡ 0) × (b ≡ 0)
bit_or-eq-zero a b e = or_digits a a b (omega arith) (sym (λ i. bit_or-bitwise a b i) ∙ e)

differ-zero : (x y : ℕ) → differ x y ≡ 0 → x ≡ y
differ-zero zero y e = sym e
differ-zero (suc x) zero e = e
differ-zero (suc x) (suc y) e = ap suc (differ-zero x y e)

differ_self : (x : ℕ) → differ x x ≡ 0
differ_self zero = refl
differ_self (suc x) = differ_self x

xor_digits : (n a b : ℕ) → a ≤ n → digits (λ b. b) differ n a b ≡ 0 → a ≡ b
xor_digits zero a b h e = omega arith
xor_digits (suc n) zero b h e = sym e
xor_digits (suc n) (suc a) b h e =
    let high = xor_digits n (suc a / 2) (b / 2) (omega arith) (omega arith) in
    let low = differ-zero (suc a % 2) (b % 2) (omega arith) in omega arith

pub bit_xor-eq-zero : (a b : ℕ) → bit_xor a b ≡ 0 → a ≡ b
bit_xor-eq-zero a b e = xor_digits a a b (omega arith) (sym (λ i. bit_xor-bitwise a b i) ∙ e)

xor_self_digits : (n a : ℕ) → a ≤ n → digits (λ b. b) differ n a a ≡ 0
xor_self_digits zero a h = omega arith
xor_self_digits (suc n) zero h = refl
xor_self_digits (suc n) (suc a) h =
    omega (arith, xor_self_digits n (suc a / 2) (omega arith), differ_self (suc a % 2))

pub bit_xor_self : (a : ℕ) → bit_xor a a ≡ 0
bit_xor_self a = (λ i. bit_xor-bitwise a a i) ∙ xor_self_digits a a (omega arith)
