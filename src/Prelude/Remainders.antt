-- ===== src/Prelude/Remainders.antt =====
-- The remainder of a sum that goes round once at most.
use Prim.Native.Nat.{ℕ, zero, suc, ◌+◌, ◌-◌, ◌*◌, ◌/◌, ◌%◌, ◌≤◌, ◌<◌}
use mathlib.Core.Path.{◌≡◌}
use native.Mathlib.Omega.{arith, div_any}

small_quotient : (a c q r : ℕ) → c * q + r ≡ a → a < c → r ≡ a
small_quotient a c zero r e h = omega arith
small_quotient a c (suc q) r e h = absurd (omega arith)

one_quotient : (a c q r : ℕ) → c * q + r ≡ a → c ≤ a → a < c + c → r < c → r ≡ a - c
one_quotient a c zero r e h k l = absurd (omega arith)
one_quotient a c (suc zero) r e h k l = omega arith
one_quotient a c (suc (suc q)) r e h k l = absurd (omega arith)

pub remainder_small : (a c : ℕ) → a < c → a % c ≡ a
remainder_small a c h = small_quotient a c (a / c) (a % c) (div_any a c) h

pub remainder_once : (a c : ℕ) → c ≤ a → a < c + c → a % c ≡ a - c
remainder_once a c h k = one_quotient a c (a / c) (a % c) (div_any a c) h k (omega arith)
