-- ===== src/Storage/Slots/Capacity.antt =====
-- The capacity of a table is a power of two, at least as large as asked for.
use yappod.Prelude.{
  ℕ, zero, suc, ◌+◌, ◌*◌, ◌^◌, ◌≤◌, ◌<◌, ◌≡◌, refl, arith, ltb, Bool-cases, inl, inr,
}
use yappod.Types.{done}
use yappod.Storage.Slots.{capacity_loop, capacity_for}
use native.Mathlib.Decide.{ℕ_discrete}
use native.Mathlib.Nat.{pow-suc}

double : (k : ℕ) → 2 ^ k * 2 ≡ 2 ^ (suc k)
double k = omega (arith, pow-suc 2 k)

lt_irrefl : (n : ℕ) → ¬ (n < n)
lt_irrefl n = omega arith

below_top : (k : ℕ) → k ≤ 63 → 2 ^ k < 2 ^ 63 → suc k ≤ 63
below_top k h lt = elim (ℕ_discrete k 63) [
  | yes e ↦ absurd (lt_irrefl (2 ^ 63) (rw e at lt))
  | no other ↦ omega arith
]

loop_ends :
    (rounds k wanted : ℕ)
    → rounds + k ≡ 64
    → k ≤ 63
    → wanted ≤ 2 ^ 63
    → (j : ℕ) × (capacity_loop rounds wanted (2 ^ k) ≡ done (2 ^ j)) × (wanted ≤ 2 ^ j)
unfolding capacity_loop
loop_ends zero k wanted e hk hw = absurd (omega arith)
loop_ends (suc rounds) k wanted e hk hw = elim (Bool-cases (ltb (2 ^ k) wanted)) [
  | inl small ↦
      let lt : 2 ^ k < wanted = ground arith in
      let (j, ends, enough) =
        loop_ends rounds (suc k) wanted (omega arith) (below_top k hk (omega arith)) hw in
      (j, rw (small, double k) (ground (arith, ends)), enough)
  | inr large ↦ (k, rw large refl, ground arith)
]

pub capacity_for_lem :
    (wanted : ℕ)
    → wanted ≤ 2 ^ 63
    → (j : ℕ) × (capacity_for wanted ≡ done (2 ^ j)) × (wanted ≤ 2 ^ j)
unfolding capacity_for
capacity_for_lem wanted h = loop_ends 64 0 wanted (omega arith) (omega arith) h
