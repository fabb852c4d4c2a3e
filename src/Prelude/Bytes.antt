-- ===== src/Prelude/Bytes.antt =====
-- Strings of bytes: `strcmp` and `memcmp` as a test, and the search for one byte.
use Prim.Native.Nat.{ℕ, zero, suc, ◌<◌}
use mathlib.Core.Path.{◌≡◌, refl}
use mathlib.Core.Logic.{◌↔◌}
use mathlib.Core.Bool.{Bool, true, false, ◌&&◌, ◌||◌}
use mathlib.Core.List.{List, [], ◌∷◌}
use native.Mathlib.Omega.{arith}
use package.yappod.Prelude.Tests.{◌==◌}
use package.yappod.Prelude.Lists.{All, get_or}

abbrev pub IsByte : ℕ → Type 0
IsByte b = b < 256

-- `strcmp(a, b) == 0` on the bytes before the terminators, and `memcmp(a, b, n) == 0` on n bytes.
unfoldable pub bytes_eq : List ℕ → List ℕ → Bool
bytes_eq [] [] = true
bytes_eq [] (y ∷ ys) = false
bytes_eq (x ∷ xs) [] = false
bytes_eq (x ∷ xs) (y ∷ ys) = x == y && bytes_eq xs ys

pub bytes_eq→eq : (xs ys : List ℕ) → bytes_eq xs ys ≡ true → xs ≡ ys
unfolding bytes_eq
bytes_eq→eq [] [] h = refl
bytes_eq→eq [] (y ∷ ys) h = cc
bytes_eq→eq (x ∷ xs) [] h = cc
bytes_eq→eq (x ∷ xs) (y ∷ ys) h = ground (arith, bytes_eq→eq xs ys)

pub bytes_eq_refl : (xs : List ℕ) → bytes_eq xs xs ≡ true
unfolding bytes_eq
bytes_eq_refl [] = refl
bytes_eq_refl (x ∷ xs) = ground (arith, bytes_eq_refl xs)

pub bytes_eq_iff : (xs ys : List ℕ) → (bytes_eq xs ys ≡ true) ↔ (xs ≡ ys)
bytes_eq_iff xs ys = (bytes_eq→eq xs ys, λ e. rw e (bytes_eq_refl ys))

-- `strchr(s, c) != NULL` and `memchr(s, c, n) != NULL`.
unfoldable pub contains : ℕ → List ℕ → Bool
contains c [] = false
contains c (x ∷ xs) = x == c || contains c xs

-- Reading bytes, a zero beyond their end.
pub get_or-IsByte : (xs : List ℕ) → All IsByte xs → (i : ℕ) → get_or xs i 0 < 256
get_or-IsByte [] h i = omega arith
get_or-IsByte (x ∷ xs) h zero = h.0
get_or-IsByte (x ∷ xs) h (suc i) = get_or-IsByte xs h.1 i
