-- ===== src/Types/Binds.antt =====
-- How a chain of results ends.
use yappod.Prelude.{Bool, true, false, ◌≡◌, ◌≢◌, ◌⊎◌, inl, inr, refl, arith}
use yappod.Types.{Status, ok, Result, done, fail, ◌>>=◌, ◌>>◌, reject_if}

module _ {A B : Type 0} where
  pub bind-ne-fail_ok :
      (r : Result A) (f : A → Result B)
      → r ≢ fail ok
      → ((a : A) → f a ≢ fail ok)
      → (r >>= f) ≢ fail ok
  bind-ne-fail_ok (done a) f h k = k a
  bind-ne-fail_ok (fail status) f h k = λ e. h (ground (arith, e))

pub Result-cases :
    {A : Type 0} (r : Result A) → ((a : A) × (r ≡ done a)) ⊎ ((s : Status) × (r ≡ fail s))
Result-cases (done a) = inl (a, refl)
Result-cases (fail s) = inr (s, refl)

-- What a chain that ended well has passed.
pub bind-done :
    {A B : Type 0} (r : Result A) (f : A → Result B) {b : B}
    → (r >>= f) ≡ done b
    → (a : A) × (r ≡ done a) × (f a ≡ done b)
bind-done (done a) f e = (a, refl, e)
bind-done (fail s) f e = absurd (ground (arith, e))

pub reject_if-done :
    {A : Type 0} (b : Bool) (s : Status) (k : Result A) {a : A}
    → (reject_if b s >> k) ≡ done a
    → (b ≡ false) × (k ≡ done a)
reject_if-done true s k e = absurd (ground (arith, e))
reject_if-done false s k e = (refl, e)
