-- ===== src/Examples/Sorting.antt =====
-- An insertion sort, in place of `qsort`.
use yappod.Prelude.{
  ◌≡◌, refl, Bool, true, false, List, [], ◌∷◌, if◌then◌else◌, All, Bool-cases, inl, inr,
}
use yappod.Prelude.Permutations.{Pairs, All-imp}
use mathlib.Core.List.{Permᴰ}

same_list : {A : Type 0} (xs : List A) → Permᴰ xs xs
same_list [] = Permᴰ.nil
same_list (x ∷ xs) = Permᴰ.cons refl (same_list xs)

module _ {A : Type 0} (before : A → A → Bool) where
  unfoldable insert : A → List A → List A
  insert x [] = x ∷ []
  insert x (y ∷ ys) = let later = insert x ys in if before y x then y ∷ later else x ∷ y ∷ ys

  unfoldable pub sort : List A → List A
  unfolding insert
  sort [] = []
  sort (x ∷ xs) = insert x (sort xs)

  insert-Permᴰ : (x : A) (ys : List A) → Permᴰ (x ∷ ys) (insert x ys)
  unfolding insert
  insert-Permᴰ x [] = Permᴰ.cons refl Permᴰ.nil
  insert-Permᴰ x (y ∷ ys) = elim (Bool-cases (before y x)) [
    | inl later ↦
        rw later (Permᴰ.trans (Permᴰ.swap refl refl) (Permᴰ.cons refl (insert-Permᴰ x ys)))
    | inr here ↦ rw here (same_list (x ∷ y ∷ ys))
  ]

  pub sort-Permᴰ : (xs : List A) → Permᴰ xs (sort xs)
  unfolding sort
  sort-Permᴰ [] = Permᴰ.nil
  sort-Permᴰ (x ∷ xs) = Permᴰ.trans (Permᴰ.cons refl (sort-Permᴰ xs)) (insert-Permᴰ x (sort xs))

  insert-All : (P : A → Type 0) (x : A) (ys : List A) → P x → All P ys → All P (insert x ys)
  unfolding insert
  insert-All P x [] hx h = (hx, tt)
  insert-All P x (y ∷ ys) hx h = elim (Bool-cases (before y x)) [
    | inl later ↦ rw later (h.0, insert-All P x ys hx h.1)
    | inr here ↦ rw here (hx, h)
  ]

  module _ (R : A → A → Type 0) (here : (x y : A) → before y x ≡ false → R x y)
      (later : (x y : A) → before y x ≡ true → R y x)
      (transitive : (x y z : A) → R x y → R y z → R x z) where
    insert-Pairs : (x : A) (ys : List A) → Pairs R ys → Pairs R (insert x ys)
    unfolding insert
    insert-Pairs x [] h = (tt, tt)
    insert-Pairs x (y ∷ ys) h = elim (Bool-cases (before y x)) [
      | inl e ↦ rw e (insert-All (R y) x ys (later x y e) h.0, insert-Pairs x ys h.1)
      | inr e ↦
          rw e
            ((here x y e, All-imp (R y) (R x) (λ z k. transitive x y z (here x y e) k) ys h.0), h)
    ]

    pub sort-Pairs : (xs : List A) → Pairs R (sort xs)
    unfolding sort
    sort-Pairs [] = tt
    sort-Pairs (x ∷ xs) = insert-Pairs x (sort xs) (sort-Pairs xs)
