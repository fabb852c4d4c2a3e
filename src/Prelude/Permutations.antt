-- ===== src/Prelude/Permutations.antt =====
-- What a permutation keeps: a property of all elements, a symmetric relation of all pairs, the length.
use Prim.Native.Nat.{ℕ, zero, suc}
use mathlib.Core.Path.{◌≡◌, refl, ap, ◌∙◌, subst}
use mathlib.Core.List.{List, [], ◌∷◌, Permᴰ}
use package.yappod.Prelude.Lists.{All, length, take}

module _ {A : Type 0} where
  -- Every element is related to all later ones.
  abbrev pub Pairs : (A → A → Type 0) → List A → Type 0
  Pairs R [] = Unit {0}
  Pairs R (x ∷ xs) = All (R x) xs × Pairs R xs

  pub All-Permᴰ : (P : A → Type 0) {xs ys : List A} → Permᴰ xs ys → All P xs → All P ys
  All-Permᴰ P Permᴰ.nil h = tt
  All-Permᴰ P (Permᴰ.cons e p) h = (subst P e h.0, All-Permᴰ P p h.1)
  All-Permᴰ P (Permᴰ.swap e e') h = (subst P e' h.1.0, (subst P e h.0, h.1.1))
  All-Permᴰ P (Permᴰ.trans p q) h = All-Permᴰ P q (All-Permᴰ P p h)

  pub length-Permᴰ : {xs ys : List A} → Permᴰ xs ys → length xs ≡ length ys
  length-Permᴰ Permᴰ.nil = refl
  length-Permᴰ (Permᴰ.cons e p) = ap suc (length-Permᴰ p)
  length-Permᴰ (Permᴰ.swap e e') = refl
  length-Permᴰ (Permᴰ.trans p q) = length-Permᴰ p ∙ length-Permᴰ q

  pub Pairs-Permᴰ :
      (R : A → A → Type 0)
      → ((x y : A) → R x y → R y x)
      → {xs ys : List A} → Permᴰ xs ys
      → Pairs R xs
      → Pairs R ys
  Pairs-Permᴰ R symmetric Permᴰ.nil h = tt
  Pairs-Permᴰ R symmetric (Permᴰ.cons {l₂ = l} e p) h =
      (subst (λ x. All (R x) l) e (All-Permᴰ (R _) p h.0), Pairs-Permᴰ R symmetric p h.1)
  Pairs-Permᴰ R symmetric (Permᴰ.swap {a} {b} {a'} {b'} {l} e e') h = (
    (
      subst (λ x. R x b') e' (subst (λ y. R b y) e (symmetric a b h.0.0)),
      subst (λ x. All (R x) l) e' h.1.0,
    ),
    (subst (λ x. All (R x) l) e h.0.1, h.1.1),
  )
  Pairs-Permᴰ R symmetric (Permᴰ.trans p q) h =
      Pairs-Permᴰ R symmetric q (Pairs-Permᴰ R symmetric p h)

  pub All-take : (P : A → Type 0) (n : ℕ) (xs : List A) → All P xs → All P (take n xs)
  All-take P zero xs h = tt
  All-take P (suc n) [] h = tt
  All-take P (suc n) (x ∷ xs) h = (h.0, All-take P n xs h.1)

  pub Pairs-take : (R : A → A → Type 0) (n : ℕ) (xs : List A) → Pairs R xs → Pairs R (take n xs)
  Pairs-take R zero xs h = tt
  Pairs-take R (suc n) [] h = tt
  Pairs-take R (suc n) (x ∷ xs) h = (All-take (R x) n xs h.0, Pairs-take R n xs h.1)

  -- From one property of all elements to another, and from one relation of all pairs.
  pub All-imp : (P Q : A → Type 0) → ((x : A) → P x → Q x) → (xs : List A) → All P xs → All Q xs
  All-imp P Q f [] h = tt
  All-imp P Q f (x ∷ xs) h = (f x h.0, All-imp P Q f xs h.1)

  pub Pairs-imp :
      (R S : A → A → Type 0) → ((x y : A) → R x y → S x y) → (xs : List A) → Pairs R xs → Pairs S xs
  Pairs-imp R S f [] h = tt
  Pairs-imp R S f (x ∷ xs) h = (All-imp (R x) (S x) (f x) xs h.0, Pairs-imp R S f xs h.1)
