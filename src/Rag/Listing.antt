-- ===== src/Rag/Listing.antt =====
-- What the listing of a document's passages gives on every path.
use yappod.Prelude.{
  ℕ, ◌+◌, ◌/◌, ◌<◌, ◌≤◌, ◌≡◌, ◌⊎◌, inl, inr, refl, Bool, true, false, not, ◌||◌, Option, some, List,
  [], ◌∷◌, arith, ltb, ◌==◌, length, Bool-cases,
}
use yappod.Prelude.Permutations.{Pairs}
use yappod.Types.{BytesView, PassageView}
use yappod.Storage.Slots.{size_max}
use yappod.Rag.{
  RagStatus, listed, buffer_too_small, no_memory, empty_id, views_equal, count_matching, select,
  list_passages,
}
use mathlib.Core.List.{Permᴰ}

-- What is known of `qsort` with `compare_passages`.
pub record IsPassageSort (sort : List PassageView → List PassageView) : Type 0 where
  pub permutes : (xs : List PassageView) → Permᴰ xs (sort xs)
  pub ordered : (xs : List PassageView) → Pairs (λ p q. p.ordinal ≤ q.ordinal) (sort xs)

count_matching_lem :
    (id : BytesView) (n : ℕ) (passages : List PassageView)
    → count_matching id n passages ≡ n + length (select id passages)
unfolding count_matching select
count_matching_lem id n [] = omega arith
count_matching_lem id n (p ∷ rest) = elim (Bool-cases (views_equal p.parent_document_id id)) [
  | inl same ↦ rw (count_matching, select, same) (omega (arith, count_matching_lem id (n + 1) rest))
  | inr other ↦ rw (count_matching, select, other) (count_matching_lem id n rest)
]

counted :
    (id : BytesView) (passages : List PassageView)
    → count_matching id 0 passages ≡ length (select id passages)
counted id passages = omega (arith, count_matching_lem id 0 passages)

none_left : (xs : List PassageView) → (length xs == 0) ≡ true → Permᴰ xs []
none_left [] h = Permᴰ.nil
none_left (x ∷ xs) h = absurd (ground (arith, h))

cause :
    (n : ℕ) (granted : Bool)
    → (ltb (size_max / 8) n || not granted) ≡ true
    → (granted ≡ false) ⊎ (size_max / 8 < n)
cause n true h = inr (ground (arith, h))
cause n false h = inl refl

-- How a listing ends, where `selected` are the passages of the document in the order of the segment.
pub data Listing (granted : Bool) (selected : List PassageView) (capacity : ℕ)
    : RagStatus × Option ℕ × List PassageView → Type 0 where
  complete :
      (out : List PassageView)
      → Permᴰ selected out
      → Pairs (λ p q. p.ordinal ≤ q.ordinal) out
      → length selected ≤ capacity
      → Listing granted selected capacity (listed, some (length selected), out)
  too_small :
      capacity < length selected
      → Listing granted selected capacity (buffer_too_small, some (length selected), [])
  exhausted :
      (granted ≡ false) ⊎ (size_max / 8 < length selected)
      → Listing granted selected capacity (no_memory, some (length selected), [])

module _ (sort : List PassageView → List PassageView) (is_sort : IsPassageSort sort) where
  -- For a document id that is there and not empty, `sort` being a sort by ordinal: the count is always
  -- that of the passages of the document. Either all of them are listed, by ascending ordinal, and they
  -- fit; or none is, with the buffer too small for them, or with no memory.
  pub list_passages-Listing :
      (granted : Bool) (passages : List PassageView) (document_id : BytesView) (capacity : ℕ)
      → empty_id document_id ≡ false
      → Listing granted
          (select document_id passages)
          capacity
          (list_passages sort granted passages document_id capacity)
  unfolding list_passages
  list_passages-Listing granted passages id capacity there =
      let selected = select id passages in
      elim (Bool-cases (length selected == 0)) [
        | inl nothing ↦
            rw (there, list_passages, counted id passages, nothing)
              (complete [] (none_left selected nothing) tt (ground (arith, nothing)))
        | inr something ↦ elim (Bool-cases (ltb capacity (length selected))) [
          | inl small ↦
              rw (there, list_passages, counted id passages, something, small)
                (too_small (ground (arith, small)))
          | inr roomy ↦ elim (Bool-cases (ltb (size_max / 8) (length selected) || not granted)) [
            | inl refused ↦
                rw (there, list_passages, counted id passages, something, roomy, refused)
                  (exhausted (cause (length selected) granted refused))
            | inr given ↦
                rw (there, list_passages, counted id passages, something, roomy, given)
                  (complete (sort selected) (is_sort.permutes selected) (is_sort.ordered selected)
                    (ground (arith, roomy)))
          ]
        ]
      ]
