-- ===== src/Examples/Passages.antt =====
-- Three passages of two documents.
use yappod.Prelude.{ℕ, ◌≤◌, refl, true, some, List, [], ◌∷◌, arith, ltb}
use yappod.Examples.Sorting.{sort, sort-Permᴰ, sort-Pairs}
use yappod.Types.{BytesView, PassageView}
use yappod.Rag.{select, list_passages}
use yappod.Rag.Listing.{IsPassageSort, Listing, list_passages-Listing}

abbrev named : ℕ → BytesView
named b = record { bytes = some (b ∷ []); len = 1 }

abbrev passage : ℕ → ℕ → ℕ → PassageView
passage id parent ordinal = record {
  id = named id;
  parent_document_id = named parent;
  text = named 116;
  ordinal = ordinal;
  start_char = 0;
  end_char = 1;
}

abbrev by_ordinal : List PassageView → List PassageView
by_ordinal = sort (λ (p q : PassageView). ltb p.ordinal q.ordinal)

by_ordinal-IsPassageSort : IsPassageSort by_ordinal
by_ordinal-IsPassageSort = record {
  permutes = sort-Permᴰ (λ (p q : PassageView). ltb p.ordinal q.ordinal);
  ordered =
      sort-Pairs (λ (p q : PassageView). ltb p.ordinal q.ordinal) (λ p q. p.ordinal ≤ q.ordinal)
        (λ x y h. ground (arith, h)) (λ x y h. ground (arith, h)) (λ x y z h k. omega arith);
}

abbrev three_passages : List PassageView
three_passages = passage 49 97 1 ∷ passage 50 98 0 ∷ passage 51 97 0 ∷ []

list_passages-Listing_example :
    Listing true
      (select (named 97) three_passages)
      5
      (list_passages by_ordinal true three_passages (named 97) 5)
list_passages-Listing_example =
    list_passages-Listing by_ordinal by_ordinal-IsPassageSort true three_passages (named 97) 5 refl
