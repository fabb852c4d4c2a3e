-- ===== src/Examples/Fusion.antt =====
-- A fusion of two candidates each, over whole numbers in place of doubles.
use yappod.Prelude.{ℕ, ◌+◌, ◌/◌, ◌≡◌, refl, true, false, some, List, [], ◌∷◌, arith, ltb, ◌==◌, All}
use yappod.Examples.Sorting.{sort, sort-Permᴰ, sort-Pairs}
use yappod.Prelude.Bytes.{bytes_eq}
use yappod.Types.{BytesView}
use yappod.Hybrid.{
  Doubles, Candidate, Hit, Merged, fused, precedes, merge, fuse_rrf, validate_candidates,
  arguments_bad, ids_equal, add_candidates, add_candidate, add_from, mark, new_entry, contribution,
}
use yappod.Hybrid.Merging.{IsId, first, reference, hit_in, merge-reference}
use yappod.Hybrid.Fusing.{IsSort, IsFusion, fuse_rrf-IsFusion}

abbrev whole : Doubles ℕ
whole = record {
  zero = 0;
  of_nat = λ n. n;
  add = λ a b. a + b;
  divide = λ a b. a / b;
  is_finite = λ a. true;
  less = ltb;
  same = λ a b. a == b;
}

abbrev NotBehind : Merged ℕ → Merged ℕ → Type 0
NotBehind x y = precedes whole y x ≡ false

NotBehind-trans : (x y z : Merged ℕ) → NotBehind x y → NotBehind y z → NotBehind x z
unfolding precedes
NotBehind-trans x y z h k = ground (arith, h, k)

precedes_asym : (x y : Merged ℕ) → precedes whole y x ≡ true → NotBehind y x
unfolding precedes
precedes_asym x y h = ground (arith, h)

abbrev sort_merged : List (Merged ℕ) → List (Merged ℕ)
sort_merged = sort (precedes whole)

sort-IsSort : IsSort whole sort_merged
sort-IsSort = record {
  permutes = sort-Permᴰ (precedes whole);
  ordered = sort-Pairs (precedes whole) NotBehind (λ x y h. h) precedes_asym NotBehind-trans;
}

abbrev id_of : ℕ → BytesView
id_of b = record { bytes = some (b ∷ []); len = 1 }

id_of-IsId : (b : ℕ) → IsId (id_of b)
id_of-IsId b = record {
  there = record { xs = b ∷ []; there = refl; sized = refl };
  some_byte = omega arith;
}

abbrev lexical_list : List (Candidate ℕ)
lexical_list = record { id = id_of 97; score = 12 } ∷ record { id = id_of 98; score = 7 } ∷ []

abbrev vector_list : List (Candidate ℕ)
vector_list = record { id = id_of 98; score = 90 } ∷ record { id = id_of 99; score = 80 } ∷ []

abbrev fused_hits : List (Hit ℕ)
fused_hits =
    record {
      id = id_of 98;
      lexical_score = 7;
      vector_score = 90;
      fused_score = 1000000 / 62 + 1000000 / 61;
    }
    ∷ record { id = id_of 97; lexical_score = 12; vector_score = 0; fused_score = 1000000 / 61 }
    ∷ []

fusion :
    fuse_rrf whole sort_merged true lexical_list vector_list 1000000 1000000 2 10 ≡ fused fused_hits
unfolding fuse_rrf validate_candidates arguments_bad merge add_candidates add_candidate add_from
    mark new_entry contribution ids_equal bytes_eq precedes sort
fusion = refl

ids_there : All (λ (c : Candidate ℕ). IsId c.id) lexical_list
ids_there = (id_of-IsId 97, (id_of-IsId 98, tt))

vector_ids_there : All (λ (c : Candidate ℕ). IsId c.id) vector_list
vector_ids_there = (id_of-IsId 98, (id_of-IsId 99, tt))

fuse_rrf-IsFusion_example :
    IsFusion whole sort_merged sort-IsSort lexical_list vector_list 1000000 1000000 ids_there
      vector_ids_there 2 fused_hits
fuse_rrf-IsFusion_example =
    fuse_rrf-IsFusion whole sort_merged sort-IsSort lexical_list vector_list 1000000 1000000
      ids_there vector_ids_there true 2 10 fused_hits fusion

merge-reference_example :
    hit_in whole (merge whole lexical_list vector_list 1000000 1000000) (id_of 98)
    ≡ reference whole 1000000 1000000
        (first whole 0 lexical_list (id_of 98))
        (first whole 0 vector_list (id_of 98))
merge-reference_example =
    merge-reference whole lexical_list vector_list 1000000 1000000 (id_of 98) ids_there
      vector_ids_there (id_of-IsId 98)
