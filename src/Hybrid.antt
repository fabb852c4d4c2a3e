-- ===== src/Hybrid.antt =====
-- Reciprocal rank fusion (src/query/yappo_hybrid.c): a lexical and a vector list of candidates, best
-- first, become one list of hits. A double is an element of a type `F` with the operations of `Doubles`,
-- of which nothing is assumed. `qsort` with `compare_merged` is a parameter.
pub mod Merging
pub mod Fusing
use yappod.Prelude.{
  ℕ, zero, suc, ◌+◌, ◌-◌, ◌/◌, Bool, true, false, not, ◌&&◌, ◌||◌, Option, none, some, List, [],
  ◌∷◌, ◌++◌, map, ltb, ◌==◌, if◌then◌else◌, length, take, min,
}
use yappod.Prelude.Bytes.{bytes_eq}
use yappod.Types.{BytesView, is_null, content}
use yappod.Storage.Slots.{size_max}

pub record Doubles (F : Type 0) : Type 0 where
  pub zero : F
  pub of_nat : ℕ → F
  pub add : F → F → F
  pub divide : F → F → F
  pub is_finite : F → Bool
  pub less : F → F → Bool
  pub same : F → F → Bool

-- `YAP_HYBRID_STATUS`, without success.
pub data HybridError : Type 0 where
  bad_argument buffer_too_small no_memory : HybridError

pub data Fused (A : Type 0) : Type 0 where
  fused : A → Fused A
  refused : HybridError → Fused A

-- `YAP_HYBRID_CANDIDATE`
pub record Candidate (F : Type 0) : Type 0 where
  pub id : BytesView
  pub score : F

-- `YAP_HYBRID_HIT`
pub record Hit (F : Type 0) : Type 0 where
  pub id : BytesView
  pub lexical_score : F
  pub vector_score : F
  pub fused_score : F

-- `YAP_HYBRID_MERGED`
pub record Merged (F : Type 0) : Type 0 where
  pub hit : Hit F
  pub ordinal : ℕ
  pub lexical_present : Bool
  pub vector_present : Bool

unfoldable pub ids_equal : BytesView → BytesView → Bool
ids_equal left right =
    left.len == right.len
    && ltb 0 left.len
    && not (is_null left)
    && not (is_null right)
    && bytes_eq (content left) (content right)

module _ {F : Type 0} (double : Doubles F) where
  unfoldable pub validate_candidates : List (Candidate F) → Bool
  validate_candidates [] = true
  validate_candidates (c ∷ rest) =
      if is_null c.id || c.id.len == 0 || not (double.is_finite c.score)
      then false
      else validate_candidates rest

  -- The order of `compare_merged`: `left` stands before `right`.
  unfoldable pub precedes : Merged F → Merged F → Bool
  precedes left right =
      if double.less right.hit.fused_score left.hit.fused_score
      then true
      else if double.less left.hit.fused_score right.hit.fused_score
      then false
      else ltb left.ordinal right.ordinal

  unfoldable pub contribution : F → ℕ → F
  contribution weight rank =
      double.divide weight (double.add (double.of_nat 60) (double.of_nat rank))

  -- What a candidate does to the entry of its id.
  unfoldable pub mark : Bool → F → F → Merged F → Merged F
  mark true score amount e = if e.lexical_present then e else record e {
    hit = record e.hit { lexical_score = score; fused_score = double.add e.hit.fused_score amount };
    lexical_present = true;
  }
  mark false score amount e = if e.vector_present then e else record e {
    hit = record e.hit { vector_score = score; fused_score = double.add e.hit.fused_score amount };
    vector_present = true;
  }

  unfoldable pub new_entry : Bool → Candidate F → F → ℕ → Merged F
  new_entry lexical c amount ordinal = record {
    hit = record {
      id = c.id;
      lexical_score = (if lexical then c.score else double.zero);
      vector_score = (if lexical then double.zero else c.score);
      fused_score = amount;
    };
    ordinal = ordinal;
    lexical_present = lexical;
    vector_present = not lexical;
  }

  -- `add_candidate` on the entries from `ordinal` on.
  unfoldable pub add_from : Bool → Candidate F → F → ℕ → List (Merged F) → List (Merged F)
  add_from lexical c amount ordinal [] = new_entry lexical c amount ordinal ∷ []
  add_from lexical c amount ordinal (e ∷ rest) =
      let further = add_from lexical c amount (ordinal + 1) rest in
      if ids_equal e.hit.id c.id then mark lexical c.score amount e ∷ rest else e ∷ further

  unfoldable pub add_candidate : List (Merged F) → Candidate F → F → ℕ → Bool → List (Merged F)
  add_candidate merged c weight rank lexical =
      add_from lexical c (contribution weight rank) 0 merged

  -- The loop over one list of candidates, on those that are left; `i` have been added.
  unfoldable pub add_candidates :
      Bool → F → ℕ → List (Candidate F) → List (Merged F) → List (Merged F)
  add_candidates lexical weight i [] merged = merged
  add_candidates lexical weight i (c ∷ rest) merged =
      add_candidates lexical weight (i + 1) rest (add_candidate merged c weight (i + 1) lexical)

  unfoldable pub merge : List (Candidate F) → List (Candidate F) → F → F → List (Merged F)
  merge lexical vector lexical_weight vector_weight =
      add_candidates false vector_weight 0 vector (add_candidates true lexical_weight 0 lexical [])

  -- The test of the arguments.
  unfoldable pub arguments_bad : ℕ → ℕ → F → F → ℕ → ℕ → Bool
  arguments_bad lexical_count vector_count lexical_weight vector_weight top_k hit_capacity =
      top_k == 0
      || ltb hit_capacity top_k
      || ltb (size_max - vector_count) lexical_count
      || not (double.is_finite lexical_weight)
      || not (double.is_finite vector_weight)
      || double.less lexical_weight double.zero
      || double.less vector_weight double.zero
      || (double.same lexical_weight double.zero && double.same vector_weight double.zero)

  -- `granted` is what `calloc` answers, `sort` is `qsort`. An element of the array has
  -- 56 bytes: a view of 16, three doubles, the ordinal and two ints.
  unfoldable pub fuse_rrf :
      (List (Merged F) → List (Merged F))
      → Bool
      → List (Candidate F)
      → List (Candidate F)
      → F
      → F
      → ℕ
      → ℕ
      → Fused (List (Hit F))
  fuse_rrf sort granted lexical vector lexical_weight vector_weight top_k hit_capacity =
      if arguments_bad (length lexical) (length vector) lexical_weight vector_weight top_k
        hit_capacity
      then refused
          (if ltb hit_capacity top_k && ltb 0 top_k then buffer_too_small else bad_argument)
      else if not (validate_candidates lexical)
      then refused bad_argument
      else if not (validate_candidates vector)
      then refused bad_argument
      else if length lexical + length vector == 0
      then fused []
      else if ltb (size_max / 56) (length lexical + length vector)
      then refused no_memory
      else if not granted
      then refused no_memory
      else let merged = merge lexical vector lexical_weight vector_weight in
        fused (map (λ (e : Merged F). e.hit) (take (min top_k (length merged)) (sort merged)))
