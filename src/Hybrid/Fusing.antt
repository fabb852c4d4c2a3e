-- ===== src/Hybrid/Fusing.antt =====
-- The list of hits, over a sort that permutes and orders.
use yappod.Prelude.{
  ℕ, suc, ◌+◌, ◌≡◌, inl, inr, refl, sym, ap, ◌∙◌, Bool, true, false, Option, none, some, List, [],
  ◌∷◌, arith, ◌==◌, length, take, map, min, All, Bool-cases, length-take,
}
use yappod.Prelude.Permutations.{
  Pairs, All-Permᴰ, Pairs-Permᴰ, length-Permᴰ, All-take, Pairs-take, Pairs-imp,
}
use yappod.Prelude.Bytes.{bytes_eq, bytes_eq→eq, bytes_eq_refl}
use yappod.Types.{BytesView, content}
use yappod.Hybrid.{
  Doubles, Candidate, Hit, Merged, fused, ids_equal, new_entry, add_from, add_candidate,
  add_candidates, merge, precedes, fuse_rrf,
}
use yappod.Hybrid.Merging.{
  IsId, ids_equal_self, CandidateHasId, plain, find, first, reference, mark-id, merge-reference,
  merge-HasId,
}
use mathlib.Core.List.{Permᴰ}

module _ {F : Type 0} (double : Doubles F) where
  -- What is known of `qsort` with `compare_merged`: it permutes, and nothing stands behind an element
  -- that it precedes.
  pub record IsSort (sort : List (Merged F) → List (Merged F)) : Type 0 where
    pub permutes : (xs : List (Merged F)) → Permᴰ xs (sort xs)
    pub ordered : (xs : List (Merged F)) → Pairs (λ x y. precedes double y x ≡ false) (sort xs)

  abbrev Apart : Merged F → Merged F → Type 0
  Apart e e' = ids_equal e.hit.id e'.hit.id ≡ false

  module _ (lexical : Bool) (c : Candidate F) (amount : F) where
    All-add_from :
        (P : BytesView → Type 0) (ordinal : ℕ) (merged : List (Merged F))
        → P c.id
        → All (λ e. P e.hit.id) merged
        → All (λ e. P e.hit.id) (add_from double lexical c amount ordinal merged)
    unfolding add_from new_entry
    All-add_from P ordinal [] hc h = (hc, tt)
    All-add_from P ordinal (e ∷ rest) hc h = elim (Bool-cases (ids_equal e.hit.id c.id)) [
      | inl same ↦ rw same (rw mark-id h.0, h.1)
      | inr other ↦ rw other (h.0, All-add_from P (ordinal + 1) rest hc h.1)
    ]

    Pairs-add_from :
        (ordinal : ℕ) (merged : List (Merged F))
        → Pairs Apart merged
        → Pairs Apart (add_from double lexical c amount ordinal merged)
    unfolding add_from new_entry
    Pairs-add_from ordinal [] h = (tt, tt)
    Pairs-add_from ordinal (e ∷ rest) h = elim (Bool-cases (ids_equal e.hit.id c.id)) [
      | inl same ↦ rw same (rw mark-id h.0, h.1)
      | inr other ↦ rw other (
        All-add_from (λ id. ids_equal e.hit.id id ≡ false) (ordinal + 1) rest other h.0,
        Pairs-add_from (ordinal + 1) rest h.1,
      )
    ]

  Pairs-add_candidates :
      (lexical : Bool) (weight : F) (i : ℕ) (cs : List (Candidate F)) (merged : List (Merged F))
      → Pairs Apart merged
      → Pairs Apart (add_candidates double lexical weight i cs merged)
  unfolding add_candidates add_candidate
  Pairs-add_candidates lexical weight i [] merged h = h
  Pairs-add_candidates lexical weight i (c ∷ cs) merged h =
      Pairs-add_candidates lexical weight (i + 1) cs _ (Pairs-add_from lexical c _ 0 merged h)

  merge-Pairs :
      (lexical vector : List (Candidate F)) (wl wv : F)
      → Pairs Apart (merge double lexical vector wl wv)
  unfolding merge
  merge-Pairs lexical vector wl wv =
      Pairs-add_candidates false wv 0 vector _ (Pairs-add_candidates true wl 0 lexical [] tt)

  -- In a list without equal ids every entry is the one that is found.
  behind :
      (e : Merged F) (rest : List (Merged F)) (xs : List (Merged F))
      → All (Apart e) xs
      → All (λ x. find double rest x.hit.id ≡ some (plain double x)) xs
      → All (λ x. find double (e ∷ rest) x.hit.id ≡ some (plain double x)) xs
  unfolding find
  behind e rest [] a h = tt
  behind e rest (x ∷ xs) a h = (rw (a.0, find) h.0, behind e rest xs a.1 h.1)

  found_all :
      (merged : List (Merged F))
      → All (λ e. IsId e.hit.id) merged
      → Pairs Apart merged
      → All (λ x. find double merged x.hit.id ≡ some (plain double x)) merged
  unfolding find
  found_all [] h a = tt
  found_all (e ∷ rest) h a =
      (rw (find, ids_equal_self e.hit.id h.0) refl, behind e rest rest a.0 (found_all rest h.1 a.1))

  -- Two hits have different ids.
  abbrev pub OtherId : Hit F → Hit F → Type 0
  OtherId h h' = ids_equal h.id h'.id ≡ false

  -- The later of two hits does not have the higher score.
  abbrev pub NotBetter : Hit F → Hit F → Type 0
  NotBetter h h' = double.less h.fused_score h'.fused_score ≡ false

  abbrev hits : List (Merged F) → List (Hit F)
  hits xs = map (λ (e : Merged F). e.hit) xs

  All-hits : (P : Hit F → Type 0) (xs : List (Merged F)) → All (λ e. P e.hit) xs → All P (hits xs)
  All-hits P [] h = tt
  All-hits P (x ∷ xs) h = (h.0, All-hits P xs h.1)

  Pairs-hits :
      (R : Hit F → Hit F → Type 0) (xs : List (Merged F))
      → Pairs (λ e e'. R e.hit e'.hit) xs
      → Pairs R (hits xs)
  Pairs-hits R [] h = tt
  Pairs-hits R (x ∷ xs) h = (All-hits (R x.hit) xs h.0, Pairs-hits R xs h.1)

  length-hits : (xs : List (Merged F)) → length (hits xs) ≡ length xs
  length-hits [] = refl
  length-hits (x ∷ xs) = ap suc (length-hits xs)

  apart_symmetric : (x y : BytesView) → ids_equal x y ≡ false → ids_equal y x ≡ false
  unfolding ids_equal
  apart_symmetric x y h = elim (Bool-cases (ids_equal y x)) [
    | inl turned ↦
        let same : bytes_eq (content y) (content x) ≡ true = ground (arith, turned) in
        let back : bytes_eq (content x) (content y) ≡ true =
          rw (bytes_eq→eq (content y) (content x) same) (bytes_eq_refl (content x)) in
        absurd (ground (arith, h, turned, back))
    | inr differs ↦ differs
  ]

  no_candidates :
      (lexical vector : List (Candidate F)) (wl wv : F)
      → length lexical + length vector ≡ 0
      → length (merge double lexical vector wl wv) ≡ 0
  unfolding merge add_candidates
  no_candidates [] [] wl wv h = refl
  no_candidates (c ∷ cs) vector wl wv h = absurd (omega arith)
  no_candidates [] (c ∷ cs) wl wv h = absurd (omega arith)

  not_better : (x y : Merged F) → precedes double y x ≡ false → NotBetter x.hit y.hit
  unfolding precedes
  not_better x y h = ground (arith, h)

  module _ (sort : List (Merged F) → List (Merged F)) (is_sort : IsSort sort)
      (lexical vector : List (Candidate F)) (wl wv : F) (hl : All (CandidateHasId double) lexical)
      (hv : All (CandidateHasId double) vector) where
    abbrev merged : List (Merged F)
    merged = merge double lexical vector wl wv

    -- What the hits of a fusion have.
    pub record IsFusion (top_k : ℕ) (found : List (Hit F)) : Type 0 where
      pub counted : length found ≡ min top_k (length (merge double lexical vector wl wv))
      pub exact :
          All
            (λ h.
              reference double wl wv (first double 0 lexical h.id) (first double 0 vector h.id)
              ≡ some h)
            found
      pub distinct : Pairs OtherId found
      pub ordered : Pairs NotBetter found

    exact_merged :
        All
          (λ e.
            reference double wl wv
              (first double 0 lexical e.hit.id)
              (first double 0 vector e.hit.id)
            ≡ some e.hit)
          merged
    exact_merged =
        let has = merge-HasId double lexical vector wl wv hl hv in
        let found = found_all merged has (merge-Pairs lexical vector wl wv) in
        exact_of merged has found
      where
        exact_of :
            (xs : List (Merged F))
            → All (λ e. IsId e.hit.id) xs
            → All (λ x. find double merged x.hit.id ≡ some (plain double x)) xs
            → All
                (λ e.
                  reference double wl wv
                    (first double 0 lexical e.hit.id)
                    (first double 0 vector e.hit.id)
                  ≡ some e.hit)
                xs
        exact_of [] has found = tt
        exact_of (x ∷ xs) has found = (
          sym (merge-reference double lexical vector wl wv x.hit.id hl hv has.0)
              ∙ ap (λ (o : Option (Merged F)). elim o [ none ↦ none | some e ↦ some e.hit ])
                  found.0,
          exact_of xs has.1 found.1,
        )

    sorted-IsFusion :
        (top_k : ℕ) → IsFusion top_k (hits (take (min top_k (length merged)) (sort merged)))
    sorted-IsFusion top_k =
        let p = is_sort.permutes merged in
        let n = min top_k (length merged) in
        record {
          counted = omega (
            arith,
            length-hits (take n (sort merged)),
            length-take n (sort merged),
            length-Permᴰ p,
          );
          exact = All-hits _ _ (All-take _ n _ (All-Permᴰ _ p exact_merged));
          distinct = Pairs-hits OtherId _ (
              Pairs-take _ n _ (
                Pairs-Permᴰ Apart (λ x y. apart_symmetric x.hit.id y.hit.id) p
                  (merge-Pairs lexical vector wl wv)));
          ordered =
              Pairs-hits NotBetter _
                (Pairs-take _ n _ (Pairs-imp _ _ not_better _ (is_sort.ordered merged)));
        }

    -- `sort` permutes and orders, and the ids of the candidates are there and not empty: a fusion that
    -- succeeds gives as many hits as were asked for or as there are different ids; each is the hit that
    -- the first candidates with its id determine; no two have one id; and none has a higher score than
    -- an earlier one.
    pub fuse_rrf-IsFusion :
        (granted : Bool) (top_k hit_capacity : ℕ) (found : List (Hit F))
        → fuse_rrf double sort granted lexical vector wl wv top_k hit_capacity ≡ fused found
        → IsFusion top_k found
    unfolding fuse_rrf
    fuse_rrf-IsFusion granted top_k hit_capacity found e =
        elim (Bool-cases (length lexical + length vector == 0)) [
          | inl nothing ↦
              let same : [] ≡ found = ground (arith, e, nothing) in
              rw (← same) (record {
                counted =
                    omega (arith, no_candidates lexical vector wl wv (ground (arith, nothing)));
                exact = tt;
                distinct = tt;
                ordered = tt;
              })
          | inr something ↦
              let same : hits (take (min top_k (length merged)) (sort merged)) ≡ found =
                ground (arith, e, something) in
              rw (← same) (sorted-IsFusion top_k)
        ]
