-- ===== src/Hybrid/Merging.antt =====
-- The merged entry of an id against the two lists of candidates.
use yappod.Prelude.{
  ℕ, ◌+◌, ◌<◌, ◌≡◌, inl, inr, refl, sym, ap, ◌∙◌, Bool, true, false, Option, none, some, List, [],
  ◌∷◌, arith, if◌then◌else◌, All, Bool-cases,
}
use yappod.Types.{BytesView, content}
use yappod.Types.Views.{HasBytes, view_eq}
use yappod.Prelude.Bytes.{bytes_eq→eq, bytes_eq_refl}
use yappod.Hybrid.{
  Doubles, Candidate, Hit, Merged, ids_equal, contribution, mark, new_entry, add_from,
  add_candidate, add_candidates, merge,
}

-- A view that has its bytes, and one at least.
pub record IsId (id : BytesView) : Type 0 where
  pub there : HasBytes id
  pub some_byte : 0 < id.len

pub ids_equal_self : (id : BytesView) → IsId id → ids_equal id id ≡ true
unfolding ids_equal
ids_equal_self id h = rw (h.there.there) (
    ground (
      arith,
      h.some_byte,
      bytes_eq_refl (content (record { bytes = some h.there.xs; len = id.len })),
    ))

pub ids_equal-true : (v w : BytesView) → IsId v → IsId w → ids_equal v w ≡ true → v ≡ w
unfolding ids_equal
ids_equal-true v w hv hw e =
    view_eq v w hv.there hw.there (bytes_eq→eq (content v) (content w) (ground (arith, e)))

module _ {F : Type 0} (double : Doubles F) where
  abbrev pub EntryHasId : Merged F → Type 0
  EntryHasId e = IsId e.hit.id

  abbrev pub CandidateHasId : Candidate F → Type 0
  CandidateHasId c = IsId c.id

  -- An entry but for its place.
  abbrev pub plain : Merged F → Merged F
  plain e = record e { ordinal = 0 }

  unfoldable pub find : List (Merged F) → BytesView → Option (Merged F)
  find [] id = none
  find (e ∷ rest) id = if ids_equal e.hit.id id then some (plain e) else find rest id

  -- The first candidate with the id, and its rank, if `i` candidates stand before the list.
  unfoldable pub first : ℕ → List (Candidate F) → BytesView → Option (ℕ × Candidate F)
  first i [] id = none
  first i (c ∷ rest) id = if ids_equal c.id id then some (i + 1, c) else first (i + 1) rest id

  -- The entry of an id after a candidate of that id.
  after : Bool → Candidate F → F → Option (Merged F) → Merged F
  after lexical c amount none = new_entry double lexical c amount 0
  after lexical c amount (some e) = mark double lexical c.score amount e

  mark-plain :
      (lexical : Bool) (score amount : F) (e : Merged F)
      → plain (mark double lexical score amount e) ≡ mark double lexical score amount (plain e)
  unfolding mark
  mark-plain true score amount e = ground arith
  mark-plain false score amount e = ground arith

  pub mark-id :
      (lexical : Bool) (score amount : F) (e : Merged F)
      → (mark double lexical score amount e).hit.id ≡ e.hit.id
  unfolding mark
  mark-id true score amount e = ground arith
  mark-id false score amount e = ground arith

  mark-after :
      (lexical : Bool) (score amount : F) (c : Candidate F) (amount' : F) (o : Option (Merged F))
      → mark double lexical score amount (after lexical c amount' o) ≡ after lexical c amount' o
  unfolding mark after new_entry
  mark-after true score amount c amount' none = refl
  mark-after false score amount c amount' none = refl
  mark-after true score amount c amount' (some e) = ground arith
  mark-after false score amount c amount' (some e) = ground arith

  module _ (lexical : Bool) (c : Candidate F) (amount : F) (has : IsId c.id) where
    add_from-HasId :
        (ordinal : ℕ) (merged : List (Merged F))
        → All EntryHasId merged
        → All EntryHasId (add_from double lexical c amount ordinal merged)
    unfolding add_from new_entry
    add_from-HasId ordinal [] h = (has, tt)
    add_from-HasId ordinal (e ∷ rest) h = elim (Bool-cases (ids_equal e.hit.id c.id)) [
      | inl same ↦ rw same (rw mark-id h.0, h.1)
      | inr other ↦ rw other (h.0, add_from-HasId (ordinal + 1) rest h.1)
    ]

    find-add_from :
        (ordinal : ℕ) (merged : List (Merged F)) (id : BytesView)
        → All EntryHasId merged
        → IsId id
        → find (add_from double lexical c amount ordinal merged) id ≡ (
            if ids_equal c.id id
            then some (after lexical c amount (find merged id))
            else find merged id)
    unfolding add_from find after new_entry
    find-add_from ordinal [] id h hid = refl
    find-add_from ordinal (e ∷ rest) id h hid = elim (Bool-cases (ids_equal e.hit.id c.id)) [
      | inl same ↦
          let one : e.hit.id ≡ c.id = ids_equal-true e.hit.id c.id h.0 has same in
          elim (Bool-cases (ids_equal e.hit.id id)) [
            | inl met ↦
                let met' : ids_equal c.id id ≡ true = rw one at met in
                rw (add_from, same, find, mark-id, met, met', mark-plain) refl
            | inr apart ↦
                let apart' : ids_equal c.id id ≡ false = rw one at apart in
                rw (add_from, same, find, mark-id, apart, apart') refl
          ]
      | inr other ↦ elim (Bool-cases (ids_equal e.hit.id id)) [
        | inl met ↦ elim (Bool-cases (ids_equal c.id id)) [
          | inl both ↦
              let one : e.hit.id ≡ c.id =
                ids_equal-true e.hit.id id h.0 hid met
                ∙ sym (ids_equal-true c.id id has hid both) in
              let yes_same : ids_equal e.hit.id c.id ≡ true = rw one (ids_equal_self c.id has) in
              absurd (ground (arith, other, yes_same))
          | inr apart ↦ rw (add_from, other, find, met, apart) refl
        ]
        | inr apart ↦
            rw (add_from, other, find, apart) (find-add_from (ordinal + 1) rest id h.1 hid)
      ]
    ]

  module _ (lexical : Bool) (weight : F) where
    -- The entry of an id after the list, from what it was before.
    with_first : Option (ℕ × Candidate F) → Option (Merged F) → Option (Merged F)
    with_first none before = before
    with_first (some (rank, c)) before =
        some (after lexical c (contribution double weight rank) before)

    add_candidates-HasId :
        (i : ℕ) (cs : List (Candidate F)) (merged : List (Merged F))
        → All CandidateHasId cs
        → All EntryHasId merged
        → All EntryHasId (add_candidates double lexical weight i cs merged)
    unfolding add_candidates add_candidate
    add_candidates-HasId i [] merged hc h = h
    add_candidates-HasId i (c ∷ cs) merged hc h =
        add_candidates-HasId (i + 1) cs _ hc.1
          (add_from-HasId lexical c (contribution double weight (i + 1)) hc.0 0 merged h)

    -- A second candidate with the id of the first one changes nothing.
    with_first-after :
        (o : Option (ℕ × Candidate F)) (c : Candidate F) (amount : F) (before : Option (Merged F))
        → with_first o (some (after lexical c amount before)) ≡ some (after lexical c amount before)
    unfolding with_first after
    with_first-after none c amount before = refl
    with_first-after (some (rank, c')) c amount before =
        ap some (mark-after lexical c'.score (contribution double weight rank) c amount before)

    find-add_candidates :
        (i : ℕ) (cs : List (Candidate F)) (merged : List (Merged F)) (id : BytesView)
        → All CandidateHasId cs
        → All EntryHasId merged
        → IsId id
        → find (add_candidates double lexical weight i cs merged) id
          ≡ with_first (first i cs id) (find merged id)
    unfolding add_candidates add_candidate first with_first
    find-add_candidates i [] merged id hc h hid = refl
    find-add_candidates i (c ∷ cs) merged id hc h hid =
        let amount = contribution double weight (i + 1) in
        let added = add_from double lexical c amount 0 merged in
        find-add_candidates (i + 1) cs added id hc.1
          (add_from-HasId lexical c amount hc.0 0 merged h) hid
        ∙ ap (with_first (first (i + 1) cs id))
            (find-add_from lexical c amount hc.0 0 merged id h hid)
        ∙ elim (Bool-cases (ids_equal c.id id)) [
          | inl same ↦
              rw (same, first) (with_first-after (first (i + 1) cs id) c amount (find merged id))
          | inr other ↦ rw (other, first) refl
        ]

  -- The hit of an id, from the first candidates with the id in the lexical and in the vector list.
  unfoldable pub reference :
      F → F → Option (ℕ × Candidate F) → Option (ℕ × Candidate F) → Option (Hit F)
  reference lexical_weight vector_weight none none = none
  reference lexical_weight vector_weight (some (rank, c)) none = some (record {
    id = c.id;
    lexical_score = c.score;
    vector_score = double.zero;
    fused_score = contribution double lexical_weight rank;
  })
  reference lexical_weight vector_weight none (some (rank, c)) = some (record {
    id = c.id;
    lexical_score = double.zero;
    vector_score = c.score;
    fused_score = contribution double vector_weight rank;
  })
  reference lexical_weight vector_weight (some (rank, c)) (some (rank', c')) = some (record {
    id = c.id;
    lexical_score = c.score;
    vector_score = c'.score;
    fused_score =
        double.add (contribution double lexical_weight rank)
          (contribution double vector_weight rank');
  })

  abbrev pub hit_in : List (Merged F) → BytesView → Option (Hit F)
  hit_in merged id = elim (find merged id) [ none ↦ none | some e ↦ some e.hit ]

  both_lists :
      (wl wv : F) (l v : Option (ℕ × Candidate F))
      → (elim (with_first false wv v (with_first true wl l none)) [
        | none ↦ none
        | some e ↦ some e.hit
      ])
        ≡ reference wl wv l v
  unfolding with_first after mark new_entry reference
  both_lists wl wv none none = refl
  both_lists wl wv (some (rank, c)) none = refl
  both_lists wl wv none (some (rank, c)) = refl
  both_lists wl wv (some (rank, c)) (some (rank', c')) = refl

  -- Candidates whose ids are there and not empty: the merged list has, for every such id, the hit of
  -- the first candidates with that id in the two lists: their scores, 0 where a list has none, and the
  -- sum of the weights over 60 plus the rank; and no hit for an id that neither list has.
  pub merge-reference :
      (lexical vector : List (Candidate F)) (lexical_weight vector_weight : F) (id : BytesView)
      → All CandidateHasId lexical
      → All CandidateHasId vector
      → IsId id
      → hit_in (merge double lexical vector lexical_weight vector_weight) id
        ≡ reference lexical_weight vector_weight (first 0 lexical id) (first 0 vector id)
  unfolding merge find
  merge-reference lexical vector wl wv id hl hv hid =
      let from_lexical = add_candidates-HasId true wl 0 lexical [] hl tt in
      let found =
        find-add_candidates false wv 0 vector (add_candidates double true wl 0 lexical []) id hv
          from_lexical hid
        ∙ ap (with_first false wv (first 0 vector id))
            (find-add_candidates true wl 0 lexical [] id hl tt hid) in
      ap (λ (o : Option (Merged F)). elim o [ none ↦ none | some e ↦ some e.hit ]) found
      ∙ both_lists wl wv (first 0 lexical id) (first 0 vector id)

  pub merge-HasId :
      (lexical vector : List (Candidate F)) (wl wv : F)
      → All CandidateHasId lexical
      → All CandidateHasId vector
      → All EntryHasId (merge double lexical vector wl wv)
  unfolding merge
  merge-HasId lexical vector wl wv hl hv =
      add_candidates-HasId false wv 0 vector _ hv (add_candidates-HasId true wl 0 lexical [] hl tt)
