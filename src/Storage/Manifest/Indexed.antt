-- ===== src/Storage/Manifest/Indexed.antt =====
-- The tables against a linear search: what `segment_find` and `segment_map_find` answer.
use yappod.Prelude.{
  ℕ, zero, suc, ◌+◌, ◌*◌, ◌^◌, ◌≤◌, ◌<◌, ◌≡◌, ◌≢◌, ◌⊎◌, inl, inr, refl, sym, ap, ◌∙◌, Bool, true,
  false, List, [], ◌∷◌, arith, if◌then◌else◌, length, get_or, Bool-cases,
}
use yappod.Prelude.Bytes.{bytes_eq, bytes_eq→eq, bytes_eq_refl}
use mathlib.Core.Bool.{false≢true}
use yappod.Prelude.Masks.{pow_pos}
use yappod.Types.{not_found, conflict, Result, done, fail}
use yappod.Storage.Descriptor.{Segment}
use yappod.Storage.Manifest.{
  Manifest, ids, segment_find, SegmentMap, segment_map_build, segment_map_find,
}
use yappod.Storage.Slots.{Probe, vacant, found, exhausted, look_up}
use yappod.Storage.Slots.Index.{IsIndex, look_up_present, look_up_sound}
use yappod.Storage.Slots.Build.{HasClash, build-Entered}

-- The position of the first segment with the id, counted from `i`.
unfoldable pub position : List Segment → List ℕ → ℕ → Result ℕ
position [] id i = fail not_found
position (s ∷ rest) id i = if bytes_eq s.id id then done i else position rest id (i + 1)

abbrev pub has_id : List Segment → List ℕ → Bool
has_id segments id = elim (position segments id 0) [ done i ↦ true | fail s ↦ false ]

pub length-ids : (segments : List Segment) → length (ids segments) ≡ length segments
length-ids [] = refl
length-ids (s ∷ rest) = ap suc (length-ids rest)

-- How a linear search ends.
pub data Searched (segments : List Segment) (id : List ℕ) (from : ℕ) (r : Result ℕ) : Type 0 where
  met :
      (i : ℕ)
      → i < length segments
      → get_or (ids segments) i [] ≡ id
      → r ≡ done (from + i)
      → Searched segments id from r
  missed :
      ((i : ℕ) → i < length segments → get_or (ids segments) i [] ≢ id)
      → r ≡ fail not_found
      → Searched segments id from r

missed_cons :
    (s : Segment) (rest : List Segment) (id : List ℕ)
    → s.id ≢ id
    → ((i : ℕ) → i < length rest → get_or (ids rest) i [] ≢ id)
    → (i : ℕ) → i < suc (length rest)
    → get_or (ids (s ∷ rest)) i [] ≢ id
missed_cons s rest id first others zero lt = first
missed_cons s rest id first others (suc i) lt = others i (omega arith)

pub position-Searched :
    (segments : List Segment) (id : List ℕ) (from : ℕ)
    → Searched segments id from (position segments id from)
unfolding position
position-Searched [] id from = missed (λ i lt. absurd (omega arith)) refl
position-Searched (s ∷ rest) id from = elim (Bool-cases (bytes_eq s.id id)) [
  | inl equal ↦ rw equal (met 0 (omega arith) (bytes_eq→eq s.id id equal) (ap done (omega arith)))
  | inr differs ↦ rw differs (elim (position-Searched rest id (from + 1)) [
    | met i lt same e ↦ met (suc i) (omega arith) same (e ∙ ap done (omega arith))
    | missed none_there e ↦
        missed
          (missed_cons s rest id (λ e. false≢true (sym differs ∙ rw (e) (bytes_eq_refl id)))
            none_there)
          e
  ])
]

-- What a look-up answers, as a result.
abbrev pub answer : Probe → Result ℕ
answer (found i) = done i
answer _ = fail not_found

module _ (segments : List Segment) (k : ℕ) (slots id : List ℕ)
    (index : IsIndex (ids segments) (length segments) k slots) where
  pub look_up-eq-position :
      answer (look_up (ids segments) (2 ^ k) slots id) ≡ position segments id 0
  look_up-eq-position = elim (position-Searched segments id 0) [
    | met i lt same e ↦
        rw (look_up_present (ids segments) (length segments) k slots index id i lt same, e)
          (ap done (omega arith))
    | missed absent e ↦ rw e (not_there absent (look_up (ids segments) (2 ^ k) slots id) refl)
  ]
    where
      not_there :
          ((i : ℕ) → i < length segments → get_or (ids segments) i [] ≢ id)
          → (p : Probe) → look_up (ids segments) (2 ^ k) slots id ≡ p
          → answer p ≡ fail not_found
      not_there absent (found j) e =
          let (lt, same) = look_up_sound (ids segments) (length segments) k slots index id j e in
          absurd (absent j lt same)
      not_there absent (vacant s) e = refl
      not_there absent exhausted e = refl

-- The invariant of a manifest: no table and no segment yet, or a table over all the segments that is
-- at most half full.
pub data IsIndexed (m : Manifest) : Type 0 where
  unindexed : m.segment_slot_capacity ≡ 0 → length m.segments ≡ 0 → IsIndexed m
  indexed :
      (k : ℕ)
      → m.segment_slot_capacity ≡ 2 ^ k
      → IsIndex (ids m.segments) (length m.segments) k m.segment_slots
      → length m.segments * 2 ≤ 2 ^ k
      → IsIndexed m

abbrev test : Probe → Bool
test (found i) = true
test _ = false

test_answer : (p : Probe) → test p ≡ (elim (answer p) [ done i ↦ true | fail s ↦ false ])
test_answer (found i) = refl
test_answer (vacant s) = refl
test_answer exhausted = refl

-- In a manifest that keeps the invariant, the hash table answers what a linear search of the
-- segments answers.
pub segment_find-eq-has_id :
    (m : Manifest) (id : List ℕ) → IsIndexed m → segment_find m id ≡ has_id m.segments id
unfolding segment_find
segment_find-eq-has_id m id (unindexed no_table no_segment) =
    elim (position-Searched m.segments id 0) [
      | met i lt same e ↦ absurd (omega arith)
      | missed absent e ↦ ground (arith, e, no_table)
    ]
segment_find-eq-has_id m id (indexed k e index roomy) = ground (
  arith,
  e,
  pow_pos k,
  test_answer (look_up (ids m.segments) (2 ^ k) m.segment_slots id),
  look_up-eq-position m.segments k m.segment_slots id index,
)

map_find_lem :
    (segments : List Segment) (k : ℕ) (slots id : List ℕ)
    → IsIndex (ids segments) (length segments) k slots
    → segment_map_find segments (record { capacity = 2 ^ k; slots = slots }) id
      ≡ position segments id 0
unfolding segment_map_find
map_find_lem segments k slots id index =
    ground (arith, pow_pos k, look_up-eq-position segments k slots id index)

abbrev pub SameId : List Segment → Type 0
SameId segments = HasClash (ids segments) (length segments)

-- Building the segment map of at most 2^62 segments, with memory granted, either gives a map in
-- which every look-up answers what a linear search of the segments answers, or reports a conflict,
-- and then two segments have one id.
pub segment_map-position :
    (segments : List Segment)
    → length segments ≤ 2 ^ 62
    → ((t : SegmentMap) × (segment_map_build true segments ≡ done t)
        × ((id : List ℕ) → segment_map_find segments t id ≡ position segments id 0))
      ⊎ ((segment_map_build true segments ≡ fail conflict) × SameId segments)
unfolding segment_map_build
segment_map-position [] small =
    inl (record { capacity = 0; slots = [] }, refl, λ id. unfold segment_map_find position in refl)
segment_map-position (s ∷ rest) small =
    elim (build-Entered (ids (s ∷ rest)) conflict (length (s ∷ rest))
      (omega (arith, length-ids rest)) (omega arith)) [
        | inl (k, slots, built, index, roomy) ↦ inl (
          record { capacity = 2 ^ k; slots = slots },
          ground (arith, built, small),
          λ id. map_find_lem (s ∷ rest) k slots id (rw (length-ids (s ∷ rest)) at index),
        )
        | inr (refused, clash) ↦
            inr (ground (arith, refused, small), rw (← length-ids (s ∷ rest)) clash)
      ]
