-- ===== src/ManifestFile/Segments.antt =====
-- Reading the segments back: they can be added again one by one.
use yappod.Prelude.{
  ◌+◌, ◌≤◌, ◌<◌, ◌≡◌, refl, sym, ap, ◌∙◌, true, false, inl, inr, List, [], ◌∷◌, ◌++◌, arith, length,
  get_or, get_or-append_left, get_or-append_last, All, append-nil, append_assoc, length-append,
}
use yappod.Types.{ok, done}
use yappod.Storage.Descriptor.{Segment}
use yappod.Storage.Manifest.{Manifest, ids, add_segment, max_segments}
use yappod.Storage.Manifest.Head.{SameHead, add_segment-SameHead}
use yappod.Storage.Manifest.Validity.{AllDistinct, IsSegment}
use yappod.Storage.Descriptor.Components.{segment_id_validate_iff}
use yappod.Storage.Manifest.Indexed.{IsIndexed, has_id, length-ids, met, missed, position-Searched}
use mathlib.Core.List.{map-append}
use yappod.Storage.Manifest.Adding.{add_segment-IsAdded, expected}
use yappod.ManifestFile.{parse_segments, put_segments}
use yappod.ManifestFile.Reading.{IsStoredSegment, segment_back}

-- `add_segment` on a segment that may be added.
add_ok :
    (m : Manifest) (s : Segment)
    → IsIndexed m
    → expected m.segments s ≡ ok
    → (m' : Manifest) × (add_segment true true m s ≡ (ok, m'))
      × (m'.segments ≡ m.segments ++ s ∷ [])
      × IsIndexed m'
      × SameHead m m'
add_ok m s i e =
    let a = add_segment-IsAdded true true m s i in
    let status : (add_segment true true m s).0 ≡ ok = elim a.status [
      | inl h ↦ h ∙ e
      | inr (h, n) ↦ cc
    ] in
    (
      (add_segment true true m s).1,
      λ j. (status j, (add_segment true true m s).1),
      a.segments ∙ rw status refl,
      a.kept,
      add_segment-SameHead true true m s,
    )

-- The segments can be added one by one behind `before`.
abbrev pub Addable : List Segment → List Segment → Type 0
Addable before [] = Unit {0}
Addable before (s ∷ more) = (expected before s ≡ ok) × Addable (before ++ s ∷ []) more

pub segments_back :
    (more : List Segment) (m : Manifest)
    → IsIndexed m
    → Addable m.segments more
    → All IsStoredSegment more
    → (m' : Manifest) × (parse_segments true (length more) m (put_segments more) ≡ done (m', []))
      × (m'.segments ≡ m.segments ++ more)
      × IsIndexed m'
      × SameHead m m'
unfolding parse_segments put_segments
segments_back [] m i a v = (
  m,
  refl,
  sym (append-nil m.segments),
  i,
  record { version = refl; generation = refl; fingerprint = refl },
)
segments_back (s ∷ more) m i a v =
    let (m', added, grown, i', head) = add_ok m s i a.0 in
    let (m'', rest, all, i'', head') = segments_back more m' i' (rw grown a.1) v.1 in
    (
      m'',
      rw (segment_back s (put_segments more) v.0, added) rest,
      all ∙ ap (λ t. t ++ more) grown ∙ append_assoc m.segments (s ∷ []) more,
      i'',
      record {
        version = head'.version ∙ head.version;
        generation = head'.generation ∙ head.generation;
        fingerprint = head'.fingerprint ∙ head.fingerprint;
      },
    )

-- No segment of `before` has the id of a segment that stands behind it.
absent_before :
    (before : List Segment) (s : Segment) (more : List Segment)
    → AllDistinct (ids ((before ++ s ∷ []) ++ more)) (length ((before ++ s ∷ []) ++ more))
    → has_id before s.id ≡ false
absent_before before s more d =
    let size = length-append (before ++ s ∷ []) more in
    let size' = length-append before (s ∷ []) in
    let ids_all : ids ((before ++ s ∷ []) ++ more) ≡ (ids before ++ s.id ∷ []) ++ ids more =
      map-append (λ (t : Segment). t.id) (before ++ s ∷ []) more
      ∙ ap (λ t. t ++ ids more) (map-append (λ (t : Segment). t.id) before (s ∷ [])) in
    let count = length-ids before in
    let width = length-append (ids before) (s.id ∷ []) in
    elim (position-Searched before s.id 0) [
      | missed absent e ↦ ground (arith, e)
      | met i lt same e ↦
          let left : get_or (ids ((before ++ s ∷ []) ++ more)) i [] ≡ s.id = rw ids_all (
            get_or-append_left (ids before ++ s.id ∷ []) (ids more) i [] (omega arith)
            ∙ get_or-append_left (ids before) (s.id ∷ []) i [] (omega arith)
            ∙ same) in
          let right : get_or (ids ((before ++ s ∷ []) ++ more)) (length before) [] ≡ s.id =
            rw ids_all (
              get_or-append_left (ids before ++ s.id ∷ []) (ids more) (length before) []
                (omega arith)
              ∙ get_or-append_last (ids before) s.id (length before) [] (omega arith)) in
          absurd (omega (arith, d i (length before) (omega arith) (omega arith) (left ∙ sym right)))
    ]

expected_ok :
    (before : List Segment) (s : Segment)
    → IsSegment s
    → length before < max_segments
    → has_id before s.id ≡ false
    → expected before s ≡ ok
unfolding expected
expected_ok before s v room absent =
    ground (arith, (segment_id_validate_iff s.id).1 v.id, room, absent)

pub IsManifest-Addable :
    (before more : List Segment)
    → All IsSegment more
    → length before + length more ≤ max_segments
    → AllDistinct (ids (before ++ more)) (length (before ++ more))
    → Addable before more
IsManifest-Addable before [] v few d = tt
IsManifest-Addable before (s ∷ more) v few d =
    let d' : AllDistinct (ids ((before ++ s ∷ []) ++ more)) (length ((before ++ s ∷ []) ++ more)) =
      rw (append_assoc before (s ∷ []) more) d in
    let size = length-append before (s ∷ []) in
    (
      expected_ok before s v.0 (omega arith) (absent_before before s more d'),
      IsManifest-Addable (before ++ s ∷ []) more v.1 (omega arith) d',
    )
