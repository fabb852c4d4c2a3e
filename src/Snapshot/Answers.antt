-- ===== src/Snapshot/Answers.antt =====
-- What a freshly built snapshot answers about a document id.
use yappod.Prelude.{
  ℕ, suc, ◌+◌, ◌*◌, ◌/◌, ◌^◌, ◌≤◌, ◌<◌, ◌≡◌, ◌↔◌, inl, inr, refl, ap, ◌∙◌, true, false, none, List,
  [], ◌∷◌, ◌++◌, arith, ltb, ◌==◌, length, All, All-append, Bool-cases, Option-cases, length-append,
  replicate,
}
use yappod.Types.{BytesView, content, DocumentView, done}
use yappod.Storage.Slots.{capacity_for, size_max}
use yappod.Storage.Slots.Capacity.{capacity_for_lem}
use yappod.Types.Views.{HasBytes}
use yappod.Snapshot.{
  SnapshotSegment, VisibilityEntry, Table, count_records, build_table, build_visibility,
  visibility_lookup, Visible, DocumentHit, document_visible, lookup_document,
}
use yappod.Snapshot.Records.{last_record, empty-IsFilled}
use yappod.Snapshot.Visibility.{
  tombstone_records, document_records, segment_records, put_segments_all, HasId, put_all,
  put_all-IsFilled, record_total,
}

-- The ids of a segment are there, as its readers check.
pub record HasIds (segment : SnapshotSegment) : Type 0 where
  pub documents : All (λ d. HasBytes d.id) segment.documents
  pub tombstones : All HasBytes segment.tombstones

tombstones-HasId :
    (s : ℕ) (ids : List BytesView) → All HasBytes ids → All HasId (tombstone_records s ids)
unfolding tombstone_records
tombstones-HasId s [] h = tt
tombstones-HasId s (id ∷ rest) h = (h.0, tombstones-HasId s rest h.1)

documents-HasId :
    (s i : ℕ) (ds : List DocumentView)
    → All (λ d. HasBytes d.id) ds
    → All HasId (document_records s i ds)
unfolding document_records
documents-HasId s i [] h = tt
documents-HasId s i (d ∷ rest) h = (h.0, documents-HasId s (i + 1) rest h.1)

records-HasId :
    (s : ℕ) (segments : List SnapshotSegment)
    → All HasIds segments
    → All HasId (segment_records s segments)
unfolding segment_records
records-HasId s [] h = tt
records-HasId s (segment ∷ rest) h =
    All-append HasId (tombstone_records s segment.tombstones) _
      (tombstones-HasId s segment.tombstones h.0.tombstones)
      (All-append HasId (document_records s 0 segment.documents) _
        (documents-HasId s 0 segment.documents h.0.documents) (records-HasId (s + 1) rest h.1))

length-tombstones : (s : ℕ) (ids : List BytesView) → length (tombstone_records s ids) ≡ length ids
unfolding tombstone_records
length-tombstones s [] = refl
length-tombstones s (id ∷ rest) = ap suc (length-tombstones s rest)

length-documents : (s i : ℕ) (ds : List DocumentView) → length (document_records s i ds) ≡ length ds
unfolding document_records
length-documents s i [] = refl
length-documents s i (d ∷ rest) = ap suc (length-documents s (i + 1) rest)

length-records :
    (s : ℕ) (segments : List SnapshotSegment)
    → length (segment_records s segments) ≡ record_total segments
unfolding segment_records record_total
length-records s [] = refl
length-records s (segment ∷ rest) = omega (
  arith,
  length-append (tombstone_records s segment.tombstones)
      (document_records s 0 segment.documents ++ segment_records (s + 1) rest),
  length-append (document_records s 0 segment.documents) (segment_records (s + 1) rest),
  length-tombstones s segment.tombstones,
  length-documents s 0 segment.documents,
  length-records (s + 1) rest,
)

count_records_lem :
    (n : ℕ) (segments : List SnapshotSegment)
    → n + record_total segments < 2 ^ 64
    → count_records n segments ≡ done (n + record_total segments)
unfolding count_records record_total
count_records_lem n [] small = ap done (omega arith)
count_records_lem n (segment ∷ rest) small =
    ground
      (arith, count_records_lem (n + length segment.documents + length segment.tombstones) rest)

counted :
    (segments : List SnapshotSegment)
    → record_total segments ≤ 2 ^ 62
    → count_records 0 segments ≡ done (record_total segments)
counted segments small =
    let nothing : 0 + record_total segments ≡ record_total segments = omega arith in
    rw nothing at (count_records_lem 0 segments (omega arith))

build_table_lem :
    (segments : List SnapshotSegment) (n k : ℕ) (table : Table)
    → n ≤ 2 ^ 62
    → capacity_for (n * 2) ≡ done (2 ^ k)
    → put_all (2 ^ k) (segment_records 0 segments) (replicate (2 ^ k) none) ≡ done table
    → build_table true segments n ≡ done (2 ^ k, table)
unfolding build_table
build_table_lem segments n k table small sized filled =
    let within : ltb (size_max / 2) n ≡ false = not_above n small in
    let entered = put_segments_all (2 ^ k) 0 segments (replicate (2 ^ k) none) ∙ filled in
    rw (within, sized, entered) refl
  where
    not_above : (n : ℕ) → n ≤ 2 ^ 62 → ltb (size_max / 2) n ≡ false
    not_above n h = ground arith

no_records : (rs : List VisibilityEntry) → length rs ≡ 0 → rs ≡ []
no_records [] h = refl
no_records (r ∷ rs) h = absurd (omega arith)

-- For segments whose ids are there, with 2^62 records at most and memory granted, the table is built,
-- and a look-up of an id answers the record of that id that was entered last: the segments in order,
-- in each the tombstones before the documents.
pub build_visibility-last_record :
    (segments : List SnapshotSegment)
    → All HasIds segments
    → record_total segments ≤ 2 ^ 62
    → (capacity : ℕ) × (table : Table) × (build_visibility true segments ≡ done (capacity, table))
      × ((id : BytesView)
          → HasBytes id
          → visibility_lookup capacity table id
            ≡ last_record (segment_records 0 segments) (content id))
unfolding build_visibility
build_visibility-last_record segments has small = elim (Bool-cases (record_total segments == 0)) [
  | inl nothing ↦
      let empty =
        no_records (segment_records 0 segments)
          (ground (arith, length-records 0 segments, nothing)) in
      (
        0,
        [],
        rw (counted segments small, nothing) refl,
        λ id h. rw empty (unfold visibility_lookup last_record in refl),
      )
  | inr something ↦
      let (k, sized, large) = capacity_for_lem (record_total segments * 2) (omega arith) in
      let (table, filled_by, filled) =
        put_all-IsFilled k (segment_records 0 segments) [] (replicate (2 ^ k) none)
          (empty-IsFilled k) (records-HasId 0 segments has)
          (ground (arith, length-records 0 segments, something, large)) in
      (
        2 ^ k,
        table,
        rw (counted segments small, something)
            (build_table_lem segments (record_total segments) k table small sized filled_by),
        filled.answers,
      )
]

-- A document is visible in a segment of the snapshot exactly when a look-up of its id hits that segment.
pub document_visible_iff :
    (snapshot : Visible) (s : ℕ) (id : BytesView)
    → (document_visible snapshot s id ≡ true) ↔ (
        (s < length snapshot.segments)
        × (hit : DocumentHit) × (lookup_document snapshot id ≡ done hit)
        × (hit.segment_ordinal ≡ s))
unfolding document_visible lookup_document
document_visible_iff snapshot s id =
    elim (Option-cases (visibility_lookup snapshot.visibility_capacity snapshot.visibility id)) [
      | inl missing ↦ (
        λ h. absurd (ground (arith, h, missing)),
        λ (lt, hit, found, at). absurd (ground (arith, missing, found)),
      )
      | inr (entry, met) ↦ elim (Option-cases entry.document) [
        | inl tombstone ↦ (
          λ h. absurd (ground (arith, h, met, tombstone)),
          λ (lt, hit, found, at). absurd (ground (arith, met, tombstone, found)),
        )
        | inr (d, shown) ↦ (
          λ h. (
            ground (arith, h),
            record {
              segment_ordinal = entry.segment_ordinal;
              document_ordinal = entry.document_ordinal;
              document = d;
            },
            ground (arith, h, met, shown),
            ground (arith, h, met, shown),
          ),
          λ (lt, hit, found, at). ground (arith, lt, found, at, met, shown),
        )
      ]
    ]
