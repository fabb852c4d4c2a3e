-- ===== src/Snapshot.antt =====
-- The visibility of documents in a search snapshot (src/storage/yappo_snapshot_v2.c): a hash table from
-- the ids of documents and tombstones to the record of the id that was entered last. A table is a list
-- of slots, `none` for one that is not occupied. A document is shown for the pointer to it. The hash is
-- the loop of `manifest_segment_hash`, on the bytes of the id.
pub mod Probing
pub mod Filling
pub mod Records
pub mod Visibility
pub mod Answers
pub mod Manager
use yappod.Prelude.{
  ℕ, zero, suc, ◌+◌, ◌-◌, ◌*◌, ◌/◌, Bool, true, false, not, ◌&&◌, ◌||◌, Option, none, some, List,
  [], ◌∷◌, ltb, ◌==◌, if◌then◌else◌, length, get_or, set, replicate, bit_and,
}
use yappod.Prelude.Bytes.{bytes_eq}
use yappod.Types.{
  BytesView, is_null, content, DocumentView, invalid_argument, out_of_range, allocation_failed,
  conflict, not_found, Result, done, fail, ◌>>=◌, ◌>>◌, reject_if,
}
use yappod.Storage.Slots.{size_max, segment_hash, capacity_for, next_slot}

-- What `YAP_V2_segment_read` and `YAP_V2_tombstones_read` give for one segment.
pub record SnapshotSegment : Type 0 where
  pub documents : List DocumentView
  pub tombstones : List BytesView

-- `VISIBILITY_ENTRY` of an occupied slot; `document` is `none` for a tombstone.
pub record VisibilityEntry : Type 0 where
  pub id : BytesView
  pub segment_ordinal : ℕ
  pub document_ordinal : ℕ
  pub document : Option DocumentView

abbrev pub Table : Type 0
Table = List (Option VisibilityEntry)

pub bytes_equal : BytesView → BytesView → Bool
bytes_equal left right =
    left.len == right.len
    && not (is_null left)
    && not (is_null right)
    && bytes_eq (content left) (content right)

abbrev pub bytes_hash : BytesView → ℕ
bytes_hash value = segment_hash (content value)

module _ (capacity : ℕ) (table : Table) (id : BytesView) where
  -- The index that `visibility_entry` answers: an empty slot, or the one with the id.
  unfoldable pub entry_from : ℕ → ℕ → Option ℕ
  entry_from zero index = none
  entry_from (suc probes) index =
      let further = entry_from probes (next_slot capacity index) in
      elim (get_or table index none) [
        | none ↦ some index
        | some entry ↦ if bytes_equal entry.id id then some index else further
      ]

  unfoldable pub lookup_from : ℕ → ℕ → Option VisibilityEntry
  lookup_from zero index = none
  lookup_from (suc probes) index =
      let further = lookup_from probes (next_slot capacity index) in
      elim (get_or table index none) [
        | none ↦ none
        | some entry ↦ if bytes_equal entry.id id then some entry else further
      ]

  unfoldable pub visibility_entry : Option ℕ
  visibility_entry =
      if capacity == 0 then none else entry_from capacity (bit_and (bytes_hash id) (capacity - 1))

  unfoldable pub visibility_lookup : Option VisibilityEntry
  visibility_lookup =
      if capacity == 0 then none else lookup_from capacity (bit_and (bytes_hash id) (capacity - 1))

-- The body of both loops: the slot of the id takes the record.
unfoldable pub put_entry : ℕ → VisibilityEntry → Table → Result Table
put_entry capacity entry table = elim (visibility_entry capacity table entry.id) [
  | none ↦ fail conflict
  | some index ↦ done (set table index (some entry))
]

abbrev pub tombstone_entry : ℕ → BytesView → VisibilityEntry
tombstone_entry s id = record {
  id = id;
  segment_ordinal = s;
  document_ordinal = size_max;
  document = none;
}

abbrev pub document_entry : ℕ → ℕ → DocumentView → VisibilityEntry
document_entry s i document = record {
  id = document.id;
  segment_ordinal = s;
  document_ordinal = i;
  document = some document;
}

unfoldable pub put_tombstones : ℕ → ℕ → List BytesView → Table → Result Table
put_tombstones capacity s [] table = done table
put_tombstones capacity s (id ∷ rest) table =
    put_entry capacity (tombstone_entry s id) table >>= put_tombstones capacity s rest

-- The loop over the documents, on those that are left, from the one at `i`.
unfoldable pub put_documents : ℕ → ℕ → ℕ → List DocumentView → Table → Result Table
put_documents capacity s i [] table = done table
put_documents capacity s i (document ∷ rest) table =
    put_entry capacity (document_entry s i document) table >>= put_documents capacity s (i + 1) rest

unfoldable pub put_segments : ℕ → ℕ → List SnapshotSegment → Table → Result Table
put_segments capacity s [] table = done table
put_segments capacity s (segment ∷ rest) table = do
  table ← put_tombstones capacity s segment.tombstones table
  table ← put_documents capacity s 0 segment.documents table
  put_segments capacity (s + 1) rest table

-- The number of records, added up from `record_count`.
unfoldable pub count_records : ℕ → List SnapshotSegment → Result ℕ
count_records record_count [] = done record_count
count_records record_count (segment ∷ rest) = do
  reject_if (ltb (size_max - record_count) (length segment.documents)) out_of_range
  let record_count = record_count + length segment.documents
  reject_if (ltb (size_max - record_count) (length segment.tombstones)) out_of_range
  count_records (record_count + length segment.tombstones) rest

-- The capacity and the table. `granted` is what `calloc` answers.
unfoldable pub build_table : Bool → List SnapshotSegment → ℕ → Result (ℕ × Table)
build_table granted segments record_count = do
  reject_if (ltb (size_max / 2) record_count) out_of_range
  capacity ← capacity_for (record_count * 2)
  reject_if (not granted) allocation_failed
  table ← put_segments capacity 0 segments (replicate capacity none)
  done (capacity, table)

unfoldable pub build_visibility : Bool → List SnapshotSegment → Result (ℕ × Table)
build_visibility granted segments = do
  record_count ← count_records 0 segments
  if record_count == 0 then done (0, []) else build_table granted segments record_count

-- `YAP_V2_DOCUMENT_HIT`
pub record DocumentHit : Type 0 where
  pub segment_ordinal : ℕ
  pub document_ordinal : ℕ
  pub document : DocumentView

-- The part of a snapshot that the two questions read.
pub record Visible : Type 0 where
  pub segments : List SnapshotSegment
  pub visibility_capacity : ℕ
  pub visibility : Table

abbrev pub no_id : BytesView → Bool
no_id id = is_null id || id.len == 0

unfoldable pub document_visible : Visible → ℕ → BytesView → Bool
document_visible snapshot segment_ordinal id =
    if not (ltb segment_ordinal (length snapshot.segments)) || no_id id
    then false
    else elim (visibility_lookup snapshot.visibility_capacity snapshot.visibility id) [
      | none ↦ false
      | some entry ↦ (elim entry.document [
        | none ↦ false
        | some d ↦ entry.segment_ordinal == segment_ordinal
      ])
    ]

abbrev pub hit_of : VisibilityEntry → Option DocumentView → Result DocumentHit
hit_of entry none = fail not_found
hit_of entry (some document) = done (record {
  segment_ordinal = entry.segment_ordinal;
  document_ordinal = entry.document_ordinal;
  document = document;
})

unfoldable pub lookup_document : Visible → BytesView → Result DocumentHit
lookup_document snapshot id =
    if no_id id
    then fail invalid_argument
    else elim (visibility_lookup snapshot.visibility_capacity snapshot.visibility id) [
      | none ↦ fail not_found
      | some entry ↦ hit_of entry entry.document
    ]
