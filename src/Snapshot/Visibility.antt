-- ===== src/Snapshot/Visibility.antt =====
-- The table of a snapshot against the list of its records: what is visible, and where.
use yappod.Prelude.{
  ℕ, ◌+◌, ◌^◌, ◌<◌, ◌≡◌, refl, sym, ◌∙◌, List, [], ◌∷◌, ◌++◌, arith, length, All, append-nil,
  append_assoc, length-append,
}
use yappod.Types.{BytesView, DocumentView, Result, done, fail, ◌>>=◌}
use yappod.Types.Views.{HasBytes}
use yappod.Snapshot.{
  SnapshotSegment, VisibilityEntry, Table, tombstone_entry, document_entry, put_entry,
  put_tombstones, put_documents, put_segments,
}
use yappod.Snapshot.Records.{IsFilled, put_entry-IsFilled}

unfoldable pub put_all : ℕ → List VisibilityEntry → Table → Result Table
put_all capacity [] table = done table
put_all capacity (entry ∷ rest) table = put_entry capacity entry table >>= put_all capacity rest

bind_assoc :
    {A B C : Type 0} (r : Result A) (f : A → Result B) (g : B → Result C)
    → ((r >>= f) >>= g) ≡ (r >>= λ a. f a >>= g)
bind_assoc (done a) f g = refl
bind_assoc (fail s) f g = refl

bind_cong :
    {A B : Type 0} (r : Result A) (f g : A → Result B)
    → ((a : A) → f a ≡ g a)
    → (r >>= f) ≡ (r >>= g)
bind_cong (done a) f g h = h a
bind_cong (fail s) f g h = refl

put_all-append :
    (c : ℕ) (xs ys : List VisibilityEntry) (table : Table)
    → put_all c (xs ++ ys) table ≡ (put_all c xs table >>= put_all c ys)
unfolding put_all
put_all-append c [] ys table = refl
put_all-append c (x ∷ xs) ys table =
    bind_cong (put_entry c x table) _ _ (put_all-append c xs ys)
    ∙ sym (bind_assoc (put_entry c x table) (put_all c xs) (put_all c ys))

-- The records of a segment: its tombstones, then its documents.
unfoldable pub tombstone_records : ℕ → List BytesView → List VisibilityEntry
tombstone_records s [] = []
tombstone_records s (id ∷ rest) = tombstone_entry s id ∷ tombstone_records s rest

unfoldable pub document_records : ℕ → ℕ → List DocumentView → List VisibilityEntry
document_records s i [] = []
document_records s i (document ∷ rest) =
    document_entry s i document ∷ document_records s (i + 1) rest

-- The records of the segments from the one at `s`, in the order of the manifest.
unfoldable pub segment_records : ℕ → List SnapshotSegment → List VisibilityEntry
segment_records s [] = []
segment_records s (segment ∷ rest) =
    tombstone_records s segment.tombstones
    ++ (document_records s 0 segment.documents ++ segment_records (s + 1) rest)

put_tombstones_all :
    (c s : ℕ) (ids : List BytesView) (table : Table)
    → put_tombstones c s ids table ≡ put_all c (tombstone_records s ids) table
unfolding put_tombstones put_all tombstone_records
put_tombstones_all c s [] table = refl
put_tombstones_all c s (id ∷ rest) table =
    bind_cong (put_entry c (tombstone_entry s id) table) _ _ (put_tombstones_all c s rest)

put_documents_all :
    (c s i : ℕ) (documents : List DocumentView) (table : Table)
    → put_documents c s i documents table ≡ put_all c (document_records s i documents) table
unfolding put_documents put_all document_records
put_documents_all c s i [] table = refl
put_documents_all c s i (d ∷ rest) table =
    bind_cong (put_entry c (document_entry s i d) table) _ _ (put_documents_all c s (i + 1) rest)

pub put_segments_all :
    (c s : ℕ) (segments : List SnapshotSegment) (table : Table)
    → put_segments c s segments table ≡ put_all c (segment_records s segments) table
unfolding put_segments segment_records
put_segments_all c s [] table = unfold put_all in refl
put_segments_all c s (segment ∷ rest) table = rw (put_tombstones_all c s segment.tombstones table) (
    bind_cong (put_all c (tombstone_records s segment.tombstones) table) _ _ (λ t.
      rw (put_documents_all c s 0 segment.documents t) (
        bind_cong (put_all c (document_records s 0 segment.documents) t) _ _
          (put_segments_all c (s + 1) rest)
        ∙ sym (
            put_all-append c (document_records s 0 segment.documents) (segment_records (s + 1) rest)
              t)))
    ∙ sym (put_all-append c (tombstone_records s segment.tombstones) _ table))

abbrev pub HasId : VisibilityEntry → Type 0
HasId e = HasBytes e.id

pub put_all-IsFilled :
    (k : ℕ) (es records : List VisibilityEntry) (table : Table)
    → IsFilled k table records
    → All HasId es
    → length records + length es < 2 ^ k
    → (table' : Table) × (put_all (2 ^ k) es table ≡ done table')
      × IsFilled k table' (records ++ es)
unfolding put_all
put_all-IsFilled k [] records table filled has roomy = (table, refl, rw append-nil filled)
put_all-IsFilled k (e ∷ es) records table filled has roomy =
    let (t, entered, filled') = put_entry-IsFilled k table records e filled has.0 (omega arith) in
    let (t', rest, filled'') =
      put_all-IsFilled k es (records ++ e ∷ []) t filled' has.1
        (omega (arith, length-append records (e ∷ []))) in
    (t', rw entered rest, rw (append_assoc records (e ∷ []) es) at filled'')

-- The number of records, as the code adds it up.
unfoldable pub record_total : List SnapshotSegment → ℕ
record_total [] = 0
record_total (segment ∷ rest) =
    length segment.documents + length segment.tombstones + record_total rest
