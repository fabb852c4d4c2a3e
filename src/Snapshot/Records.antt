-- ===== src/Snapshot/Records.antt =====
-- The table after a list of records: a look-up answers the last record of the id.
use yappod.Prelude.{
  ℕ, zero, suc, ◌+◌, ◌-◌, ◌^◌, ◌≤◌, ◌<◌, ◌≡◌, ◌≢◌, inl, inr, refl, sym, ap, ◌∙◌, true, false,
  Option, none, some, List, [], ◌∷◌, ◌++◌, arith, ◌==◌, if◌then◌else◌, length, get_or, set,
  replicate, Bool-cases, get_or-replicate, length-replicate, length-append, bit_and,
}
use yappod.Prelude.Bytes.{bytes_eq, bytes_eq→eq, bytes_eq_refl}
use yappod.Prelude.Masks.{pow_pos}
use yappod.Types.{BytesView, content, done}
use yappod.Storage.Slots.{segment_hash}
use yappod.Storage.Slots.Index.{start_slot_lem}
use yappod.Storage.Slots.Insert.{distance}
use yappod.Types.Views.{HasBytes, view_eq}
use yappod.Snapshot.{
  VisibilityEntry, Table, entry_from, lookup_from, visibility_entry, visibility_lookup, put_entry,
}
use yappod.Snapshot.Probing.{place, IsTable, Target, entry_from-Target}
use yappod.Snapshot.Filling.{lookup_same, lookup_other, put-IsTable}

-- Of the records, in the order in which they are entered, the last one of the id.
unfoldable pub last_record : List VisibilityEntry → List ℕ → Option VisibilityEntry
last_record [] id = none
last_record (entry ∷ rest) id = elim (last_record rest id) [
  | none ↦ if bytes_eq (content entry.id) id then some entry else none
  | some later ↦ some later
]

last_record-snoc :
    (rs : List VisibilityEntry) (e : VisibilityEntry) (id : List ℕ)
    → last_record (rs ++ e ∷ []) id
      ≡ (if bytes_eq (content e.id) id then some e else last_record rs id)
unfolding last_record
last_record-snoc [] e id = refl
last_record-snoc (r ∷ rs) e id = elim (Bool-cases (bytes_eq (content e.id) id)) [
  | inl same ↦ rw (last_record-snoc rs e id, same) refl
  | inr differs ↦ rw (last_record-snoc rs e id, differs) refl
]

unfoldable pub free_slots : Table → ℕ
free_slots [] = 0
free_slots (none ∷ rest) = suc (free_slots rest)
free_slots (some e ∷ rest) = free_slots rest

free_slots-replicate : (n : ℕ) → free_slots (replicate n none) ≡ n
unfolding free_slots
free_slots-replicate zero = refl
free_slots-replicate (suc n) = ap suc (free_slots-replicate n)

free_exists :
    (table : Table)
    → 0 < free_slots table
    → (z : ℕ) × (z < length table) × (get_or table z none ≡ none)
unfolding free_slots
free_exists [] h = absurd (omega arith)
free_exists (none ∷ rest) h = (0, omega arith, refl)
free_exists (some e ∷ rest) h = let (z, lt, free) = free_exists rest h in (suc z, omega arith, free)

free_slots-set :
    (table : Table) (s : ℕ) (e : VisibilityEntry)
    → free_slots table ≤ free_slots (set table s (some e)) + 1
unfolding free_slots
free_slots-set [] s e = omega arith
free_slots-set (none ∷ rest) zero e = omega arith
free_slots-set (some x ∷ rest) zero e = omega arith
free_slots-set (none ∷ rest) (suc s) e = omega (arith, free_slots-set rest s e)
free_slots-set (some x ∷ rest) (suc s) e = omega (arith, free_slots-set rest s e)

-- A table of capacity `2 ^ k` after the records.
pub record IsFilled (k : ℕ) (table : Table) (records : List VisibilityEntry) : Type 0 where
  pub well_formed : IsTable k table
  pub room : 2 ^ k ≤ free_slots table + length records
  pub answers :
      (id : BytesView)
      → HasBytes id
      → visibility_lookup (2 ^ k) table id ≡ last_record records (content id)

start : (k : ℕ) (id : BytesView) → bit_and (segment_hash (content id)) (2 ^ k - 1) ≡ place k id 0
start k id = start_slot_lem k (content id)

nonzero_capacity : (k : ℕ) → (2 ^ k == 0) ≡ false
nonzero_capacity k = ground (arith, pow_pos k)

lookup_start :
    (k : ℕ) (table : Table) (id : BytesView)
    → visibility_lookup (2 ^ k) table id ≡ lookup_from (2 ^ k) table id (2 ^ k) (place k id 0)
unfolding visibility_lookup
lookup_start k table id = rw (nonzero_capacity k, start k id) refl

entry_start :
    (k : ℕ) (table : Table) (id : BytesView)
    → visibility_entry (2 ^ k) table id ≡ entry_from (2 ^ k) table id (2 ^ k) (place k id 0)
unfolding visibility_entry
entry_start k table id = rw (nonzero_capacity k, start k id) refl

empty_lookup :
    (c n : ℕ) (id : BytesView) (rounds index : ℕ)
    → lookup_from c (replicate n none) id rounds index ≡ none
unfolding lookup_from
empty_lookup c n id zero index = refl
empty_lookup c n id (suc rounds) index =
    rw (get_or-replicate {A = Option VisibilityEntry} n index none, lookup_from) refl

pub empty-IsFilled : (k : ℕ) → IsFilled k (replicate (2 ^ k) none) []
empty-IsFilled k = record {
  well_formed = record {
    sized = length-replicate (2 ^ k) none;
    there = λ s e here.
        absurd (ground (arith, here, get_or-replicate {A = Option VisibilityEntry} (2 ^ k) s none));
    reached = λ e d d' near here lt. absurd (
        ground (
          arith,
          here,
          get_or-replicate {A = Option VisibilityEntry} (2 ^ k) (place k e.id d) none,
        ));
  };
  room = omega (arith, free_slots-replicate (2 ^ k));
  answers = λ id has.
      unfold last_record in lookup_start k _ id ∙ empty_lookup (2 ^ k) (2 ^ k) id (2 ^ k) _;
}

module _ (k : ℕ) (table : Table) (records : List VisibilityEntry) (entry : VisibilityEntry)
    (filled : IsFilled k table records) (has : HasBytes entry.id)
    (roomy : length records < 2 ^ k) where
  target :
      (t : Target k table entry.id) × (visibility_entry (2 ^ k) table entry.id
        ≡ some (place k entry.id t.steps))
  target =
      let (z, lt, free) = free_exists table (omega (arith, filled.room)) in
      let (m, near, there) =
        distance (segment_hash (content entry.id)) z (2 ^ k) (rw (← filled.well_formed.sized) lt) in
      let gap : get_or table (place k entry.id m) none ≡ none = rw there free in
      rw (entry_start k table entry.id) (
        entry_from-Target k table entry.id m near gap (2 ^ k) 0 (omega arith) (omega arith)
          (λ d h. absurd (omega arith)))

  answers' :
      (t : Target k table entry.id) (id : BytesView)
      → HasBytes id
      → visibility_lookup (2 ^ k) (set table (place k entry.id t.steps) (some entry)) id
        ≡ last_record (records ++ entry ∷ []) (content id)
  answers' t id has_id = elim (Bool-cases (bytes_eq (content entry.id) (content id))) [
    | inl same ↦
        let one : entry.id ≡ id =
          view_eq entry.id id has has_id (bytes_eq→eq (content entry.id) (content id) same) in
        rw (last_record-snoc records entry (content id), same, ← one)
          (lookup_start k _ entry.id
            ∙ lookup_same k table entry filled.well_formed has t (2 ^ k) 0 (omega arith)
                (omega (arith, t.near)))
    | inr differs ↦
        let apart : content entry.id ≢ content id = λ e.
          (let reflexive : bytes_eq (content entry.id) (content id) ≡ true =
              rw e (bytes_eq_refl (content id)) in
            ground (arith, differs, reflexive)) in
        rw (last_record-snoc records entry (content id), differs)
          (lookup_start k _ id
            ∙ lookup_other k table entry filled.well_formed has t id has_id apart (2 ^ k) 0
                (omega arith)
            ∙ sym (lookup_start k table id)
            ∙ filled.answers id has_id)
  ]

  pub put_entry-IsFilled :
      (table' : Table) × (put_entry (2 ^ k) entry table ≡ done table')
      × IsFilled k table' (records ++ entry ∷ [])
  unfolding put_entry
  put_entry-IsFilled =
      let (t, found) = target in
      (
        set table (place k entry.id t.steps) (some entry),
        rw (found, put_entry) refl,
        record {
          well_formed = put-IsTable k table entry filled.well_formed has t;
          room = omega (
            arith,
            filled.room,
            free_slots-set table (place k entry.id t.steps) entry,
            length-append records (entry ∷ []),
          );
          answers = answers' t;
        },
      )
