-- ===== src/Snapshot/Filling.antt =====
-- Entering one record into a table that has an empty slot.
use yappod.Prelude.{
  ℕ, zero, suc, ◌+◌, ◌^◌, ◌≤◌, ◌<◌, ◌≡◌, ◌≢◌, inl, inr, refl, sym, ap, ◌∙◌, true, false, Option,
  none, some, arith, length, get_or, set, Bool-cases, get_or-set_self, get_or-set_ne, length-set,
}
use yappod.Prelude.Masks.{pow_pos}
use yappod.Types.{BytesView, content}
use yappod.Storage.Slots.{segment_hash}
use yappod.Storage.Slots.Index.{next_slot_lem}
use yappod.Types.Views.{HasBytes}
use yappod.Snapshot.{VisibilityEntry, Table, bytes_equal, lookup_from}
use yappod.Snapshot.Probing.{
  bytes_equal_iff, place, place_differs, free, match, other, slot-Seen, IsTable, Target,
}
use native.Mathlib.Decide.{ℕ_discrete}
use native.Mathlib.Nat.{mod-lt}

same_entry :
    (e e' : VisibilityEntry) (o : Option VisibilityEntry) → o ≡ some e → o ≡ some e' → e ≡ e'
same_entry e e' o h h' =
    ap (λ (x : Option VisibilityEntry). elim x [ none ↦ e | some y ↦ y ]) (sym h ∙ h')

module _ (k : ℕ) (table : Table) (entry : VisibilityEntry) (is_table : IsTable k table)
    (has : HasBytes entry.id) (t : Target k table entry.id) where
  abbrev pub index : ℕ
  index = place k entry.id t.steps

  abbrev table' : Table
  table' = set table index (some entry)

  index-lt : index < length table
  index-lt = rw is_table.sized (mod-lt (segment_hash (content entry.id) + t.steps) (pow_pos k))

  at_index : get_or table' index none ≡ some entry
  at_index = get_or-set_self table index (some entry) none index-lt

  elsewhere : (s : ℕ) → index ≢ s → get_or table' s none ≡ get_or table s none
  elsewhere s h = get_or-set_ne table index s (some entry) none h

  -- A record of another id is not where the record goes.
  apart :
      (s : ℕ) (e : VisibilityEntry)
      → get_or table s none ≡ some e
      → bytes_equal e.id entry.id ≡ false
      → index ≢ s
  apart s e here differs same = elim t.fits [
    | inl vacant ↦ ground (arith, rw same at vacant, here)
    | inr (e', there, matches) ↦
        let there' : get_or table s none ≡ some e' = rw (← same) there in
        let one = same_entry e e' _ here there' in ground (arith, rw one at differs, matches)
  ]

  self : bytes_equal entry.id entry.id ≡ true
  self = (bytes_equal_iff entry.id entry.id has has).1 refl

  -- The walk for the id of the record ends at the record.
  pub lookup_same :
      (rounds d : ℕ)
      → d ≤ t.steps
      → t.steps < d + rounds
      → lookup_from (2 ^ k) table' entry.id rounds (place k entry.id d) ≡ some entry
  unfolding lookup_from
  lookup_same zero d low high = absurd (omega arith)
  lookup_same (suc rounds) d low high = elim (ℕ_discrete d t.steps) [
    | yes same ↦ rw (same, at_index, lookup_from, self) refl
    | no before ↦
        let (e, here, differs) = t.passed d (omega arith) in
        let kept = elsewhere (place k entry.id d) (apart (place k entry.id d) e here differs) in
        rw (kept, here, lookup_from, differs, next_slot_lem k (content entry.id) d)
          (lookup_same rounds (d + 1) (omega arith) (omega arith))
  ]

  occupied : (s : ℕ) → get_or table s none ≢ none → get_or table' s none ≢ none
  occupied s h = elim (ℕ_discrete index s) [
    | yes same ↦ rw (← same, at_index) (ground arith)
    | no apart_from ↦ rw (elsewhere s apart_from) h
  ]

  module _ (id : BytesView) (has_id : HasBytes id) (other_id : content entry.id ≢ content id) where
    entry_differs : bytes_equal entry.id id ≡ false
    entry_differs = elim (Bool-cases (bytes_equal entry.id id)) [
      | inl same ↦ absurd (other_id ((bytes_equal_iff entry.id id has has_id).0 same))
      | inr differs ↦ differs
    ]

    -- Behind a gap of the old table the walk for another id finds nothing.
    lookup_behind :
        (m : ℕ)
        → get_or table (place k id m) none ≡ none
        → (rounds d : ℕ) → m < d
        → d + rounds ≡ 2 ^ k
        → lookup_from (2 ^ k) table' id rounds (place k id d) ≡ none
    unfolding lookup_from
    lookup_behind m gap zero d low total = refl
    lookup_behind m gap (suc rounds) d low total = elim (ℕ_discrete index (place k id d)) [
      | yes same ↦
          rw (← same, at_index, lookup_from, entry_differs, next_slot_lem k (content id) d)
            (lookup_behind m gap rounds (d + 1) (omega arith) (omega arith))
      | no apart_from ↦
          let kept = elsewhere (place k id d) apart_from in
          elim (slot-Seen id (get_or table (place k id d) none)) [
            | free vacant ↦ rw (kept ∙ vacant, lookup_from) refl
            | match e here same ↦
                let one : content e.id ≡ content id =
                  (bytes_equal_iff e.id id (is_table.there _ e here) has_id).0 same in
                absurd (is_table.reached e d m (omega arith) (rw one here) low (rw one gap))
            | other e here differs ↦
                rw (kept ∙ here, lookup_from, differs, next_slot_lem k (content id) d)
                  (lookup_behind m gap rounds (d + 1) (omega arith) (omega arith))
          ]
    ]

    others :
        (e : VisibilityEntry) (s : ℕ)
        → get_or table s none ≡ some e
        → bytes_equal e.id entry.id ≡ true
        → bytes_equal e.id id ≡ false
    others e s here matches = elim (Bool-cases (bytes_equal e.id id)) [
      | inl same ↦
          let has_e = is_table.there s e here in
          absurd (
            other_id (
              sym ((bytes_equal_iff e.id entry.id has_e has).0 matches)
              ∙ (bytes_equal_iff e.id id has_e has_id).0 same))
      | inr differs ↦ differs
    ]

    -- The walk for another id answers what it answered.
    pub lookup_other :
        (rounds d : ℕ)
        → d + rounds ≡ 2 ^ k
        → lookup_from (2 ^ k) table' id rounds (place k id d)
          ≡ lookup_from (2 ^ k) table id rounds (place k id d)
    unfolding lookup_from
    lookup_other zero d total = refl
    lookup_other (suc rounds) d total = elim (ℕ_discrete index (place k id d)) [
      | yes same ↦
          let here' : get_or table' (place k id d) none ≡ some entry = rw (← same) at_index in
          rw (here', lookup_from, entry_differs, next_slot_lem k (content id) d)
            (elim t.fits [
              | inl vacant ↦
                  let gap : get_or table (place k id d) none ≡ none = rw (← same) vacant in
                  rw (gap, lookup_from)
                    (lookup_behind d gap rounds (d + 1) (omega arith) (omega arith))
              | inr (e, there, matches) ↦
                  let here : get_or table (place k id d) none ≡ some e = rw (← same) there in
                  rw
                    (
                      here,
                      lookup_from,
                      others e (place k id d) here matches,
                      next_slot_lem k (content id) d,
                    )
                    (lookup_other rounds (d + 1) (omega arith))
            ])
      | no apart_from ↦
          let kept = elsewhere (place k id d) apart_from in
          elim (slot-Seen id (get_or table (place k id d) none)) [
            | free vacant ↦ rw (kept ∙ vacant, vacant, lookup_from) refl
            | match e here same ↦ rw (kept ∙ here, here, lookup_from, same) refl
            | other e here differs ↦
                rw (kept ∙ here, here, lookup_from, differs, next_slot_lem k (content id) d)
                  (lookup_other rounds (d + 1) (omega arith))
          ]
    ]

  there' : (s : ℕ) (e : VisibilityEntry) → get_or table' s none ≡ some e → HasBytes e.id
  there' s e here = elim (ℕ_discrete index s) [
    | yes same ↦
        let there : get_or table' s none ≡ some entry = rw (← same) at_index in
        rw (same_entry entry e _ there here) at has
    | no apart_from ↦ is_table.there s e (rw (elsewhere s apart_from) at here)
  ]

  reached' :
      (e : VisibilityEntry) (d d' : ℕ)
      → d < 2 ^ k
      → get_or table' (place k e.id d) none ≡ some e
      → d' < d
      → get_or table' (place k e.id d') none ≢ none
  reached' e d d' near here lt = elim (ℕ_discrete index (place k e.id d)) [
    | yes same ↦
        let there : get_or table' (place k e.id d) none ≡ some entry = rw (← same) at_index in
        let one : entry ≡ e = same_entry entry e _ there here in
        let steps : t.steps ≡ d =
          place_differs k entry.id t.steps d t.near near (rw (← one) at same) in
        let (x, taken, _) = t.passed d' (omega arith) in
        rw (← one) (occupied (place k entry.id d') (rw taken (ground arith)))
    | no apart_from ↦
        occupied (place k e.id d')
          (is_table.reached e d d' near (rw (elsewhere _ apart_from) at here) lt)
  ]

  pub put-IsTable : IsTable k table'
  put-IsTable = record {
    sized = length-set table index (some entry) ∙ is_table.sized;
    there = there';
    reached = reached';
  }
