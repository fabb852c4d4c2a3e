-- ===== src/Storage/Manifest/Adding.antt =====
-- `add_segment` against its contract: a list of segments with distinct ids that grows at the end.
use yappod.Prelude.{
  ℕ, suc, ◌+◌, ◌*◌, ◌^◌, ◌≤◌, ◌<◌, ◌≡◌, ◌≢◌, ◌⊎◌, inl, inr, refl, sym, ap, ◌∙◌, Bool, true, false,
  ◌&&◌, not, List, [], ◌∷◌, ◌++◌, arith, leb, ◌==◌, if◌then◌else◌, length, get_or, set, Bool-cases,
  length-append, get_or-append_left, get_or-append_last,
}
use yappod.Types.{Status, ok, duplicate, out_of_range, allocation_failed, done, fail, is_ok}
use yappod.Storage.Descriptor.{Segment, segment_id_validate}
use yappod.Storage.Manifest.{
  Manifest, ids, max_segments, slots_rebuild, segments_reserve, grown_capacity, segment_append,
  slots_append, add_indexed, needs_rebuild, add_segment,
}
use yappod.Storage.Slots.{build, free_slot, start_slot, vacant}
use yappod.Storage.Slots.Index.{IsIndex, slot_at}
use yappod.Storage.Slots.Insert.{vacancy, extended}
use yappod.Storage.Slots.Build.{HasClash, build-Entered}
use yappod.Storage.Manifest.Indexed.{
  IsIndexed, unindexed, indexed, has_id, length-ids, segment_find-eq-has_id, position-Searched, met,
  missed,
}
use yappod.Storage.Slots.Capacity.{capacity_for_lem}
use mathlib.Core.Bool.{false≢true}
use mathlib.Core.List.{map-append}

-- What the contract answers when memory is granted.
unfoldable pub expected : List Segment → Segment → Status
expected segments s =
    if not (is_ok (segment_id_validate s.id))
    then segment_id_validate s.id
    else if leb max_segments (length segments)
    then out_of_range
    else if has_id segments s.id
    then duplicate
    else ok

-- Room for one more segment in the table.
record IsRoomy (m : Manifest) : Type 0 where
  exponent : ℕ
  power : m.segment_slot_capacity ≡ 2 ^ exponent
  index : IsIndex (ids m.segments) (length m.segments) exponent m.segment_slots
  room : (length m.segments + 1) * 2 ≤ 2 ^ exponent

IsRoomy-IsIndexed : (m : Manifest) → IsRoomy m → IsIndexed m
IsRoomy-IsIndexed m r = indexed r.exponent r.power r.index (omega (arith, r.room))

has_id-absent :
    (segments : List Segment) (id : List ℕ)
    → has_id segments id ≡ false
    → (i : ℕ) → i < length segments
    → get_or (ids segments) i [] ≢ id
has_id-absent segments id h = elim (position-Searched segments id 0) [
  | met i lt same e ↦ absurd (ground (arith, e, h))
  | missed absent e ↦ absent
]

-- An index does not look at the ids behind those that it holds.
widen :
    (xs ys : List (List ℕ)) (n k : ℕ) (slots : List ℕ)
    → ((i : ℕ) → i < n → get_or ys i [] ≡ get_or xs i [])
    → IsIndex xs n k slots
    → IsIndex ys n k slots
widen xs ys n k slots same index = record {
  sized = index.sized;
  room = index.room;
  bounded = index.bounded;
  placed = λ i lt.
      let p = index.placed i lt in
      record {
        steps = p.steps;
        near = p.near;
        taken = rw (same i lt) p.taken;
        stored = rw (same i lt) p.stored;
      };
  distinct = λ i j hi hj e. index.distinct i j hi hj (sym (same i hi) ∙ e ∙ same j hj);
}

ids-snoc :
    (segments : List Segment) (s : Segment) → ids (segments ++ s ∷ []) ≡ ids segments ++ s.id ∷ []
ids-snoc segments s = map-append (λ (t : Segment). t.id) segments (s ∷ [])

slots_append-vacant :
    (c n : ℕ) (slots id : List ℕ) (slot : ℕ)
    → free_slot c slots c (start_slot c id) ≡ vacant slot
    → slots_append c slots n id ≡ set slots slot (n + 1)
unfolding slots_append
slots_append-vacant c n slots id slot e = rw (e, slots_append)

slots_append-IsIndex :
    (segments : List Segment) (s : Segment) (n k c : ℕ) (slots : List ℕ)
    → n ≡ length segments
    → c ≡ 2 ^ k
    → IsIndex (ids segments) n k slots
    → n < 2 ^ k
    → has_id segments s.id ≡ false
    → IsIndex (ids (segments ++ s ∷ [])) (n + 1) k (slots_append c slots n s.id)
slots_append-IsIndex segments s n k c slots counted power index roomy fresh =
    let old : (i : ℕ)
        → i < n
        → get_or (ids (segments ++ s ∷ [])) i [] ≡ get_or (ids segments) i [] =
      λ i lt.
        rw (ids-snoc segments s) (
          get_or-append_left (ids segments) (s.id ∷ []) i []
            (omega (arith, length-ids segments))) in
    let last : get_or (ids (segments ++ s ∷ [])) n [] ≡ s.id =
      rw (ids-snoc segments s)
        (get_or-append_last (ids segments) s.id n [] (omega (arith, length-ids segments))) in
    let wide = widen (ids segments) (ids (segments ++ s ∷ [])) n k slots old index in
    let absent : (i : ℕ)
        → i < n
        → get_or (ids (segments ++ s ∷ [])) i [] ≢ get_or (ids (segments ++ s ∷ [])) n [] =
      λ i lt e. has_id-absent segments s.id fresh i (omega arith) (sym (old i lt) ∙ e ∙ last) in
    let (m, near, _, v) =
      vacancy (ids (segments ++ s ∷ [])) n k slots wide (get_or (ids (segments ++ s ∷ [])) n [])
        roomy absent in
    let grown =
      extended (ids (segments ++ s ∷ [])) n k slots wide absent v.steps v.taken v.empty
        (omega (arith, v.near)) in
    let one : suc n ≡ n + 1 = omega arith in
    let slot = slot_at (2 ^ k) (get_or (ids (segments ++ s ∷ [])) n []) v.steps in
    let written : slots_append (2 ^ k) slots n s.id ≡ set slots slot (suc n) =
      ap (slots_append (2 ^ k) slots n) (sym last)
      ∙ slots_append-vacant (2 ^ k) n slots (get_or (ids (segments ++ s ∷ [])) n []) slot v.answer
      ∙ ap (set slots slot) (sym one) in
    rw (power, written, ← one) grown

segment_append-IsIndexed :
    (m : Manifest) (s : Segment)
    → IsRoomy m
    → has_id m.segments s.id ≡ false
    → IsIndexed (segment_append m s)
unfolding segment_append
segment_append-IsIndexed m s r fresh =
    let count : length (m.segments ++ s ∷ []) ≡ length m.segments + 1 =
      length-append m.segments (s ∷ []) in
    indexed r.exponent r.power
      (rw count (
        slots_append-IsIndex m.segments s (length m.segments) r.exponent m.segment_slot_capacity
          m.segment_slots refl r.power r.index (omega (arith, r.room)) fresh))
      (rw count (r.room))

no_clash : (m : Manifest) → IsIndexed m → ¬ HasClash (ids m.segments) (length (ids m.segments))
no_clash m (unindexed e empty) c = absurd (omega (arith, c.within, length-ids m.segments))
no_clash m (indexed k e index roomy) c = absurd (
    omega (
      arith,
      c.ordered,
      index.distinct c.first c.second (omega (arith, c.within, c.ordered, length-ids m.segments))
          (omega (arith, c.within, length-ids m.segments)) c.same,
    ))

abbrev retabled : Manifest → ℕ → List ℕ → Manifest
retabled m k slots = record m { segment_slots = slots; segment_slot_capacity = 2 ^ k }

rebuild :
    (m : Manifest)
    → IsIndexed m
    → length m.segments + 1 ≤ max_segments
    → (k : ℕ) × (slots : List ℕ) × (slots_rebuild true m (length m.segments + 1)
        ≡ done (retabled m k slots))
      × IsRoomy (retabled m k slots)
unfolding slots_rebuild
rebuild m i small =
    elim (build-Entered (ids m.segments) duplicate (length m.segments + 1)
      (omega (arith, length-ids m.segments)) (omega arith)) [
        | inl (k, slots, built, index, room) ↦ (
          k,
          slots,
          ground (arith, built, small),
          record {
            exponent = k;
            power = refl;
            index = rw (length-ids m.segments) at index;
            room = room;
          },
        )
        | inr (refused, clash) ↦ absurd (no_clash m i clash)
      ]

rebuild_denied :
    (m : Manifest)
    → length m.segments + 1 ≤ max_segments
    → slots_rebuild false m (length m.segments + 1) ≡ fail allocation_failed
unfolding slots_rebuild build
rebuild_denied m small =
    let (k, capacity, large) = capacity_for_lem ((length m.segments + 1) * 2) (omega arith) in
    ground (arith, capacity, small)

reserve_cases :
    (granted : Bool) (m : Manifest)
    → ((c : ℕ) × (segments_reserve granted m ≡ done (record m { segment_capacity = c })))
      ⊎ ((segments_reserve granted m ≡ fail allocation_failed) × (granted ≡ false))
unfolding segments_reserve
reserve_cases granted m = elim (Bool-cases (length m.segments == m.segment_capacity)) [
  | inl full ↦ elim (Bool-cases granted) [
    | inl given ↦ inl (grown_capacity m.segment_capacity, ground (arith, full, given))
    | inr denied ↦ inr (ground (arith, full, denied), denied)
  ]
  | inr spare ↦ inl (m.segment_capacity, ground (arith, spare))
]

-- How `add_segment` ends: the invariant is kept, the list of segments grows by the segment exactly
-- when the status is ok, and the status is the expected one unless memory was refused.
pub record IsAdded (granted : Bool) (m : Manifest) (s : Segment) (r : Status × Manifest)
    : Type 0 where
  pub kept : IsIndexed r.1
  pub segments : r.1.segments ≡ (if is_ok r.0 then m.segments ++ s ∷ [] else m.segments)
  pub status : (r.0 ≡ expected m.segments s) ⊎ ((r.0 ≡ allocation_failed) × (granted ≡ false))

module _ (m : Manifest) (s : Segment) (valid : is_ok (segment_id_validate s.id) ≡ true)
    (room : leb max_segments (length m.segments) ≡ false) where
  expected_there : has_id m.segments s.id ≡ true → expected m.segments s ≡ duplicate
  unfolding expected
  expected_there there = rw (valid, room, there)

  expected_fresh : has_id m.segments s.id ≡ false → expected m.segments s ≡ ok
  unfolding expected
  expected_fresh fresh = rw (valid, room, fresh)

  add_indexed_lem : (granted : Bool) → IsRoomy m → IsAdded granted m s (add_indexed granted m s)
  unfolding add_indexed
  add_indexed_lem granted r = elim (Bool-cases (has_id m.segments s.id)) [
    | inl there ↦
        rw (segment_find-eq-has_id m s.id (IsRoomy-IsIndexed m r), there)
          (record {
            kept = IsRoomy-IsIndexed m r;
            segments = refl;
            status = inl (sym (expected_there there));
          })
    | inr fresh ↦ elim (reserve_cases granted m) [
      | inl (c, reserved) ↦
          rw (segment_find-eq-has_id m s.id (IsRoomy-IsIndexed m r), fresh, reserved)
            (record {
              kept =
                  segment_append-IsIndexed (record m { segment_capacity = c }) s
                    (record {
                      exponent = r.exponent;
                      power = r.power;
                      index = r.index;
                      room = r.room;
                    })
                    fresh;
              segments = unfold segment_append in refl;
              status = inl (sym (expected_fresh fresh));
            })
      | inr (refused, denied) ↦
          rw (segment_find-eq-has_id m s.id (IsRoomy-IsIndexed m r), fresh, refused)
            (record { kept = IsRoomy-IsIndexed m r; segments = refl; status = inr (refl, denied) })
    ]
  ]

expected_invalid :
    (m : Manifest) (s : Segment)
    → is_ok (segment_id_validate s.id) ≡ false
    → segment_id_validate s.id ≡ expected m.segments s
unfolding expected
expected_invalid m s bad = rw bad

expected_full :
    (m : Manifest) (s : Segment)
    → is_ok (segment_id_validate s.id) ≡ true
    → leb max_segments (length m.segments) ≡ true
    → out_of_range ≡ expected m.segments s
unfolding expected
expected_full m s valid full = rw (valid, full)

retabled-IsAdded :
    (granted : Bool) (m : Manifest) (k : ℕ) (slots : List ℕ) (s : Segment) (r : Status × Manifest)
    → IsAdded granted (retabled m k slots) s r
    → IsAdded granted m s r
retabled-IsAdded granted m k slots s r a = record {
  kept = a.kept;
  segments = a.segments;
  status = a.status;
}

settled : (m : Manifest) → IsIndexed m → needs_rebuild m ≡ false → IsRoomy m
unfolding needs_rebuild
settled m (unindexed e empty) h = absurd (false≢true (sym h ∙ ground (arith, e)))
settled m (indexed k e index half) h = record {
  exponent = k;
  power = e;
  index = index;
  room = ground arith;
}

IsAdded-and :
    (calloc realloc : Bool) (m : Manifest) (s : Segment) (r : Status × Manifest)
    → IsAdded realloc m s r
    → IsAdded (calloc && realloc) m s r
IsAdded-and calloc realloc m s r a = record {
  kept = a.kept;
  segments = a.segments;
  status = elim a.status [ inl e ↦ inl e | inr (e, denied) ↦ inr (e, ground (arith, denied)) ];
}

unchanged :
    (granted : Bool) (m : Manifest) (s : Segment) (status : Status)
    → IsIndexed m
    → is_ok status ≡ false
    → (status ≡ expected m.segments s) ⊎ ((status ≡ allocation_failed) × (granted ≡ false))
    → IsAdded granted m s (status, m)
unchanged granted m s status i failed e = record { kept = i; segments = rw failed refl; status = e }

-- In a manifest that keeps the invariant, `add_segment` keeps it, whatever memory is granted. The
-- list of segments grows by the new one at its end exactly when the status is ok, and is unchanged
-- otherwise. The status is the one of the contract (the status of a bad id, then out of range at
-- the maximum, then duplicate when a linear search meets the id, else ok), or, only where memory
-- was refused, the allocation failure.
pub add_segment-IsAdded :
    (calloc realloc : Bool) (m : Manifest) (s : Segment)
    → IsIndexed m
    → IsAdded (calloc && realloc) m s (add_segment calloc realloc m s)
unfolding add_segment
add_segment-IsAdded calloc realloc m s i = elim (Bool-cases (is_ok (segment_id_validate s.id))) [
  | inr bad ↦ rw bad (
      unchanged (calloc && realloc) m s (segment_id_validate s.id) i bad
        (inl (expected_invalid m s bad)))
  | inl valid ↦ elim (Bool-cases (leb max_segments (length m.segments))) [
    | inl full ↦
        rw (valid, full)
          (unchanged (calloc && realloc) m s out_of_range i refl
            (inl (expected_full m s valid full)))
    | inr room ↦ elim (Bool-cases (needs_rebuild m)) [
      | inr fine ↦
          rw (valid, room, fine)
            (IsAdded-and calloc realloc m s _
              (add_indexed_lem m s valid room realloc (settled m i fine)))
      | inl stale ↦ elim (Bool-cases calloc) [
        | inl given ↦
            let (k, slots, built, roomy) = rebuild m i (ground arith) in
            rw (valid, room, stale, given, built)
              (retabled-IsAdded realloc m k slots s _
                (add_indexed_lem (retabled m k slots) s valid room realloc roomy))
        | inr denied ↦
            rw (valid, room, stale, denied, rebuild_denied m (ground arith))
              (unchanged false m s allocation_failed i refl (inr (refl, refl)))
      ]
    ]
  ]
]
