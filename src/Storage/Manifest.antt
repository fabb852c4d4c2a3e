-- ===== src/Storage/Manifest.antt =====
-- The manifest in memory: `YAP_V2_MANIFEST`, `manifest_slots_rebuild`, `manifest_segment_find`,
-- `YAP_V2_manifest_add_segment` and `YAP_V2_manifest_validate` of src/storage/yappo_storage_v2.c,
-- and the segment map of src/storage/yappo_manifest_v2.c. The segments are the prefix of the array
-- that `segment_count` counts. The answers of `calloc` and `realloc` are arguments.
pub mod Indexed
pub mod Adding
pub mod Validity
pub mod Head
use yappod.Prelude.{
  ℕ, zero, suc, ◌+◌, ◌*◌, ◌/◌, ◌%◌, ◌^◌, Bool, true, false, ◌&&◌, ◌||◌, not, List, [], ◌∷◌, ◌++◌,
  map, ltb, leb, ◌==◌, if◌then◌else◌, length, get_or, set, replicate,
}
use yappod.Types.{
  Status, ok, invalid_format, out_of_range, duplicate, conflict, not_found, allocation_failed,
  Result, done, fail, ◌>>=◌, ◌>>◌, reject_if, check, status_of, is_ok, format_version,
}
use yappod.Storage.Descriptor.{
  Component, Segment, add_component, segment_id_validate, max_components,
}
use yappod.Storage.Slots.{
  Probe, vacant, found, exhausted, size_max, build, look_up, free_slot, start_slot, capacity_for,
  enter,
}

abbrev pub max_segments : ℕ
max_segments = 100000

-- `sizeof(YAP_V2_SEGMENT_DESCRIPTOR)` with eight-byte alignment.
abbrev descriptor_bytes : ℕ
descriptor_bytes = 1248

pub record Manifest : Type 0 where
  pub format_version : ℕ
  pub generation : ℕ
  pub config_fingerprint : List ℕ
  pub segments : List Segment
  pub segment_capacity : ℕ
  pub segment_slots : List ℕ
  pub segment_slot_capacity : ℕ

abbrev pub ids : List Segment → List (List ℕ)
ids = map (λ s. s.id)

abbrev pub manifest_init : Manifest
manifest_init = record {
  format_version = format_version;
  generation = 1;
  config_fingerprint = replicate 32 0;
  segments = [];
  segment_capacity = 0;
  segment_slots = [];
  segment_slot_capacity = 0;
}

unfoldable pub slots_rebuild : Bool → Manifest → ℕ → Result Manifest
slots_rebuild granted m required = do
  reject_if (ltb max_segments required || ltb (size_max / 2) required) out_of_range
  (capacity, slots) ← build duplicate granted (ids m.segments) required
  done (record m { segment_slots = slots; segment_slot_capacity = capacity })

unfoldable pub segment_find : Manifest → List ℕ → Bool
segment_find m id =
    if m.segment_slot_capacity == 0
    then false
    else elim (look_up (ids m.segments) m.segment_slot_capacity m.segment_slots id) [
      | found i ↦ true
      | _ ↦ false
    ]

-- The capacity that the array of segments grows to.
unfoldable pub grown_capacity : ℕ → ℕ
grown_capacity capacity =
    let larger = if capacity == 0 then 4 else capacity * 2 % 2 ^ 64 in
    if ltb larger capacity || ltb max_segments larger then max_segments else larger

-- Growing the array when it is full.
unfoldable pub segments_reserve : Bool → Manifest → Result Manifest
unfolding grown_capacity
segments_reserve granted m =
    if not (length m.segments == m.segment_capacity)
    then done m
    else let capacity = grown_capacity m.segment_capacity in
      if ltb (size_max / descriptor_bytes) capacity
      then fail out_of_range
      else if not granted
      then fail allocation_failed
      else done (record m { segment_capacity = capacity })

-- Entering the position `count` at the first empty slot. Had the table none, the loop of the source
-- would not end, and the model leaves the table as it is.
unfoldable pub slots_append : ℕ → List ℕ → ℕ → List ℕ → List ℕ
slots_append capacity slots count id =
    elim (free_slot capacity slots capacity (start_slot capacity id)) [
      | vacant slot ↦ set slots slot (count + 1)
      | _ ↦ slots
    ]

-- Writing the segment and its slot.
unfoldable pub segment_append : Manifest → Segment → Manifest
segment_append m s = record m {
  segments = m.segments ++ s ∷ [];
  segment_slots = slots_append m.segment_slot_capacity m.segment_slots (length m.segments) s.id;
}

-- The duplicate test, the growth of the array, and the write, on the table as it then is.
unfoldable pub add_indexed : Bool → Manifest → Segment → Status × Manifest
add_indexed granted m s =
    if segment_find m s.id then (duplicate, m) else elim (segments_reserve granted m) [
      | fail status ↦ (status, m)
      | done m' ↦ (ok, segment_append m' s)
    ]

unfoldable pub needs_rebuild : Manifest → Bool
needs_rebuild m =
    m.segment_slot_capacity == 0 || ltb (m.segment_slot_capacity / 2) (length m.segments + 1)

-- `calloc_granted` and `realloc_granted` are the answers of the two allocations. A rebuilt table
-- stays when a later step fails, as in the source.
unfoldable pub add_segment : Bool → Bool → Manifest → Segment → Status × Manifest
add_segment calloc_granted realloc_granted m s =
    let status = segment_id_validate s.id in
    if not (is_ok status)
    then (status, m)
    else if leb max_segments (length m.segments)
    then (out_of_range, m)
    else if not (needs_rebuild m)
    then add_indexed realloc_granted m s
    else elim (slots_rebuild calloc_granted m (length m.segments + 1)) [
      | fail failure ↦ (failure, m)
      | done m' ↦ add_indexed realloc_granted m' s
    ]

-- Adding the components one by one to a copy that has those before.
unfoldable pub replay : List Component → List Component → Status
replay before [] = ok
replay before (c ∷ rest) =
    let further = replay (before ++ c ∷ []) rest in
    let status = (add_component before c).0 in if is_ok status then further else status

unfoldable pub segment_check : Segment → Result (Unit {0})
segment_check s = do
  check (segment_id_validate s.id)
  reject_if (length s.components == 0 || ltb max_components (length s.components)) invalid_format
  check (replay [] s.components)

-- The loop over the segments; `i` is the position of the first that is left.
unfoldable pub segments_check : List (List ℕ) → ℕ → List Segment → ℕ → List ℕ → Result (Unit {0})
segments_check all capacity [] i slots = done tt
segments_check all capacity (s ∷ rest) i slots =
    segment_check s
    >>= (λ _. enter duplicate all capacity i slots >>= segments_check all capacity rest (i + 1))

unfoldable pub all_zero : List ℕ → Bool
all_zero [] = true
all_zero (b ∷ rest) = b == 0 && all_zero rest

unfoldable pub manifest_validate : Bool → Manifest → Status
manifest_validate granted m = status_of (do
  reject_if
      (not (m.format_version == format_version)
        || m.generation == 0
        || ltb max_segments (length m.segments))
      invalid_format
  reject_if (all_zero m.config_fingerprint) invalid_format
  capacity ← capacity_for (length m.segments * 2)
  reject_if (not granted && ltb 0 (length m.segments)) allocation_failed
  segments_check (ids m.segments) capacity m.segments 0 (replicate capacity 0))

-- `YAP_V2_MANIFEST_SEGMENT_MAP`; capacity 0 for a map without slots.
pub record SegmentMap : Type 0 where
  pub capacity : ℕ
  pub slots : List ℕ

unfoldable pub segment_map_build : Bool → List Segment → Result SegmentMap
segment_map_build granted segments =
    if length segments == 0
    then done (record { capacity = 0; slots = [] })
    else if ltb (size_max / 2) (length segments)
    then fail out_of_range
    else do
      (capacity, slots) ← build conflict granted (ids segments) (length segments)
      done (record { capacity = capacity; slots = slots })

unfoldable pub segment_map_find : List Segment → SegmentMap → List ℕ → Result ℕ
segment_map_find segments t id =
    if t.capacity == 0
    then fail not_found
    else elim (look_up (ids segments) t.capacity t.slots id) [
      | found i ↦ done i
      | _ ↦ fail not_found
    ]
