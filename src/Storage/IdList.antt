-- ===== src/Storage/IdList.antt =====
-- The list of segment ids: `YAP_V2_SEGMENT_ID_LIST` and `YAP_V2_segment_id_list_add` of
-- src/storage/yappo_storage_v2.c. The items are the prefix of the array that `count` counts.
use yappod.Prelude.{
  ℕ, ◌/◌, ◌≤◌, ◌<◌, ◌≡◌, ◌⊎◌, inl, inr, refl, Bool, false, not, List, [], ◌∷◌, ◌++◌, arith, ltb,
  leb, ◌==◌, if◌then◌else◌, length, length-append, Bool-cases,
}
use yappod.Types.{Status, ok, out_of_range, allocation_failed, Result, done, fail, is_ok}
use yappod.Storage.Descriptor.{segment_id_validate}
use yappod.Storage.Manifest.{max_segments, grown_capacity}
use yappod.Storage.Slots.{size_max}

pub record SegmentIdList : Type 0 where
  pub items : List (List ℕ)
  pub capacity : ℕ

abbrev pub segment_id_list_init : SegmentIdList
segment_id_list_init = record { items = []; capacity = 0 }

-- Growing the array when it is full; an item has 256 bytes.
unfoldable pub id_list_reserve : Bool → SegmentIdList → Result ℕ
id_list_reserve granted list =
    if not (length list.items == list.capacity)
    then done list.capacity
    else if ltb (size_max / 256) (grown_capacity list.capacity)
    then fail out_of_range
    else if not granted
    then fail allocation_failed
    else done (grown_capacity list.capacity)

-- `granted` is the answer of `realloc`.
unfoldable pub segment_id_list_add : Bool → SegmentIdList → List ℕ → Status × SegmentIdList
segment_id_list_add granted list id =
    let status = segment_id_validate id in
    if not (is_ok status)
    then (status, list)
    else if leb max_segments (length list.items)
    then (out_of_range, list)
    else elim (id_list_reserve granted list) [
      | fail failure ↦ (failure, list)
      | done capacity ↦ (ok, record { items = list.items ++ id ∷ []; capacity = capacity })
    ]

-- The array has room for its items.
abbrev pub HasRoom : SegmentIdList → Type 0
HasRoom list = (length list.items ≤ list.capacity) × (list.capacity ≤ max_segments)

-- How an addition ends, by whether the id is valid, the list is full, and memory was granted.
pub record IsListed (granted : Bool) (list : SegmentIdList) (id : List ℕ)
    (r : Status × SegmentIdList) : Type 0 where
  pub room : HasRoom r.1
  pub items : r.1.items ≡ (if is_ok r.0 then list.items ++ id ∷ [] else list.items)
  pub status :
      (r.0 ≡ (
        if not (is_ok (segment_id_validate id))
        then segment_id_validate id
        else if leb max_segments (length list.items)
        then out_of_range
        else ok))
      ⊎ ((r.0 ≡ allocation_failed) × (granted ≡ false))

grown_capacity-bounds :
    (capacity : ℕ)
    → capacity < max_segments
    → (capacity < grown_capacity capacity) × (grown_capacity capacity ≤ max_segments)
unfolding grown_capacity
grown_capacity-bounds capacity h = (ground arith, ground arith)

reserve_lem :
    (granted : Bool) (list : SegmentIdList)
    → HasRoom list
    → length list.items < max_segments
    → ((c : ℕ) × (id_list_reserve granted list ≡ done c)
        × (length list.items < c)
        × (c ≤ max_segments))
      ⊎ ((id_list_reserve granted list ≡ fail allocation_failed) × (granted ≡ false))
unfolding id_list_reserve
reserve_lem granted list room few = elim (Bool-cases (length list.items == list.capacity)) [
  | inr spare ↦ inl (list.capacity, ground (arith, spare), ground (arith, spare, room), room.1)
  | inl full ↦
      let same : length list.items ≡ list.capacity = ground arith in
      let (larger, bounded) = grown_capacity-bounds list.capacity (omega arith) in
      elim (Bool-cases granted) [
        | inl given ↦ inl (
          grown_capacity list.capacity,
          ground (arith, full, given, bounded),
          omega arith,
          bounded,
        )
        | inr denied ↦ inr (ground (arith, full, denied, bounded), denied)
      ]
]

-- Adding an id keeps the room of the list. The list grows by the id at its end exactly when the
-- status is ok, and is unchanged otherwise; the status is the one of a bad id, then out of range at
-- 100000 ids, else ok, or, only where memory was refused, the allocation failure.
pub segment_id_list_add-IsListed :
    (granted : Bool) (list : SegmentIdList) (id : List ℕ)
    → HasRoom list
    → IsListed granted list id (segment_id_list_add granted list id)
unfolding segment_id_list_add
segment_id_list_add-IsListed granted list id room =
    elim (Bool-cases (is_ok (segment_id_validate id))) [
      | inr bad ↦ rw bad (record { room = room; items = rw bad refl; status = inl (rw bad refl) })
      | inl valid ↦ elim (Bool-cases (leb max_segments (length list.items))) [
        | inl full ↦
            rw (valid, full)
              (record { room = room; items = refl; status = inl (rw (valid, full) refl) })
        | inr free ↦ elim (reserve_lem granted list room (ground arith)) [
          | inr (refused, denied) ↦
              rw (valid, free, refused)
                (record { room = room; items = refl; status = inr (refl, denied) })
          | inl (c, reserved, larger, bounded) ↦
              rw (valid, free, reserved)
                (record {
                  room = (omega (arith, length-append list.items (id ∷ [])), bounded);
                  items = refl;
                  status = inl (rw (valid, free) refl);
                })
        ]
      ]
    ]
