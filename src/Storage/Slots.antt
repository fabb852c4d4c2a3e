-- ===== src/Storage/Slots.antt =====
-- The hash index from segment ids to positions: an open-addressing table with linear probing, which
-- src/storage/yappo_storage_v2.c (manifest_slots_rebuild, manifest_segment_find, add_segment,
-- manifest_validate) and src/storage/yappo_manifest_v2.c (segment_map_build, segment_map_find) hold
-- each for itself. A table is a list of `capacity` numbers: 0 for an empty slot, or a position plus 1.
-- `ids` are the ids of the segments in order. size_t has 64 bits.
pub mod Capacity
pub mod Index
pub mod Insert
pub mod Build
use yappod.Prelude.{
  ℕ, zero, suc, ◌+◌, ◌-◌, ◌*◌, ◌/◌, ◌%◌, ◌^◌, Bool, true, false, List, [], ◌∷◌, bit_and, bit_xor,
  ltb, ◌==◌, if◌then◌else◌, get_or, set, length, replicate,
}
use yappod.Prelude.Bytes.{bytes_eq}
use yappod.Types.{
  Status, out_of_range, allocation_failed, Result, done, fail, ◌>>=◌, ◌>>◌, reject_if,
}

abbrev pub size_max : ℕ
size_max = 2 ^ 64 - 1

abbrev hash_offset : ℕ
hash_offset = 1469598103934665603

abbrev hash_prime : ℕ
hash_prime = 1099511628211

-- `while (*cursor != '\0') { hash ^= *cursor++; hash *= ...; }` on the bytes that are left.
hash_from : ℕ → List ℕ → ℕ
hash_from hash [] = hash
hash_from hash (c ∷ rest) = hash_from (bit_xor hash c * hash_prime % 2 ^ 64) rest

unfoldable pub segment_hash : List ℕ → ℕ
unfolding hash_from
segment_hash id = hash_from hash_offset id

abbrev pub start_slot : ℕ → List ℕ → ℕ
start_slot capacity id = bit_and (segment_hash id) (capacity - 1)

abbrev pub next_slot : ℕ → ℕ → ℕ
next_slot capacity slot = bit_and (slot + 1) (capacity - 1)

-- `while (capacity < wanted) { if (capacity > SIZE_MAX / 2U) return OUT_OF_RANGE; capacity *= 2U; }`
-- from 1. Sixty-four rounds are enough: the guard ends the loop at 2^63.
capacity_loop : ℕ → ℕ → ℕ → Result ℕ
capacity_loop zero wanted capacity = fail out_of_range
capacity_loop (suc rounds) wanted capacity =
    let larger = capacity_loop rounds wanted (capacity * 2) in
    if ltb capacity wanted
    then (if ltb (size_max / 2) capacity then fail out_of_range else larger)
    else done capacity

unfoldable pub capacity_for : ℕ → Result ℕ
unfolding capacity_loop
capacity_for wanted = capacity_loop 64 wanted 1

-- How a walk along the table ends: at an empty slot, at the position of a segment with the id, or
-- after the rounds that it was given.
pub data Probe : Type 0 where
  vacant : ℕ → Probe
  found : ℕ → Probe
  exhausted : Probe

module _ (ids : List (List ℕ)) (capacity : ℕ) (slots : List ℕ) where
  -- The walk that stops at an empty slot or at the id.
  unfoldable pub probe : List ℕ → ℕ → ℕ → Probe
  probe id zero slot = exhausted
  probe id (suc rounds) slot =
      let encoded = get_or slots slot 0 in
      let further = probe id rounds (next_slot capacity slot) in
      if encoded == 0
      then vacant slot
      else if bytes_eq (get_or ids (encoded - 1) []) id
      then found (encoded - 1)
      else further

module _ (capacity : ℕ) (slots : List ℕ) where
  -- `while (slots[slot] != 0U) slot = (slot + 1U) & (capacity - 1U);`
  unfoldable pub free_slot : ℕ → ℕ → Probe
  free_slot zero slot = exhausted
  free_slot (suc rounds) slot =
      let further = free_slot rounds (next_slot capacity slot) in
      if get_or slots slot 0 == 0 then vacant slot else further

-- Enters position `i`; `clash` is what a caller answers when an earlier segment has the id. The walk
-- never uses up `capacity` rounds, since a slot is empty; the model's answer there is as for a clash.
unfoldable pub enter : Status → List (List ℕ) → ℕ → ℕ → List ℕ → Result (List ℕ)
enter clash ids capacity i slots =
    let id = get_or ids i [] in
    elim (probe ids capacity slots id capacity (start_slot capacity id)) [
      | vacant slot ↦ done (set slots slot (i + 1))
      | found existing ↦ fail clash
      | exhausted ↦ fail clash
    ]

-- `for (i = ...; i < count; i++)`, on the rounds that are left.
unfoldable pub enter_from : Status → List (List ℕ) → ℕ → ℕ → ℕ → List ℕ → Result (List ℕ)
enter_from clash ids capacity zero i slots = done slots
enter_from clash ids capacity (suc rounds) i slots =
    enter clash ids capacity i slots >>= enter_from clash ids capacity rounds (i + 1)

-- A fresh table over all of `ids`, for `required` segments, with the capacity that it has.
-- `granted` says whether `calloc` gives the memory.
unfoldable pub build : Status → Bool → List (List ℕ) → ℕ → Result (ℕ × List ℕ)
build clash granted ids required = do
  capacity ← capacity_for (required * 2)
  reject_if (if granted then false else true) allocation_failed
  slots ← enter_from clash ids capacity (length ids) 0 (replicate capacity 0)
  done (capacity, slots)

-- `for (probes = 0U; probes < capacity; probes++)`: the position of the id, if the walk meets it.
unfoldable pub look_up : List (List ℕ) → ℕ → List ℕ → List ℕ → Probe
look_up ids capacity slots id = probe ids capacity slots id capacity (start_slot capacity id)
