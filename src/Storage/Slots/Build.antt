-- ===== src/Storage/Slots/Build.antt =====
-- A table built afresh indexes all the ids, and two equal ids are refused.
use yappod.Prelude.{
  ℕ, zero, suc, ◌+◌, ◌*◌, ◌^◌, ◌≤◌, ◌<◌, ◌≡◌, ◌⊎◌, inl, inr, refl, ap, true, List, [], arith,
  get_or, length, replicate, get_or-replicate, length-replicate,
}
use yappod.Types.{Status, Result, done, fail}
use yappod.Storage.Slots.{enter_from, build}
use yappod.Storage.Slots.Index.{IsIndex, empty_slots}
use yappod.Storage.Slots.Insert.{same_id, enter_fresh, enter_clash}
use yappod.Storage.Slots.Capacity.{capacity_for_lem}

empty_slots-replicate : (c : ℕ) → empty_slots (replicate c 0) ≡ c
unfolding empty_slots
empty_slots-replicate zero = refl
empty_slots-replicate (suc c) = ap suc (empty_slots-replicate c)

pub fresh-IsIndex : (ids : List (List ℕ)) (k : ℕ) → IsIndex ids 0 k (replicate (2 ^ k) 0)
fresh-IsIndex ids k = record {
  sized = length-replicate (2 ^ k) 0;
  room = omega (arith, empty_slots-replicate (2 ^ k));
  bounded = λ s. rw (get_or-replicate {A = ℕ} (2 ^ k) s 0) (omega arith);
  placed = λ i lt. absurd (omega arith);
  distinct = λ i j hi hj same. absurd (omega arith);
}

-- Two positions below `m` with one id.
pub record HasClash (ids : List (List ℕ)) (m : ℕ) : Type 0 where
  pub first : ℕ
  pub second : ℕ
  pub ordered : first < second
  pub within : second < m
  pub same : get_or ids first [] ≡ get_or ids second []

-- How entering the ids up to position `m` ends.
pub data Entered (ids : List (List ℕ)) (clash : Status) (m k : ℕ) (r : Result (List ℕ))
    : Type 0 where
  indexed : (slots : List ℕ) → r ≡ done slots → IsIndex ids m k slots → Entered ids clash m k r
  refused : r ≡ fail clash → HasClash ids m → Entered ids clash m k r

pub enter_from-Entered :
    (ids : List (List ℕ)) (clash : Status) (k rounds n m : ℕ) (slots : List ℕ)
    → n + rounds ≡ m
    → m ≤ 2 ^ k
    → IsIndex ids n k slots
    → Entered ids clash m k (enter_from clash ids (2 ^ k) rounds n slots)
unfolding enter_from
enter_from-Entered ids clash k zero n m slots e fits index =
    let e' : n ≡ m = omega arith in indexed slots refl (rw e' at index)
enter_from-Entered ids clash k (suc rounds) n m slots e fits index =
    elim (same_id ids (get_or ids n []) n) [
      | inl (i, lt, same) ↦
          refused (rw (enter_clash ids n k slots index clash i lt same) refl)
            (record { first = i; second = n; ordered = lt; within = omega arith; same = same })
      | inr fresh ↦
          let (slots', entered, index') =
            enter_fresh ids n k slots index clash (omega arith) fresh in
          let e' : suc n ≡ n + 1 = omega arith in
          rw entered (
            enter_from-Entered ids clash k rounds (n + 1) m slots' (omega arith) fits
              (rw e' at index'))
    ]

-- A fresh table over all the ids is an index with room for as many as were required, and it is
-- refused only for two equal ids.
pub build-Entered :
    (ids : List (List ℕ)) (clash : Status) (required : ℕ)
    → length ids ≤ required
    → required * 2 ≤ 2 ^ 63
    → ((k : ℕ) × (slots : List ℕ) × (build clash true ids required ≡ done (2 ^ k, slots))
        × IsIndex ids (length ids) k slots
        × (required * 2 ≤ 2 ^ k))
      ⊎ ((build clash true ids required ≡ fail clash) × HasClash ids (length ids))
unfolding build
build-Entered ids clash required fits small =
    let (k, capacity, large) = capacity_for_lem (required * 2) small in
    elim (enter_from-Entered ids clash k (length ids) 0 (length ids) (replicate (2 ^ k) 0)
      (omega arith) (omega arith) (fresh-IsIndex ids k)) [
        | indexed slots e index ↦ inl (k, slots, rw (capacity, e) refl, index, large)
        | refused e clashes ↦ inr (rw (capacity, e) refl, clashes)
      ]
