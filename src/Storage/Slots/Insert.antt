-- ===== src/Storage/Slots/Insert.antt =====
-- Entering one more id into an index: the walk ends at an empty slot, and the new table is an index.
use yappod.Prelude.{
  ℕ, zero, suc, ◌+◌, ◌-◌, ◌%◌, ◌^◌, ◌≤◌, ◌<◌, ◌≡◌, ◌≢◌, ◌⊎◌, inl, inr, refl, sym, ap, ◌∙◌, false,
  List, [], ◌∷◌, arith, get_or, set, length, Bool-cases, get_or-set_self, get_or-set_ne, length-set,
}
use yappod.Prelude.Bytes.{bytes_eq, bytes_eq→eq, bytes_eq_refl}
use yappod.Prelude.Masks.{pow_pos}
use yappod.Types.{Status, done, fail}
use yappod.Storage.Slots.{
  segment_hash, start_slot, Probe, vacant, found, probe, free_slot, enter, look_up,
}
use yappod.Storage.Slots.Index.{
  slot_at, AllTaken, empty_slots, IsPlaced, IsIndex, start_slot_lem, next_slot_lem, look_up_present,
}
use mathlib.Core.Bool.{false≢true}
use native.Mathlib.Decide.{ℕ_discrete, dec_le}
use native.Mathlib.Nat.{mod-lt, mod-add-mod, mod-eq_of_lt, add-mod_right}

empty_exists :
    (slots : List ℕ) → 0 < empty_slots slots → (z : ℕ) × (z < length slots) × (get_or slots z 0 ≡ 0)
unfolding empty_slots
empty_exists [] h = absurd (omega arith)
empty_exists (zero ∷ xs) h = (0, omega arith, refl)
empty_exists (suc x ∷ xs) h =
    let (z, lt, empty) = empty_exists xs (ground arith) in (suc z, omega arith, empty)

empty-set :
    (slots : List ℕ) (s v : ℕ)
    → s < length slots
    → get_or slots s 0 ≡ 0
    → empty_slots (set slots s (suc v)) + 1 ≡ empty_slots slots
unfolding empty_slots
empty-set [] s v lt h = absurd (omega arith)
empty-set (x ∷ xs) zero v lt h = ground arith
empty-set (x ∷ xs) (suc s) v lt h = ground (arith, empty-set xs s v)

-- Every slot is reached from every start.
pub distance : (h z c : ℕ) → z < c → (d : ℕ) × (d < c) × ((h + d) % c ≡ z)
distance h z c lt = elim (dec_le (h % c) z) [
  | yes le ↦ (
    z - h % c,
    omega arith,
    (sym (mod-add-mod h c (z - h % c)) ∙ ap (λ (t : ℕ). t % c) (omega arith)) ∙ mod-eq_of_lt lt,
  )
  | no gt ↦ (
    z + c - h % c,
    omega (arith, mod-lt h {m = c} (omega arith)),
    sym (mod-add-mod h c (z + c - h % c))
        ∙ ap (λ (t : ℕ). t % c) (omega (arith, mod-lt h {m = c} (omega arith)))
        ∙ add-mod_right z c
        ∙ mod-eq_of_lt lt,
  )
]

module _ (ids : List (List ℕ)) (n k : ℕ) (slots id : List ℕ) where
  -- The end of a walk at an empty slot.
  pub record IsVacancy (m : ℕ) (p : Probe) : Type 0 where
    pub steps : ℕ
    pub near : steps ≤ m
    pub answer : p ≡ vacant (slot_at (2 ^ k) id steps)
    pub taken : AllTaken (2 ^ k) slots id steps
    pub empty : get_or slots (slot_at (2 ^ k) id steps) 0 ≡ 0

  one_more :
      (d : ℕ)
      → AllTaken (2 ^ k) slots id d
      → get_or slots (slot_at (2 ^ k) id d) 0 ≢ 0
      → AllTaken (2 ^ k) slots id (d + 1)
  one_more d taken full e lt = elim (ℕ_discrete e d) [
    | yes same ↦ rw same full
    | no other ↦ taken e (omega arith)
  ]

  module _ (bounded : (s : ℕ) → get_or slots s 0 ≤ n)
      (absent : (i : ℕ) → i < n → get_or ids i [] ≢ id) (m : ℕ)
      (gap : get_or slots (slot_at (2 ^ k) id m) 0 ≡ 0) where
    probe_vacant :
        (rounds d : ℕ)
        → d ≤ m
        → m < d + rounds
        → AllTaken (2 ^ k) slots id d
        → IsVacancy m (probe ids (2 ^ k) slots id rounds (slot_at (2 ^ k) id d))
    unfolding probe
    probe_vacant zero d low high taken = absurd (omega arith)
    probe_vacant (suc rounds) d low high taken =
        elim (ℕ_discrete (get_or slots (slot_at (2 ^ k) id d) 0) 0) [
          | yes free ↦ record {
            steps = d;
            near = low;
            answer = ground (arith, free);
            taken = taken;
            empty = free;
          }
          | no full ↦
              let beyond : d ≢ m = λ e. full (rw e gap) in
              let differs : bytes_eq (get_or ids (get_or slots (slot_at (2 ^ k) id d) 0 - 1) []) id
                  ≡ false =
                elim (Bool-cases
                  (bytes_eq (get_or ids (get_or slots (slot_at (2 ^ k) id d) 0 - 1) []) id)) [
                    | inl equal ↦ absurd (
                        absent (get_or slots (slot_at (2 ^ k) id d) 0 - 1)
                          (omega (arith, bounded (slot_at (2 ^ k) id d))) (bytes_eq→eq _ _ equal))
                    | inr other ↦ other
                  ] in
              let rest =
                probe_vacant rounds (d + 1) (omega arith) (omega arith) (one_more d taken full) in
              record {
                steps = rest.steps;
                near = rest.near;
                answer = ground (arith, rest.answer, next_slot_lem k id d);
                taken = rest.taken;
                empty = rest.empty;
              }
        ]

    free_vacant :
        (rounds d : ℕ)
        → d ≤ m
        → m < d + rounds
        → AllTaken (2 ^ k) slots id d
        → IsVacancy m (free_slot (2 ^ k) slots rounds (slot_at (2 ^ k) id d))
    unfolding free_slot
    free_vacant zero d low high taken = absurd (omega arith)
    free_vacant (suc rounds) d low high taken =
        elim (ℕ_discrete (get_or slots (slot_at (2 ^ k) id d) 0) 0) [
          | yes free ↦ record {
            steps = d;
            near = low;
            answer = ground (arith, free);
            taken = taken;
            empty = free;
          }
          | no full ↦
              let beyond : d ≢ m = λ e. full (rw e gap) in
              let rest =
                free_vacant rounds (d + 1) (omega arith) (omega arith) (one_more d taken full) in
              record {
                steps = rest.steps;
                near = rest.near;
                answer = ground (arith, rest.answer, next_slot_lem k id d);
                taken = rest.taken;
                empty = rest.empty;
              }
        ]

-- A non-empty slot is another slot than an empty one, and keeps what it holds.
kept :
    (slots : List ℕ) (s t v : ℕ)
    → get_or slots s 0 ≡ 0
    → get_or slots t 0 ≢ 0
    → get_or (set slots s v) t 0 ≡ get_or slots t 0
kept slots s t v empty full = get_or-set_ne slots s t v 0 (λ e. full (rw (← e) empty))

module _ (ids : List (List ℕ)) (n k : ℕ) (slots : List ℕ) (index : IsIndex ids n k slots)
    (absent : (i : ℕ) → i < n → get_or ids i [] ≢ get_or ids n []) (steps : ℕ)
    (taken : AllTaken (2 ^ k) slots (get_or ids n []) steps)
    (empty : get_or slots (slot_at (2 ^ k) (get_or ids n []) steps) 0 ≡ 0)
    (near : steps < 2 ^ k) where
  slot : ℕ
  slot = slot_at (2 ^ k) (get_or ids n []) steps

  slots' : List ℕ
  slots' = set slots slot (suc n)

  slot-lt : slot < length slots
  unfolding slot
  slot-lt = rw (index.sized) (mod-lt (segment_hash (get_or ids n []) + steps) (pow_pos k))

  still_taken : (id : List ℕ) (d : ℕ) → AllTaken (2 ^ k) slots id d → AllTaken (2 ^ k) slots' id d
  unfolding slots' slot
  still_taken id d t e lt =
      rw (kept slots slot (slot_at (2 ^ k) id e) (suc n) empty (t e lt)) (t e lt)

  placed' : (i : ℕ) → i < suc n → IsPlaced ids (2 ^ k) slots' i
  unfolding slots' slot
  placed' i lt = elim (ℕ_discrete i n) [
    | yes last ↦ rw last (record {
      steps = steps;
      near = near;
      taken = still_taken (get_or ids n []) steps taken;
      stored = get_or-set_self slots slot (suc n) 0 slot-lt ∙ omega arith;
    })
    | no other ↦
        let p = index.placed i (omega arith) in
        record {
          steps = p.steps;
          near = p.near;
          taken = still_taken (get_or ids i []) p.steps p.taken;
          stored =
              kept slots slot (slot_at (2 ^ k) (get_or ids i []) p.steps) (suc n) empty
                (λ z. absurd (omega (arith, p.stored)))
              ∙ p.stored;
        }
  ]

  bounded' : (s : ℕ) → get_or slots' s 0 ≤ suc n
  unfolding slots'
  bounded' s = elim (ℕ_discrete slot s) [
    | yes same ↦ rw (← same, get_or-set_self slots slot (suc n) 0 slot-lt) (omega arith)
    | no other ↦ rw (get_or-set_ne slots slot s (suc n) 0 other) (omega (arith, index.bounded s))
  ]

  distinct' : (i j : ℕ) → i < suc n → j < suc n → get_or ids i [] ≡ get_or ids j [] → i ≡ j
  distinct' i j hi hj same = elim (ℕ_discrete i n) [
    | yes ei ↦ elim (ℕ_discrete j n) [
      | yes ej ↦ omega arith
      | no nj ↦ absurd (absent j (omega arith) (sym same ∙ ap (λ (t : ℕ). get_or ids t []) ei))
    ]
    | no ni ↦ elim (ℕ_discrete j n) [
      | yes ej ↦ absurd (absent i (omega arith) (same ∙ ap (λ (t : ℕ). get_or ids t []) ej))
      | no nj ↦ index.distinct i j (omega arith) (omega arith) same
    ]
  ]

  pub extended : IsIndex ids (suc n) k (set slots (slot_at (2 ^ k) (get_or ids n []) steps) (suc n))
  unfolding slots' slot
  extended = record {
    sized = length-set slots slot (suc n) ∙ index.sized;
    room = omega (arith, empty-set slots slot n slot-lt empty, index.room);
    bounded = bounded';
    placed = placed';
    distinct = distinct';
  }

-- An earlier position with the id, or none.
pub same_id :
    (ids : List (List ℕ)) (id : List ℕ) (n : ℕ)
    → ((i : ℕ) × (i < n) × (get_or ids i [] ≡ id)) ⊎ ((i : ℕ) → i < n → get_or ids i [] ≢ id)
same_id ids id zero = inr (λ i lt. absurd (omega arith))
same_id ids id (suc n) = elim (same_id ids id n) [
  | inl (i, lt, e) ↦ inl (i, omega arith, e)
  | inr fresh ↦ elim (Bool-cases (bytes_eq (get_or ids n []) id)) [
    | inl equal ↦ inl (n, omega arith, bytes_eq→eq _ _ equal)
    | inr differs ↦ inr λ i lt e. elim (ℕ_discrete i n) [
      | yes last ↦ false≢true (sym differs ∙ (rw (← last, e) (bytes_eq_refl id)))
      | no other ↦ fresh i (omega arith) e
    ]
  ]
]

module _ (ids : List (List ℕ)) (n k : ℕ) (slots : List ℕ) (index : IsIndex ids n k slots) where
  -- With an empty slot left, both walks for an absent id end at the same kind of slot.
  pub vacancy :
      (id : List ℕ)
      → n < 2 ^ k
      → ((i : ℕ) → i < n → get_or ids i [] ≢ id)
      → (m : ℕ) × (m < 2 ^ k)
        × IsVacancy ids n k slots id m (probe ids (2 ^ k) slots id (2 ^ k) (start_slot (2 ^ k) id))
        × IsVacancy ids n k slots id m (free_slot (2 ^ k) slots (2 ^ k) (start_slot (2 ^ k) id))
  vacancy id roomy absent =
      let (z, lt, empty) = empty_exists slots (omega (arith, index.room)) in
      let (m, near, there) = distance (segment_hash id) z (2 ^ k) (rw (← index.sized) lt) in
      let gap : get_or slots (slot_at (2 ^ k) id m) 0 ≡ 0 = rw there empty in
      (
        m,
        near,
        rw start_slot_lem (
            probe_vacant ids n k slots id index.bounded absent m gap (2 ^ k) 0 (omega arith)
              (omega arith) (λ e h. absurd (omega arith))),
        rw start_slot_lem (
            free_vacant ids n k slots id index.bounded absent m gap (2 ^ k) 0 (omega arith)
              (omega arith) (λ e h. absurd (omega arith))),
      )

  pub enter_fresh :
      (clash : Status)
      → n < 2 ^ k
      → ((i : ℕ) → i < n → get_or ids i [] ≢ get_or ids n [])
      → (slots' : List ℕ) × (enter clash ids (2 ^ k) n slots ≡ done slots')
        × IsIndex ids (suc n) k slots'
  unfolding enter
  enter_fresh clash roomy absent =
      let (m, near, v, _) = vacancy (get_or ids n []) roomy absent in
      (
        set slots (slot_at (2 ^ k) (get_or ids n []) v.steps) (suc n),
        rw (v.answer, enter)
            (ap (λ (t : ℕ). done (set slots (slot_at (2 ^ k) (get_or ids n []) v.steps) t))
              (omega arith)),
        extended ids n k slots index absent v.steps v.taken v.empty (omega (arith, v.near)),
      )

  pub enter_clash :
      (clash : Status) (i : ℕ)
      → i < n
      → get_or ids i [] ≡ get_or ids n []
      → enter clash ids (2 ^ k) n slots ≡ fail clash
  unfolding enter look_up
  enter_clash clash i lt same =
      let met : probe ids (2 ^ k) slots (get_or ids n []) (2 ^ k)
            (start_slot (2 ^ k) (get_or ids n []))
          ≡ found i =
        look_up_present ids n k slots index (get_or ids n []) i lt same in
      rw (met, enter)
