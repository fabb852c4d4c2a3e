-- ===== src/Storage/Slots/Index.antt =====
-- When a table indexes the first `n` ids, and what a look-up in it answers.
use yappod.Prelude.{
  ℕ, zero, suc, ◌+◌, ◌-◌, ◌%◌, ◌^◌, ◌≤◌, ◌<◌, ◌≡◌, ◌≢◌, inl, inr, sym, ap, ◌∙◌, true, List, [], ◌∷◌,
  arith, ◌==◌, if◌then◌else◌, get_or, length, Bool-cases,
}
use yappod.Prelude.Bytes.{bytes_eq, bytes_eq_refl, bytes_eq→eq}
use yappod.Prelude.Masks.{bit_and_mask}
use yappod.Storage.Slots.{segment_hash, start_slot, next_slot, found, probe, look_up}
use native.Mathlib.Decide.{ℕ_discrete}
use native.Mathlib.Nat.{mod-add-mod}

-- The slot `d` steps behind the first one of an id.
abbrev pub slot_at : ℕ → List ℕ → ℕ → ℕ
slot_at capacity id d = (segment_hash id + d) % capacity

-- The slots that a walk passes before step `d` are taken.
abbrev pub AllTaken : ℕ → List ℕ → List ℕ → ℕ → Type 0
AllTaken capacity slots id d = (e : ℕ) → e < d → get_or slots (slot_at capacity id e) 0 ≢ 0

unfoldable pub empty_slots : List ℕ → ℕ
empty_slots [] = 0
empty_slots (x ∷ xs) = if x == 0 then suc (empty_slots xs) else empty_slots xs

-- Where position `i` stands.
pub record IsPlaced (ids : List (List ℕ)) (capacity : ℕ) (slots : List ℕ) (i : ℕ) : Type 0 where
  pub steps : ℕ
  pub near : steps < capacity
  pub taken : AllTaken capacity slots (get_or ids i []) steps
  pub stored : get_or slots (slot_at capacity (get_or ids i []) steps) 0 ≡ i + 1

-- The capacity is `2 ^ k`.
pub record IsIndex (ids : List (List ℕ)) (n k : ℕ) (slots : List ℕ) : Type 0 where
  pub sized : length slots ≡ 2 ^ k
  pub room : empty_slots slots + n ≡ 2 ^ k
  pub bounded : (s : ℕ) → get_or slots s 0 ≤ n
  pub placed : (i : ℕ) → i < n → IsPlaced ids (2 ^ k) slots i
  pub distinct : (i j : ℕ) → i < n → j < n → get_or ids i [] ≡ get_or ids j [] → i ≡ j

pub start_slot_lem : (k : ℕ) (id : List ℕ) → start_slot (2 ^ k) id ≡ slot_at (2 ^ k) id 0
start_slot_lem k id = bit_and_mask (segment_hash id) k ∙ ap (λ (t : ℕ). t % 2 ^ k) (omega arith)

pub next_slot_lem :
    (k : ℕ) (id : List ℕ) (d : ℕ)
    → next_slot (2 ^ k) (slot_at (2 ^ k) id d) ≡ slot_at (2 ^ k) id (d + 1)
next_slot_lem k id d =
    bit_and_mask (slot_at (2 ^ k) id d + 1) k
    ∙ mod-add-mod (segment_hash id + d) (2 ^ k) 1
    ∙ ap (λ (t : ℕ). t % 2 ^ k) (omega arith)

module _ (ids : List (List ℕ)) (n k : ℕ) (slots id : List ℕ) where
  -- A position that a walk answers is below `n` and has the id.
  pub probe_sound :
      ((s : ℕ) → get_or slots s 0 ≤ n)
      → (rounds slot j : ℕ) → probe ids (2 ^ k) slots id rounds slot ≡ found j
      → (j < n) × (get_or ids j [] ≡ id)
  unfolding probe
  probe_sound bounded zero slot j h = cc
  probe_sound bounded (suc rounds) slot j h = ground (
    arith,
    bounded slot,
    bytes_eq→eq (get_or ids (get_or slots slot 0 - 1) []) id,
    probe_sound bounded rounds (next_slot (2 ^ k) slot) j,
  )

  -- A walk meets position `i` if it starts on the way to it, or an earlier segment with the id.
  pub probe_meets :
      (i steps : ℕ)
      → get_or ids i [] ≡ id
      → AllTaken (2 ^ k) slots id steps
      → get_or slots (slot_at (2 ^ k) id steps) 0 ≡ i + 1
      → (rounds d : ℕ) → d ≤ steps
      → steps < d + rounds
      → (j : ℕ) × (probe ids (2 ^ k) slots id rounds (slot_at (2 ^ k) id d) ≡ found j)
  unfolding probe
  probe_meets i steps same taken stored zero d low high = absurd (omega arith)
  probe_meets i steps same taken stored (suc rounds) d low high = elim (ℕ_discrete d steps) [
    | yes e ↦
        let here : get_or slots (slot_at (2 ^ k) id d) 0 ≡ i + 1 = rw e stored in
        let equal : bytes_eq (get_or ids i []) id ≡ true = rw same (bytes_eq_refl id) in
        let back : get_or slots (slot_at (2 ^ k) id d) 0 - 1 ≡ i = omega arith in
        (i, rw back (ground arith))
    | no other ↦
        let encoded = get_or slots (slot_at (2 ^ k) id d) 0 in
        let full : encoded ≢ 0 = taken d (omega arith) in
        elim (Bool-cases (bytes_eq (get_or ids (encoded - 1) []) id)) [
          | inl equal ↦ (encoded - 1, ground arith)
          | inr differs ↦
              let (j, e) =
                probe_meets i steps same taken stored rounds (d + 1) (omega arith) (omega arith) in
              (j, ground (arith, e, next_slot_lem k id d))
        ]
  ]

module _ (ids : List (List ℕ)) (n k : ℕ) (slots : List ℕ) (index : IsIndex ids n k slots) where
  -- In an index a look-up answers the position of the id if it is among the first `n`.
  pub look_up_present :
      (id : List ℕ) (i : ℕ) → i < n → get_or ids i [] ≡ id → look_up ids (2 ^ k) slots id ≡ found i
  unfolding look_up
  look_up_present id i lt same =
      let p = index.placed i lt in
      let taken : AllTaken (2 ^ k) slots id p.steps = rw (← same) p.taken in
      let stored : get_or slots (slot_at (2 ^ k) id p.steps) 0 ≡ i + 1 = rw (← same) p.stored in
      let (j, e) =
        probe_meets ids n k slots id i p.steps same taken stored (2 ^ k) 0 (omega arith)
          (omega (arith, p.near)) in
      let e' : look_up ids (2 ^ k) slots id ≡ found j =
        unfold look_up in rw (start_slot_lem k id) e in
      let (lt', same') = probe_sound ids n k slots id index.bounded (2 ^ k) _ j e' in
      rw (← index.distinct j i lt' lt (same' ∙ sym same)) e'

  -- A position that a look-up answers is below `n` and has the id.
  pub look_up_sound :
      (id : List ℕ) (j : ℕ)
      → look_up ids (2 ^ k) slots id ≡ found j
      → (j < n) × (get_or ids j [] ≡ id)
  unfolding look_up
  look_up_sound id j e = probe_sound ids n k slots id index.bounded (2 ^ k) _ j e
