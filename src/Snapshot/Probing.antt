-- ===== src/Snapshot/Probing.antt =====
-- Walks along the visibility table before and after one record is entered.
use yappod.Prelude.{
  ℕ, zero, suc, ◌+◌, ◌%◌, ◌^◌, ◌≤◌, ◌<◌, ◌≡◌, ◌≢◌, ◌⊎◌, ◌↔◌, inl, inr, refl, sym, ◌∙◌, true, false,
  Option, none, some, arith, length, get_or, take_all, Bool-cases,
}
use yappod.Prelude.Bytes.{bytes_eq→eq, bytes_eq_refl}
use yappod.Prelude.Remainders.{remainder_small, remainder_once}
use yappod.Types.{BytesView, content}
use yappod.Storage.Slots.{segment_hash}
use yappod.Storage.Slots.Index.{slot_at, next_slot_lem}
use yappod.Types.Views.{HasBytes}
use yappod.Snapshot.{VisibilityEntry, Table, bytes_equal, entry_from}
use native.Mathlib.Decide.{ℕ_discrete, dec_lt}
use native.Mathlib.Nat.{mod-lt, mod-add-mod}

pub bytes_equal_iff :
    (v w : BytesView) → HasBytes v → HasBytes w → (bytes_equal v w ≡ true) ↔ (content v ≡ content w)
unfolding bytes_equal
bytes_equal_iff v w hv hw =
    rw
      (
        hv.there,
        hw.there,
        ← hv.sized,
        ← hw.sized,
        take_all (length hv.xs) hv.xs (omega arith),
        take_all (length hw.xs) hw.xs (omega arith),
      )
      (
        λ e. ground (arith, e, bytes_eq→eq hv.xs hw.xs),
        λ e. rw e (ground (arith, bytes_eq_refl hw.xs)),
      )

-- The place `d` steps behind the first one of an id.
abbrev pub place : ℕ → BytesView → ℕ → ℕ
place k id d = slot_at (2 ^ k) (content id) d

offset_cases :
    (r c d : ℕ) → r < c → d < c → ((r + d) % c ≡ r + d) × (r + d < c) ⊎ ((r + d) % c + c ≡ r + d)
offset_cases r c d hr hd = elim (dec_lt (r + d) c) [
  | yes small ↦ inl (remainder_small (r + d) c small, small)
  | no large ↦ inr (omega (arith, remainder_once (r + d) c (omega arith) (omega arith)))
]

offset_differs : (r c d e : ℕ) → r < c → d < c → e < c → (r + d) % c ≡ (r + e) % c → d ≡ e
offset_differs r c d e hr hd he same = elim (offset_cases r c d hr hd) [
  | inl (x, _) ↦ elim (offset_cases r c e hr he) [ inl (y, _) ↦ omega arith | inr y ↦ omega arith ]
  | inr x ↦ elim (offset_cases r c e hr he) [ inl (y, _) ↦ omega arith | inr y ↦ omega arith ]
]

pub place_differs :
    (k : ℕ) (id : BytesView) (d e : ℕ) → d < 2 ^ k → e < 2 ^ k → place k id d ≡ place k id e → d ≡ e
place_differs k id d e hd he same =
    let c = 2 ^ k in
    let h = segment_hash (content id) in
    offset_differs (h % c) c d e (mod-lt h {m = c} (omega arith)) hd he
      (mod-add-mod h c d ∙ same ∙ sym (mod-add-mod h c e))

-- What a walk for `id` finds in a slot.
pub data Seen (id : BytesView) (slot : Option VisibilityEntry) : Type 0 where
  free : slot ≡ none → Seen id slot
  match : (e : VisibilityEntry) → slot ≡ some e → bytes_equal e.id id ≡ true → Seen id slot
  other : (e : VisibilityEntry) → slot ≡ some e → bytes_equal e.id id ≡ false → Seen id slot

pub slot-Seen : (id : BytesView) (slot : Option VisibilityEntry) → Seen id slot
slot-Seen id none = free refl
slot-Seen id (some e) = elim (Bool-cases (bytes_equal e.id id)) [
  | inl same ↦ match e refl same
  | inr differs ↦ other e refl differs
]

pub record IsTable (k : ℕ) (table : Table) : Type 0 where
  pub sized : length table ≡ 2 ^ k
  pub there : (s : ℕ) (e : VisibilityEntry) → get_or table s none ≡ some e → HasBytes e.id
  pub reached :
      (e : VisibilityEntry) (d d' : ℕ)
      → d < 2 ^ k
      → get_or table (place k e.id d) none ≡ some e
      → d' < d
      → get_or table (place k e.id d') none ≢ none

-- The walk for `id` goes past the slots of the first steps.
abbrev pub Passes : ℕ → Table → BytesView → ℕ → Type 0
Passes k table id steps =
    (d : ℕ)
    → d < steps
    → (e : VisibilityEntry) × (get_or table (place k id d) none ≡ some e)
      × (bytes_equal e.id id ≡ false)

module _ (k : ℕ) (table : Table) (id : BytesView) where
  pass_more :
      (d : ℕ) (e : VisibilityEntry)
      → Passes k table id d
      → get_or table (place k id d) none ≡ some e
      → bytes_equal e.id id ≡ false
      → Passes k table id (d + 1)
  pass_more d e before here differs d' lt = elim (ℕ_discrete d' d) [
    | yes same ↦ rw same (e, here, differs)
    | no earlier ↦ before d' (omega arith)
  ]

  -- Where a record of `id` goes: behind slots of other ids, to an empty slot or the one of the id.
  pub record Target : Type 0 where
    pub steps : ℕ
    pub near : steps < 2 ^ k
    pub passed : Passes k table id steps
    pub fits :
        (get_or table (place k id steps) none ≡ none)
        ⊎ ((e : VisibilityEntry) × (get_or table (place k id steps) none ≡ some e)
            × (bytes_equal e.id id ≡ true))

  module _ (m : ℕ) (near : m < 2 ^ k) (gap : get_or table (place k id m) none ≡ none) where
    pub entry_from-Target :
        (rounds d : ℕ)
        → d ≤ m
        → m < d + rounds
        → Passes k table id d
        → (t : Target) × (entry_from (2 ^ k) table id rounds (place k id d)
            ≡ some (place k id t.steps))
    unfolding entry_from
    entry_from-Target zero d low high before = absurd (omega arith)
    entry_from-Target (suc rounds) d low high before =
        elim (slot-Seen id (get_or table (place k id d) none)) [
          | free vacant ↦ (
            record { steps = d; near = omega arith; passed = before; fits = inl vacant },
            rw (vacant, entry_from) refl,
          )
          | match e here same ↦ (
            record { steps = d; near = omega arith; passed = before; fits = inr (e, here, same) },
            rw (here, entry_from, same) refl,
          )
          | other e here differs ↦
              let beyond : d ≢ m = λ same.
                let at_gap : get_or table (place k id m) none ≡ some e = rw (← same) here in
                ground (arith, at_gap, gap) in
              let (t, found) =
                entry_from-Target rounds (d + 1) (omega arith) (omega arith)
                  (pass_more d e before here differs) in
              (t, rw (here, entry_from, differs, next_slot_lem k (content id) d) found)
        ]
