-- ===== src/Storage/Descriptor/Components.antt =====
-- Which components, segment ids and pairs of descriptors are accepted.
use yappod.Prelude.{
  ℕ, zero, suc, ◌≤◌, ◌<◌, ◌≡◌, ◌↔◌, ◌⊎◌, refl, true, List, [], ◌∷◌, arith, length, min, All,
}
use yappod.Prelude.Bytes.{bytes_eq_refl, bytes_eq→eq}
use yappod.Types.{ok, max_identifier_bytes}
use yappod.Storage.Descriptor.{
  Component, Segment, bounded_length, c_string_validate, id_char, all_id_chars, segment_id_validate,
  component_equal, components_equal, segment_descriptor_equal,
}

pub bounded_length_lem : (n : ℕ) (xs : List ℕ) → bounded_length n xs ≡ min n (length xs)
unfolding bounded_length
bounded_length_lem zero xs = omega arith
bounded_length_lem (suc n) [] = omega arith
bounded_length_lem (suc n) (x ∷ xs) = omega (arith, bounded_length_lem n xs)

-- A letter, a digit, a dash, an underscore or a dot.
abbrev pub IsIdChar : ℕ → Type 0
IsIdChar c =
    ((b'a' ≤ c) × (c ≤ b'z'))
    ⊎ ((b'A' ≤ c) × (c ≤ b'Z'))
    ⊎ ((b'0' ≤ c) × (c ≤ b'9'))
    ⊎ (c ≡ b'-')
    ⊎ (c ≡ b'_')
    ⊎ (c ≡ b'.')

-- A segment id: 1 to 255 letters, digits, dashes, underscores and dots.
pub record IsSegmentId (id : List ℕ) : Type 0 where
  pub not_empty : 0 < length id
  pub fits : length id ≤ max_identifier_bytes
  pub chars : All IsIdChar id

id_char_iff : (c : ℕ) → (id_char c ≡ true) ↔ IsIdChar c
unfolding id_char
id_char_iff c = (λ h. ground arith, λ v. ground (arith, v))

all_id_chars_iff : (id : List ℕ) → (all_id_chars id ≡ true) ↔ All IsIdChar id
unfolding all_id_chars
all_id_chars_iff [] = (λ h. tt, λ h. refl)
all_id_chars_iff (c ∷ rest) = (
  λ h. ((id_char_iff c).0 (ground arith), (all_id_chars_iff rest).0 (ground arith)),
  λ h. ground (arith, (id_char_iff c).1 h.0, (all_id_chars_iff rest).1 h.1),
)

-- `segment_id_validate` accepts exactly the ids of 1 to 255 letters, digits, dashes, underscores and
-- dots.
pub segment_id_validate_iff : (id : List ℕ) → (segment_id_validate id ≡ ok) ↔ IsSegmentId id
unfolding segment_id_validate c_string_validate
segment_id_validate_iff id = (
  λ h. record {
    not_empty = ground (arith, bounded_length_lem 256 id);
    fits = ground (arith, bounded_length_lem 256 id);
    chars = (all_id_chars_iff id).0 (ground arith);
  },
  λ v.
      ground
        (arith, bounded_length_lem 256 id, v.not_empty, v.fits, (all_id_chars_iff id).1 v.chars),
)

components_equal→eq :
    (xs ys : List Component) → length xs ≡ length ys → components_equal xs ys ≡ true → xs ≡ ys
unfolding components_equal component_equal
components_equal→eq [] [] e h = refl
components_equal→eq [] (y ∷ ys) e h = absurd (omega arith)
components_equal→eq (x ∷ xs) [] e h = absurd (omega arith)
components_equal→eq (x ∷ xs) (y ∷ ys) e h = ground (
  arith,
  bytes_eq→eq x.name y.name,
  bytes_eq→eq x.checksum y.checksum,
  components_equal→eq xs ys (omega arith),
)

components_equal_refl : (xs : List Component) → components_equal xs xs ≡ true
unfolding components_equal component_equal
components_equal_refl [] = refl
components_equal_refl (x ∷ xs) =
    ground (arith, bytes_eq_refl x.name, bytes_eq_refl x.checksum, components_equal_refl xs)

-- `segment_descriptor_equal` says yes exactly for two equal descriptors: no field is left out of the
-- comparison.
pub segment_descriptor_equal_iff : (a b : Segment) → (segment_descriptor_equal a b ≡ true) ↔ (a ≡ b)
unfolding segment_descriptor_equal
segment_descriptor_equal_iff a b = (
  λ h. ground (arith, bytes_eq→eq a.id b.id, components_equal→eq a.components b.components),
  λ e. rw e (ground (arith, bytes_eq_refl b.id, components_equal_refl b.components)),
)
