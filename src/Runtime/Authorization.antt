-- ===== src/Runtime/Authorization.antt =====
-- Who may write: the comparison that looks at every byte, and the header that it is used on.
use yappod.Prelude.{
  ℕ, zero, suc, ◌+◌, ◌%◌, ◌^◌, ◌≤◌, ◌<◌, ◌≡◌, ◌↔◌, inl, inr, refl, sym, ◌∙◌, true, false, none,
  some, List, [], ◌∷◌, ◌++◌, arith, ltb, ◌==◌, if◌then◌else◌, length, get_or, take, drop, bit_xor,
  Bool-cases, take-append-drop,
}
use yappod.Prelude.Bytes.{bytes_eq→eq, bytes_eq_refl, contains}
use yappod.Prelude.Zeros.{bit_or-eq-zero, bit_xor-eq-zero, bit_xor_self}
use yappod.Types.{ok, conflict}
use yappod.Runtime.{RuntimePolicy, differences, constant_time_equal, authorize_write, bearer}

byte_of : (xs : List ℕ) (i : ℕ) → (if ltb i (length xs) then get_or xs i 0 else 0) ≡ get_or xs i 0
byte_of [] i = ground arith
byte_of (x ∷ xs) zero = ground arith
byte_of (x ∷ xs) (suc i) = ground (arith, byte_of xs i)

differences_sound :
    (rounds i : ℕ) (left right : List ℕ) (difference : ℕ)
    → differences rounds i left right difference ≡ 0
    → (difference ≡ 0) × ((j : ℕ) → i ≤ j → j < i + rounds → get_or left j 0 ≡ get_or right j 0)
unfolding differences
differences_sound zero i left right difference e = (e, λ j h k. absurd (omega arith))
differences_sound (suc rounds) i left right difference e =
    let (acc, later) = differences_sound rounds (i + 1) left right _ e in
    let (old, new_byte) = bit_or-eq-zero difference _ acc in
    let same : get_or left i 0 ≡ get_or right i 0 =
      sym (byte_of left i) ∙ bit_xor-eq-zero _ _ new_byte ∙ byte_of right i in
    (
      old,
      λ j h k. elim (Bool-cases (i == j)) [
        | inl now ↦ let e : i ≡ j = ground arith in rw (← e) same
        | inr after ↦ later j (ground arith) (omega arith)
      ],
    )

differences_self : (rounds i : ℕ) (xs : List ℕ) → differences rounds i xs xs 0 ≡ 0
unfolding differences
differences_self zero i xs = refl
differences_self (suc rounds) i xs =
    rw (bit_xor_self (if ltb i (length xs) then get_or xs i 0 else 0))
      (differences_self rounds (i + 1) xs)

-- Strings without a zero byte that agree up to the end of the longer one are equal.
equal_strings :
    (xs ys : List ℕ)
    → contains 0 xs ≡ false
    → contains 0 ys ≡ false
    → ((j : ℕ) → j < length xs → get_or xs j 0 ≡ get_or ys j 0)
    → ((j : ℕ) → j < length ys → get_or xs j 0 ≡ get_or ys j 0)
    → xs ≡ ys
unfolding contains
equal_strings [] [] h k e f = refl
equal_strings [] (y ∷ ys) h k e f = absurd (ground (arith, f 0 (omega arith), k))
equal_strings (x ∷ xs) [] h k e f = absurd (ground (arith, e 0 (omega arith), h))
equal_strings (x ∷ xs) (y ∷ ys) h k e f =
    let first : x ≡ y = e 0 (omega arith) in
    let more : xs ≡ ys =
      equal_strings xs ys (ground arith) (ground arith) (λ j lt. e (suc j) (omega arith))
        (λ j lt. f (suc j) (omega arith)) in
    cc

longer : (a b : ℕ) → (a ≤ (if ltb b a then a else b)) × (b ≤ (if ltb b a then a else b))
longer a b = (ground arith, ground arith)

-- On strings without a zero byte, as C strings are, the comparison that looks at every byte answers
-- whether they are equal.
pub constant_time_equal_iff :
    (left right : List ℕ)
    → contains 0 left ≡ false
    → contains 0 right ≡ false
    → (constant_time_equal left right ≡ true) ↔ (left ≡ right)
unfolding constant_time_equal
constant_time_equal_iff left right h k = (
  λ e.
      let maximum = if ltb (length right) (length left) then length left else length right in
      let (_, same) =
        differences_sound maximum 0 left right (bit_xor (length left) (length right) % 2 ^ 32)
          (ground (arith, e)) in
      let (wide, wide') = longer (length left) (length right) in
      equal_strings left right h k (λ j lt. same j (omega arith) (omega arith))
        (λ j lt. same j (omega arith) (omega arith)),
  λ e. rw e (ground (arith, bit_xor_self (length right), differences_self (length right) 0 right)),
)

contains-drop : (n : ℕ) (xs : List ℕ) → contains 0 xs ≡ false → contains 0 (drop n xs) ≡ false
unfolding contains
contains-drop zero xs h = h
contains-drop (suc n) [] h = refl
contains-drop (suc n) (x ∷ xs) h = contains-drop n xs (ground arith)

-- Where a write token is set, a write is authorized exactly by the header that is "Bearer " and
-- then the token; a missing header is refused. Token and header are C strings.
pub authorize_write_iff :
    (policy : RuntimePolicy) (text : List ℕ)
    → 0 < length policy.write_token
    → contains 0 policy.write_token ≡ false
    → contains 0 text ≡ false
    → ((authorize_write policy (some text) ≡ ok) ↔ (text ≡ bearer ++ policy.write_token))
      × (authorize_write policy none ≡ conflict)
unfolding authorize_write
authorize_write_iff policy text some_token h k = (
  (
    λ e.
        let prefix : take 7 text ≡ bearer = bytes_eq→eq (take 7 text) bearer (ground (arith, e)) in
        let rest : drop 7 text ≡ policy.write_token =
          (constant_time_equal_iff (drop 7 text) policy.write_token (contains-drop 7 text k) h).0
            (ground (arith, e)) in
        sym (take-append-drop 7 text) ∙ rw (prefix, rest) refl,
    λ e. rw e (
        ground (
          arith,
          some_token,
          bytes_eq_refl bearer,
          (constant_time_equal_iff policy.write_token policy.write_token h h).1 refl,
        )),
  ),
  ground (arith, some_token),
)
