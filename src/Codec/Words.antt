-- ===== src/Codec/Words.antt =====
-- Writing a word and reading it back, and the other way round.
use yappod.Prelude.{
  ℕ, suc, ◌+◌, ◌*◌, ◌/◌, ◌%◌, ◌^◌, ◌≤◌, ◌<◌, ◌≡◌, refl, ◌∙◌, List, [], ◌∷◌, ◌++◌, arith, length,
  take, get_or, All,
}
use yappod.Prelude.Bytes.{IsByte}
use yappod.Prelude.Masks.{bit_and_mask, bit_or_shifted}
use yappod.Codec.{
  byte_at, put_u16_le, put_u32_le, put_u64_le, get_u16_le, get_u32_le, get_u64_le, get_from,
}
use yappod.Codec.Arith.{le_bytes, le_value, length-le_bytes, le_value-le_bytes, le_bytes-le_value}

byte_at_lem : (v i : ℕ) → byte_at v i ≡ v / 2 ^ (i * 8) % 256
byte_at_lem v i = bit_and_mask (v / 2 ^ (i * 8)) 8

put_u16-le_bytes : (v : ℕ) → put_u16_le v ≡ le_bytes 2 v
unfolding put_u16_le le_bytes
put_u16-le_bytes v = ground (arith, byte_at_lem v 0, byte_at_lem v 1)

put_u32-le_bytes : (v : ℕ) → put_u32_le v ≡ le_bytes 4 v
unfolding put_u32_le le_bytes
put_u32-le_bytes v =
    ground (arith, byte_at_lem v 0, byte_at_lem v 1, byte_at_lem v 2, byte_at_lem v 3)

put_u64-le_bytes : (v : ℕ) → put_u64_le v ≡ le_bytes 8 v
unfolding put_u64_le le_bytes
put_u64-le_bytes v = ground (
  arith,
  byte_at_lem v 0,
  byte_at_lem v 1,
  byte_at_lem v 2,
  byte_at_lem v 3,
  byte_at_lem v 4,
  byte_at_lem v 5,
  byte_at_lem v 6,
  byte_at_lem v 7,
)

module _ (a b : ℕ) (rest : List ℕ) where
  get_u16_bytes : a < 256 → b < 256 → get_u16_le (a ∷ b ∷ rest) ≡ a + b * 2 ^ 8
  unfolding get_u16_le
  get_u16_bytes ha hb = bit_or_shifted a b 8 ha

  get_u32_bytes :
      (c d : ℕ)
      → a < 256
      → b < 256
      → c < 256
      → d < 256
      → get_u32_le (a ∷ b ∷ c ∷ d ∷ rest) ≡ a + b * 2 ^ 8 + c * 2 ^ 16 + d * 2 ^ 24
  unfolding get_u32_le
  get_u32_bytes c d ha hb hc hd =
      rw
        (
          bit_or_shifted a b 8 ha,
          bit_or_shifted (a + b * 2 ^ 8) c 16 (omega arith),
          bit_or_shifted (a + b * 2 ^ 8 + c * 2 ^ 16) d 24 (omega arith),
        )
        refl

get_from_step :
    (rounds i value : ℕ) (input : List ℕ)
    → value < 2 ^ (i * 8)
    → get_from (suc rounds) i value input
      ≡ get_from rounds (i + 1) (value + get_or input i 0 * 2 ^ (i * 8)) input
unfolding get_from
get_from_step rounds i value input h = rw (bit_or_shifted value (get_or input i 0) (i * 8) h)

module _ (a b c d e f g h : ℕ) (rest : List ℕ) where
  get_u64_bytes :
      a < 256
      → b < 256
      → c < 256
      → d < 256
      → e < 256
      → f < 256
      → g < 256
      → h < 256
      → get_u64_le (a ∷ b ∷ c ∷ d ∷ e ∷ f ∷ g ∷ h ∷ rest)
        ≡ le_value (a ∷ b ∷ c ∷ d ∷ e ∷ f ∷ g ∷ h ∷ [])
  unfolding le_value get_u64_le get_from
  get_u64_bytes ha hb hc hd he hf hg hh =
      step 7 0 0 (omega arith)
      ∙ step 6 1 _ (omega arith)
      ∙ step 5 2 _ (omega arith)
      ∙ step 4 3 _ (omega arith)
      ∙ step 3 4 _ (omega arith)
      ∙ step 2 5 _ (omega arith)
      ∙ step 1 6 _ (omega arith)
      ∙ step 0 7 _ (omega arith)
      ∙ omega arith
    where
      input : List ℕ
      input = a ∷ b ∷ c ∷ d ∷ e ∷ f ∷ g ∷ h ∷ rest

      step :
          (rounds i value : ℕ)
          → value < 2 ^ (i * 8)
          → get_from (suc rounds) i value input
            ≡ get_from rounds (i + 1) (value + get_or input i 0 * 2 ^ (i * 8)) input
      step rounds i value lt = get_from_step rounds i value input lt

-- Reading back a written word, whatever follows it.
pub get_u16-put_u16 : (v : ℕ) (rest : List ℕ) → v < 2 ^ 16 → get_u16_le (put_u16_le v ++ rest) ≡ v
get_u16-put_u16 v rest h = rw (put_u16-le_bytes v) (
    unfold le_bytes in
    get_u16_bytes (v % 256) (v / 256 % 256) rest (omega arith) (omega arith) ∙ omega arith)

pub get_u32-put_u32 : (v : ℕ) (rest : List ℕ) → v < 2 ^ 32 → get_u32_le (put_u32_le v ++ rest) ≡ v
get_u32-put_u32 v rest h = rw (put_u32-le_bytes v) (
    unfold le_bytes in
    get_u32_bytes (v % 256) (v / 256 % 256) rest (v / 256 / 256 % 256) (v / 256 / 256 / 256 % 256)
      (omega arith) (omega arith) (omega arith) (omega arith)
    ∙ omega arith)

pub get_u64-put_u64 : (v : ℕ) (rest : List ℕ) → v < 2 ^ 64 → get_u64_le (put_u64_le v ++ rest) ≡ v
get_u64-put_u64 v rest h = rw (put_u64-le_bytes v) (
    unfold le_bytes in
    get_u64_bytes _ _ _ _ _ _ _ _ rest (omega arith) (omega arith) (omega arith) (omega arith)
      (omega arith) (omega arith) (omega arith) (omega arith)
    ∙ le_value-le_bytes 8 v h)

-- Writing back a word that was read from bytes.
pub put_u16-get_u16 :
    (a b : ℕ) (rest : List ℕ)
    → a < 256
    → b < 256
    → put_u16_le (get_u16_le (a ∷ b ∷ rest)) ≡ a ∷ b ∷ []
put_u16-get_u16 a b rest ha hb =
    rw (get_u16_bytes a b rest ha hb, put_u16-le_bytes) (unfold le_bytes in ground arith)

pub put_u32-get_u32 :
    (a b c d : ℕ) (rest : List ℕ)
    → a < 256
    → b < 256
    → c < 256
    → d < 256
    → put_u32_le (get_u32_le (a ∷ b ∷ c ∷ d ∷ rest)) ≡ a ∷ b ∷ c ∷ d ∷ []
put_u32-get_u32 a b c d rest ha hb hc hd =
    rw (get_u32_bytes a b rest c d ha hb hc hd, put_u32-le_bytes) (unfold le_bytes in ground arith)

pub put_u64-get_u64 :
    (a b c d e f g h : ℕ) (rest : List ℕ)
    → a < 256
    → b < 256
    → c < 256
    → d < 256
    → e < 256
    → f < 256
    → g < 256
    → h < 256
    → put_u64_le (get_u64_le (a ∷ b ∷ c ∷ d ∷ e ∷ f ∷ g ∷ h ∷ rest))
      ≡ a ∷ b ∷ c ∷ d ∷ e ∷ f ∷ g ∷ h ∷ []
put_u64-get_u64 a b c d e f g h rest ha hb hc hd he hf hg hh =
    rw (get_u64_bytes a b c d e f g h rest ha hb hc hd he hf hg hh, put_u64-le_bytes)
      (le_bytes-le_value (a ∷ b ∷ c ∷ d ∷ e ∷ f ∷ g ∷ h ∷ []) (omega arith))

pub length-put_u32 : (v : ℕ) → length (put_u32_le v) ≡ 4
length-put_u32 v = rw (put_u32-le_bytes v) (length-le_bytes 4 v)

pub length-put_u64 : (v : ℕ) → length (put_u64_le v) ≡ 8
length-put_u64 v = rw (put_u64-le_bytes v) (length-le_bytes 8 v)

-- The same on the front of a longer buffer.
pub put-get_u16_take :
    (xs : List ℕ) → 2 ≤ length xs → All IsByte xs → put_u16_le (get_u16_le xs) ≡ take 2 xs
put-get_u16_take (a ∷ b ∷ rest) h v = put_u16-get_u16 a b rest v.0 v.1.0
put-get_u16_take _ h v = absurd (omega arith)

pub put-get_u32_take :
    (xs : List ℕ) → 4 ≤ length xs → All IsByte xs → put_u32_le (get_u32_le xs) ≡ take 4 xs
put-get_u32_take (a ∷ b ∷ c ∷ d ∷ rest) h v =
    put_u32-get_u32 a b c d rest v.0 v.1.0 v.1.1.0 v.1.1.1.0
put-get_u32_take _ h v = absurd (omega arith)

pub put-get_u64_take :
    (xs : List ℕ) → 8 ≤ length xs → All IsByte xs → put_u64_le (get_u64_le xs) ≡ take 8 xs
put-get_u64_take (a ∷ b ∷ c ∷ d ∷ e ∷ f ∷ g ∷ i ∷ rest) h v =
    let w = v.1.1.1.1 in
    put_u64-get_u64 a b c d e f g i rest v.0 v.1.0 v.1.1.0 v.1.1.1.0 w.0 w.1.0 w.1.1.0 w.1.1.1.0
put-get_u64_take _ h v = absurd (omega arith)

-- A word that is read from bytes, or from beyond their end, is within its type.
pub get_u64_le-lt :
    (input : List ℕ) → ((i : ℕ) → get_or input i 0 < 256) → get_u64_le input < 2 ^ 64
unfolding get_u64_le get_from
get_u64_le-lt input h =
    let sum =
      get_from_step 7 0 0 input (omega arith)
      ∙ get_from_step 6 1 _ input (omega (arith, h 0))
      ∙ get_from_step 5 2 _ input (omega (arith, h 0, h 1))
      ∙ get_from_step 4 3 _ input (omega (arith, h 0, h 1, h 2))
      ∙ get_from_step 3 4 _ input (omega (arith, h 0, h 1, h 2, h 3))
      ∙ get_from_step 2 5 _ input (omega (arith, h 0, h 1, h 2, h 3, h 4))
      ∙ get_from_step 1 6 _ input (omega (arith, h 0, h 1, h 2, h 3, h 4, h 5))
      ∙ get_from_step 0 7 _ input (omega (arith, h 0, h 1, h 2, h 3, h 4, h 5, h 6)) in
    omega (arith, sum, h 0, h 1, h 2, h 3, h 4, h 5, h 6, h 7)
