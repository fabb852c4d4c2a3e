-- ===== src/Codec/Crc.antt =====
-- CRC-32C as the program writes it twice: without a branch (storage/yappo_manifest_v2.c,
-- indexing/yappo_update_wal_v2.c) and with one (components/yappo_lexical_v2.c).
use yappod.Prelude.{
  ℕ, zero, suc, ◌-◌, ◌/◌, ◌%◌, ◌^◌, ◌≤◌, ◌<◌, ◌≡◌, refl, ap, ◌∙◌, List, [], ◌∷◌, ◌++◌, arith,
  bit_and, bit_xor, ◌==◌, if◌then◌else◌, not,
}
use Prim.Native.Nat.{digits, differ, bit_xor-bitwise}
use yappod.Prelude.Masks.{bit_and_mask}

abbrev polynomial : ℕ
polynomial = 0x82f63b78

-- `(uint32_t)-(int32_t)x`
abbrev neg_u32 : ℕ → ℕ
neg_u32 x = (2 ^ 32 - x) % 2 ^ 32

-- `~x` on a uint32_t
abbrev pub not_u32 : ℕ → ℕ
not_u32 x = 2 ^ 32 - 1 - x

crc_bits : ℕ → ℕ → ℕ
crc_bits zero crc = crc
crc_bits (suc bits) crc =
    crc_bits bits (bit_xor (crc / 2) (bit_and polynomial (neg_u32 (bit_and crc 1))))

unfoldable pub crc32c_update : ℕ → List ℕ → ℕ
unfolding crc_bits
crc32c_update crc [] = crc
crc32c_update crc (byte ∷ rest) = crc32c_update (crc_bits 8 (bit_xor crc byte)) rest

unfoldable pub crc32c : List ℕ → ℕ
unfolding crc32c_update
crc32c input = not_u32 (crc32c_update 0xffffffff input)

-- The loop of components/yappo_lexical_v2.c.
branching_bits : ℕ → ℕ → ℕ
branching_bits zero crc = crc
branching_bits (suc bits) crc =
    branching_bits bits (if not (bit_and crc 1 == 0) then bit_xor (crc / 2) polynomial else crc / 2)

branching_update : ℕ → List ℕ → ℕ
branching_update crc [] = crc
branching_update crc (byte ∷ rest) = branching_update (branching_bits 8 (bit_xor crc byte)) rest

pub crc32c_branching : List ℕ → ℕ
crc32c_branching input = not_u32 (branching_update 0xffffffff input)

pub crc32c-lt : (input : List ℕ) → crc32c input < 2 ^ 32
unfolding crc32c
crc32c-lt input = omega arith

pub crc32c_update-append :
    (crc : ℕ) (xs ys : List ℕ)
    → crc32c_update crc (xs ++ ys) ≡ crc32c_update (crc32c_update crc xs) ys
unfolding crc32c_update
crc32c_update-append crc [] ys = refl
crc32c_update-append crc (x ∷ xs) ys = crc32c_update-append (crc_bits 8 (bit_xor crc x)) xs ys

differ_zero : (x : ℕ) → differ x 0 ≡ x
differ_zero zero = refl
differ_zero (suc x) = refl

xor_zero_digits : (n x : ℕ) → x ≤ n → digits (λ b. b) differ n x 0 ≡ x
xor_zero_digits zero x h = omega arith
xor_zero_digits (suc n) zero h = refl
xor_zero_digits (suc n) (suc x) h =
    omega (arith, xor_zero_digits n (suc x / 2) (omega arith), differ_zero (suc x % 2))

bit_xor_zero : (x : ℕ) → bit_xor x 0 ≡ x
bit_xor_zero x = bit_xor-bitwise x 0 ∙ xor_zero_digits x x (omega arith)

mask_of_bit :
    (b : ℕ) → b < 2 → bit_and polynomial (neg_u32 b) ≡ (if not (b == 0) then polynomial else 0)
mask_of_bit zero h = refl
mask_of_bit (suc zero) h = refl
mask_of_bit (suc (suc b)) h = absurd (omega arith)

crc_step :
    (crc : ℕ)
    → bit_xor (crc / 2) (bit_and polynomial (neg_u32 (bit_and crc 1)))
      ≡ (if not (bit_and crc 1 == 0) then bit_xor (crc / 2) polynomial else crc / 2)
crc_step crc =
    rw (mask_of_bit (bit_and crc 1) (omega (arith, bit_and_mask crc 1)))
      (ground (arith, bit_xor_zero (crc / 2)))

crc_bits-branching : (bits crc : ℕ) → crc_bits bits crc ≡ branching_bits bits crc
unfolding crc_bits branching_bits
crc_bits-branching zero crc = refl
crc_bits-branching (suc bits) crc = rw (← crc_step crc) (crc_bits-branching bits _)

crc_update-branching :
    (crc : ℕ) (input : List ℕ) → crc32c_update crc input ≡ branching_update crc input
unfolding crc32c_update branching_update
crc_update-branching crc [] = refl
crc_update-branching crc (byte ∷ rest) =
    rw (crc_bits-branching 8 (bit_xor crc byte))
      (crc_update-branching (branching_bits 8 (bit_xor crc byte)) rest)

-- The two CRC loops of the program, the branch-free one of the manifest and log files and the
-- branching one of the lexical components, give the same checksum on every list of bytes.
pub crc32c-branching : (input : List ℕ) → crc32c input ≡ crc32c_branching input
unfolding crc32c crc32c_branching
crc32c-branching input = ap not_u32 (crc_update-branching 0xffffffff input)

-- The published check value of CRC-32C, for the digits 1 to 9.
check_value :
    crc32c (0x31 ∷ 0x32 ∷ 0x33 ∷ 0x34 ∷ 0x35 ∷ 0x36 ∷ 0x37 ∷ 0x38 ∷ 0x39 ∷ []) ≡ 0xe3069283
unfolding crc32c
check_value = refl
