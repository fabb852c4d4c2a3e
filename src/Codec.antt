-- ===== src/Codec.antt =====
-- Little-endian words and CRC-32C: `put_u*`/`get_u*` of src/storage/yappo_storage_v2.c,
-- src/storage/yappo_manifest_v2.c and src/indexing/yappo_update_wal_v2.c, which hold the same code.
-- A buffer is the list of its bytes. A read past the end of a list gives 0; no caller makes one.
mod Arith
pub mod Words
pub mod Crc
use yappod.Prelude.{
  ℕ, zero, suc, ◌+◌, ◌*◌, ◌/◌, ◌^◌, List, [], ◌∷◌, ◌++◌, bit_and, bit_or, bit_xor, get_or, take,
  ◌-◌,
}

-- `(unsigned char)((value >> 8 * i) & 0xffU)`
abbrev byte_at : ℕ → ℕ → ℕ
byte_at value i = bit_and (value / 2 ^ (i * 8)) 0xff

unfoldable pub put_u16_le : ℕ → List ℕ
put_u16_le value = byte_at value 0 ∷ byte_at value 1 ∷ []

unfoldable pub put_u32_le : ℕ → List ℕ
put_u32_le value = byte_at value 0 ∷ byte_at value 1 ∷ byte_at value 2 ∷ byte_at value 3 ∷ []

-- `for (i = 0; i < 8; i++) output[i] = ...`, on the rounds that are left.
put_from : ℕ → ℕ → ℕ → List ℕ
put_from zero i value = []
put_from (suc rounds) i value = byte_at value i ∷ put_from rounds (i + 1) value

unfoldable pub put_u64_le : ℕ → List ℕ
unfolding put_from
put_u64_le value = put_from 8 0 value

unfoldable pub get_u16_le : List ℕ → ℕ
get_u16_le input = bit_or (get_or input 0 0) (get_or input 1 0 * 2 ^ 8)

unfoldable pub get_u32_le : List ℕ → ℕ
get_u32_le input =
    bit_or
      (bit_or (bit_or (get_or input 0 0) (get_or input 1 0 * 2 ^ 8)) (get_or input 2 0 * 2 ^ 16))
      (get_or input 3 0 * 2 ^ 24)

-- `for (i = 0; i < 8; i++) value |= (uint64_t)input[i] << (i * 8)`
get_from : ℕ → ℕ → ℕ → List ℕ → ℕ
get_from zero i value input = value
get_from (suc rounds) i value input =
    get_from rounds (i + 1) (bit_or value (get_or input i 0 * 2 ^ (i * 8))) input

unfoldable pub get_u64_le : List ℕ → ℕ
unfolding get_from
get_u64_le input = get_from 8 0 0 input
