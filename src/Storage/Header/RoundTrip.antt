-- ===== src/Storage/Header/RoundTrip.antt =====
-- A header that the encoder accepts is read back unchanged, and a header that the decoder accepts
-- is written as it was read.
use yappod.Prelude.{
  ℕ, ◌+◌, ◌^◌, ◌≤◌, ◌<◌, drop-drop, take-append-drop, length-drop, All-drop, ◌≡◌, refl, sym, ap,
  ◌∙◌, take_all, false, List, [], ◌∷◌, ◌++◌, arith, length, drop, take, All, Bool-cases, inl, inr,
}
use yappod.Prelude.Bytes.{IsByte}
use yappod.Codec.{put_u16_le, put_u32_le, put_u64_le, get_u16_le, get_u32_le, get_u64_le}
use yappod.Codec.Words.{
  get_u16-put_u16, get_u32-put_u32, get_u64-put_u64, put-get_u16_take, put-get_u32_take,
  put-get_u64_take,
}
use yappod.Types.{done}
use yappod.Storage.Header.{
  FileHeader, fields_bad, file_header_encode, file_header_decode, header_output, read_fields,
  bad_magic,
}

-- The fields are within their C types.
pub record IsHeader (h : FileHeader) : Type 0 where
  pub version : h.format_version < 2 ^ 16
  pub header : h.header_bytes < 2 ^ 16
  pub type : h.file_type < 2 ^ 32
  pub generation : h.generation < 2 ^ 64
  pub payload : h.payload_bytes < 2 ^ 64
  pub crc : h.payload_crc32c < 2 ^ 32

-- What the encoder writes, with `rest` behind it, in the bracketing in which it is read.
module _ (h : FileHeader) (rest : List ℕ) where
  from_payload : List ℕ
  from_payload = put_u64_le h.payload_bytes ++ (put_u32_le h.payload_crc32c ++ rest)

  from_type : List ℕ
  from_type = put_u32_le h.file_type ++ (put_u64_le h.generation ++ from_payload)

  written : List ℕ
  written =
      b'Y' ∷ b'A' ∷ b'P' ∷ b'2' ∷ put_u16_le h.format_version
      ++ (put_u16_le h.header_bytes ++ from_type)

  fields-written : IsHeader h → read_fields written ≡ h
  unfolding read_fields written from_type from_payload put_u16_le put_u32_le put_u64_le
  fields-written v = λ i. record {
    format_version =
        get_u16-put_u16 h.format_version (put_u16_le h.header_bytes ++ from_type) v.version i;
    header_bytes = get_u16-put_u16 h.header_bytes from_type v.header i;
    file_type = get_u32-put_u32 h.file_type (put_u64_le h.generation ++ from_payload) v.type i;
    generation = get_u64-put_u64 h.generation from_payload v.generation i;
    payload_bytes =
        get_u64-put_u64 h.payload_bytes (put_u32_le h.payload_crc32c ++ rest) v.payload i;
    payload_crc32c = get_u32-put_u32 h.payload_crc32c rest v.crc i;
  }

output-written : (h : FileHeader) (rest : List ℕ) → header_output h ++ rest ≡ written h rest
unfolding header_output written from_type from_payload put_u16_le put_u32_le put_u64_le
output-written h rest = refl

pub length-header_output : (h : FileHeader) → length (header_output h) ≡ 32
unfolding header_output put_u16_le put_u32_le put_u64_le
length-header_output h = refl

fields_read :
    (h : FileHeader) (rest : List ℕ) → IsHeader h → read_fields (header_output h ++ rest) ≡ h
fields_read h rest v = rw (output-written h rest) (fields-written h rest v)

magic_read : (h : FileHeader) (rest : List ℕ) → bad_magic (header_output h ++ rest) ≡ false
unfolding header_output bad_magic
magic_read h rest = refl

encode-eq-done :
    (h : FileHeader) (output : List ℕ)
    → file_header_encode h ≡ done output
    → (fields_bad h ≡ false) × (output ≡ header_output h)
unfolding file_header_encode
encode-eq-done h output e = elim (Bool-cases (fields_bad h)) [
  | inl bad ↦ cc (rw bad at e)
  | inr good ↦ (good, cc (rw good at e))
]

-- A header whose fields are within their C types and that the encoder accepts is read back
-- unchanged by the decoder, whatever bytes follow it; and the encoding has 32 bytes.
pub decode-encode :
    (h : FileHeader) (output rest : List ℕ)
    → IsHeader h
    → file_header_encode h ≡ done output
    → (file_header_decode (output ++ rest) ≡ done h) × (length output ≡ 32)
unfolding file_header_decode
decode-encode h output rest v e =
    let (good, same) = encode-eq-done h output e in
    rw (same, magic_read h rest, fields_read h rest v, good) (refl, length-header_output h)

magic_bytes :
    (input : List ℕ) → bad_magic input ≡ false → input ≡ b'Y' ∷ b'A' ∷ b'P' ∷ b'2' ∷ drop 4 input
unfolding bad_magic
magic_bytes (a ∷ b ∷ c ∷ d ∷ rest) h = ground arith
magic_bytes [] h = ground arith
magic_bytes (a ∷ []) h = ground arith
magic_bytes (a ∷ b ∷ []) h = ground arith
magic_bytes (a ∷ b ∷ c ∷ []) h = ground arith

-- `n` bytes at `k`, and what follows them.
split_at : (k n : ℕ) (xs : List ℕ) → take n (drop k xs) ++ drop (k + n) xs ≡ drop k xs
split_at k n xs = rw (← drop-drop n k xs) (take-append-drop n (drop k xs))

module _ (input : List ℕ) (sized : length input ≡ 32) (bytes : All IsByte input) where
  at_u16 : (k : ℕ) → k ≤ 28 → put_u16_le (get_u16_le (drop k input)) ≡ take 2 (drop k input)
  at_u16 k h =
      put-get_u16_take (drop k input) (omega (arith, length-drop k input))
        (All-drop IsByte k input bytes)

  at_u32 : (k : ℕ) → k ≤ 28 → put_u32_le (get_u32_le (drop k input)) ≡ take 4 (drop k input)
  at_u32 k h =
      put-get_u32_take (drop k input) (omega (arith, length-drop k input))
        (All-drop IsByte k input bytes)

  at_u64 : (k : ℕ) → k ≤ 24 → put_u64_le (get_u64_le (drop k input)) ≡ take 8 (drop k input)
  at_u64 k h =
      put-get_u64_take (drop k input) (omega (arith, length-drop k input))
        (All-drop IsByte k input bytes)

  -- The fields, written one behind the other, are the bytes that stood there.
  fields_again : header_output (read_fields input) ≡ b'Y' ∷ b'A' ∷ b'P' ∷ b'2' ∷ drop 4 input
  unfolding header_output read_fields
  fields_again =
      rw
        (
          at_u16 4 (omega arith),
          at_u16 6 (omega arith),
          at_u32 8 (omega arith),
          at_u64 12 (omega arith),
          at_u64 20 (omega arith),
          at_u32 28 (omega arith),
          take_all 4 (drop 28 input) (omega (arith, length-drop 28 input)),
          split_at 20 8 input,
          split_at 12 8 input,
          split_at 8 4 input,
          split_at 6 2 input,
          split_at 4 2 input,
        )
        refl

-- Conversely, 32 bytes that the decoder accepts are what the encoder writes for the header read.
pub encode-decode :
    (input : List ℕ) (h : FileHeader)
    → length input ≡ 32
    → All IsByte input
    → file_header_decode input ≡ done h
    → file_header_encode h ≡ done input
unfolding file_header_decode file_header_encode
encode-decode input h sized bytes e = elim (Bool-cases (bad_magic input)) [
  | inl bad ↦ cc (rw bad at e)
  | inr good ↦ elim (Bool-cases (fields_bad (read_fields input))) [
    | inl bad ↦ cc (rw (good, bad) at e)
    | inr fine ↦
        let same : read_fields input ≡ h = cc (rw (good, fine) at e) in
        rw (← same, fine) (ap done (fields_again input sized bytes ∙ sym (magic_bytes input good)))
  ]
]
