-- ===== src/Examples/Files.antt =====
-- Headers, checksums, texts and the verification of files.
use yappod.Prelude.{ℕ, ◌≡◌, ◌↔◌, refl, none, some, List, [], ◌∷◌, ◌++◌, arith, length}
use yappod.Prelude.Integers.{pos}
use yappod.Types.{
  ok, done, BytesView, DocumentView, PassageView, document_validate, passage_validate,
}
use yappod.Types.Valid.{IsDocument, IsPassage, document_validate_iff, passage_validate_iff}
use yappod.Codec.{put_u16_le, put_u32_le, put_u64_le}
use yappod.Codec.Crc.{crc32c, crc32c_branching, crc32c-branching}
use yappod.Storage.Header.{
  FileHeader, file_header_encode, file_header_decode, header_output, fields_bad,
  file_header_type_valid,
}
use yappod.Storage.Header.RoundTrip.{IsHeader, decode-encode, encode-decode}

abbrev postings : FileHeader
postings = record {
  format_version = 2;
  header_bytes = 32;
  file_type = 2;
  generation = 7;
  payload_bytes = 300;
  payload_crc32c = 0xe3069283;
}

-- The bytes of that header.
abbrev postings_bytes : List ℕ
postings_bytes =
    b'Y' ∷ b'A' ∷ b'P' ∷ b'2' ∷ 2 ∷ 0 ∷ 32 ∷ 0 ∷ 2 ∷ 0 ∷ 0 ∷ 0 ∷ 7 ∷ 0 ∷ 0 ∷ 0 ∷ 0 ∷ 0 ∷ 0 ∷ 0 ∷ 44
    ∷ 1 ∷ 0 ∷ 0 ∷ 0 ∷ 0 ∷ 0 ∷ 0 ∷ 0x83 ∷ 0x92 ∷ 0x06 ∷ 0xe3 ∷ []

encoded : file_header_encode postings ≡ done postings_bytes
unfolding file_header_encode fields_bad file_header_type_valid header_output put_u16_le put_u32_le
    put_u64_le
encoded = refl

postings-IsHeader : IsHeader postings
postings-IsHeader = record {
  version = omega arith;
  header = omega arith;
  type = omega arith;
  generation = omega arith;
  payload = omega arith;
  crc = omega arith;
}

decode-encode_example :
    (file_header_decode (postings_bytes ++ 1 ∷ 2 ∷ []) ≡ done postings)
    × (length postings_bytes ≡ 32)
decode-encode_example = decode-encode postings postings_bytes (1 ∷ 2 ∷ []) postings-IsHeader encoded

decoded : file_header_decode (postings_bytes ++ []) ≡ done postings
decoded = (decode-encode postings postings_bytes [] postings-IsHeader encoded).0

encode-decode_example : file_header_encode postings ≡ done postings_bytes
encode-decode_example = encode-decode postings_bytes postings refl (ground arith) decoded

crc32c-branching_example : crc32c (1 ∷ 2 ∷ 3 ∷ []) ≡ crc32c_branching (1 ∷ 2 ∷ 3 ∷ [])
crc32c-branching_example = crc32c-branching (1 ∷ 2 ∷ 3 ∷ [])

abbrev short_text : BytesView
short_text = record { bytes = some (b'a' ∷ b'b' ∷ []); len = 2 }

abbrev no_text : BytesView
no_text = record { bytes = none; len = 0 }

abbrev page : DocumentView
page = record {
  id = short_text;
  url = short_text;
  title = no_text;
  body = short_text;
  metadata_json = no_text;
  updated_at_unix_ms = pos 0;
}

document_validate_iff_example : (document_validate page ≡ ok) ↔ IsDocument page
document_validate_iff_example = document_validate_iff page

abbrev passage : PassageView
passage = record {
  id = short_text;
  parent_document_id = short_text;
  text = short_text;
  ordinal = 0;
  start_char = 0;
  end_char = 2;
}

passage_validate_iff_example : (passage_validate passage ≡ ok) ↔ IsPassage passage
passage_validate_iff_example = passage_validate_iff passage
