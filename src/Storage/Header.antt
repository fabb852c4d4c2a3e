-- ===== src/Storage/Header.antt =====
-- The 32-byte header of every file but the ANN graphs: `YAP_V2_FILE_HEADER` and its codec in
-- src/storage/yappo_storage_v2.c.
pub mod RoundTrip
use yappod.Prelude.{
  ℕ, Bool, ◌&&◌, ◌||◌, not, List, [], ◌∷◌, ◌++◌, leb, ◌==◌, if◌then◌else◌, get_or, drop,
}
use yappod.Codec.{put_u16_le, put_u32_le, put_u64_le, get_u16_le, get_u32_le, get_u64_le}
use yappod.Types.{Status, invalid_format, Result, done, fail, format_version}

abbrev pub file_header_bytes : ℕ
file_header_bytes = 32

-- `YAP_V2_FILE_TYPE`; the type is kept as the number that files hold.
abbrev pub file_terms : ℕ
file_terms = 1

abbrev pub file_tombstones : ℕ
file_tombstones = 7

abbrev pub file_ann : ℕ
file_ann = 8

abbrev pub file_manifest : ℕ
file_manifest = 9

abbrev pub file_ann_base : ℕ
file_ann_base = 10

pub record FileHeader : Type 0 where
  pub format_version : ℕ
  pub header_bytes : ℕ
  pub file_type : ℕ
  pub generation : ℕ
  pub payload_bytes : ℕ
  pub payload_crc32c : ℕ

unfoldable pub file_header_type_valid : ℕ → Bool
file_header_type_valid file_type =
    leb file_terms file_type && leb file_type file_tombstones
    || file_type == file_manifest
    || file_type == file_ann_base

-- The guard that the encoder and the decoder share.
unfoldable pub fields_bad : FileHeader → Bool
fields_bad h =
    not (h.format_version == format_version)
    || not (h.header_bytes == file_header_bytes)
    || not (file_header_type_valid h.file_type)
    || h.generation == 0

-- The bytes that the encoder puts into its buffer, from the magic on.
unfoldable pub header_output : FileHeader → List ℕ
header_output h =
    b'Y' ∷ b'A' ∷ b'P' ∷ b'2' ∷ put_u16_le h.format_version
    ++ (put_u16_le h.header_bytes
        ++ (put_u32_le h.file_type
            ++ (put_u64_le h.generation
                ++ (put_u64_le h.payload_bytes ++ put_u32_le h.payload_crc32c))))

unfoldable pub file_header_encode : FileHeader → Result (List ℕ)
file_header_encode h = if fields_bad h then fail invalid_format else done (header_output h)

unfoldable pub bad_magic : List ℕ → Bool
bad_magic input =
    not (get_or input 0 0 == b'Y')
    || not (get_or input 1 0 == b'A')
    || not (get_or input 2 0 == b'P')
    || not (get_or input 3 0 == b'2')

unfoldable pub read_fields : List ℕ → FileHeader
read_fields input = record {
  format_version = get_u16_le (drop 4 input);
  header_bytes = get_u16_le (drop 6 input);
  file_type = get_u32_le (drop 8 input);
  generation = get_u64_le (drop 12 input);
  payload_bytes = get_u64_le (drop 20 input);
  payload_crc32c = get_u32_le (drop 28 input);
}

-- The header is handed back only with `YAP_V2_OK`: no caller reads it after a failure.
unfoldable pub file_header_decode : List ℕ → Result FileHeader
file_header_decode input =
    if bad_magic input
    then fail invalid_format
    else let header = read_fields input in
      if fields_bad header then fail invalid_format else done header
