-- ===== src/ManifestFile.antt =====
-- The manifest file: the reader, the parsers and the encoder of src/storage/yappo_manifest_v2.c.
-- A reader is the list of the bytes that it has not taken; an output is written front to back, each
-- part in front of what the later code writes (`rest`).
pub mod Reading
pub mod Segments
pub mod Failures
pub mod RoundTrip
pub mod Size
pub mod Publish
pub mod Verify
use yappod.Prelude.{
  ℕ, zero, suc, ◌+◌, ◌-◌, ◌*◌, Bool, true, false, ◌&&◌, ◌||◌, not, List, [], ◌∷◌, ◌++◌, ltb, leb,
  ◌==◌, if◌then◌else◌, length, take, drop,
}
use yappod.Prelude.Bytes.{contains}
use yappod.Codec.{put_u32_le, put_u64_le, get_u32_le, get_u64_le}
use yappod.Codec.Crc.{crc32c}
use yappod.Types.{
  Status, ok, invalid_format, out_of_range, checksum_mismatch, conflict, Result, done, fail, ◌>>=◌,
  ◌>>◌, reject_if, check, max_identifier_bytes, format_version,
}
use yappod.Storage.Header.{
  FileHeader, file_header_bytes, file_manifest, file_header_encode, file_header_decode,
}
use yappod.Storage.Descriptor.{
  Component, Segment, add_component, max_components, max_component_name_bytes,
}
use yappod.Storage.Manifest.{Manifest, manifest_init, add_segment, manifest_validate, max_segments}
use yappod.Storage.Slots.{size_max}

abbrev pub payload_version : ℕ
payload_version = 1

abbrev pub payload_header_bytes : ℕ
payload_header_bytes = 40

abbrev pub segment_fixed_bytes : ℕ
segment_fixed_bytes = 32

abbrev pub component_fixed_bytes : ℕ
component_fixed_bytes = 56

abbrev pub max_manifest_bytes : ℕ
max_manifest_bytes = 128 * 1024 * 1024

-- What a reader gives: a value, and the reader after it.
abbrev pub Parsed : Type 0 → Type 0
Parsed A = Result (A × List ℕ)

unfoldable pub reader_take : List ℕ → ℕ → Parsed (List ℕ)
reader_take reader bytes =
    if ltb (length reader) bytes
    then fail invalid_format
    else done (take bytes reader, drop bytes reader)

unfoldable pub reader_u32 : List ℕ → Parsed ℕ
reader_u32 reader = do (bytes, reader) ← reader_take reader 4; done (get_u32_le bytes, reader)

unfoldable pub reader_u64 : List ℕ → Parsed ℕ
reader_u64 reader = do (bytes, reader) ← reader_take reader 8; done (get_u64_le bytes, reader)

unfoldable pub parse_component : List ℕ → Parsed Component
parse_component reader = do
  (name_bytes, reader) ← reader_u32 reader
  (file_type, reader) ← reader_u32 reader
  (record_count, reader) ← reader_u64 reader
  (file_bytes, reader) ← reader_u64 reader
  (checksum, reader) ← reader_take reader 32
  reject_if (name_bytes == 0 || ltb max_component_name_bytes name_bytes) invalid_format
  (name, reader) ← reader_take reader name_bytes
  reject_if (contains 0 name) invalid_format
  done (
    record {
      name = name;
      file_type = file_type;
      record_count = record_count;
      file_bytes = file_bytes;
      checksum = checksum;
    },
    reader,
  )

-- `for (i = 0; status == YAP_V2_OK && i < component_count; i++)`, on the rounds that are left.
unfoldable pub parse_components : ℕ → List Component → List ℕ → Parsed (List Component)
parse_components zero components reader = done (components, reader)
parse_components (suc rounds) components reader = do
  (component, reader) ← parse_component reader
  let (status, components) = add_component components component
  check status
  parse_components rounds components reader

unfoldable pub parse_segment : List ℕ → Parsed Segment
parse_segment reader = do
  (id_bytes, reader) ← reader_u32 reader
  (component_count, reader) ← reader_u32 reader
  (document_count, reader) ← reader_u64 reader
  (passage_count, reader) ← reader_u64 reader
  (tombstone_count, reader) ← reader_u64 reader
  reject_if
      (id_bytes == 0
        || ltb max_identifier_bytes id_bytes
        || component_count == 0
        || ltb max_components component_count)
      invalid_format
  (id, reader) ← reader_take reader id_bytes
  reject_if (contains 0 id) invalid_format
  (components, reader) ← parse_components component_count [] reader
  done (
    record {
      id = id;
      document_count = document_count;
      passage_count = passage_count;
      tombstone_count = tombstone_count;
      components = components;
    },
    reader,
  )

-- `granted` is what the allocations of `add_segment` answer.
unfoldable pub parse_segments : Bool → ℕ → Manifest → List ℕ → Parsed Manifest
parse_segments granted zero parsed reader = done (parsed, reader)
parse_segments granted (suc rounds) parsed reader = do
  (segment, reader) ← parse_segment reader
  let (status, parsed) = add_segment granted granted parsed segment
  check status
  parse_segments granted rounds parsed reader

-- The payload behind the header, up to the check that nothing follows the segments.
unfoldable pub parse_payload : Bool → ℕ → List ℕ → Result Manifest
parse_payload granted generation reader = do
  (version, reader) ← reader_u32 reader
  (segment_count, reader) ← reader_u32 reader
  (fingerprint, reader) ← reader_take reader 32
  reject_if (not (version == payload_version) || ltb max_segments segment_count) invalid_format
  (parsed, reader) ←
      parse_segments granted segment_count
        (record manifest_init { generation = generation; config_fingerprint = fingerprint }) reader
  reject_if (not (length reader == 0)) invalid_format
  done parsed

-- The limits on the size of the file, which the loader tests before it reads.
unfoldable pub size_check : ℕ → Result (Unit {0})
size_check size = do
  reject_if (ltb size (file_header_bytes + payload_header_bytes)) invalid_format
  reject_if (ltb max_manifest_bytes size) out_of_range

-- What the loader does with the bytes that it has read.
unfoldable pub parse_file : Bool → List ℕ → Result Manifest
parse_file granted file = do
  header ← file_header_decode file
  let payload = drop file_header_bytes file
  reject_if
      (not (header.file_type == file_manifest)
        || not (header.payload_bytes == length file - file_header_bytes))
      invalid_format
  reject_if (not (crc32c payload == header.payload_crc32c)) checksum_mismatch
  parsed ← parse_payload granted header.generation payload
  check (manifest_validate granted parsed)
  done parsed

-- `YAP_V2_manifest_load` on the bytes of a file that could be read.
unfoldable pub manifest_parse : Bool → List ℕ → Result Manifest
manifest_parse granted file = size_check (length file) >> parse_file granted file

unfoldable pub put_component : Component → List ℕ → List ℕ
put_component c rest =
    put_u32_le (length c.name)
    ++ (put_u32_le c.file_type
        ++ (put_u64_le c.record_count
            ++ (put_u64_le c.file_bytes ++ (c.checksum ++ (c.name ++ rest)))))

unfoldable pub put_components : List Component → List ℕ → List ℕ
put_components [] rest = rest
put_components (c ∷ more) rest = put_component c (put_components more rest)

unfoldable pub put_segment : Segment → List ℕ → List ℕ
put_segment s rest =
    put_u32_le (length s.id)
    ++ (put_u32_le (length s.components)
        ++ (put_u64_le s.document_count
            ++ (put_u64_le s.passage_count
                ++ (put_u64_le s.tombstone_count ++ (s.id ++ put_components s.components rest)))))

unfoldable pub put_segments : List Segment → List ℕ
put_segments [] = []
put_segments (s ∷ more) = put_segment s (put_segments more)

unfoldable pub manifest_payload : Manifest → List ℕ
manifest_payload m =
    put_u32_le payload_version
    ++ (put_u32_le (length m.segments) ++ (m.config_fingerprint ++ put_segments m.segments))

-- `add_size`
unfoldable pub add_size : ℕ → ℕ → Result ℕ
add_size total additional =
    if ltb (size_max - total) additional then fail out_of_range else done (total + additional)

unfoldable pub components_size : List Component → ℕ → Result ℕ
components_size [] total = done total
components_size (c ∷ more) total =
    add_size total (component_fixed_bytes + length c.name) >>= components_size more

unfoldable pub segments_size : List Segment → ℕ → Result ℕ
segments_size [] total = done total
segments_size (s ∷ more) total = do
  total ← add_size total (segment_fixed_bytes + length s.id)
  total ← components_size s.components total
  segments_size more total

unfoldable pub manifest_payload_size : Manifest → Result ℕ
manifest_payload_size m = do
  total ← segments_size m.segments payload_header_bytes
  reject_if (ltb (max_manifest_bytes - file_header_bytes) total) out_of_range
  done total

unfoldable pub encode_manifest : Manifest → ℕ → Result (List ℕ)
encode_manifest m file_size =
    let payload = manifest_payload m in
    if not (length payload == file_size - file_header_bytes) then fail conflict else do
      header ← file_header_encode (record {
        format_version = format_version;
        header_bytes = file_header_bytes;
        file_type = file_manifest;
        generation = m.generation;
        payload_bytes = length payload;
        payload_crc32c = crc32c payload;
      })
      done (header ++ payload)

-- The first part of `YAP_V2_manifest_save_atomic`: the bytes that it is going to write.
unfoldable pub manifest_serialize : Bool → Manifest → Result (List ℕ)
manifest_serialize granted m = do
  check (manifest_validate granted m)
  payload_bytes ← manifest_payload_size m
  encode_manifest m (file_header_bytes + payload_bytes)
