-- ===== src/Storage/Descriptor.antt =====
-- Component and segment descriptors: `YAP_V2_COMPONENT_DESCRIPTOR`, `YAP_V2_SEGMENT_DESCRIPTOR`, the
-- check of a segment id and `YAP_V2_segment_descriptor_add_component` of
-- src/storage/yappo_storage_v2.c, and `YAP_V2_segment_descriptor_equal` of
-- src/storage/yappo_manifest_v2.c. A C string is the list of its bytes before the terminator; the
-- components are the prefix of the array that `component_count` counts.
pub mod Components
use yappod.Prelude.{
  ℕ, zero, suc, ◌+◌, Bool, true, false, ◌&&◌, ◌||◌, not, Option, none, some, List, [], ◌∷◌, ◌++◌,
  ltb, leb, ◌==◌, if◌then◌else◌, length,
}
use yappod.Prelude.Bytes.{bytes_eq, contains}
use yappod.Types.{
  Status, ok, invalid_argument, invalid_format, out_of_range, duplicate, max_identifier_bytes,
  is_ok,
}
use yappod.Storage.Header.{file_ann, file_header_bytes}

abbrev pub max_components : ℕ
max_components = 8

abbrev pub max_component_name_bytes : ℕ
max_component_name_bytes = 63

pub record Component : Type 0 where
  pub name : List ℕ
  pub file_type : ℕ
  pub record_count : ℕ
  pub file_bytes : ℕ
  pub checksum : List ℕ

pub record Segment : Type 0 where
  pub id : List ℕ
  pub document_count : ℕ
  pub passage_count : ℕ
  pub tombstone_count : ℕ
  pub components : List Component

-- `while (len <= max_bytes && value[len] != '\0') len++`, with at most `rounds` to go; also strnlen.
unfoldable pub bounded_length : ℕ → List ℕ → ℕ
bounded_length zero value = 0
bounded_length (suc rounds) [] = 0
bounded_length (suc rounds) (c ∷ rest) = suc (bounded_length rounds rest)

-- `none` is a NULL pointer.
unfoldable pub c_string_validate : Option (List ℕ) → ℕ → Bool → Status
c_string_validate none max_bytes required = if required then invalid_argument else ok
c_string_validate (some value) max_bytes required =
    let len = bounded_length (suc max_bytes) value in
    if ltb max_bytes len
    then invalid_format
    else if required && len == 0
    then invalid_format
    else ok

unfoldable pub id_char : ℕ → Bool
id_char c =
    leb b'a' c && leb c b'z'
    || leb b'A' c && leb c b'Z'
    || leb b'0' c && leb c b'9'
    || c == b'-'
    || c == b'_'
    || c == b'.'

unfoldable pub all_id_chars : List ℕ → Bool
all_id_chars [] = true
all_id_chars (c ∷ rest) = id_char c && all_id_chars rest

unfoldable pub segment_id_validate : List ℕ → Status
segment_id_validate value =
    let status = c_string_validate (some value) max_identifier_bytes true in
    if not (is_ok status) then status else if all_id_chars value then ok else invalid_format

-- The first guard of `add_component`.
unfoldable pub component_bad : Component → Bool
component_bad c =
    let length = bounded_length (max_component_name_bytes + 1) c.name in
    length == 0
    || leb (max_component_name_bytes + 1) length
    || c.file_type == 0
    || ltb file_ann c.file_type
    || c.file_bytes == 0
    || not (c.file_type == file_ann) && ltb c.file_bytes file_header_bytes
    || contains b'/' c.name
    || contains b'\\' c.name

unfoldable pub clashes : Component → List Component → Bool
clashes c [] = false
clashes c (other ∷ rest) =
    (bytes_eq other.name c.name || other.file_type == c.file_type) || clashes c rest

-- The status, and the components with the new one behind them if it is `ok`.
unfoldable pub add_component : List Component → Component → Status × List Component
add_component components c =
    if component_bad c
    then (invalid_format, components)
    else if leb max_components (length components)
    then (out_of_range, components)
    else if clashes c components
    then (duplicate, components)
    else (ok, components ++ c ∷ [])

unfoldable pub component_equal : Component → Component → Bool
component_equal a b =
    bytes_eq a.name b.name
    && a.file_type == b.file_type
    && a.record_count == b.record_count
    && a.file_bytes == b.file_bytes
    && bytes_eq a.checksum b.checksum

-- The loop over the components; the counts were compared before it.
unfoldable pub components_equal : List Component → List Component → Bool
components_equal [] bs = true
components_equal (a ∷ as') [] = false
components_equal (a ∷ as') (b ∷ bs) = component_equal a b && components_equal as' bs

unfoldable pub segment_descriptor_equal : Segment → Segment → Bool
segment_descriptor_equal a b =
    bytes_eq a.id b.id
    && a.document_count == b.document_count
    && a.passage_count == b.passage_count
    && a.tombstone_count == b.tombstone_count
    && length a.components == length b.components
    && components_equal a.components b.components
