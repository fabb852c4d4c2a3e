-- ===== src/Examples/Manifests.antt =====
-- A manifest of one segment with one component.
use yappod.Storage.IdList.{
  IsListed, segment_id_list_init, segment_id_list_add, segment_id_list_add-IsListed,
}
use yappod.Prelude.{ℕ, ◌≡◌, ◌↔◌, ◌⊎◌, refl, true, false, List, [], ◌∷◌, arith, replicate, length}
use yappod.Prelude.Bytes.{contains}
use yappod.Types.{ok, conflict, done, fail}
use yappod.Storage.Descriptor.{
  Component, Segment, component_bad, clashes, c_string_validate, bounded_length, all_id_chars,
  id_char, add_component, segment_descriptor_equal, segment_id_validate,
}
use yappod.Storage.Descriptor.Components.{
  IsSegmentId, segment_id_validate_iff, segment_descriptor_equal_iff,
}
use yappod.Storage.Manifest.{
  Manifest, manifest_init, add_segment, manifest_validate, segment_find, all_zero, replay,
  SegmentMap, segment_map_build, segment_map_find,
}
use yappod.Storage.Manifest.Indexed.{
  IsIndexed, unindexed, segment_find-eq-has_id, has_id, segment_map-position, position, SameId,
}
use yappod.Storage.Manifest.Adding.{IsAdded, add_segment-IsAdded}
use yappod.Storage.Manifest.Validity.{IsManifest, manifest_validate_iff}
use yappod.Codec.{put_u32_le, put_u64_le}
use yappod.ManifestFile.{
  put_component, put_components, put_segment, put_segments, manifest_serialize, manifest_parse,
  manifest_payload, manifest_payload_size,
}
use yappod.ManifestFile.Size.{manifest_payload_size_lem}
use yappod.ManifestFile.RoundTrip.{manifest_parse-serialize, IsStorable, SameManifest}

abbrev pub terms : Component
terms = record {
  name = b't' ∷ b'.' ∷ b'b' ∷ [];
  file_type = 1;
  record_count = 5;
  file_bytes = 96;
  checksum = replicate 32 9;
}

abbrev pub seg_1 : Segment
seg_1 = record {
  id = b's' ∷ b'-' ∷ b'1' ∷ [];
  document_count = 2;
  passage_count = 3;
  tombstone_count = 0;
  components = terms ∷ [];
}

abbrev two_segments : List Segment
two_segments = seg_1 ∷ record seg_1 { id = b's' ∷ b'-' ∷ b'2' ∷ [] } ∷ []

abbrev pub one_segment : Manifest
one_segment = record manifest_init { config_fingerprint = replicate 32 7; segments = seg_1 ∷ [] }

valid_id : segment_id_validate seg_1.id ≡ ok
unfolding segment_id_validate c_string_validate bounded_length all_id_chars id_char
valid_id = refl

valid_component : component_bad terms ≡ false
unfolding component_bad bounded_length contains
valid_component = refl

valid_components : replay [] (terms ∷ []) ≡ ok
unfolding replay add_component component_bad bounded_length contains clashes
valid_components = refl

configured_fingerprint : all_zero (replicate 32 7) ≡ false
unfolding all_zero
configured_fingerprint = refl

pub one_segment-IsManifest : IsManifest one_segment
one_segment-IsManifest = record {
  version = refl;
  numbered = omega arith;
  few = omega arith;
  configured = configured_fingerprint;
  segments = (
    record {
      id = (segment_id_validate_iff seg_1.id).0 valid_id;
      some_component = omega arith;
      few = omega arith;
      sound = (valid_component, tt);
      apart = (tt, tt);
    },
    tt,
  );
  distinct = λ i j h k e. omega arith;
}

clean_id : contains 0 seg_1.id ≡ false
unfolding contains
clean_id = refl

clean_name : contains 0 terms.name ≡ false
unfolding contains
clean_name = refl

one_segment-IsStorable : IsStorable one_segment
one_segment-IsStorable = record {
  generation = omega arith;
  fingerprint = refl;
  segments = (
    record {
      named = omega arith;
      fits = omega arith;
      clean = clean_id;
      documents = omega arith;
      passages = omega arith;
      tombstones = omega arith;
      some_component = omega arith;
      few = omega arith;
      replayed = valid_components;
      components = (
        record {
          named = omega arith;
          fits = omega arith;
          clean = clean_name;
          type = omega arith;
          records = omega arith;
          bytes = omega arith;
          digest = refl;
        },
        tt,
      );
    },
    tt,
  );
}

payload_bytes : length (manifest_payload one_segment) ≡ 134
unfolding manifest_payload put_segments put_segment put_components put_component put_u32_le
    put_u64_le
payload_bytes = refl

manifest_parse-serialize_example :
    (file : List ℕ) × (m' : Manifest) × (manifest_serialize true one_segment ≡ done file)
    × (manifest_parse true file ≡ done m')
    × SameManifest one_segment m'
    × IsIndexed m'
manifest_parse-serialize_example =
    manifest_parse-serialize one_segment one_segment-IsManifest one_segment-IsStorable
      (omega (arith, payload_bytes))

manifest_payload_size_lem_example :
    manifest_payload_size one_segment ≡ done (length (manifest_payload one_segment))
manifest_payload_size_lem_example =
    manifest_payload_size_lem one_segment refl ((refl, tt), tt) (omega (arith, payload_bytes))

manifest_validate_iff_example : (manifest_validate true one_segment ≡ ok) ↔ IsManifest one_segment
manifest_validate_iff_example = manifest_validate_iff one_segment

add_segment-IsAdded_example :
    IsAdded true manifest_init seg_1 (add_segment true true manifest_init seg_1)
add_segment-IsAdded_example =
    add_segment-IsAdded true true manifest_init seg_1 (unindexed refl refl)

-- A manifest with an entry in its table, as `add_segment` leaves it.
abbrev grown : Manifest
grown = (add_segment true true manifest_init seg_1).1

segment_find-eq-has_id_example : segment_find grown seg_1.id ≡ has_id grown.segments seg_1.id
segment_find-eq-has_id_example =
    segment_find-eq-has_id grown seg_1.id
      (add_segment-IsAdded true true manifest_init seg_1 (unindexed refl refl)).kept

segment_map-position_example :
    ((t : SegmentMap) × (segment_map_build true two_segments ≡ done t)
      × ((id : List ℕ) → segment_map_find two_segments t id ≡ position two_segments id 0))
    ⊎ ((segment_map_build true two_segments ≡ fail conflict) × SameId two_segments)
segment_map-position_example = segment_map-position two_segments (omega arith)

segment_descriptor_equal_iff_example :
    (segment_descriptor_equal seg_1 seg_1 ≡ true) ↔ (seg_1 ≡ seg_1)
segment_descriptor_equal_iff_example = segment_descriptor_equal_iff seg_1 seg_1

segment_id_validate_iff_example : (segment_id_validate seg_1.id ≡ ok) ↔ IsSegmentId seg_1.id
segment_id_validate_iff_example = segment_id_validate_iff seg_1.id

segment_id_list_add-IsListed_example :
    IsListed true segment_id_list_init seg_1.id
      (segment_id_list_add true segment_id_list_init seg_1.id)
segment_id_list_add-IsListed_example =
    segment_id_list_add-IsListed true segment_id_list_init seg_1.id (omega arith, omega arith)
