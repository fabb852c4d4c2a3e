-- ===== src/ManifestFile/RoundTrip.antt =====
-- Loading what was saved.
use yappod.Prelude.{
  ℕ, ◌+◌, ◌^◌, ◌≤◌, ◌<◌, ◌≡◌, refl, sym, ◌∙◌, true, List, [], ◌∷◌, ◌++◌, arith, length, All,
  length-append, drop-append,
}
use yappod.Types.{done, format_version}
use yappod.Codec.{put_u32_le}
use yappod.Codec.Crc.{crc32c, crc32c-lt}
use yappod.Storage.Header.{
  FileHeader, file_header_encode, header_output, fields_bad, file_header_type_valid, file_manifest,
  file_header_bytes,
}
use yappod.Storage.Header.RoundTrip.{IsHeader, decode-encode}
use yappod.ManifestFile.{
  size_check, parse_file, manifest_serialize, encode_manifest, manifest_parse, max_manifest_bytes,
}
use yappod.ManifestFile.Reading.{IsStored}
use yappod.ManifestFile.Size.{
  HasDigest, HasDigests, length-manifest_payload, manifest_payload_size_lem,
}
use yappod.Storage.Descriptor.{Component, Segment}
use yappod.Storage.Manifest.{Manifest, manifest_init}
use yappod.Storage.Manifest.Validity.{IsManifest, manifest_validate_iff}
use yappod.Storage.Manifest.Indexed.{IsIndexed, unindexed}
use yappod.ManifestFile.{put_segments, parse_payload, manifest_payload}
use yappod.ManifestFile.Reading.{IsStoredSegment, u32_back, take_back}
use yappod.ManifestFile.Segments.{segments_back, IsManifest-Addable}

-- The fields of the manifest are within their C types, and each segment can be stored.
pub record IsStorable (m : Manifest) : Type 0 where
  pub generation : m.generation < 2 ^ 64
  pub fingerprint : length m.config_fingerprint ≡ 32
  pub segments : All IsStoredSegment m.segments

-- Two manifests that differ at most in their tables and capacities.
pub record SameManifest (m m' : Manifest) : Type 0 where
  pub version : m'.format_version ≡ m.format_version
  pub generation : m'.generation ≡ m.generation
  pub fingerprint : m'.config_fingerprint ≡ m.config_fingerprint
  pub segments : m'.segments ≡ m.segments

abbrev opened : Manifest → Manifest
opened m = record manifest_init {
  generation = m.generation;
  config_fingerprint = m.config_fingerprint;
}

payload_back :
    (m : Manifest)
    → IsManifest m
    → IsStorable m
    → (m' : Manifest) × (parse_payload true m.generation (manifest_payload m) ≡ done m')
      × SameManifest m m'
      × IsIndexed m'
unfolding parse_payload manifest_payload
payload_back m v b =
    let rest = put_segments m.segments in
    let (m', parsed, grown, i, head) =
      segments_back m.segments (opened m) (unindexed refl refl)
        (IsManifest-Addable [] m.segments v.segments (omega (arith, v.few)) v.distinct)
        b.segments in
    (
      m',
      ground (
        arith,
        u32_back 1 (put_u32_le (length m.segments) ++ (m.config_fingerprint ++ rest)) (omega arith),
        u32_back (length m.segments) (m.config_fingerprint ++ rest) (omega (arith, v.few)),
        take_back m.config_fingerprint rest 32 (sym b.fingerprint),
        v.few,
        parsed,
      ),
      record {
        version = head.version ∙ sym v.version;
        generation = head.generation;
        fingerprint = head.fingerprint;
        segments = grown;
      },
      i,
    )

SameManifest-IsManifest : (m m' : Manifest) → SameManifest m m' → IsManifest m → IsManifest m'
SameManifest-IsManifest m m' e v = record {
  version = e.version ∙ v.version;
  numbered = rw e.generation v.numbered;
  few = rw e.segments v.few;
  configured = rw e.fingerprint v.configured;
  segments = rw e.segments v.segments;
  distinct = rw e.segments v.distinct;
}

digests : (segments : List Segment) → All IsStoredSegment segments → All HasDigests segments
digests [] b = tt
digests (s ∷ more) b = (of_components s.components b.0.components, digests more b.1)
  where
    of_components : (cs : List Component) → All IsStored cs → All HasDigest cs
    of_components [] b = tt
    of_components (c ∷ cs) b = (b.0.digest, of_components cs b.1)

-- The header that the encoder writes in front of a payload.
abbrev pub manifest_header : Manifest → FileHeader
manifest_header m = record {
  format_version = format_version;
  header_bytes = file_header_bytes;
  file_type = file_manifest;
  generation = m.generation;
  payload_bytes = length (manifest_payload m);
  payload_crc32c = crc32c (manifest_payload m);
}

header_good :
    (m : Manifest)
    → 0 < m.generation
    → file_header_encode (manifest_header m) ≡ done (header_output (manifest_header m))
unfolding file_header_encode fields_bad file_header_type_valid
header_good m h = ground arith

serialized :
    (m : Manifest)
    → IsManifest m
    → IsStorable m
    → length (manifest_payload m) + 32 ≤ max_manifest_bytes
    → manifest_serialize true m ≡ done (header_output (manifest_header m) ++ manifest_payload m)
unfolding manifest_serialize encode_manifest
serialized m v b small = ground (
  arith,
  (manifest_validate_iff m).1 v,
  manifest_payload_size_lem m b.fingerprint (digests m.segments b.segments) small,
  header_good m v.numbered,
)

parsed_back :
    (m m' : Manifest)
    → IsManifest m
    → IsStorable m
    → length (manifest_payload m) + 32 ≤ max_manifest_bytes
    → parse_payload true m.generation (manifest_payload m) ≡ done m'
    → IsManifest m'
    → manifest_parse true (header_output (manifest_header m) ++ manifest_payload m) ≡ done m'
unfolding manifest_parse size_check parse_file
parsed_back m m' v b small parsed v' =
    let h = manifest_header m in
    let payload = manifest_payload m in
    let fields : IsHeader h = record {
      version = omega arith;
      header = omega arith;
      type = omega arith;
      generation = b.generation;
      payload = omega arith;
      crc = crc32c-lt payload;
    } in
    let (decoded, sized) =
      decode-encode h (header_output h) payload fields (header_good m v.numbered) in
    ground (
      arith,
      decoded,
      sized,
      small,
      parsed,
      length-append (header_output h) payload,
      length-manifest_payload m b.fingerprint,
      drop-append (header_output h) payload 32 (sym sized),
      (manifest_validate_iff m').1 v',
    )

-- A manifest that `manifest_validate` accepts, whose fields are within their C types and whose file
-- has at most 128 MiB, is serialized, and loading the file gives a manifest with the same version,
-- generation, fingerprint and list of segments, whose hash table again keeps its invariant.
pub manifest_parse-serialize :
    (m : Manifest)
    → IsManifest m
    → IsStorable m
    → length (manifest_payload m) + 32 ≤ max_manifest_bytes
    → (file : List ℕ) × (m' : Manifest) × (manifest_serialize true m ≡ done file)
      × (manifest_parse true file ≡ done m')
      × SameManifest m m'
      × IsIndexed m'
manifest_parse-serialize m v b small =
    let (m', parsed, same, i) = payload_back m v b in
    (
      header_output (manifest_header m) ++ manifest_payload m,
      m',
      serialized m v b small,
      parsed_back m m' v b small parsed (SameManifest-IsManifest m m' same v),
      same,
      i,
    )
