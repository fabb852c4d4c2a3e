-- ===== src/ManifestFile/Size.antt =====
-- The computed size of a payload is the number of bytes that the encoder writes.
use yappod.Prelude.{
  ℕ, ◌+◌, ◌≤◌, ◌≡◌, refl, ap, ◌∙◌, List, [], ◌∷◌, ◌++◌, arith, length, All, length-append,
}
use yappod.Codec.{put_u32_le, put_u64_le}
use yappod.Codec.Words.{length-put_u32, length-put_u64}
use yappod.Types.{done}
use yappod.Storage.Descriptor.{Component, Segment}
use yappod.Storage.Manifest.{Manifest}
use yappod.Storage.Slots.{size_max}
use yappod.ManifestFile.{
  put_component, put_components, put_segment, put_segments, manifest_payload, add_size,
  components_size, segments_size, manifest_payload_size, max_manifest_bytes,
}

-- The words in front of `rest` have their own length.
length-u32 : (v : ℕ) (rest : List ℕ) → length (put_u32_le v ++ rest) ≡ 4 + length rest
length-u32 v rest =
    length-append (put_u32_le v) rest ∙ ap (λ (t : ℕ). t + length rest) (length-put_u32 v)

length-u64 : (v : ℕ) (rest : List ℕ) → length (put_u64_le v ++ rest) ≡ 8 + length rest
length-u64 v rest =
    length-append (put_u64_le v) rest ∙ ap (λ (t : ℕ). t + length rest) (length-put_u64 v)

abbrev pub HasDigest : Component → Type 0
HasDigest c = length c.checksum ≡ 32

abbrev pub HasDigests : Segment → Type 0
HasDigests s = All HasDigest s.components

length-put_component :
    (c : Component) (rest : List ℕ)
    → HasDigest c
    → length (put_component c rest) ≡ 56 + length c.name + length rest
unfolding put_component
length-put_component c rest h = omega (
  arith,
  length-u32 (length c.name) (
      put_u32_le c.file_type
      ++ (put_u64_le c.record_count
          ++ (put_u64_le c.file_bytes ++ (c.checksum ++ (c.name ++ rest))))),
  length-u32 c.file_type
      (put_u64_le c.record_count ++ (put_u64_le c.file_bytes ++ (c.checksum ++ (c.name ++ rest)))),
  length-u64 c.record_count (put_u64_le c.file_bytes ++ (c.checksum ++ (c.name ++ rest))),
  length-u64 c.file_bytes (c.checksum ++ (c.name ++ rest)),
  length-append c.checksum (c.name ++ rest),
  length-append c.name rest,
)

add_size_lem :
    (total more : ℕ) → total + more ≤ size_max → add_size total more ≡ done (total + more)
unfolding add_size
add_size_lem total more h = ground arith

-- Where the sum fits a size_t, the loop adds up what is written.
components_size_lem :
    (cs : List Component) (rest : List ℕ) (total : ℕ)
    → All HasDigest cs
    → total + length (put_components cs rest) ≤ size_max
    → (n : ℕ) × (components_size cs total ≡ done n)
      × (n + length rest ≡ total + length (put_components cs rest))
unfolding components_size put_components
components_size_lem [] rest total d h = (total, refl, refl)
components_size_lem (c ∷ more) rest total d h =
    let size = length-put_component c (put_components more rest) d.0 in
    let (n, e, sum) =
      components_size_lem more rest (total + (56 + length c.name)) d.1 (omega arith) in
    (n, rw (add_size_lem total (56 + length c.name) (omega arith)) e, omega arith)

length-put_segment :
    (s : Segment) (rest : List ℕ)
    → length (put_segment s rest) ≡ 32 + length s.id + length (put_components s.components rest)
unfolding put_segment
length-put_segment s rest =
    let tail = put_components s.components rest in
    omega (
      arith,
      length-u32 (length s.id) (
          put_u32_le (length s.components)
          ++ (put_u64_le s.document_count
              ++ (put_u64_le s.passage_count ++ (put_u64_le s.tombstone_count ++ (s.id ++ tail))))),
      length-u32 (length s.components) (
          put_u64_le s.document_count
          ++ (put_u64_le s.passage_count ++ (put_u64_le s.tombstone_count ++ (s.id ++ tail)))),
      length-u64 s.document_count
          (put_u64_le s.passage_count ++ (put_u64_le s.tombstone_count ++ (s.id ++ tail))),
      length-u64 s.passage_count (put_u64_le s.tombstone_count ++ (s.id ++ tail)),
      length-u64 s.tombstone_count (s.id ++ tail),
      length-append s.id tail,
    )

segments_size_lem :
    (segments : List Segment) (total : ℕ)
    → All HasDigests segments
    → total + length (put_segments segments) ≤ size_max
    → segments_size segments total ≡ done (total + length (put_segments segments))
unfolding segments_size put_segments
segments_size_lem [] total d h = ap done (omega arith)
segments_size_lem (s ∷ more) total d h =
    let size = length-put_segment s (put_segments more) in
    let (n, e, sum) =
      components_size_lem s.components (put_segments more) (total + (32 + length s.id)) d.0
        (omega arith) in
    rw (add_size_lem total (32 + length s.id) (omega arith), e)
      (segments_size_lem more n d.1 (omega arith) ∙ ap done (omega arith))

pub length-manifest_payload :
    (m : Manifest)
    → length m.config_fingerprint ≡ 32
    → length (manifest_payload m) ≡ 40 + length (put_segments m.segments)
unfolding manifest_payload
length-manifest_payload m h = omega (
  arith,
  length-u32 1
      (put_u32_le (length m.segments) ++ (m.config_fingerprint ++ put_segments m.segments)),
  length-u32 (length m.segments) (m.config_fingerprint ++ put_segments m.segments),
  length-append m.config_fingerprint (put_segments m.segments),
)

-- For a manifest whose fingerprint and checksums have their 32 bytes, `manifest_payload_size` is the
-- number of bytes that the encoder writes, as long as header and payload fit the 128 MiB of a
-- manifest file.
pub manifest_payload_size_lem :
    (m : Manifest)
    → length m.config_fingerprint ≡ 32
    → All HasDigests m.segments
    → length (manifest_payload m) + 32 ≤ max_manifest_bytes
    → manifest_payload_size m ≡ done (length (manifest_payload m))
unfolding manifest_payload_size
manifest_payload_size_lem m h d small =
    let size = length-manifest_payload m h in
    ground (arith, segments_size_lem m.segments 40 d (omega arith), size, small)
