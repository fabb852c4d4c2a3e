-- ===== src/Examples/Verification.antt =====
-- Verifying the manifest of one segment against a file that it describes.
use yappod.Prelude.{◌≡◌, refl, true, some, [], ◌++◌, arith, All}
use yappod.Types.{ok, done}
use yappod.Storage.Header.{
  FileHeader, file_header_encode, file_header_decode, header_output, fields_bad,
  file_header_type_valid,
}
use yappod.Storage.Header.RoundTrip.{decode-encode}
use yappod.Storage.Manifest.{manifest_validate}
use yappod.Storage.Manifest.Validity.{manifest_validate_iff}
use yappod.Prelude.Bytes.{bytes_eq}
use yappod.ManifestFile.Verify.{
  Files, header_mismatch, verify_header, verify_component, verify_loop, verify_segment_components,
  verify_segments, manifest_verify_components, IsIntact, manifest_verify_components-IsIntact,
}
use yappod.Examples.Manifests.{one_segment, one_segment-IsManifest, terms}

abbrev terms_header : FileHeader
terms_header = record {
  format_version = 2;
  header_bytes = 32;
  file_type = 1;
  generation = 1;
  payload_bytes = 64;
  payload_crc32c = 5;
}

abbrev files : Files
files = record {
  sha256 = λ id name. done (terms.checksum, 96);
  first_bytes = λ id name. some (header_output terms_header ++ []);
}

terms_header-encoded : file_header_encode terms_header ≡ done (header_output terms_header)
unfolding file_header_encode fields_bad file_header_type_valid
terms_header-encoded = refl

terms_header-decoded : file_header_decode (header_output terms_header ++ []) ≡ done terms_header
terms_header-decoded =
    (decode-encode terms_header (header_output terms_header) []
      (record {
        version = omega arith;
        header = omega arith;
        type = omega arith;
        generation = omega arith;
        payload = omega arith;
        crc = omega arith;
      })
      terms_header-encoded).0

verified : manifest_verify_components files true one_segment ≡ done tt
unfolding manifest_verify_components verify_segments verify_segment_components verify_loop
    verify_component verify_header header_mismatch bytes_eq
verified =
    rw ((manifest_validate_iff one_segment).1 one_segment-IsManifest, terms_header-decoded) refl

manifest_verify_components-IsIntact_example :
    (manifest_validate true one_segment ≡ ok)
    × All (λ s. All (IsIntact files s.id) s.components) one_segment.segments
manifest_verify_components-IsIntact_example =
    manifest_verify_components-IsIntact files one_segment verified
