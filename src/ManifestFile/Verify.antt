-- ===== src/ManifestFile/Verify.antt =====
-- Checking the files of the segments against the manifest:
-- `YAP_V2_manifest_verify_segment_components`, `YAP_V2_manifest_verify_components` and
-- `YAP_V2_manifest_load_for_config` of src/storage/yappo_manifest_v2.c. What the file system, SHA-256
-- and the configuration answer is a parameter.
use yappod.Prelude.{
  ℕ, ◌+◌, ◌%◌, ◌^◌, ◌≡◌, inl, inr, Bool, true, not, ◌||◌, Option, none, some, List, [], ◌∷◌, arith,
  ltb, ◌==◌, if◌then◌else◌, All,
}
use yappod.Prelude.Bytes.{bytes_eq, bytes_eq→eq}
use yappod.Types.{
  ok, invalid_argument, invalid_format, allocation_failed, io_error, checksum_mismatch, conflict,
  Result, done, fail, ◌>>=◌, ◌>>◌, reject_if, check,
}
use yappod.Types.Binds.{Result-cases}
use yappod.Storage.Header.{FileHeader, file_header_decode, file_header_bytes, file_ann}
use yappod.Storage.Descriptor.{Component, Segment}
use yappod.Storage.Manifest.{Manifest, manifest_validate}

-- The files below `segments/`, by the segment's id and the component's name: the checksum and the
-- size that `YAP_V2_file_sha256` computes, and the first 32 bytes.
pub record Files : Type 0 where
  pub sha256 : List ℕ → List ℕ → Result (List ℕ × ℕ)
  pub first_bytes : List ℕ → List ℕ → Option (List ℕ)

-- The test of a header; the sum is on uint64_t.
unfoldable pub header_mismatch : FileHeader → ℕ → Component → ℕ → Bool
header_mismatch header manifest_generation component bytes =
    header.generation == 0
    || ltb manifest_generation header.generation
    || not (header.file_type == component.file_type)
    || not ((header.payload_bytes + file_header_bytes) % 2 ^ 64 == bytes)

-- The header of the file, but for an ANN graph, which has another.
unfoldable pub verify_header : Files → ℕ → List ℕ → Component → ℕ → Result (Unit {0})
verify_header files manifest_generation id component bytes =
    if component.file_type == file_ann
    then done tt
    else elim (files.first_bytes id component.name) [
      | none ↦ fail io_error
      | some header_data ↦ do
        header ← file_header_decode header_data
        reject_if (header_mismatch header manifest_generation component bytes) invalid_format
    ]

-- One round of the loop; `granted` is the answer of `malloc`.
unfoldable pub verify_component : Files → Bool → ℕ → List ℕ → Component → Result (Unit {0})
verify_component files granted manifest_generation id component = do
  reject_if (not granted) allocation_failed
  (checksum, bytes) ← files.sha256 id component.name
  reject_if (not (bytes == component.file_bytes) || not (bytes_eq checksum component.checksum))
      checksum_mismatch
  verify_header files manifest_generation id component bytes

unfoldable pub verify_loop : Files → Bool → ℕ → List ℕ → List Component → Result (Unit {0})
verify_loop files granted manifest_generation id [] = done tt
verify_loop files granted manifest_generation id (c ∷ rest) =
    verify_component files granted manifest_generation id c
    >> verify_loop files granted manifest_generation id rest

unfoldable pub verify_segment_components : Files → Bool → ℕ → Segment → Result (Unit {0})
verify_segment_components files granted manifest_generation segment = do
  reject_if (manifest_generation == 0) invalid_argument
  verify_loop files granted manifest_generation segment.id segment.components

unfoldable pub verify_segments : Files → Bool → ℕ → List Segment → Result (Unit {0})
verify_segments files granted manifest_generation [] = done tt
verify_segments files granted manifest_generation (s ∷ rest) =
    verify_segment_components files granted manifest_generation s
    >> verify_segments files granted manifest_generation rest

unfoldable pub manifest_verify_components : Files → Bool → Manifest → Result (Unit {0})
manifest_verify_components files granted m = do
  check (manifest_validate granted m)
  verify_segments files granted m.generation m.segments

-- `fingerprint` is what `YAP_V2_config_fingerprint` answers, `loaded` what the loader gives.
unfoldable pub manifest_load_for_config : Result (List ℕ) → Result Manifest → Result Manifest
manifest_load_for_config fingerprint loaded = do
  fingerprint ← fingerprint
  m ← loaded
  reject_if (not (bytes_eq fingerprint m.config_fingerprint)) conflict
  done m

-- The file of a component is there, with the size and the checksum of the manifest.
abbrev pub IsIntact : Files → List ℕ → Component → Type 0
IsIntact files id c = files.sha256 id c.name ≡ done (c.checksum, c.file_bytes)

verify_component-IsIntact :
    (files : Files) (generation : ℕ) (id : List ℕ) (c : Component)
    → verify_component files true generation id c ≡ done tt
    → IsIntact files id c
unfolding verify_component
verify_component-IsIntact files generation id c e = elim (Result-cases (files.sha256 id c.name)) [
  | inr (status, stopped) ↦ ground (arith, e, stopped)
  | inl ((checksum, bytes), hashed) ↦ ground (arith, e, hashed, bytes_eq→eq checksum c.checksum)
]

verify_loop-IsIntact :
    (files : Files) (generation : ℕ) (id : List ℕ) (cs : List Component)
    → verify_loop files true generation id cs ≡ done tt
    → All (IsIntact files id) cs
unfolding verify_loop
verify_loop-IsIntact files generation id [] e = tt
verify_loop-IsIntact files generation id (c ∷ cs) e =
    elim (Result-cases (verify_component files true generation id c)) [
      | inr (status, stopped) ↦ ground (arith, e, stopped)
      | inl (_, passed) ↦ (
        verify_component-IsIntact files generation id c passed,
        verify_loop-IsIntact files generation id cs (ground (arith, e, passed)),
      )
    ]

verify_segments-IsIntact :
    (files : Files) (generation : ℕ) (segments : List Segment)
    → verify_segments files true generation segments ≡ done tt
    → All (λ s. All (IsIntact files s.id) s.components) segments
unfolding verify_segments verify_segment_components
verify_segments-IsIntact files generation [] e = tt
verify_segments-IsIntact files generation (s ∷ rest) e =
    elim (Result-cases (verify_loop files true generation s.id s.components)) [
      | inr (status, stopped) ↦ ground (arith, e, stopped)
      | inl (_, passed) ↦ (
        verify_loop-IsIntact files generation s.id s.components passed,
        verify_segments-IsIntact files generation rest (ground (arith, e, passed)),
      )
    ]

-- When the verification succeeds, the manifest is valid, and of every component of every segment the
-- file is there with the size and the checksum that the manifest records.
pub manifest_verify_components-IsIntact :
    (files : Files) (m : Manifest)
    → manifest_verify_components files true m ≡ done tt
    → (manifest_validate true m ≡ ok) × All (λ s. All (IsIntact files s.id) s.components) m.segments
unfolding manifest_verify_components
manifest_verify_components-IsIntact files m e =
    (ground (arith, e), verify_segments-IsIntact files m.generation m.segments (ground (arith, e)))
