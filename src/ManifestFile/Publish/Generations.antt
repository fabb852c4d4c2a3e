-- ===== src/ManifestFile/Publish/Generations.antt =====
-- The generation that a file holds, as the loader reads it and as a save writes it.
use yappod.Prelude.{
  ℕ, zero, suc, ◌^◌, ◌≤◌, ◌<◌, ◌≡◌, inl, inr, refl, Bool, List, ◌++◌, arith, length, drop,
}
use yappod.Codec.Crc.{crc32c-lt}
use yappod.Types.{Result, done, ◌>>=◌}
use yappod.Types.Binds.{Result-cases}
use yappod.Storage.Header.{file_header_decode, file_header_encode, file_header_bytes}
use yappod.Storage.Header.RoundTrip.{IsHeader, decode-encode}
use yappod.Storage.Manifest.{Manifest, manifest_init, add_segment}
use yappod.Storage.Manifest.Head.{add_segment-SameHead}
use yappod.ManifestFile.{
  reader_u32, reader_take, parse_segments, parse_segment, parse_payload, parse_file,
  encode_manifest, manifest_payload, manifest_payload_size, max_manifest_bytes, segments_size,
  payload_header_bytes,
}
use yappod.ManifestFile.RoundTrip.{manifest_header}
use yappod.ManifestFile.Publish.{Posix, Memory, prepare}

-- The generation in the header of a file.
abbrev pub generation_of : List ℕ → Result ℕ
generation_of file = file_header_decode file >>= (λ h. done h.generation)

-- `parse_segments` does not touch the generation that the parsed manifest was given.
parse_segments-generation :
    (granted : Bool) (rounds : ℕ) (m m' : Manifest) (reader rest : List ℕ)
    → parse_segments granted rounds m reader ≡ done (m', rest)
    → m'.generation ≡ m.generation
unfolding parse_segments
parse_segments-generation granted zero m m' reader rest e = ground (arith, e)
parse_segments-generation granted (suc rounds) m m' reader rest e =
    elim (Result-cases (parse_segment reader)) [
      | inr (status, stopped) ↦ ground (arith, e, stopped)
      | inl ((s, reader'), read) ↦
          let again =
            parse_segments-generation granted rounds (add_segment granted granted m s).1 m' reader'
              rest in
          let head = add_segment-SameHead granted granted m s in
          ground (arith, e, read, again, head.generation)
    ]

abbrev headed : ℕ → List ℕ → Manifest
headed generation fingerprint = record manifest_init {
  generation = generation;
  config_fingerprint = fingerprint;
}

parse_payload-generation :
    (granted : Bool) (generation : ℕ) (reader : List ℕ) (m : Manifest)
    → parse_payload granted generation reader ≡ done m
    → m.generation ≡ generation
unfolding parse_payload
parse_payload-generation granted generation reader m e = elim (Result-cases (reader_u32 reader)) [
  | inr (status, stopped) ↦ ground (arith, e, stopped)
  | inl ((version, r1), read1) ↦ elim (Result-cases (reader_u32 r1)) [
    | inr (status, stopped) ↦ ground (arith, e, read1, stopped)
    | inl ((count, r2), read2) ↦ elim (Result-cases (reader_take r2 32)) [
      | inr (status, stopped) ↦ ground (arith, e, read1, read2, stopped)
      | inl ((fingerprint, r3), read3) ↦
          elim (Result-cases (parse_segments granted count (headed generation fingerprint) r3)) [
            | inr (status, stopped) ↦ ground (arith, e, read1, read2, read3, stopped)
            | inl ((parsed, r4), read4) ↦
                let same =
                  parse_segments-generation granted count (headed generation fingerprint) parsed r3
                    r4 read4 in
                ground (arith, e, read1, read2, read3, read4, same)
          ]
    ]
  ]
]

pub parse_file-generation :
    (granted : Bool) (file : List ℕ) (m : Manifest)
    → parse_file granted file ≡ done m
    → generation_of file ≡ done m.generation
unfolding parse_file
parse_file-generation granted file m e = elim (Result-cases (file_header_decode file)) [
  | inr (status, stopped) ↦ ground (arith, e, stopped)
  | inl (h, decoded) ↦
      elim (Result-cases (parse_payload granted h.generation (drop file_header_bytes file))) [
        | inr (status, stopped) ↦ ground (arith, e, decoded, stopped)
        | inl (parsed, read) ↦
            let same =
              parse_payload-generation granted h.generation (drop file_header_bytes file) parsed
                read in
            ground (arith, e, decoded, read, same)
      ]
]

manifest_payload_size-le :
    (m : Manifest) (n : ℕ) → manifest_payload_size m ≡ done n → n ≤ max_manifest_bytes
unfolding manifest_payload_size
manifest_payload_size-le m n e =
    elim (Result-cases (segments_size m.segments payload_header_bytes)) [
      | inr (status, stopped) ↦ ground (arith, e, stopped)
      | inl (total, size) ↦ ground (arith, e, size)
    ]

pub prepare-generation :
    {D : Type 0} (os : Posix D) (memory : Memory) (path file : List ℕ) (m : Manifest)
    → m.generation < 2 ^ 64
    → prepare os memory path m ≡ done file
    → generation_of file ≡ done m.generation
unfolding prepare encode_manifest
prepare-generation os memory path file m bound e = elim (Result-cases (manifest_payload_size m)) [
  | inr (status, stopped) ↦ ground (arith, e, stopped)
  | inl (n, size) ↦ elim (Result-cases (file_header_encode (manifest_header m))) [
    | inr (status, stopped) ↦ ground (arith, e, size, stopped)
    | inl (output, encoded) ↦
        let fits = manifest_payload_size-le m n size in
        let equal : length (manifest_payload m) ≡ n = ground (arith, e, size, encoded) in
        let fields : IsHeader (manifest_header m) = record {
          version = omega arith;
          header = omega arith;
          type = omega arith;
          generation = bound;
          payload = omega arith;
          crc = crc32c-lt (manifest_payload m);
        } in
        let (decoded, sized) =
          decode-encode (manifest_header m) output (manifest_payload m) fields encoded in
        let whole : file ≡ output ++ manifest_payload m = ground (arith, e, size, encoded) in
        rw (whole, decoded) refl
  ]
]
