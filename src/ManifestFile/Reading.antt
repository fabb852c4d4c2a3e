-- ===== src/ManifestFile/Reading.antt =====
-- Reading back one part of the payload, whatever follows it.
use yappod.Prelude.{
  ℕ, ◌^◌, ◌≤◌, ◌<◌, ◌≡◌, refl, sym, ap, ◌∙◌, false, List, [], ◌∷◌, ◌++◌, arith, length, All,
  take-append, drop-append, length-append, append-nil, append_assoc,
}
use yappod.Prelude.Bytes.{contains}
use yappod.Codec.{put_u32_le, put_u64_le, get_u32_le, get_u64_le}
use yappod.Codec.Words.{get_u32-put_u32, get_u64-put_u64, length-put_u32, length-put_u64}
use yappod.Types.{Status, done}
use yappod.Storage.Descriptor.{Component, Segment, add_component}
use yappod.Storage.Manifest.{replay}
use yappod.ManifestFile.{
  reader_take, reader_u32, reader_u64, parse_component, parse_components, parse_segment,
  put_component, put_components, put_segment,
}

pub take_back :
    (xs rest : List ℕ) (n : ℕ) → n ≡ length xs → reader_take (xs ++ rest) n ≡ done (xs, rest)
unfolding reader_take
take_back xs rest n e =
    ground (arith, length-append xs rest, take-append xs rest n e, drop-append xs rest n e, e)

pub u32_back :
    (v : ℕ) (rest : List ℕ) → v < 2 ^ 32 → reader_u32 (put_u32_le v ++ rest) ≡ done (v, rest)
unfolding reader_u32
u32_back v rest h =
    let back : get_u32_le (put_u32_le v) ≡ v =
      ap get_u32_le (sym (append-nil (put_u32_le v))) ∙ get_u32-put_u32 v [] h in
    rw (take_back (put_u32_le v) rest 4 (sym (length-put_u32 v)), back)

pub u64_back :
    (v : ℕ) (rest : List ℕ) → v < 2 ^ 64 → reader_u64 (put_u64_le v ++ rest) ≡ done (v, rest)
unfolding reader_u64
u64_back v rest h =
    let back : get_u64_le (put_u64_le v) ≡ v =
      ap get_u64_le (sym (append-nil (put_u64_le v))) ∙ get_u64-put_u64 v [] h in
    rw (take_back (put_u64_le v) rest 8 (sym (length-put_u64 v)), back)

-- A component whose fields are within their C types and whose name is a C string of 1 to 63 bytes.
pub record IsStored (c : Component) : Type 0 where
  pub named : 0 < length c.name
  pub fits : length c.name ≤ 63
  pub clean : contains 0 c.name ≡ false
  pub type : c.file_type < 2 ^ 32
  pub records : c.record_count < 2 ^ 64
  pub bytes : c.file_bytes < 2 ^ 64
  pub digest : length c.checksum ≡ 32

component_back :
    (c : Component) (rest : List ℕ)
    → IsStored c
    → parse_component (put_component c rest) ≡ done (c, rest)
unfolding parse_component put_component
component_back c rest v = ground (
  arith,
  u32_back (length c.name)
      (put_u32_le c.file_type
        ++ (put_u64_le c.record_count
            ++ (put_u64_le c.file_bytes ++ (c.checksum ++ (c.name ++ rest)))))
      (omega (arith, v.fits)),
  u32_back c.file_type
      (put_u64_le c.record_count ++ (put_u64_le c.file_bytes ++ (c.checksum ++ (c.name ++ rest))))
      v.type,
  u64_back c.record_count (put_u64_le c.file_bytes ++ (c.checksum ++ (c.name ++ rest))) v.records,
  u64_back c.file_bytes (c.checksum ++ (c.name ++ rest)) v.bytes,
  take_back c.checksum (c.name ++ rest) 32 (sym v.digest),
  take_back c.name rest (length c.name) refl,
  v.named,
  v.fits,
  v.clean,
)

module _ (before : List Component) (c : Component) (rest : List Component) where
  replay-cons :
      replay before (c ∷ rest) ≡ Status.ok
      → (add_component before c ≡ (Status.ok, before ++ c ∷ []))
        × (replay (before ++ c ∷ []) rest ≡ Status.ok)
  unfolding replay add_component
  replay-cons h = (ground (arith, h), ground (arith, h))

components_back :
    (before more : List Component) (rest : List ℕ)
    → replay before more ≡ Status.ok
    → All IsStored more
    → parse_components (length more) before (put_components more rest) ≡ done (before ++ more, rest)
unfolding parse_components put_components
components_back before [] rest h v = ap (λ cs. done (cs, rest)) (sym (append-nil before))
components_back before (c ∷ more) rest h v =
    let (added, again) = replay-cons before c more h in
    rw (component_back c (put_components more rest) v.0, added)
      (components_back (before ++ c ∷ []) more rest again v.1
        ∙ ap (λ cs. done (cs, rest)) (append_assoc before (c ∷ []) more))

-- A segment that can be stored.
pub record IsStoredSegment (s : Segment) : Type 0 where
  pub named : 0 < length s.id
  pub fits : length s.id ≤ 255
  pub clean : contains 0 s.id ≡ false
  pub documents : s.document_count < 2 ^ 64
  pub passages : s.passage_count < 2 ^ 64
  pub tombstones : s.tombstone_count < 2 ^ 64
  pub some_component : 0 < length s.components
  pub few : length s.components ≤ 8
  pub replayed : replay [] s.components ≡ Status.ok
  pub components : All IsStored s.components

pub segment_back :
    (s : Segment) (rest : List ℕ)
    → IsStoredSegment s
    → parse_segment (put_segment s rest) ≡ done (s, rest)
unfolding parse_segment put_segment
segment_back s rest v =
    let tail = put_components s.components rest in
    ground (
      arith,
      u32_back (length s.id)
          (put_u32_le (length s.components)
            ++ (put_u64_le s.document_count
                ++ (put_u64_le s.passage_count
                    ++ (put_u64_le s.tombstone_count ++ (s.id ++ tail)))))
          (omega (arith, v.fits)),
      u32_back (length s.components)
          (put_u64_le s.document_count
            ++ (put_u64_le s.passage_count ++ (put_u64_le s.tombstone_count ++ (s.id ++ tail))))
          (omega (arith, v.few)),
      u64_back s.document_count
          (put_u64_le s.passage_count ++ (put_u64_le s.tombstone_count ++ (s.id ++ tail)))
          v.documents,
      u64_back s.passage_count (put_u64_le s.tombstone_count ++ (s.id ++ tail)) v.passages,
      u64_back s.tombstone_count (s.id ++ tail) v.tombstones,
      take_back s.id tail (length s.id) refl,
      components_back [] s.components rest v.replayed v.components,
      v.named,
      v.fits,
      v.clean,
      v.some_component,
      v.few,
    )
