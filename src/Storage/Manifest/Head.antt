-- ===== src/Storage/Manifest/Head.antt =====
-- Adding a segment leaves the version, the generation and the fingerprint alone.
use yappod.Prelude.{ℕ, ◌+◌, ◌≡◌, refl, ◌∙◌, Bool, arith, leb, length, Bool-cases, inl, inr}
use yappod.Types.{Status, Result, done, fail, is_ok}
use yappod.Storage.Descriptor.{Segment, segment_id_validate}
use yappod.Storage.Manifest.{
  Manifest, add_segment, add_indexed, segment_append, segments_reserve, slots_rebuild,
  needs_rebuild, max_segments,
}

-- Two manifests with one version, generation and fingerprint.
pub record SameHead (m m' : Manifest) : Type 0 where
  pub version : m'.format_version ≡ m.format_version
  pub generation : m'.generation ≡ m.generation
  pub fingerprint : m'.config_fingerprint ≡ m.config_fingerprint

add_indexed-SameHead :
    (granted : Bool) (m : Manifest) (s : Segment) → SameHead m (add_indexed granted m s).1
unfolding add_indexed segments_reserve segment_append
add_indexed-SameHead granted m s = ground arith

rebuilt-SameHead :
    (granted : Bool) (m m' : Manifest) (n : ℕ) → slots_rebuild granted m n ≡ done m' → SameHead m m'
unfolding slots_rebuild
rebuilt-SameHead granted m m' n e = ground arith

after_rebuild :
    (granted : Bool) (m : Manifest) (s : Segment) (r : Result Manifest)
    → ((m' : Manifest) → r ≡ done m' → SameHead m m')
    → SameHead m
        (elim r as (λ x. Status × Manifest) [
          | fail failure ↦ (failure, m)
          | done m' ↦ add_indexed granted m' s
        ]).1
after_rebuild granted m s (fail failure) h = record {
  version = refl;
  generation = refl;
  fingerprint = refl;
}
after_rebuild granted m s (done m') h =
    let a = h m' refl in
    let b = add_indexed-SameHead granted m' s in
    record {
      version = b.version ∙ a.version;
      generation = b.generation ∙ a.generation;
      fingerprint = b.fingerprint ∙ a.fingerprint;
    }

pub add_segment-SameHead :
    (calloc realloc : Bool) (m : Manifest) (s : Segment)
    → SameHead m (add_segment calloc realloc m s).1
unfolding add_segment
add_segment-SameHead calloc realloc m s = elim (Bool-cases (is_ok (segment_id_validate s.id))) [
  | inr bad ↦ rw bad (record { version = refl; generation = refl; fingerprint = refl })
  | inl valid ↦ elim (Bool-cases (leb max_segments (length m.segments))) [
    | inl full ↦ rw (valid, full) (record { version = refl; generation = refl; fingerprint = refl })
    | inr room ↦ elim (Bool-cases (needs_rebuild m)) [
      | inr fine ↦ rw (valid, room, fine) (add_indexed-SameHead realloc m s)
      | inl stale ↦
          rw (valid, room, stale)
            (after_rebuild realloc m s (slots_rebuild calloc m (length m.segments + 1))
              (λ m' e. rebuilt-SameHead calloc m m' _ e))
    ]
  ]
]
