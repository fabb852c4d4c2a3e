-- ===== src/Storage/Manifest/Validity.antt =====
-- Which manifests `manifest_validate` accepts.
use yappod.Prelude.{
  ℕ, suc, ◌+◌, ◌*◌, ◌^◌, ◌≤◌, ◌<◌, ◌≡◌, ◌≢◌, ◌↔◌, inl, inr, refl, true, false, List, [], ◌∷◌, ◌++◌,
  arith, length, get_or, replicate, All, All-snoc, length-append,
}
use yappod.Prelude.Bytes.{bytes_eq→eq, bytes_eq_refl}
use yappod.Types.{ok, duplicate, fail, status_of, is_ok, format_version}
use yappod.Storage.Descriptor.{
  Component, Segment, component_bad, clashes, add_component, max_components,
}
use yappod.Storage.Descriptor.Components.{IsSegmentId, segment_id_validate_iff}
use yappod.Storage.Slots.Capacity.{capacity_for_lem}
use yappod.Storage.Slots.Index.{IsIndex}
use yappod.Storage.Slots.Insert.{same_id, enter_fresh, enter_clash}
use yappod.Storage.Slots.Build.{fresh-IsIndex}
use yappod.Storage.Manifest.{
  Manifest, ids, replay, segment_check, segments_check, all_zero, manifest_validate, max_segments,
}

-- Two components that may stand in one segment.
abbrev pub Apart : Component → Component → Type 0
Apart c other = (c.name ≢ other.name) × (c.file_type ≢ other.file_type)

abbrev pub AllApart : List Component → Type 0
AllApart [] = Unit {0}
AllApart (c ∷ rest) = All (Apart c) rest × AllApart rest

abbrev pub IsSound : Component → Type 0
IsSound c = component_bad c ≡ false

clashes_iff :
    (c : Component) (others : List Component)
    → (clashes c others ≡ false) ↔ All (λ o. Apart o c) others
unfolding clashes
clashes_iff c [] = (λ h. tt, λ h. refl)
clashes_iff c (o ∷ rest) = (
  λ h. (
    ((λ e. ground (arith, e, bytes_eq_refl c.name)), (λ e. ground (arith, e))),
    (clashes_iff c rest).0 (ground arith),
  ),
  λ h. ground (arith, bytes_eq→eq o.name c.name, h.0.0, h.0.1, (clashes_iff c rest).1 h.1),
)

-- The components `rest` can be added, in order, behind `before`.
record IsFit (before rest : List Component) : Type 0 where
  room : length before + length rest ≤ max_components
  sound : All IsSound rest
  fresh : All (λ c. All (λ o. Apart o c) before) rest
  apart : AllApart rest

fresh_split :
    (before : List Component) (c : Component) (rest : List Component)
    → All (λ d. All (λ o. Apart o d) (before ++ c ∷ [])) rest
      ↔ (All (λ d. All (λ o. Apart o d) before) rest × All (Apart c) rest)
fresh_split before c [] = (λ h. (tt, tt), λ h. tt)
fresh_split before c (d ∷ rest) =
    let here = All-snoc (λ o. Apart o d) before c in
    let there = fresh_split before c rest in
    (
      λ h. (((here.0 h.0).0, (there.0 h.1).0), ((here.0 h.0).1, (there.0 h.1).1)),
      λ h. (here.1 (h.0.0, h.1.0), there.1 (h.0.1, h.1.1)),
    )

accepted :
    (before : List Component) (c : Component)
    → (is_ok (add_component before c).0 ≡ true)
      ↔ (IsSound c × (length before < max_components) × All (λ o. Apart o c) before)
unfolding add_component
accepted before c = (
  λ h. (ground arith, ground arith, (clashes_iff c before).0 (ground arith)),
  λ h. ground (arith, h.0, h.1, (clashes_iff c before).1 h.2),
)

replay_sound :
    (before rest : List Component)
    → length before ≤ max_components
    → replay before rest ≡ ok
    → IsFit before rest
unfolding replay
replay_sound before [] few h = record { room = omega arith; sound = tt; fresh = tt; apart = tt }
replay_sound before (c ∷ rest) few h =
    let good : is_ok (add_component before c).0 ≡ true = ground arith in
    let (sound, room, fresh) = (accepted before c).0 good in
    let size = length-append before (c ∷ []) in
    let more = replay_sound (before ++ c ∷ []) rest (omega arith) (ground arith) in
    let (fresh', apart') = (fresh_split before c rest).0 more.fresh in
    record {
      room = omega (arith, more.room);
      sound = (sound, more.sound);
      fresh = (fresh, fresh');
      apart = (apart', more.apart);
    }

replay_complete : (before rest : List Component) → IsFit before rest → replay before rest ≡ ok
unfolding replay
replay_complete before [] f = refl
replay_complete before (c ∷ rest) f =
    let good = (accepted before c).1 (f.sound.0, omega (arith, f.room), f.fresh.0) in
    let size = length-append before (c ∷ []) in
    rw good (
      replay_complete (before ++ c ∷ []) rest (record {
        room = omega (arith, f.room);
        sound = f.sound.1;
        fresh = (fresh_split before c rest).1 (f.fresh.1, f.apart.0);
        apart = f.apart.1;
      }))

-- A segment as the manifest wants it: a valid id, and 1 to 8 sound components of different names
-- and types.
pub record IsSegment (s : Segment) : Type 0 where
  pub id : IsSegmentId s.id
  pub some_component : 0 < length s.components
  pub few : length s.components ≤ max_components
  pub sound : All IsSound s.components
  pub apart : AllApart s.components

no_others : (cs : List Component) → All (λ c. All (λ o. Apart o c) []) cs
no_others [] = tt
no_others (c ∷ cs) = (tt, no_others cs)

pub segment_check_iff : (s : Segment) → (status_of (segment_check s) ≡ ok) ↔ IsSegment s
unfolding segment_check
segment_check_iff s = (
  λ h.
      let fit = replay_sound [] s.components (omega arith) (ground arith) in
      record {
        id = (segment_id_validate_iff s.id).0 (ground arith);
        some_component = ground arith;
        few = ground arith;
        sound = fit.sound;
        apart = fit.apart;
      },
  λ v. ground (
    arith,
    (segment_id_validate_iff s.id).1 v.id,
    v.some_component,
    v.few,
    replay_complete [] s.components (record {
      room = omega (arith, v.few);
      sound = v.sound;
      fresh = no_others s.components;
      apart = v.apart;
    }),
  ),
)

segment_check-ne-fail_ok : (s : Segment) → segment_check s ≢ fail ok
unfolding segment_check
segment_check-ne-fail_ok s = ground arith

abbrev pub AllDistinct : List (List ℕ) → ℕ → Type 0
AllDistinct all n = (i j : ℕ) → i < n → j < n → get_or all i [] ≡ get_or all j [] → i ≡ j

-- The rest of the loop, from an index of the first `n` ids.
segments_check_iff :
    (all : List (List ℕ)) (k : ℕ) (rest : List Segment) (n m : ℕ) (slots : List ℕ)
    → n + length rest ≡ m
    → m ≤ 2 ^ k
    → IsIndex all n k slots
    → (status_of (segments_check all (2 ^ k) rest n slots) ≡ ok)
      ↔ (All IsSegment rest × AllDistinct all m)
unfolding segments_check
segments_check_iff all k [] n m slots e fits index =
    let e' : n ≡ m = omega arith in ((λ h. (tt, rw e' at (index.distinct))), λ h. refl)
segments_check_iff all k (s ∷ rest) n m slots e fits index =
    elim (same_id all (get_or all n []) n) [
      | inl (i, lt, same) ↦
          let clash = enter_clash all n k slots index duplicate i lt same in
          (
            (λ h. absurd (ground (arith, clash, h, segment_check-ne-fail_ok s))),
            λ h. absurd (omega (arith, h.1 i n (omega arith) (omega arith) same)),
          )
      | inr absent ↦
          let (slots', entered, index') =
            enter_fresh all n k slots index duplicate (omega arith) absent in
          let one : suc n ≡ n + 1 = omega arith in
          let more =
            segments_check_iff all k rest (n + 1) m slots' (omega arith) fits (rw one at index') in
          (
            (λ h.
                let tail = more.0 (ground (arith, entered, h, segment_check-ne-fail_ok s)) in
                (
                  ((segment_check_iff s).0 (ground (arith, h, segment_check-ne-fail_ok s)), tail.0),
                  tail.1,
                )),
            λ h. ground (arith, (segment_check_iff s).1 h.0.0, entered, more.1 (h.0.1, h.1)),
          )
    ]

-- A manifest that may be published.
pub record IsManifest (m : Manifest) : Type 0 where
  pub version : m.format_version ≡ format_version
  pub numbered : 0 < m.generation
  pub few : length m.segments ≤ max_segments
  pub configured : all_zero m.config_fingerprint ≡ false
  pub segments : All IsSegment m.segments
  pub distinct : AllDistinct (ids m.segments) (length m.segments)

-- With memory granted, `manifest_validate` accepts exactly the manifests of format version 2 with a
-- generation, a configuration fingerprint that is not all zero, and at most 100000 segments of
-- different ids, each with a valid id and 1 to 8 sound components of different names and types.
pub manifest_validate_iff : (m : Manifest) → (manifest_validate true m ≡ ok) ↔ IsManifest m
unfolding manifest_validate
manifest_validate_iff m = (
  λ h.
      let (k, capacity, large) = capacity_for_lem (length m.segments * 2) (ground arith) in
      let loop =
        segments_check_iff (ids m.segments) k m.segments 0 (length m.segments) (replicate (2 ^ k) 0)
          (omega arith) (omega arith) (fresh-IsIndex (ids m.segments) k) in
      let (segments, distinct) = loop.0 (ground (arith, capacity, h)) in
      record {
        version = ground arith;
        numbered = ground arith;
        few = ground arith;
        configured = ground arith;
        segments = segments;
        distinct = distinct;
      },
  λ v.
      let (k, capacity, large) = capacity_for_lem (length m.segments * 2) (omega (arith, v.few)) in
      let loop =
        segments_check_iff (ids m.segments) k m.segments 0 (length m.segments) (replicate (2 ^ k) 0)
          (omega arith) (omega arith) (fresh-IsIndex (ids m.segments) k) in
      ground (
        arith,
        capacity,
        v.version,
        v.numbered,
        v.few,
        v.configured,
        loop.1 (v.segments, v.distinct),
      ),
)
