-- ===== src/Snapshot/Manager.antt =====
-- The snapshot manager of src/storage/yappo_snapshot_v2.c: the counted references of the snapshots, and
-- the one that is current. A snapshot is a number; `cells` says what is stored for it, and `count`
-- snapshots have been loaded so far. One call of `pthread_mutex_lock` and the code up to the unlocking
-- is one function. A snapshot that was destroyed stays in the store with `alive` false. What
-- `snapshot_load` gives is a parameter: a manifest, or a status.
pub mod Steps
pub mod Counting
pub mod Generations
pub mod Reloading
pub mod Reloaded
use yappod.Prelude.{
  ℕ, suc, ◌+◌, ◌-◌, ◌%◌, ◌^◌, Bool, true, false, not, ◌&&◌, Option, none, some, List, [], ◌∷◌, ltb,
  ◌==◌, if◌then◌else◌, length,
}
use yappod.Types.{Status, ok, conflict, Result, done, fail}
use yappod.Storage.Descriptor.{Segment, segment_descriptor_equal}
use yappod.Storage.Manifest.{Manifest}

-- The part of `YAP_V2_SEARCH_SNAPSHOT` that the manager reads.
pub record SearchSnapshot : Type 0 where
  pub references : ℕ
  pub alive : Bool
  pub manifest : Manifest

pub record Manager : Type 0 where
  pub cells : ℕ → SearchSnapshot
  pub count : ℕ
  pub current : Option ℕ

unfoldable pub update : (ℕ → SearchSnapshot) → ℕ → SearchSnapshot → ℕ → SearchSnapshot
update cells i snapshot j = if i == j then snapshot else cells j

unfoldable pub snapshot_retain : ℕ → Manager → Manager
snapshot_retain i m =
    let snapshot = m.cells i in
    record m {
      cells =
          update m.cells i (record snapshot { references = (snapshot.references + 1) % 2 ^ 64 });
    }

-- With the last reference goes the snapshot.
unfoldable pub snapshot_release : ℕ → Manager → Manager
snapshot_release i m =
    let snapshot = m.cells i in
    if snapshot.references == 0 then m else record m {
      cells = update m.cells i (record snapshot {
        references = snapshot.references - 1;
        alive = snapshot.alive && not (snapshot.references - 1 == 0);
      });
    }

abbrev pub release_any : Option ℕ → Manager → Manager
release_any none m = m
release_any (some i) m = snapshot_release i m

abbrev pub retain_any : Option ℕ → Manager → Manager
retain_any none m = m
retain_any (some i) m = snapshot_retain i m

unfoldable pub snapshot_acquire : Manager → Option ℕ × Manager
snapshot_acquire m = (m.current, retain_any m.current m)

unfoldable pub descriptors_equal : List Segment → List Segment → Bool
descriptors_equal (s ∷ rest) (t ∷ rest') =
    segment_descriptor_equal s t && descriptors_equal rest rest'
descriptors_equal _ _ = true

unfoldable pub snapshot_matches_manifest : Manifest → Manifest → Bool
snapshot_matches_manifest snapshot manifest =
    snapshot.generation == manifest.generation
    && length snapshot.segments == length manifest.segments
    && descriptors_equal snapshot.segments manifest.segments

-- A snapshot that was loaded, with the reference of its loader.
unfoldable pub snapshot_new : Manifest → Manager → ℕ × Manager
snapshot_new manifest m = (
  m.count,
  record m {
    cells = update m.cells m.count (record { references = 1; alive = true; manifest = manifest });
    count = m.count + 1;
  },
)

-- The second critical section of the reload: the status, whether the current snapshot changed, and
-- the snapshot that is released behind the section.
unfoldable pub snapshot_install : ℕ → Manager → Status × Bool × Option ℕ × Manager
snapshot_install candidate m = elim m.current [
  | none ↦ (ok, true, none, record m { current = some candidate })
  | some previous ↦
      let old = (m.cells previous).manifest in
      let new = (m.cells candidate).manifest in
      if ltb new.generation old.generation
      then (conflict, false, some candidate, m)
      else if new.generation == old.generation
      then ((if snapshot_matches_manifest old new then ok else conflict), false, some candidate, m)
      else (ok, true, some previous, record m { current = some candidate })
]

unfoldable pub snapshot_manager_reload : Result Manifest → Manager → Status × Bool × Manager
snapshot_manager_reload loaded m =
    let (base, m) = snapshot_acquire m in
    elim loaded [
      | fail status ↦ (status, false, release_any base m)
      | done manifest ↦
          let (candidate, m) = snapshot_new manifest m in
          let (status, changed, released, m) = snapshot_install candidate (release_any base m) in
          (status, changed, release_any released m)
    ]

-- The critical section of the closing, and the snapshot that is released behind it.
unfoldable pub snapshot_manager_detach : Manager → Option ℕ × Manager
snapshot_manager_detach m = (m.current, record m { current = none })

unfoldable pub snapshot_manager_close : Manager → Manager
snapshot_manager_close m = let (current, m) = snapshot_manager_detach m in release_any current m

-- The manager of a first load.
unfoldable pub snapshot_manager_open : Result Manifest → Result Manager
snapshot_manager_open (fail status) = fail status
snapshot_manager_open (done manifest) = done (record {
  cells =
      λ i. record { references = (if i == 0 then 1 else 0); alive = i == 0; manifest = manifest };
  count = 1;
  current = some 0;
})
