-- ===== src/Examples/Snapshots.antt =====
-- Two segments with a document that is removed, and a manager with one caller.
use yappod.Prelude.{
  ℕ, ◌<◌, ◌≡◌, ◌↔◌, ◌⊎◌, refl, true, some, List, [], ◌∷◌, arith, length, All, ◌==◌, if◌then◌else◌,
}
use yappod.Prelude.Integers.{pos}
use yappod.Types.{BytesView, content, DocumentView, Result, done, fail}
use yappod.Storage.Manifest.{Manifest, manifest_init}
use yappod.Types.Views.{HasBytes}
use yappod.Snapshot.{
  SnapshotSegment, Table, build_visibility, visibility_lookup, Visible, DocumentHit,
  document_visible, lookup_document,
}
use yappod.Snapshot.Records.{last_record}
use yappod.Snapshot.Visibility.{segment_records, record_total}
use yappod.Snapshot.Answers.{HasIds, build_visibility-last_record, document_visible_iff}
use yappod.Snapshot.Manager.{
  Manager, snapshot_acquire, snapshot_manager_open, snapshot_manager_reload, snapshot_retain,
}
use yappod.Snapshot.Manager.Steps.{State, one_more, Step, acquires, Reaches, opened, further}
use yappod.Snapshot.Manager.Counting.{reachable-alive}
use yappod.Snapshot.Manager.Reloading.{Follows}
use yappod.Snapshot.Manager.Reloaded.{Reloaded, snapshot_manager_reload-Reloaded}
use yappod.Snapshot.Manager.Generations.{generation, Step-Advances}

abbrev id_a : BytesView
id_a = record { bytes = some (b'a' ∷ []); len = 1 }

abbrev id_b : BytesView
id_b = record { bytes = some (b'b' ∷ []); len = 1 }

abbrev document : BytesView → DocumentView
document id = record {
  id = id;
  url = id;
  title = id;
  body = id;
  metadata_json = id;
  updated_at_unix_ms = pos 0;
}

abbrev two_segments : List SnapshotSegment
two_segments =
    record { documents = document id_a ∷ document id_b ∷ []; tombstones = [] }
    ∷ record { documents = document id_b ∷ []; tombstones = id_a ∷ [] }
    ∷ []

a-HasBytes : HasBytes id_a
a-HasBytes = record { xs = b'a' ∷ []; there = refl; sized = refl }

b-HasBytes : HasBytes id_b
b-HasBytes = record { xs = b'b' ∷ []; there = refl; sized = refl }

two_segments-HasIds : All HasIds two_segments
two_segments-HasIds = (
  record { documents = (a-HasBytes, (b-HasBytes, tt)); tombstones = tt },
  (record { documents = (b-HasBytes, tt); tombstones = (a-HasBytes, tt) }, tt),
)

build_visibility-last_record_example :
    (capacity : ℕ) × (table : Table) × (build_visibility true two_segments ≡ done (capacity, table))
    × ((id : BytesView)
        → HasBytes id
        → visibility_lookup capacity table id
          ≡ last_record (segment_records 0 two_segments) (content id))
build_visibility-last_record_example =
    build_visibility-last_record two_segments two_segments-HasIds
      (unfold record_total in omega arith)

abbrev snapshot_of : Result (ℕ × Table) → Visible
snapshot_of (done (capacity, table)) = record {
  segments = two_segments;
  visibility_capacity = capacity;
  visibility = table;
}
snapshot_of (fail s) = record { segments = []; visibility_capacity = 0; visibility = [] }

abbrev snapshot : Visible
snapshot = snapshot_of (build_visibility true two_segments)

document_visible_iff_example : (document_visible snapshot 1 id_b ≡ true) ↔ (
    (1 < length snapshot.segments)
    × (hit : DocumentHit) × (lookup_document snapshot id_b ≡ done hit)
    × (hit.segment_ordinal ≡ 1))
document_visible_iff_example = document_visible_iff snapshot 1 id_b

abbrev first_manager : Manager
first_manager = record {
  cells = λ i. record {
    references = (if i == 0 then 1 else 0);
    alive = i == 0;
    manifest = manifest_init;
  };
  count = 1;
  current = some 0;
}

abbrev at_first : State
at_first = record { manager = first_manager; handles = λ i. 0 }

at_first-Reaches : Reaches 0 at_first
unfolding snapshot_manager_open
at_first-Reaches = opened manifest_init first_manager refl

abbrev after_acquire : State
after_acquire = record {
  manager = (snapshot_acquire first_manager).1;
  handles = one_more 0 at_first.handles;
}

acquired : Step at_first after_acquire
unfolding snapshot_acquire
acquired = acquires 0 refl

reachable-alive_example :
    ((after_acquire.manager.cells 0).alive ≡ true)
    ↔ ((0 < after_acquire.handles 0) ⊎ (after_acquire.manager.current ≡ some 0))
reachable-alive_example =
    reachable-alive 1 after_acquire (further 0 at_first after_acquire at_first-Reaches acquired)
      (omega arith) 0

abbrev first : ℕ
first = 0

still_current : after_acquire.manager.current ≡ some 0
unfolding snapshot_acquire snapshot_retain
still_current = refl

Step-Advances_example :
    ((first ≡ first) × (generation at_first 0 ≡ generation after_acquire 0))
    ⊎ (generation at_first 0 < generation after_acquire 0)
Step-Advances_example =
    Step-Advances 0 at_first after_acquire at_first-Reaches (omega arith) acquired 0 0 refl
      still_current

-- The manifest of the next generation.
abbrev next_manifest : Manifest
next_manifest = record manifest_init { generation = 5 }

snapshot_manager_reload-Reloaded_example :
    Follows after_acquire 5
      (snapshot_manager_reload (done next_manifest) after_acquire.manager).2
      after_acquire.handles
    × Reloaded after_acquire.manager
        (done next_manifest)
        (snapshot_manager_reload (done next_manifest) after_acquire.manager)
snapshot_manager_reload-Reloaded_example =
    snapshot_manager_reload-Reloaded 1 after_acquire (done next_manifest)
      (further 0 at_first after_acquire at_first-Reaches acquired) (omega arith)
