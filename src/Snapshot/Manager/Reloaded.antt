-- ===== src/Snapshot/Manager/Reloaded.antt =====
-- What a reload answers, and what is current behind it.
use yappod.Prelude.{
  ℕ, ◌+◌, ◌^◌, ◌<◌, ◌≡◌, ◌≢◌, ◌↔◌, inl, inr, refl, sym, ap, ◌∙◌, List, [], ◌∷◌, length, Bool, true,
  false, Option, none, some, arith, ltb, ◌==◌, Option-cases, Bool-cases,
}
use yappod.Types.{Status, ok, conflict, Result, done, fail}
use yappod.Storage.Manifest.{Manifest}
use yappod.Storage.Descriptor.{Segment}
use yappod.Storage.Descriptor.Components.{segment_descriptor_equal_iff}
use yappod.Snapshot.Manager.{
  Manager, update, release_any, retain_any, snapshot_retain, snapshot_release, snapshot_acquire,
  snapshot_new, snapshot_install, snapshot_manager_reload, snapshot_matches_manifest,
  descriptors_equal,
}
use yappod.Snapshot.Manager.Steps.{State, Reaches}
use yappod.Snapshot.Manager.Counting.{reachable-IsCounted}
use yappod.Snapshot.Manager.Reloading.{Follows, reload-Follows}

-- The same snapshot is current, with the same manifest.
pub record Stays (p : ℕ) (m m' : Manager) : Type 0 where
  pub before : m.current ≡ some p
  pub after : m'.current ≡ some p
  pub stored : (m'.cells p).manifest ≡ (m.cells p).manifest

-- A snapshot of this manifest is current.
pub record Shows (manifest : Manifest) (m' : Manager) : Type 0 where
  pub index : ℕ
  pub after : m'.current ≡ some index
  pub stored : (m'.cells index).manifest ≡ manifest

-- How a reload ends. Without a current snapshot, or with one of an earlier generation, the loaded
-- manifest becomes current, and only then does the flag say so; a manifest of the generation that is
-- current has to list the same segments.
pub data Reloaded (m : Manager) : Result Manifest → Status × Bool × Manager → Type 0 where
  not_loaded :
      (status : Status) (m' : Manager)
      → m'.current ≡ m.current
      → ((i : ℕ) → (m'.cells i).manifest ≡ (m.cells i).manifest)
      → Reloaded m (fail status) (status, false, m')
  first :
      (manifest : Manifest) (m' : Manager)
      → m.current ≡ none
      → Shows manifest m'
      → Reloaded m (done manifest) (ok, true, m')
  advanced :
      (manifest : Manifest) (m' : Manager) (p : ℕ)
      → m.current ≡ some p
      → (m.cells p).manifest.generation < manifest.generation
      → Shows manifest m'
      → Reloaded m (done manifest) (ok, true, m')
  older :
      (manifest : Manifest) (m' : Manager) (p : ℕ)
      → Stays p m m'
      → manifest.generation < (m.cells p).manifest.generation
      → Reloaded m (done manifest) (conflict, false, m')
  same :
      (manifest : Manifest) (m' : Manager) (p : ℕ)
      → Stays p m m'
      → manifest.generation ≡ (m.cells p).manifest.generation
      → manifest.segments ≡ (m.cells p).manifest.segments
      → Reloaded m (done manifest) (ok, false, m')
  different :
      (manifest : Manifest) (m' : Manager) (p : ℕ)
      → Stays p m m'
      → manifest.generation ≡ (m.cells p).manifest.generation
      → manifest.segments ≢ (m.cells p).manifest.segments
      → Reloaded m (done manifest) (conflict, false, m')

descriptors_equal_iff :
    (xs ys : List Segment) → length xs ≡ length ys → (descriptors_equal xs ys ≡ true) ↔ (xs ≡ ys)
unfolding descriptors_equal
descriptors_equal_iff [] [] e = (λ h. refl, λ h. refl)
descriptors_equal_iff [] (y ∷ ys) e = absurd (omega arith)
descriptors_equal_iff (x ∷ xs) [] e = absurd (omega arith)
descriptors_equal_iff (x ∷ xs) (y ∷ ys) e =
    let one = segment_descriptor_equal_iff x y in
    let rest = descriptors_equal_iff xs ys (omega arith) in
    (
      λ h. ground (arith, one.0 (ground (arith, h)), rest.0 (ground (arith, h))),
      λ h. ground (arith, h, one.1, rest.1),
    )

-- A manifest of the same generation matches exactly when it has the same segments.
matches_iff :
    (old new : Manifest)
    → new.generation ≡ old.generation
    → (snapshot_matches_manifest old new ≡ true) ↔ (new.segments ≡ old.segments)
unfolding snapshot_matches_manifest
matches_iff old new g = (
  λ h.
      let sized : length old.segments ≡ length new.segments = ground (arith, h) in
      sym ((descriptors_equal_iff old.segments new.segments sized).0 (ground (arith, h))),
  λ e.
      let sized : length old.segments ≡ length new.segments = ap length (sym e) in
      let all = (descriptors_equal_iff old.segments new.segments sized).1 (sym e) in
      ground (arith, g, sized, all),
)

-- What is current and what the snapshots hold is as before.
record Keeps (m m' : Manager) : Type 0 where
  current : m'.current ≡ m.current
  stored : (i : ℕ) → (m'.cells i).manifest ≡ (m.cells i).manifest

retain-Keeps : (i : ℕ) (m : Manager) → Keeps m (snapshot_retain i m)
unfolding snapshot_retain update
retain-Keeps i m = record { current = refl; stored = λ j. ground arith }

release-Keeps : (i : ℕ) (m : Manager) → Keeps m (snapshot_release i m)
unfolding snapshot_release update
release-Keeps i m = record { current = ground arith; stored = λ j. ground arith }

retain_any-Keeps : (o : Option ℕ) (m : Manager) → Keeps m (retain_any o m)
retain_any-Keeps none m = record { current = refl; stored = λ i. refl }
retain_any-Keeps (some i) m = retain-Keeps i m

release_any-Keeps : (o : Option ℕ) (m : Manager) → Keeps m (release_any o m)
release_any-Keeps none m = record { current = refl; stored = λ i. refl }
release_any-Keeps (some i) m = release-Keeps i m

retain_any_count : (o : Option ℕ) (m : Manager) → (retain_any o m).count ≡ m.count
unfolding snapshot_retain
retain_any_count none m = refl
retain_any_count (some i) m = refl

new_stored :
    (manifest : Manifest) (m : Manager)
    → ((snapshot_new manifest m).1.cells m.count).manifest ≡ manifest
unfolding snapshot_new update
new_stored manifest m = ground arith

new_others :
    (manifest : Manifest) (m : Manager) (i : ℕ)
    → i ≢ m.count
    → ((snapshot_new manifest m).1.cells i).manifest ≡ (m.cells i).manifest
unfolding snapshot_new update
new_others manifest m i other = ground (arith, other)

-- The manager `m'` in front of the second critical section of a reload that started with `m`, which
-- stored what it loaded under `c`.
record IsCandidate (m : Manager) (manifest : Manifest) (c : ℕ) (m' : Manager) : Type 0 where
  current : m'.current ≡ m.current
  loaded : (m'.cells c).manifest ≡ manifest
  others : (p : ℕ) → m.current ≡ some p → (m'.cells p).manifest ≡ (m.cells p).manifest

module _ (m : Manager) (manifest : Manifest) (c : ℕ) (m' : Manager)
    (k : IsCandidate m manifest c m') where
  stays : (o : Option ℕ) (p : ℕ) → m'.current ≡ some p → Stays p m (release_any o m')
  stays o p e =
      let there = sym k.current ∙ e in
      let r = release_any-Keeps o m' in
      record { before = there; after = r.current ∙ e; stored = r.stored p ∙ k.others p there }

  shows : (o : Option ℕ) → Shows manifest (release_any o (record m' { current = some c }))
  shows o =
      let r = release_any-Keeps o (record m' { current = some c }) in
      record { index = c; after = r.current; stored = r.stored c ∙ k.loaded }

  old_generation : (p : ℕ) → m'.current ≡ some p → (m'.cells p).manifest ≡ (m.cells p).manifest
  old_generation p e = k.others p (sym k.current ∙ e)

  install-Reloaded :
      let r = snapshot_install c m' in Reloaded m (done manifest) (r.0, r.1, release_any r.2 r.3)
  unfolding snapshot_install
  install-Reloaded = elim (Option-cases m'.current) [
    | inl nothing ↦
        rw (nothing, snapshot_install) (first manifest _ (sym k.current ∙ nothing) (shows none))
    | inr (p, e) ↦
        let old = (m'.cells p).manifest in
        let new = (m'.cells c).manifest in
        let was = old_generation p e in
        let is = k.loaded in
        elim (Bool-cases (ltb new.generation old.generation)) [
          | inl less ↦
              rw (e, snapshot_install, less)
                (older manifest _ p (stays (some c) p e) (ground (arith, less, was, is)))
          | inr not_less ↦ elim (Bool-cases (new.generation == old.generation)) [
            | inl equal ↦ elim (Bool-cases (snapshot_matches_manifest old new)) [
              | inl matches ↦
                  rw (e, snapshot_install, not_less, equal, matches)
                    (same manifest _ p (stays (some c) p e) (ground (arith, equal, was, is)) (
                      (matches_iff (m.cells p).manifest manifest (ground (arith, equal, was, is))).0
                        (ground (arith, matches, was, is))))
              | inr differs ↦
                  rw (e, snapshot_install, not_less, equal, differs)
                    (different manifest _ p (stays (some c) p e) (ground (arith, equal, was, is))
                      (λ segments.
                        let accepted =
                          (matches_iff (m.cells p).manifest manifest
                              (ground (arith, equal, was, is))).1
                            segments in
                        ground (arith, differs, was, is, accepted)))
            ]
            | inr differs ↦
                rw (e, snapshot_install, not_less, differs)
                  (advanced manifest _ p (sym k.current ∙ e)
                    (ground (arith, not_less, differs, was, is)) (shows (some p)))
          ]
        ]
  ]

candidate_lem :
    (m : Manager) (manifest : Manifest)
    → ((i : ℕ) → m.current ≡ some i → i ≢ m.count)
    → let m1 = retain_any m.current m in
      IsCandidate m manifest m1.count (release_any m.current (snapshot_new manifest m1).1)
candidate_lem m manifest known =
    let m1 = retain_any m.current m in
    let m2 = (snapshot_new manifest m1).1 in
    let taken = retain_any-Keeps m.current m in
    let given = release_any-Keeps m.current m2 in
    let same_current : m2.current ≡ m1.current = unfold snapshot_new in refl in
    record {
      current = given.current ∙ same_current ∙ taken.current;
      loaded = given.stored m1.count ∙ new_stored manifest m1;
      others = λ p e.
          let other : p ≢ m1.count = λ h. known p e (h ∙ retain_any_count m.current m) in
          given.stored p ∙ new_others manifest m1 p other ∙ taken.stored p;
    }

reload-Reloaded :
    (m : Manager) (loaded : Result Manifest)
    → ((i : ℕ) → m.current ≡ some i → i ≢ m.count)
    → Reloaded m loaded (snapshot_manager_reload loaded m)
unfolding snapshot_manager_reload snapshot_acquire snapshot_new
reload-Reloaded m (fail status) known =
    let taken = retain_any-Keeps m.current m in
    let given = release_any-Keeps m.current (retain_any m.current m) in
    not_loaded status _ (given.current ∙ taken.current) (λ i. given.stored i ∙ taken.stored i)
reload-Reloaded m (done manifest) known =
    install-Reloaded m manifest _ _ (candidate_lem m manifest known)

-- In a state that the threads reach from a first load in fewer than 2^64 - 2 steps, a reload with what
-- was loaded is a run of at most five of their steps that gives back every reference that it takes.
-- Where nothing could be loaded, it answers that status and leaves the current snapshot. A manifest
-- that was loaded is current behind it, with success and the flag of a change, where there was no
-- current snapshot or one of an earlier generation; otherwise the current snapshot stays, without the
-- flag, and the answer is success for a manifest of the same generation with the same segments, and a
-- conflict for an older generation or other segments.
pub snapshot_manager_reload-Reloaded :
    (n : ℕ) (s : State) (loaded : Result Manifest)
    → Reaches n s
    → n + 2 < 2 ^ 64
    → Follows s 5 (snapshot_manager_reload loaded s.manager).2 s.handles
      × Reloaded s.manager loaded (snapshot_manager_reload loaded s.manager)
snapshot_manager_reload-Reloaded n s loaded reached roomy =
    let c = reachable-IsCounted n s reached roomy in
    (
      reload-Follows s loaded,
      reload-Reloaded s.manager loaded
          (λ i e same_index. ground (arith, c.fresh i (omega (arith, same_index)), c.counted i, e)),
    )
