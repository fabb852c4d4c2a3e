-- ===== src/Snapshot/Manager/Steps.antt =====
-- What the threads do with the manager, one critical section at a time. A state keeps, beside the
-- manager, how many references each snapshot has in the hands of callers, who give back only
-- references that they hold.
use yappod.Prelude.{
  ℕ, ◌+◌, ◌-◌, ◌<◌, ◌≡◌, Bool, true, false, Option, none, some, ◌==◌, if◌then◌else◌,
}
use yappod.Types.{Status, done}
use yappod.Storage.Manifest.{Manifest}
use yappod.Snapshot.Manager.{
  Manager, snapshot_acquire, snapshot_release, snapshot_new, snapshot_install,
  snapshot_manager_detach, snapshot_manager_open,
}

pub record State : Type 0 where
  pub manager : Manager
  pub handles : ℕ → ℕ

abbrev pub one_more : ℕ → (ℕ → ℕ) → ℕ → ℕ
one_more i handles j = if i == j then handles j + 1 else handles j

abbrev pub one_less : ℕ → (ℕ → ℕ) → ℕ → ℕ
one_less i handles j = if i == j then handles j - 1 else handles j

abbrev pub one_more_of : Option ℕ → (ℕ → ℕ) → ℕ → ℕ
one_more_of none handles = handles
one_more_of (some i) handles = one_more i handles

-- An installed candidate becomes the manager's; what was current goes to the caller, to be released.
abbrev pub installed : ℕ → (ℕ → ℕ) → Status × Bool × Option ℕ × Manager → State
installed i handles (status, true, released, m) = record {
  manager = m;
  handles = one_more_of released (one_less i handles);
}
installed i handles (status, false, released, m) = record { manager = m; handles = handles }

pub data Step (s : State) : State → Type 0 where
  acquires :
      (i : ℕ)
      → (snapshot_acquire s.manager).0 ≡ some i
      → Step s (record { manager = (snapshot_acquire s.manager).1; handles = one_more i s.handles })
  releases :
      (i : ℕ)
      → 0 < s.handles i
      → Step s (record { manager = snapshot_release i s.manager; handles = one_less i s.handles })
  loads :
      (manifest : Manifest)
      → Step s (record {
        manager = (snapshot_new manifest s.manager).1;
        handles = one_more s.manager.count s.handles;
      })
  installs :
      (i : ℕ) → 0 < s.handles i → Step s (installed i s.handles (snapshot_install i s.manager))
  detaches : Step s (record {
    manager = (snapshot_manager_detach s.manager).1;
    handles = one_more_of (snapshot_manager_detach s.manager).0 s.handles;
  })

-- The state after so many steps of the threads from a first load.
pub data Reaches : ℕ → State → Type 0 where
  opened :
      (manifest : Manifest) (m : Manager)
      → snapshot_manager_open (done manifest) ≡ done m
      → Reaches 0 (record { manager = m; handles = λ i. 0 })
  further : (n : ℕ) (s s' : State) → Reaches n s → Step s s' → Reaches (n + 1) s'
