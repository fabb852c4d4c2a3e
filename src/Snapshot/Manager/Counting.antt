-- ===== src/Snapshot/Manager/Counting.antt =====
-- The counters are right in every state that the threads reach.
use yappod.Prelude.{
  ℕ, ◌+◌, ◌%◌, ◌^◌, ◌≤◌, ◌<◌, ◌≡◌, ◌≢◌, ◌↔◌, ◌⊎◌, inl, inr, sym, ap, true, not, Option, none, some,
  arith, ltb, ◌==◌, if◌then◌else◌, Option-cases, Bool-cases,
}
use yappod.Prelude.Remainders.{remainder_small}
use yappod.Types.{Result, done, fail}
use yappod.Storage.Manifest.{Manifest}
use yappod.Snapshot.Manager.{
  Manager, update, snapshot_retain, retain_any, snapshot_release, snapshot_acquire, snapshot_new,
  snapshot_install, snapshot_manager_detach, snapshot_manager_open,
}
use yappod.Snapshot.Manager.Steps.{
  State, one_more, one_less, one_more_of, installed, Step, acquires, releases, loads, installs,
  detaches, Reaches, opened, further,
}
use mathlib.Core.Path.{subst}
use native.Mathlib.Decide.{ℕ_discrete}

-- 1 for the current snapshot.
abbrev pub held_by_manager : Option ℕ → ℕ → ℕ
held_by_manager none i = 0
held_by_manager (some c) i = if c == i then 1 else 0

-- No counter is above `bound`.
pub record IsCounted (bound : ℕ) (s : State) : Type 0 where
  pub counted :
      (i : ℕ) → (s.manager.cells i).references ≡ s.handles i + held_by_manager s.manager.current i
  pub living : (i : ℕ) → (s.manager.cells i).alive ≡ not ((s.manager.cells i).references == 0)
  pub fresh : (i : ℕ) → s.manager.count ≤ i → (s.manager.cells i).references ≡ 0
  pub small : (i : ℕ) → (s.manager.cells i).references ≤ bound

module _ (bound : ℕ) (s : State) (c : IsCounted bound s) (roomy : bound + 1 < 2 ^ 64) where
  retained :
      (i : ℕ) → ((s.manager.cells i).references + 1) % 2 ^ 64 ≡ (s.manager.cells i).references + 1
  retained i = remainder_small _ (2 ^ 64) (omega (arith, c.small i))

  acquire-IsCounted :
      (i : ℕ)
      → s.manager.current ≡ some i
      → IsCounted
          (bound + 1)
          (record { manager = snapshot_retain i s.manager; handles = one_more i s.handles })
  unfolding snapshot_retain update
  acquire-IsCounted i e = record {
    counted = λ j. ground (arith, e, c.counted j, retained i);
    living = λ j. ground (arith, c.living j, c.living i, c.counted i, retained i, e);
    fresh = λ j h. ground (arith, c.fresh j h, c.counted i, e);
    small = λ j. ground (arith, c.small j, retained i);
  }

  release_count : (i : ℕ) → (snapshot_release i s.manager).count ≡ s.manager.count
  unfolding snapshot_release
  release_count i = ground arith

  release-IsCounted :
      (i : ℕ)
      → 0 < s.handles i
      → IsCounted
          (bound + 1)
          (record { manager = snapshot_release i s.manager; handles = one_less i s.handles })
  unfolding snapshot_release update
  release-IsCounted i e = record {
    counted = λ j. ground (arith, e, c.counted j, c.counted i);
    living = λ j. ground (arith, c.living j, c.living i, c.counted i);
    fresh = λ j h. ground (arith, c.fresh j (rw (release_count i) at h), c.counted i);
    small = λ j. ground (arith, c.small j);
  }

  load-IsCounted :
      (manifest : Manifest)
      → IsCounted (bound + 1) (record {
        manager = (snapshot_new manifest s.manager).1;
        handles = one_more s.manager.count s.handles;
      })
  unfolding snapshot_new update
  load-IsCounted manifest = record {
    counted = λ j. ground (arith, c.counted j, c.fresh s.manager.count);
    living = λ j. ground (arith, c.living j);
    fresh = λ j h. ground (arith, c.fresh j);
    small = λ j. ground (arith, c.small j);
  }

  weaker : IsCounted (bound + 1) s
  weaker = record {
    counted = c.counted;
    living = c.living;
    fresh = c.fresh;
    small = λ j. omega (arith, c.small j);
  }

  -- Another snapshot becomes current, and the old one goes to the caller.
  switched :
      (i : ℕ)
      → 0 < s.handles i
      → (p : ℕ) → s.manager.current ≡ some p
      → p ≢ i
      → IsCounted (bound + 1) (record {
        manager = record s.manager { current = some i };
        handles = one_more p (one_less i s.handles);
      })
  switched i held p e apart = record {
    counted = λ j. ground (arith, c.counted j, e);
    living = c.living;
    fresh = c.fresh;
    small = λ j. omega (arith, c.small j);
  }

  first :
      (i : ℕ)
      → 0 < s.handles i
      → s.manager.current ≡ none
      → IsCounted (bound + 1) (record {
        manager = record s.manager { current = some i };
        handles = one_less i s.handles;
      })
  first i held e = record {
    counted = λ j. ground (arith, c.counted j, e);
    living = c.living;
    fresh = c.fresh;
    small = λ j. omega (arith, c.small j);
  }

  install-IsCounted :
      (i : ℕ)
      → 0 < s.handles i
      → IsCounted (bound + 1) (installed i s.handles (snapshot_install i s.manager))
  unfolding snapshot_install
  install-IsCounted i held = elim (Option-cases s.manager.current) [
    | inl none_current ↦ rw (none_current, snapshot_install) (first i held none_current)
    | inr (p, e) ↦
        let old = (s.manager.cells p).manifest.generation in
        let new = (s.manager.cells i).manifest.generation in
        elim (Bool-cases (ltb new old)) [
          | inl older ↦ rw (e, snapshot_install, older) weaker
          | inr not_older ↦ elim (Bool-cases (new == old)) [
            | inl same ↦ rw (e, snapshot_install, not_older, same) weaker
            | inr newer ↦
                let apart : p ≢ i = λ one.
                  (let same : old ≡ new =
                      ap (λ (x : ℕ). (s.manager.cells x).manifest.generation) one in
                    ground (arith, newer, same)) in
                rw (e, snapshot_install, not_older, newer) (switched i held p e apart)
          ]
        ]
  ]

  detach-IsCounted : IsCounted (bound + 1) (record {
    manager = (snapshot_manager_detach s.manager).1;
    handles = one_more_of (snapshot_manager_detach s.manager).0 s.handles;
  })
  unfolding snapshot_manager_detach
  detach-IsCounted = elim (Option-cases s.manager.current) [
    | inl none_current ↦ record {
      counted = λ j. ground (arith, c.counted j, none_current);
      living = c.living;
      fresh = c.fresh;
      small = λ j. omega (arith, c.small j);
    }
    | inr (p, e) ↦ record {
      counted = λ j. ground (arith, c.counted j, e);
      living = c.living;
      fresh = c.fresh;
      small = λ j. omega (arith, c.small j);
    }
  ]

  Step-IsCounted : (s' : State) → Step s s' → IsCounted (bound + 1) s'
  unfolding snapshot_acquire
  Step-IsCounted _ (acquires i e) =
      subst
        (λ (o : Option ℕ).
          IsCounted (bound + 1)
            (record { manager = retain_any o s.manager; handles = one_more i s.handles }))
        (sym e) (acquire-IsCounted i e)
  Step-IsCounted _ (releases i held) = release-IsCounted i held
  Step-IsCounted _ (loads manifest) = load-IsCounted manifest
  Step-IsCounted _ (installs i held) = install-IsCounted i held
  Step-IsCounted _ detaches = detach-IsCounted

opened-IsCounted :
    (manifest : Manifest) (m : Manager)
    → snapshot_manager_open (done manifest) ≡ done m
    → IsCounted 1 (record { manager = m; handles = λ i. 0 })
unfolding snapshot_manager_open
opened-IsCounted manifest m e =
    let same = ap (λ (r : Result Manager). elim r [ done x ↦ x | fail _ ↦ m ]) e in
    rw (← same) (record {
      counted = λ i. ground arith;
      living = λ i. ground arith;
      fresh = λ i h. ground arith;
      small = λ i. ground arith;
    })

pub reachable-IsCounted : (n : ℕ) (s : State) → Reaches n s → n + 2 < 2 ^ 64 → IsCounted (n + 1) s
reachable-IsCounted n s (opened manifest m e) roomy = opened-IsCounted manifest m e
reachable-IsCounted _ s' (further n s _ before step) roomy =
    Step-IsCounted (n + 1) s (reachable-IsCounted n s before (omega arith)) (omega arith) s' step

-- In every state that the threads reach from a first load in fewer than 2^64 - 2 steps, a snapshot
-- is there exactly as long as a caller holds a reference or it is the manager's current one.
pub reachable-alive :
    (n : ℕ) (s : State)
    → Reaches n s
    → n + 2 < 2 ^ 64
    → (i : ℕ)
    → ((s.manager.cells i).alive ≡ true) ↔ ((0 < s.handles i) ⊎ (s.manager.current ≡ some i))
reachable-alive n s reached roomy i =
    let c = reachable-IsCounted n s reached roomy in
    (
      λ lives. elim (Option-cases s.manager.current) [
        | inl nothing ↦ inl (ground (arith, lives, c.living i, c.counted i, nothing))
        | inr (p, e) ↦ elim (ℕ_discrete p i) [
          | yes same ↦ inr (rw same at e)
          | no other ↦ inl (ground (arith, lives, c.living i, c.counted i, e, other))
        ]
      ],
      λ held. elim held [
        | inl handle ↦ ground (arith, handle, c.living i, c.counted i)
        | inr e ↦ ground (arith, e, c.living i, c.counted i)
      ],
    )
