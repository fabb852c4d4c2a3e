-- ===== src/Snapshot/Manager/Reloading.antt =====
-- A reload is a run of steps.
use yappod.Prelude.{
  ℕ, ◌+◌, ◌<◌, ◌≤◌, ◌≡◌, inl, inr, refl, sym, ap, ◌∙◌, Bool, true, false, Option, none, some, arith,
  ltb, ◌==◌, Option-cases, Bool-cases,
}
use yappod.Types.{Status, Result, done, fail}
use yappod.Storage.Manifest.{Manifest}
use yappod.Snapshot.Manager.{
  Manager, release_any, retain_any, snapshot_release, snapshot_acquire, snapshot_new,
  snapshot_install, snapshot_manager_reload,
}
use yappod.Snapshot.Manager.Steps.{
  State, one_more, one_less, installed, acquires, releases, loads, installs, Step,
}

-- So many steps from one state to another.
pub data Run (s : State) : ℕ → State → Type 0 where
  start : Run s 0 s
  next : (n : ℕ) (s' s'' : State) → Run s n s' → Step s' s'' → Run s (n + 1) s''

-- A run of `bound` steps at most from `s` ends with this manager and these references.
pub record Follows (s : State) (bound : ℕ) (m : Manager) (handles : ℕ → ℕ) : Type 0 where
  pub steps : ℕ
  pub state : State
  pub run : Run s steps state
  pub near : steps ≤ bound
  pub managed : state.manager ≡ m
  pub held : (i : ℕ) → state.handles i ≡ handles i

-- How the second critical section ends: with the candidate given back, with the first snapshot in
-- place, or with another one in its place and the old one given back.
data Installing (c : ℕ) : Status × Bool × Option ℕ × Manager → Type 0 where
  kept : (status : Status) (m' : Manager) → Installing c (status, false, some c, m')
  placed : (status : Status) (m' : Manager) → Installing c (status, true, none, m')
  replaced : (status : Status) (p : ℕ) (m' : Manager) → Installing c (status, true, some p, m')

snapshot_install-Installing : (c : ℕ) (m : Manager) → Installing c (snapshot_install c m)
unfolding snapshot_install
snapshot_install-Installing c m = elim (Option-cases m.current) [
  | inl nothing ↦ rw (nothing, snapshot_install) (placed _ _)
  | inr (p, e) ↦
      let old = (m.cells p).manifest.generation in
      let new = (m.cells c).manifest.generation in
      elim (Bool-cases (ltb new old)) [
        | inl older ↦ rw (e, snapshot_install, older) (kept _ _)
        | inr not_older ↦ elim (Bool-cases (new == old)) [
          | inl same ↦ rw (e, snapshot_install, not_older, same) (kept _ _)
          | inr newer ↦ rw (e, snapshot_install, not_older, newer) (replaced _ p _)
        ]
      ]
]

give_back : (i : ℕ) (handles : ℕ → ℕ) (j : ℕ) → one_less i (one_more i handles) j ≡ handles j
give_back i handles j = ground arith

took_one : (i : ℕ) (handles : ℕ → ℕ) → 0 < one_more i handles i
took_one i handles = ground arith

still_held : (p c : ℕ) (handles : ℕ → ℕ) → 0 < one_more c (one_more p handles) p
still_held p c handles = ground arith

candidate_held : (p c : ℕ) (handles : ℕ → ℕ) → 0 < one_less p (one_more c (one_more p handles)) c
candidate_held p c handles = ground arith

all_back :
    (p c : ℕ) (handles : ℕ → ℕ) (i : ℕ)
    → one_less c (one_less p (one_more c (one_more p handles))) i ≡ handles i
all_back p c handles i = ground arith

finish :
    (s : State) (k c : ℕ) (handles : ℕ → ℕ) (r : Status × Bool × Option ℕ × Manager)
    → Installing c r
    → Run s k (installed c handles r)
    → 0 < handles c
    → Follows s (k + 1) (release_any r.2 r.3) (one_less c handles)
finish s k c handles _ (kept status m') run h = record {
  steps = k + 1;
  state = record { manager = snapshot_release c m'; handles = one_less c handles };
  run = next k _ _ run (releases c h);
  near = omega arith;
  managed = refl;
  held = λ i. refl;
}
finish s k c handles _ (placed status m') run h = record {
  steps = k;
  state = record { manager = m'; handles = one_less c handles };
  run = run;
  near = omega arith;
  managed = refl;
  held = λ i. refl;
}
finish s k c handles _ (replaced status p m') run h = record {
  steps = k + 1;
  state = record {
    manager = snapshot_release p m';
    handles = one_less p (one_more p (one_less c handles));
  };
  run = next k _ _ run (releases p (took_one p (one_less c handles)));
  near = omega arith;
  managed = refl;
  held = give_back p (one_less c handles);
}

widen :
    (s : State) (x y : ℕ) (m : Manager) (h h' : ℕ → ℕ)
    → Follows s x m h
    → x ≤ y
    → ((i : ℕ) → h i ≡ h' i)
    → Follows s y m h'
widen s x y m h h' f le same = record {
  steps = f.steps;
  state = f.state;
  run = f.run;
  near = omega (arith, f.near);
  managed = f.managed;
  held = λ i. f.held i ∙ same i;
}

acquire_none : (m : Manager) → (snapshot_acquire m).0 ≡ none → (snapshot_acquire m).1 ≡ m
unfolding snapshot_acquire
acquire_none m e = ap (λ (o : Option ℕ). retain_any o m) e

module _ (s : State) where
  reload_without :
      (manifest : Manifest)
      → (snapshot_acquire s.manager).0 ≡ none
      → Follows s 5 (snapshot_manager_reload (done manifest) s.manager).2 s.handles
  unfolding snapshot_manager_reload snapshot_new
  reload_without manifest e =
      let c = s.manager.count in
      let loaded : State = record {
        manager = (snapshot_new manifest s.manager).1;
        handles = one_more c s.handles;
      } in
      let ready : Run s 1 loaded = next 0 s loaded start (loads manifest) in
      let held = took_one c s.handles in
      let done_install = next 1 loaded _ ready (installs c held) in
      let ended =
        finish s 2 c loaded.handles _ (snapshot_install-Installing c loaded.manager) done_install
          held in
      rw (e, acquire_none s.manager e)
        (widen s 3 5 _ (one_less c (one_more c s.handles)) s.handles ended (omega arith)
          (give_back c s.handles))

  reload_with :
      (manifest : Manifest) (p : ℕ)
      → (snapshot_acquire s.manager).0 ≡ some p
      → Follows s 5 (snapshot_manager_reload (done manifest) s.manager).2 s.handles
  unfolding snapshot_manager_reload snapshot_new
  reload_with manifest p e =
      let taken : State = record {
        manager = (snapshot_acquire s.manager).1;
        handles = one_more p s.handles;
      } in
      let c = taken.manager.count in
      let loaded : State = record {
        manager = (snapshot_new manifest taken.manager).1;
        handles = one_more c taken.handles;
      } in
      let given : State = record {
        manager = snapshot_release p loaded.manager;
        handles = one_less p loaded.handles;
      } in
      let r1 : Run s 1 taken = next 0 s taken start (acquires p e) in
      let r2 : Run s 2 loaded = next 1 taken loaded r1 (loads manifest) in
      let r3 : Run s 3 given = next 2 loaded given r2 (releases p (still_held p c s.handles)) in
      let held = candidate_held p c s.handles in
      let r4 = next 3 given _ r3 (installs c held) in
      let ended =
        finish s 4 c given.handles _ (snapshot_install-Installing c given.manager) r4 held in
      rw e (
        widen s 5 5 _ (one_less c (one_less p (one_more c (one_more p s.handles)))) s.handles ended
          (omega arith) (all_back p c s.handles))

  pub reload-Follows :
      (loaded : Result Manifest)
      → Follows s 5 (snapshot_manager_reload loaded s.manager).2 s.handles
  unfolding snapshot_manager_reload
  reload-Follows (fail status) = elim (Option-cases (snapshot_acquire s.manager).0) [
    | inl nothing ↦ record {
      steps = 0;
      state = s;
      run = start;
      near = omega arith;
      managed = rw nothing (sym (acquire_none s.manager nothing));
      held = λ i. refl;
    }
    | inr (p, e) ↦ record {
      steps = 2;
      state = record {
        manager = snapshot_release p (snapshot_acquire s.manager).1;
        handles = one_less p (one_more p s.handles);
      };
      run = next 1 _ _ (next 0 s _ start (acquires p e)) (releases p (took_one p s.handles));
      near = omega arith;
      managed = rw e refl;
      held = give_back p s.handles;
    }
  ]
  reload-Follows (done manifest) = elim (Option-cases (snapshot_acquire s.manager).0) [
    | inl nothing ↦ reload_without manifest nothing
    | inr (p, e) ↦ reload_with manifest p e
  ]
