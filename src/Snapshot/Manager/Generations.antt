-- ===== src/Snapshot/Manager/Generations.antt =====
-- The current snapshot only moves forward.
use yappod.Prelude.{
  ℕ, ◌+◌, ◌^◌, ◌<◌, ◌≡◌, ◌≢◌, ◌⊎◌, inl, inr, refl, sym, ap, ◌∙◌, false, Option, none, some, arith,
  ltb, ◌==◌, Bool-cases,
}
use yappod.Storage.Manifest.{Manifest}
use yappod.Snapshot.Manager.{
  SearchSnapshot, Manager, update, snapshot_retain, retain_any, snapshot_release, snapshot_acquire,
  snapshot_new, snapshot_install, snapshot_manager_detach,
}
use yappod.Snapshot.Manager.Steps.{
  State, one_more, one_less, installed, Step, acquires, releases, loads, installs, detaches,
  Reaches,
}
use yappod.Snapshot.Manager.Counting.{reachable-IsCounted}

abbrev pub generation : State → ℕ → ℕ
generation s i = (s.manager.cells i).manifest.generation

-- How the current snapshot goes from one state to the next: not at all, or to a later generation.
abbrev pub Advances : State → State → Type 0
Advances s s' =
    (i j : ℕ)
    → s.manager.current ≡ some i
    → s'.manager.current ≡ some j
    → ((i ≡ j) × (generation s i ≡ generation s' j)) ⊎ (generation s i < generation s' j)

same_some : (i j : ℕ) (o : Option ℕ) → o ≡ some i → o ≡ some j → i ≡ j
same_some i j o h h' = ground (arith, h, h')

module _ (s : State) where
  same_generation_retain :
      (i j : ℕ) → ((snapshot_retain i s.manager).cells j).manifest ≡ (s.manager.cells j).manifest
  unfolding snapshot_retain update
  same_generation_retain i j = ground arith

  same_generation_release :
      (i j : ℕ) → ((snapshot_release i s.manager).cells j).manifest ≡ (s.manager.cells j).manifest
  unfolding snapshot_release update
  same_generation_release i j = ground arith

  same_current_retain : (o : Option ℕ) → (retain_any o s.manager).current ≡ s.manager.current
  unfolding snapshot_retain
  same_current_retain none = refl
  same_current_retain (some i) = refl

  same_generation_acquire :
      (o : Option ℕ) (i : ℕ)
      → generation s i ≡ ((retain_any o s.manager).cells i).manifest.generation
  same_generation_acquire none i = refl
  same_generation_acquire (some j) i =
      ap (λ (m : Manifest). m.generation) (sym (same_generation_retain j i))

  same_current_release : (i : ℕ) → (snapshot_release i s.manager).current ≡ s.manager.current
  unfolding snapshot_release
  same_current_release i = ground arith

  stays :
      (m : Manager) (handles : ℕ → ℕ)
      → m.current ≡ s.manager.current
      → ((i : ℕ) → generation s i ≡ (m.cells i).manifest.generation)
      → Advances s (record { manager = m; handles = handles })
  stays m handles same_current same i j e e' =
      let one = same_some i j _ (same_current ∙ e) e' in
      inl (one, same i ∙ ap (λ (x : ℕ). (m.cells x).manifest.generation) one)

  -- What the second critical section of a reload does to the current snapshot.
  install_outcome :
      (i p : ℕ)
      → s.manager.current ≡ some p
      → let s' = installed i s.handles (snapshot_install i s.manager) in
        (s'.manager.cells ≡ s.manager.cells)
        × ((s'.manager.current ≡ some p)
            ⊎ ((s'.manager.current ≡ some i) × (generation s p < generation s i)))
  unfolding snapshot_install
  install_outcome i p e = elim (Bool-cases (ltb (generation s i) (generation s p))) [
    | inl older ↦ rw (e, snapshot_install, older) (refl, inl e)
    | inr not_older ↦ elim (Bool-cases (generation s i == generation s p)) [
      | inl same ↦ rw (e, snapshot_install, not_older, same) (refl, inl e)
      | inr newer ↦
          rw (e, snapshot_install, not_older, newer)
            (refl, inr (refl, ground (arith, not_older, newer)))
    ]
  ]

  install-Advances : (i : ℕ) → Advances s (installed i s.handles (snapshot_install i s.manager))
  install-Advances i p j e e' =
      let s' = installed i s.handles (snapshot_install i s.manager) in
      let (cells, moved) = install_outcome i p e in
      let kept : (x : ℕ) → generation s' x ≡ generation s x =
        λ x. ap (λ (f : ℕ → SearchSnapshot). (f x).manifest.generation) cells in
      elim moved [
        | inl stayed ↦
            let one = same_some p j _ stayed e' in
            inl (one, sym (kept p) ∙ ap (λ (x : ℕ). generation s' x) one)
        | inr (switched, later) ↦
            let one = same_some i j _ switched e' in
            let there : generation s i ≡ generation s' j =
              sym (kept i) ∙ ap (λ (x : ℕ). generation s' x) one in
            inr (omega arith)
      ]

  new-Advances :
      (manifest : Manifest) (handles : ℕ → ℕ)
      → ((i : ℕ) → s.manager.current ≡ some i → i ≢ s.manager.count)
      → Advances s (record { manager = (snapshot_new manifest s.manager).1; handles = handles })
  unfolding snapshot_new update
  new-Advances manifest handles known i j e e' =
      let one = same_some i j _ e e' in
      let old : (s.manager.count == j) ≡ false = ground (arith, known i e, one) in
      let stored : (snapshot_new manifest s.manager).1.cells j ≡ s.manager.cells j =
        rw (snapshot_new, update, old) refl in
      inl (
        one,
        ap (generation s) one ∙ ap (λ (x : SearchSnapshot). x.manifest.generation) (sym stored),
      )

-- Where a snapshot is current before and after a step of the threads, in a state that they reach from
-- a first load in fewer than 2^64 - 2 steps, the step leaves it and its generation, or makes one of a
-- later generation current.
pub Step-Advances :
    (n : ℕ) (s s' : State) → Reaches n s → n + 2 < 2 ^ 64 → Step s s' → Advances s s'
unfolding snapshot_acquire snapshot_manager_detach
Step-Advances n s _ reached roomy (acquires c e) =
    stays s (retain_any s.manager.current s.manager) (one_more c s.handles)
      (same_current_retain s s.manager.current) (λ i. same_generation_acquire s s.manager.current i)
Step-Advances n s _ reached roomy (releases c held) =
    stays s (snapshot_release c s.manager) (one_less c s.handles) (same_current_release s c)
      (λ i. ap (λ (m : Manifest). m.generation) (sym (same_generation_release s c i)))
Step-Advances n s _ reached roomy (loads manifest) =
    let c = reachable-IsCounted n s reached roomy in
    new-Advances s manifest (one_more s.manager.count s.handles)
      (λ i e same. ground (arith, c.fresh i (omega (arith, same)), c.counted i, e))
Step-Advances n s _ reached roomy (installs c held) = install-Advances s c
Step-Advances n s _ reached roomy detaches = λ i j e e'. absurd (ground (arith, e'))
