-- ===== src/ManifestFile/Publish/Races.antt =====
-- Publishers that race for one generation. The lock puts their publications in some order, which a run
-- of steps stands for; each step has its own allocations and its own manifest.
use yappod.Prelude.{ℕ, ◌+◌, ◌^◌, ◌≤◌, ◌<◌, ◌≡◌, sym, ◌∙◌, List, arith}
use yappod.Types.{Status, ok, done}
use yappod.Storage.Manifest.{Manifest}
use yappod.ManifestFile.Publish.{
  Posix, Memory, manifest_publish_next, manifest_publish_if_generation,
}
use yappod.ManifestFile.Publish.Outcome.{IsPosix}
use yappod.ManifestFile.Publish.Updates.{
  before_of, Published, refused, advanced, manifest_publish_next-Published,
  manifest_publish_if_generation-Published,
}

module _ {D : Type 0} (os : Posix D) (path : List ℕ) where
  -- Publications, one after the other.
  pub data Run (d : D) : D → Type 0 where
    start : Run d d
    next :
        (d' : D) (memory : Memory) (m : Manifest)
        → Run d d'
        → Run d (manifest_publish_next os memory path d' m).1
    compared :
        (d' : D) (memory : Memory) (expected : ℕ) (m : Manifest)
        → expected < 2 ^ 64
        → Run d d'
        → Run d (manifest_publish_if_generation os memory path d' expected m).1

  module _ (laws : IsPosix os) where
    IsLater : ℕ → D → Type 0
    IsLater g d = (g' : ℕ) × (g ≤ g') × (before_of laws d ≡ done g')

    later :
        (P : ℕ → Type 0) (g : ℕ) (d : D) (r : Status × D)
        → IsLater g d
        → Published laws P d r
        → IsLater g r.1
    unfolding IsLater
    later P g d r (g', above, now) (refused same failed) = (g', above, rw same now)
    later P g d r (g', above, now) (advanced b allowed before after) =
        let e : g' ≡ b = ground (arith, sym now ∙ before) in (b + 1, omega arith, after)

    -- No publication lowers the generation under the path.
    Run-IsLater : (d d' : D) (g : ℕ) → Run d d' → IsLater g d → IsLater g d'
    Run-IsLater d d' g start h = h
    Run-IsLater d d' g (next d'' memory m run) h =
        later _ g d'' _ (Run-IsLater d d'' g run h)
          (manifest_publish_next-Published os memory path laws d'' m)
    Run-IsLater d d' g (compared d'' memory expected m bound run) h =
        later _ g d'' _ (Run-IsLater d d'' g run h)
          (manifest_publish_if_generation-Published os memory path laws d'' expected m bound)

    after_ok :
        (d : D) (expected : ℕ) (r : Status × D)
        → Published laws (λ g. g ≡ expected) d r
        → r.0 ≡ ok
        → (before_of laws d ≡ done expected) × (before_of laws r.1 ≡ done (expected + 1))
    after_ok d expected r (refused same failed) e = absurd (failed e)
    after_ok d expected r (advanced g allowed before after) e =
        (rw (← allowed) before, rw (← allowed) after)

    -- No lost update: of two publications that expect the same generation, one after the other, at
    -- most one succeeds, whatever is published in between, by whichever of the two functions, and
    -- whichever calls and allocations fail.
    pub no_lost_update :
        (d d' : D) (expected : ℕ) (memory memory' : Memory) (m m' : Manifest)
        → expected < 2 ^ 64
        → Run (manifest_publish_if_generation os memory path d expected m).1 d'
        → ¬ (
            ((manifest_publish_if_generation os memory path d expected m).0 ≡ ok)
            × ((manifest_publish_if_generation os memory' path d' expected m').0 ≡ ok))
    unfolding IsLater
    no_lost_update d d' expected memory memory' m m' bound run (first, second) =
        let (_, now) =
          after_ok d expected _
            (manifest_publish_if_generation-Published os memory path laws d expected m bound)
            first in
        let (g, above, at_end) =
          Run-IsLater _ d' (expected + 1) run (expected + 1, omega arith, now) in
        let (again, _) =
          after_ok d' expected _
            (manifest_publish_if_generation-Published os memory' path laws d' expected m' bound)
            second in
        ground (arith, sym at_end ∙ again)
