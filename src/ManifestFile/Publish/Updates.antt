-- ===== src/ManifestFile/Publish/Updates.antt =====
-- The generation under the manifest's path, and how the publishers advance it.
use yappod.Prelude.{
  ℕ, ◌+◌, ◌-◌, ◌^◌, ◌<◌, ◌≡◌, ◌≢◌, inl, inr, refl, ap, ◌∙◌, Option, none, some, List, arith, ltb,
  ◌==◌, length, drop, Bool-cases, Option-cases, All, All-drop,
}
use yappod.Prelude.Bytes.{IsByte, get_or-IsByte}
use yappod.Codec.Words.{get_u64_le-lt}
use yappod.Types.{Status, ok, Result, done, fail}
use yappod.Types.Binds.{Result-cases}
use yappod.Storage.Slots.{size_max}
use yappod.Storage.Header.{file_header_decode, read_fields}
use yappod.Storage.Manifest.{Manifest}
use yappod.ManifestFile.{parse_file, size_check}
use yappod.ManifestFile.Failures.{parse_file-ne-fail_ok}
use yappod.ManifestFile.Publish.{
  Posix, Memory, manifest_load, finish, locked, publish_as, current_or_none, next_generation,
  generation_after, manifest_publish_next, manifest_publish_if_generation,
}
use yappod.ManifestFile.Publish.Outcome.{IsPosix, kept, saved, manifest_save_atomic-Saved}
use yappod.ManifestFile.Publish.Generations.{
  generation_of, parse_file-generation, prepare-generation,
}

-- The generation under the path; a missing file has generation 0.
abbrev pub generation_under : Option (List ℕ) → Result ℕ
generation_under none = done 0
generation_under (some file) = generation_of file

generation_of-lt :
    (file : List ℕ) (g : ℕ) → All IsByte file → generation_of file ≡ done g → g < 2 ^ 64
unfolding file_header_decode read_fields
generation_of-lt file g bytes e = ground (
  arith,
  e,
  get_u64_le-lt (drop 12 file) (get_or-IsByte (drop 12 file) (All-drop IsByte 12 file bytes)),
)

module _ {D : Type 0} {os : Posix D} (laws : IsPosix os) where
  abbrev pub before_of : D → Result ℕ
  before_of d = generation_under (laws.content d)

  -- What a publication does to the generation under the path, when it advances only the generations
  -- that `P` allows.
  pub data Published (P : ℕ → Type 0) (d : D) (r : Status × D) : Type 0 where
    refused : laws.content r.1 ≡ laws.content d → r.0 ≢ ok → Published P d r
    advanced : (g : ℕ) → P g → before_of d ≡ done g → before_of r.1 ≡ done (g + 1) → Published P d r

module _ {D : Type 0} (os : Posix D) (memory : Memory) (path : List ℕ) (laws : IsPosix os) where
  manifest_load-generation :
      (d : D) (m : Manifest)
      → manifest_load os memory path d ≡ done m
      → before_of laws d ≡ done m.generation
  unfolding manifest_load
  manifest_load-generation d m e = elim (Option-cases (os.file_size d)) [
    | inl absent ↦ ground (arith, e, absent)
    | inr (size, sized) ↦ elim (Option-cases (os.read_file d)) [
      | inl absent ↦ ground (arith, e, sized, absent)
      | inr (file, read) ↦
          let parsed : parse_file memory.load_tables file ≡ done m =
            ground (arith, e, sized, read) in
          rw (laws.read_ok d file read) (parse_file-generation memory.load_tables file m parsed)
    ]
  ]

  publish_as-Published :
      (P : ℕ → Type 0) (d : D) (m : Manifest) (next : Result ℕ)
      → next ≢ fail ok
      → ((g : ℕ)
          → next ≡ done g
          → (b : ℕ) × P b × (before_of laws d ≡ done b) × (g ≡ b + 1) × (g < 2 ^ 64))
      → Published laws P d (publish_as os memory path next d m)
  unfolding publish_as
  publish_as-Published P d m (fail status) h k = refused refl (λ e. h (ap fail e))
  publish_as-Published P d m (done g) h k =
      let (b, allowed, before, step, bound) = k g refl in
      let m' : Manifest = record m { generation = g } in
      elim (manifest_save_atomic-Saved os memory path laws d m') [
        | kept same failed ↦ refused same failed
        | saved file written new_content ↦
            advanced b allowed before
              (rw (new_content, ← step) (prepare-generation os memory path file m' bound written))
      ]

  before-lt : (d : D) (g : ℕ) → before_of laws d ≡ done g → g < 2 ^ 64
  before-lt d g e = elim (Option-cases (laws.content d)) [
    | inl absent ↦ let z : 0 ≡ g = cc (rw absent at e) in omega arith
    | inr (file, there) ↦ generation_of-lt file g (laws.bytes d file there) (rw there at e)
  ]

  current-generation :
      (d : D) (current : Manifest)
      → current_or_none os memory path d ≡ done current
      → (before_of laws d ≡ done current.generation) × (current.generation < 2 ^ 64)
  unfolding current_or_none
  current-generation d current e = elim (Result-cases (manifest_load os memory path d)) [
    | inl (m, loaded) ↦
        let same : m ≡ current = ground (arith, e, loaded) in
        let before = manifest_load-generation d current (loaded ∙ ap done same) in
        (before, before-lt d current.generation before)
    | inr (status, stopped) ↦ elim (Bool-cases (os.is_missing d)) [
      | inr there ↦ ground (arith, e, stopped, there)
      | inl missing ↦
          let zero_there : current.generation ≡ 0 = ground (arith, e, stopped, missing) in
          (rw (laws.missing d missing, zero_there) refl, omega arith)
    ]
  ]

  next_generation_lem :
      (d : D) (m : Manifest) (g : ℕ)
      → next_generation os memory path d m ≡ done g
      → (b : ℕ) × (before_of laws d ≡ done b) × (g ≡ b + 1) × (g < 2 ^ 64)
  unfolding next_generation
  next_generation_lem d m g e = elim (Result-cases (current_or_none os memory path d)) [
    | inr (status, stopped) ↦ ground (arith, e, stopped)
    | inl (current, loaded) ↦
        let (before, bound) = current-generation d current loaded in
        (current.generation, before, ground (arith, e, loaded), ground (arith, e, loaded, bound))
  ]

  generation_after_lem :
      (d : D) (expected : ℕ) (m : Manifest) (g : ℕ)
      → expected < 2 ^ 64 - 1
      → generation_after os memory path d expected m ≡ done g
      → (before_of laws d ≡ done expected) × (g ≡ expected + 1)
  unfolding generation_after
  generation_after_lem d expected m g bound e =
      elim (Result-cases (manifest_load os memory path d)) [
        | inr (status, stopped) ↦ ground (arith, e, stopped)
        | inl (current, loaded) ↦
            ground (arith, e, loaded, manifest_load-generation d current loaded)
      ]

  manifest_load-ne-fail_ok : (d : D) → manifest_load os memory path d ≢ fail ok
  unfolding manifest_load size_check
  manifest_load-ne-fail_ok d e = elim (Option-cases (os.file_size d)) [
    | inl absent ↦ ground (arith, e, absent)
    | inr (size, sized) ↦ elim (Option-cases (os.read_file d)) [
      | inl absent ↦ ground (arith, e, sized, absent)
      | inr (file, read) ↦
          ground (arith, e, sized, read, parse_file-ne-fail_ok memory.load_tables file)
    ]
  ]

  next_generation-ne-fail_ok : (d : D) (m : Manifest) → next_generation os memory path d m ≢ fail ok
  unfolding next_generation current_or_none
  next_generation-ne-fail_ok d m e = ground (arith, e, manifest_load-ne-fail_ok d)

  generation_after-ne-fail_ok :
      (d : D) (expected : ℕ) (m : Manifest) → generation_after os memory path d expected m ≢ fail ok
  unfolding generation_after
  generation_after-ne-fail_ok d expected m e = ground (arith, e, manifest_load-ne-fail_ok d)

  -- The lock and its release around a body leave the content to the body.
  locked-Published :
      (P : ℕ → Type 0) (d : D) (body : D → Status × D)
      → ((d : D) → Published laws P d (body d))
      → Published laws P d (locked os memory path d body)
  unfolding locked finish
  locked-Published P d body h = elim (Bool-cases (ltb (size_max - 6) (length path))) [
    | inl long ↦ rw long (refused refl (λ e. ground (arith, e)))
    | inr short ↦ elim (Bool-cases memory.lock_path) [
      | inr denied ↦ rw (short, denied) (refused refl (λ e. ground (arith, e)))
      | inl given ↦ elim (Bool-cases (os.lock d).0) [
        | inr busy ↦ rw (short, given, busy) (refused (laws.locked d) (λ e. ground (arith, e)))
        | inl held ↦ rw (short, given, held) (finish_lem (body (os.lock d).1) (h (os.lock d).1))
      ]
    ]
  ]
    where
      finish_lem :
          (r : Status × D)
          → Published laws P (os.lock d).1 r
          → Published laws P d (finish os memory path r)
      finish_lem (status, d') (refused same failed) =
          refused (laws.unlocked d' ∙ same ∙ laws.locked d) (λ e. failed (ground (arith, e)))
      finish_lem (status, d') (advanced g allowed before after) =
          advanced g allowed (rw (← laws.locked d) before) (rw (laws.unlocked d') after)

  -- `publish_next`, whatever call or allocation fails, either leaves the manifest file as it was and
  -- does not report success, or raises the generation under the path by one, from 0 for a missing
  -- file.
  pub manifest_publish_next-Published :
      (d : D) (m : Manifest)
      → Published laws (λ g. Unit {0}) d (manifest_publish_next os memory path d m)
  unfolding manifest_publish_next
  manifest_publish_next-Published d m = locked-Published _ d _ (λ d.
      publish_as-Published (λ g. Unit {0}) d m (next_generation os memory path d m)
        (next_generation-ne-fail_ok d m)
        (λ g e.
          let (b, before, step, lt) = next_generation_lem d m g e in (b, tt, before, step, lt)))

  -- `publish_if_generation`, whatever call or allocation fails, either leaves the manifest file as it
  -- was and does not report success, or raises the generation under the path from the expected one
  -- by one.
  pub manifest_publish_if_generation-Published :
      (d : D) (expected : ℕ) (m : Manifest)
      → expected < 2 ^ 64
      → Published laws
          (λ g. g ≡ expected)
          d
          (manifest_publish_if_generation os memory path d expected m)
  unfolding manifest_publish_if_generation
  manifest_publish_if_generation-Published d expected m bound =
      elim (Bool-cases (expected == size_max)) [
        | inl last ↦ rw last (refused refl (λ e. ground (arith, e)))
        | inr more ↦ rw more (
            locked-Published _ d _ (λ d.
              publish_as-Published (λ g. g ≡ expected) d m
                (generation_after os memory path d expected m)
                (generation_after-ne-fail_ok d expected m)
                (λ g e.
                  let (before, step) = generation_after_lem d expected m g (ground arith) e in
                  (expected, refl, before, step, ground arith))))
      ]
