-- ===== src/ManifestFile/Publish/Outcome.antt =====
-- What a save leaves under the manifest's path, whatever fails on the way.
use yappod.Prelude.{
  ℕ, ◌+◌, [], ◌∷◌, All, ◌≡◌, ◌≢◌, ◌⊎◌, inl, inr, refl, ap, ◌∙◌, Bool, true, false, not, ◌||◌,
  Option, none, some, List, arith, if◌then◌else◌, length, Bool-cases,
}
use yappod.Prelude.Bytes.{IsByte}
use yappod.Types.{Status, ok, io_error, Result, done, fail}
use yappod.Types.Binds.{bind-ne-fail_ok}
use yappod.Storage.Manifest.{Manifest}
use yappod.Storage.Descriptor.{Component, Segment}
use yappod.Storage.Header.{file_header_encode}
use yappod.ManifestFile.{
  components_size, add_size, segments_size, manifest_payload_size, encode_manifest,
  component_fixed_bytes, segment_fixed_bytes,
}
use yappod.ManifestFile.Publish.{
  Posix, Memory, fsync_parent, prepare, replace, write_and_replace, manifest_save_atomic,
}

-- The documented behaviour of the calls: `content` is the file under the manifest's path, and
-- `pending` the `.tmp` file. Only a rename that succeeds changes the first, to the second; bytes that
-- were written without an error are all in the second, and closing the file keeps them. What
-- is read is the content, and a missing file has none.
pub record IsPosix {D : Type 0} (os : Posix D) : Type 0 where
  pub content : D → Option (List ℕ)
  pub pending : D → List ℕ
  pub bytes : (d : D) (file : List ℕ) → content d ≡ some file → All IsByte file
  pub read_ok : (d : D) (file : List ℕ) → os.read_file d ≡ some file → content d ≡ some file
  pub missing : (d : D) → os.is_missing d ≡ true → content d ≡ none
  pub created : (d : D) → content (os.create_temporary d).1 ≡ content d
  pub kept : (d : D) (bytes : List ℕ) → content (os.write_temporary d bytes).1 ≡ content d
  pub written :
      (d : D) (bytes : List ℕ)
      → (os.write_temporary d bytes).0 ≡ true
      → pending (os.write_temporary d bytes).1 ≡ bytes
  pub closed : (d : D) → content (os.close_temporary d).1 ≡ content d
  pub closed_pending : (d : D) → pending (os.close_temporary d).1 ≡ pending d
  pub renamed :
      (d : D)
      → (os.rename_temporary d).0 ≡ true
      → content (os.rename_temporary d).1 ≡ some (pending d)
  pub not_renamed :
      (d : D) → (os.rename_temporary d).0 ≡ false → content (os.rename_temporary d).1 ≡ content d
  pub synced : (d : D) (directory : List ℕ) → content (os.sync_directory d directory).1 ≡ content d
  pub unlinked : (d : D) → content (os.unlink_temporary d) ≡ content d
  pub locked : (d : D) → content (os.lock d).1 ≡ content d
  pub unlocked : (d : D) → content (os.unlock d).1 ≡ content d

-- How a save ends: the file is the old one and the status is not ok, or it is all of the new one.
pub data Saved {D : Type 0} (content : D → Option (List ℕ)) (d : D) (written : Result (List ℕ))
    (r : Status × D) : Type 0 where
  kept : content r.1 ≡ content d → r.0 ≢ ok → Saved content d written r
  saved :
      (file : List ℕ) → written ≡ done file → content r.1 ≡ some file → Saved content d written r

components_size-ne-fail_ok : (cs : List Component) (total : ℕ) → components_size cs total ≢ fail ok
unfolding components_size add_size
components_size-ne-fail_ok [] total e = ground (arith, e)
components_size-ne-fail_ok (c ∷ more) total e =
    ground
      (arith, e, components_size-ne-fail_ok more (total + (component_fixed_bytes + length c.name)))

segments_size-ne-fail_ok :
    (segments : List Segment) (total : ℕ) → segments_size segments total ≢ fail ok
unfolding segments_size add_size
segments_size-ne-fail_ok [] total = λ e. ground (arith, e)
segments_size-ne-fail_ok (s ∷ more) total =
    bind-ne-fail_ok (add_size total (segment_fixed_bytes + length s.id)) _ (λ e. ground (arith, e))
      (λ n.
        bind-ne-fail_ok (components_size s.components n) _
          (components_size-ne-fail_ok s.components n) (λ k. segments_size-ne-fail_ok more k))

module _ {D : Type 0} (os : Posix D) (memory : Memory) (path : List ℕ) (laws : IsPosix os) where
  fsync_parent-kept : (d : D) → laws.content (fsync_parent os memory path d).1 ≡ laws.content d
  unfolding fsync_parent
  fsync_parent-kept d = elim (Bool-cases memory.parent_copy) [
    | inl given ↦ rw given (laws.synced d _)
    | inr refused ↦ rw refused refl
  ]

  replace_lem :
      (failed : Bool) (d : D)
      → ((laws.content (replace os memory path failed d).1 ≡ laws.content d)
          × ((replace os memory path failed d).0 ≡ false))
        ⊎ ((laws.content (replace os memory path failed d).1 ≡ some (laws.pending d))
            × (failed ≡ false))
  unfolding replace
  replace_lem true d = inl (refl, refl)
  replace_lem false d = elim (Bool-cases (os.rename_temporary d).0) [
    | inl done_so ↦
        rw done_so
          (inr (fsync_parent-kept (os.rename_temporary d).1 ∙ laws.renamed d done_so, refl))
    | inr failing ↦ rw failing (inl (laws.not_renamed d failing, refl))
  ]

  -- The disk when the `.tmp` file is closed, and whether everything went well so far.
  module _ (d : D) (file : List ℕ) where
    abbrev opened : D
    opened = (os.create_temporary d).1

    abbrev closed_at : D
    closed_at = (os.close_temporary (os.write_temporary opened file).1).1

    abbrev failed : Bool
    failed =
        not (os.write_temporary opened file).0
        || not (os.close_temporary (os.write_temporary opened file).1).0

    closed-kept : laws.content closed_at ≡ laws.content d
    closed-kept = laws.closed _ ∙ laws.kept opened file ∙ laws.created d

    closed-written : failed ≡ false → laws.pending closed_at ≡ file
    closed-written h = laws.closed_pending _ ∙ laws.written opened file (ground arith)

    ending : Bool × D → Status × D
    ending (replaced, d) = if replaced then (ok, d) else (io_error, os.unlink_temporary d)

    ending_lem :
        (r : Bool × D)
        → ((laws.content r.1 ≡ laws.content closed_at) × (r.0 ≡ false))
          ⊎ ((laws.content r.1 ≡ some (laws.pending closed_at)) × (failed ≡ false))
        → Saved laws.content d (done file) (ending r)
    unfolding ending
    ending_lem (true, d') (inl (same, stopped)) = absurd (ground (arith, stopped))
    ending_lem (false, d') (inl (same, stopped)) =
        kept (laws.unlinked d' ∙ same ∙ closed-kept) (λ e. absurd (ground (arith, e)))
    ending_lem (true, d') (inr (fresh, fine)) =
        saved file refl (fresh ∙ ap some (closed-written fine))
    ending_lem (false, d') (inr (fresh, fine)) =
        saved file refl (laws.unlinked d' ∙ fresh ∙ ap some (closed-written fine))

    write_and_replace_lem :
        Saved laws.content d (done file) (write_and_replace os memory path d file)
    unfolding write_and_replace ending
    write_and_replace_lem = elim (Bool-cases (os.create_temporary d).0) [
      | inr failing ↦ rw failing (kept (laws.created d) (λ e. absurd (ground (arith, e))))
      | inl done_so ↦
          rw done_so
            (ending_lem (replace os memory path failed closed_at) (replace_lem failed closed_at))
    ]

  prepare-ne-fail_ok : (m : Manifest) → prepare os memory path m ≢ fail ok
  unfolding prepare manifest_payload_size encode_manifest file_header_encode
  prepare-ne-fail_ok m e = ground (arith, e, segments_size-ne-fail_ok m.segments 40)

  -- Whatever call fails, a save is atomic: it leaves under the path either the old file, and then it
  -- does not report success, or the complete bytes that were prepared for the manifest. (It may
  -- report an error although the file is the new one: the directory is synchronized after the rename.)
  pub manifest_save_atomic-Saved :
      (d : D) (m : Manifest)
      → Saved laws.content d (prepare os memory path m) (manifest_save_atomic os memory path d m)
  unfolding manifest_save_atomic
  manifest_save_atomic-Saved d m = by_cases (prepare os memory path m) (prepare-ne-fail_ok m)
    where
      by_cases :
          (r : Result (List ℕ))
          → r ≢ fail ok
          → Saved laws.content d r (elim r [
            | fail status ↦ (status, d)
            | done file_data ↦ write_and_replace os memory path d file_data
          ])
      by_cases (fail status) h = kept refl (λ e. h (ap fail e))
      by_cases (done file) h = write_and_replace_lem d file
