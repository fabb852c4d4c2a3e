-- ===== src/ManifestFile/Publish.antt =====
-- Replacing the manifest on disk: `fsync_parent`, `YAP_V2_manifest_load`,
-- `YAP_V2_manifest_save_atomic`, `YAP_V2_manifest_publish_next` and
-- `YAP_V2_manifest_publish_if_generation` of src/storage/yappo_manifest_v2.c. The calls of the operating
-- system are the operations of a parameter (`Posix`), one group of calls each; a false answer is a
-- failed call.
pub mod Outcome
pub mod Generations
pub mod Updates
pub mod Races
use yappod.Prelude.{
  ℕ, zero, suc, ◌+◌, ◌-◌, ◌<◌, Bool, true, false, not, ◌&&◌, ◌||◌, Option, none, some, List, [],
  ◌∷◌, ltb, ◌==◌, if◌then◌else◌, length, take,
}
use yappod.Prelude.Bytes.{bytes_eq}
use yappod.Types.{
  Status, ok, invalid_argument, out_of_range, allocation_failed, io_error, conflict, Result, done,
  fail, ◌>>=◌, ◌>>◌, reject_if, check, is_ok,
}
use yappod.Storage.Slots.{size_max}
use yappod.Storage.Header.{file_header_bytes}
use yappod.Storage.Manifest.{Manifest, manifest_init, manifest_validate}
use yappod.ManifestFile.{size_check, parse_file, manifest_payload_size, encode_manifest}

-- What the functions call on the manifest's path, its `.tmp` file, its `.lock` file and a directory.
pub record Posix (D : Type 0) : Type 0 where
  -- `fopen`, `fstat`: the size of the manifest file.
  pub file_size : D → Option ℕ
  -- `fread`, `fclose`
  pub read_file : D → Option (List ℕ)
  -- `access(path, F_OK) != 0 && errno == ENOENT`
  pub is_missing : D → Bool
  -- `fopen(temporary, "wb")`
  pub create_temporary : D → Bool × D
  -- `fwrite`, `fflush`, `fsync`
  pub write_temporary : D → List ℕ → Bool × D
  -- `fclose`
  pub close_temporary : D → Bool × D
  -- `rename(temporary, path)`
  pub rename_temporary : D → Bool × D
  -- `open`, `fsync`, `close` of a directory
  pub sync_directory : D → List ℕ → Bool × D
  -- `unlink(temporary)`
  pub unlink_temporary : D → D
  -- `open` and `flock(LOCK_EX)` of the lock file
  pub lock : D → Bool × D
  -- `flock(LOCK_UN)` and `close`
  pub unlock : D → Bool × D

-- The answers of the allocations.
pub record Memory : Type 0 where
  pub load_data : Bool
  pub load_tables : Bool
  pub validation : Bool
  pub file_data : Bool
  pub temporary : Bool
  pub parent_copy : Bool
  pub lock_path : Bool

-- `strrchr(path, '/')`, counted from `i`.
unfoldable pub last_slash : List ℕ → ℕ → Option ℕ
last_slash [] i = none
last_slash (c ∷ rest) i =
    let further = last_slash rest (i + 1) in
    elim further [ some at ↦ some at | none ↦ (if c == b'/' then some i else none) ]

-- The directory that `fsync_parent` opens.
unfoldable pub parent_directory : List ℕ → List ℕ
parent_directory path = elim (last_slash path 0) [
  | none ↦ b'.' ∷ []
  | some slash ↦ if slash == 0 then take 1 path else take slash path
]

module _ {D : Type 0} (os : Posix D) (memory : Memory) (path : List ℕ) where
  unfoldable pub fsync_parent : D → Bool × D
  fsync_parent d =
      if memory.parent_copy then os.sync_directory d (parent_directory path) else (false, d)

  unfoldable pub manifest_load : D → Result Manifest
  manifest_load d = elim (os.file_size d) [
    | none ↦ fail io_error
    | some size ↦ do
      size_check size
      reject_if (not memory.load_data) allocation_failed
      elim (os.read_file d) [
        | none ↦ fail io_error
        | some file ↦ parse_file memory.load_tables file
      ]
  ]

  -- Checking, encoding, and the two allocations: the bytes that are going to be written.
  unfoldable pub prepare : Manifest → Result (List ℕ)
  prepare m = do
    check (manifest_validate memory.validation m)
    payload_bytes ← manifest_payload_size m
    reject_if (not memory.file_data) allocation_failed
    file_data ← encode_manifest m (file_header_bytes + payload_bytes)
    reject_if (ltb (size_max - 5) (length path)) out_of_range
    reject_if (not memory.temporary) allocation_failed
    done file_data

  -- `rename` and `fsync_parent`, when nothing failed before.
  unfoldable pub replace : Bool → D → Bool × D
  replace write_failed d =
      if write_failed
      then (false, d)
      else let (renamed, d) = os.rename_temporary d in
        if renamed then fsync_parent d else (false, d)

  unfoldable pub write_and_replace : D → List ℕ → Status × D
  write_and_replace d file_data =
      let (opened, d) = os.create_temporary d in
      if not opened
      then (io_error, d)
      else let (written, d) = os.write_temporary d file_data in
        let (closed, d) = os.close_temporary d in
        let (replaced, d) = replace (not written || not closed) d in
        if replaced then (ok, d) else (io_error, os.unlink_temporary d)

  unfoldable pub manifest_save_atomic : D → Manifest → Status × D
  manifest_save_atomic d m = elim (prepare m) [
    | fail status ↦ (status, d)
    | done file_data ↦ write_and_replace d file_data
  ]

  -- The end of both publishers: the lock is given up, and a failed `close` is reported.
  unfoldable pub finish : Status × D → Status × D
  finish (status, d) =
      let (closed, d) = os.unlock d in (if not closed && is_ok status then io_error else status, d)

  -- The current manifest as `publish_next` sees it: a missing file has generation 0.
  unfoldable pub current_or_none : D → Result Manifest
  current_or_none d = elim (manifest_load d) [
    | done m ↦ done m
    | fail io_error ↦
        if os.is_missing d then done (record manifest_init { generation = 0 }) else fail io_error
    | fail status ↦ fail status
  ]

  -- The part of `publish_next` under the lock.
  unfoldable pub next_generation : D → Manifest → Result ℕ
  next_generation d m = do
    current ← current_or_none d
    reject_if
        (ltb 0 current.generation && not (bytes_eq current.config_fingerprint m.config_fingerprint))
        conflict
    reject_if (current.generation == size_max) out_of_range
    done (current.generation + 1)

  -- The part of `publish_if_generation` under the lock.
  unfoldable pub generation_after : D → ℕ → Manifest → Result ℕ
  generation_after d expected m = do
    current ← manifest_load d
    reject_if (not (current.generation == expected)) conflict
    reject_if (not (bytes_eq current.config_fingerprint m.config_fingerprint)) conflict
    done (expected + 1)

  -- Saving under the generation that was determined, or giving up.
  unfoldable pub publish_as : Result ℕ → D → Manifest → Status × D
  publish_as (fail status) d m = (status, d)
  publish_as (done generation) d m = manifest_save_atomic d (record m { generation = generation })

  -- Both take the lock in the same way.
  unfoldable pub locked : D → (D → Status × D) → Status × D
  locked d body =
      if ltb (size_max - 6) (length path)
      then (out_of_range, d)
      else if not memory.lock_path
      then (allocation_failed, d)
      else let (held, d) = os.lock d in if held then finish (body d) else (io_error, d)

  unfoldable pub manifest_publish_next : D → Manifest → Status × D
  manifest_publish_next d m = locked d (λ d. publish_as (next_generation d m) d m)

  unfoldable pub manifest_publish_if_generation : D → ℕ → Manifest → Status × D
  manifest_publish_if_generation d expected m =
      if expected == size_max
      then (invalid_argument, d)
      else locked d (λ d. publish_as (generation_after d expected m) d m)
