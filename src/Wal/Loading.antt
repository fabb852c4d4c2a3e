-- ===== src/Wal/Loading.antt =====
-- Loading, finding and clearing the log of src/indexing/yappo_update_wal_v2.c. The texts of a loaded
-- operation are all the bytes that the log gives them.
use yappod.Prelude.{
  ℕ, zero, suc, ◌+◌, ◌-◌, ◌*◌, ◌/◌, ◌%◌, ◌^◌, Bool, false, not, ◌&&◌, ◌||◌, Option, none, some,
  List, [], ◌∷◌, ltb, ◌==◌, if◌then◌else◌, length, take, drop, get_or,
}
use yappod.Prelude.Bytes.{bytes_eq}
use yappod.Codec.{get_u32_le, get_u64_le}
use yappod.Codec.Crc.{crc32c_update, not_u32}
use yappod.Types.{
  Status, ok, invalid_argument, invalid_format, out_of_range, allocation_failed, io_error,
  not_found, Result, done, fail, ◌>>=◌, ◌>>◌, reject_if,
}
use yappod.Storage.Slots.{size_max}
use yappod.Wal.{Operation, wal_header_bytes, wal_max_operations, wal_magic, valid_kind}

-- `YAP_V2_UPDATE_WAL`
pub record UpdateWal : Type 0 where
  pub base_generation : ℕ
  pub target_generation : ℕ
  pub operations : List Operation

-- What is left of the file, the checksum of what was read, and the number of payload bytes left.
pub record WalReader : Type 0 where
  pub input : List ℕ
  pub crc : ℕ
  pub remaining : ℕ

unfoldable pub read_exact : WalReader → ℕ → Result (List ℕ × WalReader)
read_exact r n =
    if ltb r.remaining n || ltb (length r.input) n
    then fail invalid_format
    else done (
      take n r.input,
      record {
        input = drop n r.input;
        crc = crc32c_update r.crc (take n r.input);
        remaining = r.remaining - n;
      },
    )

-- `granted` is what `malloc` and `calloc` answer.
module _ (granted : Bool) where
  unfoldable pub read_text : WalReader → ℕ → Result (List ℕ × WalReader)
  read_text r n = do
    reject_if (ltb (size_max - 1) n) out_of_range
    reject_if (not granted) allocation_failed
    read_exact r n

  unfoldable pub read_values : ℕ → WalReader → Result (List ℕ × WalReader)
  read_values zero r = done ([], r)
  read_values (suc rounds) r = do
    (encoded, r) ← read_exact r 4
    (more, r) ← read_values rounds r
    done (get_u32_le encoded ∷ more, r)

  unfoldable pub read_vectors : ℕ → WalReader → Result (Option (List ℕ) × WalReader)
  read_vectors values r = if values == 0 then done (none, r) else do
    reject_if (ltb (size_max / 4) values) out_of_range
    reject_if (not granted) allocation_failed
    (vectors, r) ← read_values values r
    done (some vectors, r)

  unfoldable pub read_operation : WalReader → Result (Operation × WalReader)
  read_operation r = do
    (head, r) ← read_exact r 72
    let vector_count = get_u64_le (drop 16 head)
    let vector_dimensions = get_u64_le (drop 24 head)
    reject_if
        (not (valid_kind (get_u32_le head))
          || not (vector_count == 0) && ltb (size_max / vector_count) vector_dimensions)
        invalid_format
    (id, r) ← read_text r (get_u64_le (drop 32 head))
    (url, r) ← read_text r (get_u64_le (drop 40 head))
    (title, r) ← read_text r (get_u64_le (drop 48 head))
    (body, r) ← read_text r (get_u64_le (drop 56 head))
    (metadata_json, r) ← read_text r (get_u64_le (drop 64 head))
    (vectors, r) ← read_vectors (vector_count * vector_dimensions % 2 ^ 64) r
    reject_if (get_or id 0 0 == 0) invalid_format
    done (
      record {
        kind = get_u32_le head;
        id = some id;
        url = url;
        title = title;
        body = body;
        metadata_json = metadata_json;
        updated_at = get_u64_le (drop 8 head);
        vectors = vectors;
        vector_count = vector_count;
        vector_dimensions = vector_dimensions;
      },
      r,
    )

  unfoldable pub read_operations : ℕ → WalReader → Result (List Operation × WalReader)
  read_operations zero r = done ([], r)
  read_operations (suc rounds) r = do
    (o, r) ← read_operation r
    (more, r) ← read_operations rounds r
    done (o ∷ more, r)

  -- The tests of the header, on the size of the file.
  unfoldable pub wal_header_bad : List ℕ → ℕ → Bool
  wal_header_bad header size =
      not (bytes_eq (take 8 header) wal_magic)
      || not (get_u32_le (drop 8 header) == 1)
      || not (get_u32_le (drop 12 header) == wal_header_bytes)
      || get_u64_le (drop 32 header) == 0
      || ltb wal_max_operations (get_u64_le (drop 32 header))
      || not (get_u64_le (drop 40 header) == size - wal_header_bytes)

  -- `YAP_V2_update_wal_load` on a file that could be opened.
  unfoldable pub wal_parse : List ℕ → Result UpdateWal
  wal_parse file = do
    reject_if (ltb (length file) wal_header_bytes) invalid_format
    reject_if (wal_header_bad file (length file)) invalid_format
    let base_generation = get_u64_le (drop 16 file)
    let target_generation = get_u64_le (drop 24 file)
    reject_if (base_generation == size_max || not (target_generation == base_generation + 1))
        invalid_format
    reject_if (not granted) allocation_failed
    (operations, r) ← read_operations (get_u64_le (drop 32 file)) (record {
      input = drop wal_header_bytes file;
      crc = 0xffffffff;
      remaining = get_u64_le (drop 40 file);
    })
    reject_if
        (not (r.remaining == 0)
          || not (not_u32 r.crc == get_u32_le (drop 48 file))
          || not (length r.input == 0))
        invalid_format
    done (record {
      base_generation = base_generation;
      target_generation = target_generation;
      operations = operations;
    })

-- What `fopen` finds: nothing, a file that cannot be opened, or a file. A `fstat` or `fread` that fails
-- on a file that is there is not modelled: all the bytes of the file can be read.
pub data WalFile : Type 0 where
  absent unreadable : WalFile
  present : List ℕ → WalFile

unfoldable pub update_wal_load : Bool → Bool → Bool → WalFile → Result UpdateWal
update_wal_load path_fits granted closed absent =
    if path_fits then fail not_found else fail invalid_argument
update_wal_load path_fits granted closed unreadable =
    if path_fits then fail io_error else fail invalid_argument
update_wal_load path_fits granted closed (present file) =
    if not path_fits
    then fail invalid_argument
    else do wal ← wal_parse granted file; reject_if (not closed) io_error; done wal

unfoldable pub update_wal_exists : Bool → WalFile → Bool
update_wal_exists path_fits absent = false
update_wal_exists path_fits unreadable = path_fits
update_wal_exists path_fits (present file) = path_fits

-- `unlinked` is whether `unlink` removes a file that is there; with the status comes what is left.
unfoldable pub update_wal_clear : Bool → Bool → Bool → WalFile → Status × WalFile
update_wal_clear path_fits unlinked synced file =
    if not path_fits
    then (invalid_argument, file)
    else if update_wal_exists path_fits file && not unlinked
    then (io_error, file)
    else if synced
    then (ok, absent)
    else (io_error, absent)
