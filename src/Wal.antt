-- ===== src/Wal.antt =====
-- The update log of src/indexing/yappo_update_wal_v2.c: the operations of one update, written to a
-- temporary file that is renamed to `update.wal`, and read back after a crash (Loading). A float is
-- its 32 bits, a time stamp its 64 bits; a text is a C string, where NULL and "" are both written as
-- no bytes.
pub mod Loading
pub mod Reading
pub mod RoundTrip
pub mod Writing
pub mod Recovery
pub mod Consuming
pub mod Intact
pub mod Failures
pub mod Success
use yappod.Prelude.{
  ℕ, zero, suc, ◌+◌, ◌-◌, ◌*◌, ◌/◌, ◌%◌, ◌^◌, Bool, true, false, not, ◌&&◌, ◌||◌, Option, none,
  some, List, [], ◌∷◌, ◌++◌, ltb, leb, ◌==◌, if◌then◌else◌, length, take, drop, get_or, replicate,
}
use yappod.Prelude.Bytes.{bytes_eq}
use yappod.Codec.{put_u32_le, put_u64_le, get_u32_le, get_u64_le}
use yappod.Codec.Crc.{crc32c_update, not_u32}
use yappod.Types.{
  Status, ok, invalid_argument, invalid_format, out_of_range, allocation_failed, io_error,
  not_found, Result, done, fail, ◌>>=◌, ◌>>◌, reject_if, check, is_ok,
}
use yappod.Storage.Slots.{size_max}

abbrev pub wal_header_bytes : ℕ
wal_header_bytes = 64

abbrev pub wal_max_operations : ℕ
wal_max_operations = 10000

abbrev pub wal_magic : List ℕ
wal_magic = b'Y' ∷ b'A' ∷ b'P' ∷ b'W' ∷ b'A' ∷ b'L' ∷ b'2' ∷ 0 ∷ []

-- `YAP_V2_INGEST_OPERATION`; `none` for a NULL id and for NULL vectors.
pub record Operation : Type 0 where
  pub kind : ℕ
  pub id : Option (List ℕ)
  pub url : List ℕ
  pub title : List ℕ
  pub body : List ℕ
  pub metadata_json : List ℕ
  pub updated_at : ℕ
  pub vectors : Option (List ℕ)
  pub vector_count : ℕ
  pub vector_dimensions : ℕ

-- The bytes that are written behind the header, their running checksum, and their number.
pub record WalWriter : Type 0 where
  pub output : List ℕ
  pub crc : ℕ
  pub payload_bytes : ℕ

abbrev pub valid_kind : ℕ → Bool
valid_kind kind = kind == 1 || kind == 2

abbrev pub id_text : Operation → List ℕ
id_text o = elim o.id [ none ↦ List.[] | some id ↦ id ]

-- `vector_values` of an operation.
abbrev pub vector_values : Operation → ℕ
vector_values o = o.vector_count * o.vector_dimensions % 2 ^ 64

-- The 72 bytes in front of the texts: the kind, four zero bytes, the numbers and the five lengths.
unfoldable pub operation_header : Operation → List ℕ
operation_header o =
    put_u32_le o.kind
    ++ (replicate 4 0
        ++ (put_u64_le o.updated_at
            ++ (put_u64_le o.vector_count
                ++ (put_u64_le o.vector_dimensions
                    ++ (put_u64_le (length (id_text o))
                        ++ (put_u64_le (length o.url)
                            ++ (put_u64_le (length o.title)
                                ++ (put_u64_le (length o.body)
                                    ++ put_u64_le (length o.metadata_json)))))))))

-- `space` is the number of bytes that `fwrite` takes in all.
module _ (space : ℕ) where
  unfoldable pub write_bytes : WalWriter → List ℕ → Result WalWriter
  write_bytes w bytes =
      if ltb space (length w.output + length bytes)
      then fail io_error
      else if ltb (2 ^ 64 - 1 - w.payload_bytes) (length bytes)
      then fail out_of_range
      else done (record {
        output = w.output ++ bytes;
        crc = crc32c_update w.crc bytes;
        payload_bytes = w.payload_bytes + length bytes;
      })

  -- The loop over the values of the vectors, on those that are left.
  unfoldable pub write_values : WalWriter → List ℕ → Result WalWriter
  write_values w [] = done w
  write_values w (bits ∷ more) = write_bytes w (put_u32_le bits) >>= (λ w. write_values w more)

  unfoldable pub write_texts : WalWriter → Operation → Result WalWriter
  write_texts w o = do
    w ← write_bytes w (operation_header o)
    w ← write_bytes w (id_text o)
    w ← write_bytes w o.url
    w ← write_bytes w o.title
    w ← write_bytes w o.body
    write_bytes w o.metadata_json

  unfoldable pub write_operation : WalWriter → Operation → Result WalWriter
  write_operation w o = do
    reject_if (elim o.id [ none ↦ true | some id ↦ not (valid_kind o.kind) ]) invalid_argument
    reject_if (not (o.vector_count == 0) && ltb (size_max / o.vector_count) o.vector_dimensions)
        out_of_range
    reject_if (not (vector_values o == 0) && (elim o.vectors [ none ↦ true | some values ↦ false ]))
        invalid_argument
    w ← write_texts w o
    write_values w (elim o.vectors [ none ↦ List.[] | some values ↦ take (vector_values o) values ])

  -- The loop over the operations, on those that are left.
  unfoldable pub write_operations : WalWriter → List Operation → Result WalWriter
  write_operations w [] = done w
  write_operations w (o ∷ more) = write_operation w o >>= (λ w. write_operations w more)

-- The header that is written last, over the 64 zero bytes at the front.
unfoldable pub wal_header : ℕ → ℕ → WalWriter → List ℕ
wal_header base_generation operation_count w =
    wal_magic
    ++ (put_u32_le 1
        ++ (put_u32_le wal_header_bytes
            ++ (put_u64_le base_generation
                ++ (put_u64_le (base_generation + 1)
                    ++ (put_u64_le operation_count
                        ++ (put_u64_le w.payload_bytes
                            ++ (put_u32_le (not_u32 w.crc) ++ replicate 12 0)))))))

abbrev pub wal_start : WalWriter
wal_start = record { output = []; crc = 0xffffffff; payload_bytes = 0 }

-- What the calls of the operating system answer. `space` is as above, `flushed` is for the rewriting
-- of the header with its `fseek`, `fflush` and `fsync`. `left` is what the temporary file holds when
-- flushing or closing it has failed.
pub record WalAnswers : Type 0 where
  pub paths_fit : Bool
  pub created : Bool
  pub opened : Bool
  pub space : ℕ
  pub flushed : Bool
  pub closed : Bool
  pub left : List ℕ
  pub renamed : Bool
  pub synced : Bool

-- The bytes of the whole file.
unfoldable pub wal_encode : ℕ → ℕ → List Operation → Result (List ℕ)
wal_encode space base_generation operations = do
  reject_if (ltb space wal_header_bytes) io_error
  w ← write_operations (space - wal_header_bytes) wal_start operations
  done (wal_header base_generation (length operations) w ++ w.output)

-- What the temporary file holds behind its closing.
unfoldable pub stored_bytes : WalAnswers → List ℕ → List ℕ
stored_bytes a file = if a.flushed && a.closed then file else a.left

-- The status, and the bytes that were renamed to `update.wal`, if any.
unfoldable pub wal_finish : WalAnswers → Result (List ℕ) → Status × Option (List ℕ)
wal_finish a (fail status) = (status, none)
wal_finish a (done file) =
    if not a.flushed || not a.closed || not a.renamed
    then (io_error, none)
    else if a.synced
    then (ok, some (stored_bytes a file))
    else (io_error, some (stored_bytes a file))

unfoldable pub update_wal_write : WalAnswers → ℕ → List Operation → Status × Option (List ℕ)
update_wal_write a base_generation operations =
    if length operations == 0
      || ltb wal_max_operations (length operations)
      || base_generation == size_max
    then (invalid_argument, none)
    else if not a.paths_fit
    then (out_of_range, none)
    else if not a.created || not a.opened
    then (io_error, none)
    else wal_finish a (wal_encode a.space base_generation operations)
