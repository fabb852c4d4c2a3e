-- ===== src/Wal/Recovery.antt =====
-- What one process logged is what the next one loads.
use yappod.Prelude.{
  ℕ, ◌+◌, ◌-◌, ◌^◌, ◌≤◌, ◌<◌, ◌≡◌, ◌≢◌, refl, sym, true, false, some, List, [], ◌++◌, arith, ltb,
  ◌==◌, length, take, drop, All, inl, inr, length-append, append-nil, drop-append,
}
use yappod.Prelude.Bytes.{bytes_eq}
use yappod.Codec.{put_u32_le, put_u64_le, get_u32_le, get_u64_le}
use yappod.Codec.Crc.{crc32c_update, not_u32}
use yappod.Codec.Words.{get_u32-put_u32, get_u64-put_u64}
use yappod.Storage.Slots.{size_max}
use yappod.Types.{Status, done}
use yappod.Types.Binds.{Result-cases}
use yappod.Wal.{
  Operation, WalWriter, WalAnswers, wal_magic, wal_start, wal_header, wal_encode, wal_finish,
  stored_bytes, write_operations, update_wal_write,
}
use yappod.Wal.Loading.{present, wal_header_bad, wal_parse, read_operations, update_wal_load}
use yappod.Wal.Reading.{IsLogged, Reads, reader}
use yappod.Wal.RoundTrip.{operations_bytes, read_operations_back}
use yappod.Wal.Writing.{written, write_operations-written}

module _ (base count : ℕ) (w : WalWriter) where
  abbrev file : List ℕ
  file = wal_header base count w ++ w.output

  front : (take 8 file ≡ wal_magic) × (length (wal_header base count w) ≡ 64)
  unfolding wal_header put_u32_le put_u64_le
  front = (refl, refl)

  words :
      (get_u32_le (drop 8 file) ≡ 1)
      × (get_u32_le (drop 12 file) ≡ 64)
      × (get_u32_le (drop 48 file) ≡ not_u32 w.crc)
  unfolding wal_header put_u32_le put_u64_le
  words = (
    get_u32-put_u32 1 _ (omega arith),
    get_u32-put_u32 64 _ (omega arith),
    get_u32-put_u32 (not_u32 w.crc) _ (omega arith),
  )

  numbers :
      base < 2 ^ 64 - 1
      → count ≤ 10000
      → w.payload_bytes < 2 ^ 64
      → (get_u64_le (drop 16 file) ≡ base)
        × (get_u64_le (drop 24 file) ≡ base + 1)
        × (get_u64_le (drop 32 file) ≡ count)
        × (get_u64_le (drop 40 file) ≡ w.payload_bytes)
  unfolding wal_header put_u32_le put_u64_le
  numbers hb hc hp = (
    get_u64-put_u64 base _ (omega arith),
    get_u64-put_u64 (base + 1) _ (omega arith),
    get_u64-put_u64 count _ (omega arith),
    get_u64-put_u64 w.payload_bytes _ hp,
  )

eq_self : (x : ℕ) → (x == x) ≡ true
eq_self x = ground arith

eq_other : (x y : ℕ) → x ≢ y → (x == y) ≡ false
eq_other x y h = ground arith

not_above : (x y : ℕ) → y ≤ x → ltb x y ≡ false
not_above x y h = ground arith

magic_eq : bytes_eq wal_magic wal_magic ≡ true
unfolding bytes_eq
magic_eq = refl

module _ (base : ℕ) (operations : List Operation) (logged : All IsLogged operations)
    (below : base < 2 ^ 64 - 1) (some_operation : 0 < length operations)
    (few : length operations ≤ 10000) where
  abbrev bytes : List ℕ
  bytes = operations_bytes operations

  abbrev end : WalWriter
  end = written wal_start bytes

  read_back :
      read_operations true (length operations) (reader bytes 0xffffffff (length bytes))
      ≡ done (operations, reader [] (crc32c_update 0xffffffff bytes) 0)
  unfolding Reads
  read_back =
      let all : length bytes + 0 ≡ length bytes = omega arith in
      let back = read_operations_back operations logged [] 0xffffffff 0 in
      rw (all, append-nil bytes) at back

  end_parts :
      (end.output ≡ bytes)
      × (end.payload_bytes ≡ length bytes)
      × (end.crc ≡ crc32c_update 0xffffffff bytes)
  unfolding written
  end_parts = (refl, omega arith, refl)

  parse_back :
      length bytes < 2 ^ 64
      → wal_parse true (file base (length operations) end)
        ≡ done (record {
          base_generation = base;
          target_generation = base + 1;
          operations = operations;
        })
  unfolding wal_parse wal_header_bad
  parse_back small =
      let header = wal_header base (length operations) end in
      let (magic, header_size) = front base (length operations) end in
      let (version, size, stored) = words base (length operations) end in
      let (b, t, c, p) =
        numbers base (length operations) end below few (unfold written in omega arith) in
      let behind = drop-append header end.output 64 (sym header_size) in
      let (output, paid, crc) = end_parts in
      let g1 : ltb (64 + length bytes) 64 ≡ false = not_above _ _ (omega arith) in
      let g2 : 64 + length bytes - 64 ≡ length bytes = omega arith in
      let none_left : (length operations == 0) ≡ false = eq_other _ _ (omega arith) in
      let g3 : ltb 10000 (length operations) ≡ false = not_above _ _ few in
      let g4 : (base == size_max) ≡ false = eq_other _ _ (omega arith) in
      let g5 = eq_self (length bytes) in
      let total : length (file base (length operations) end) ≡ 64 + length end.output =
        omega (arith, length-append header end.output) in
      rw
        (
          total, magic, version, size, stored, b, t, c, p, behind, magic_eq, output, paid, crc, g1,
          g2, none_left, g3, g4, g5, read_back,
        )
        (rw (eq_self (base + 1), eq_self (not_u32 (crc32c_update 0xffffffff bytes))) refl)

module _ (a : WalAnswers) (base : ℕ) (operations : List Operation)
    (logged : All IsLogged operations) where
  -- The file that is renamed has the header and the operations, and the arguments were in range.
  written_file :
      (status : Status) (file : List ℕ)
      → base < 2 ^ 64
      → update_wal_write a base operations ≡ (status, some file)
      → (w : WalWriter) × (write_operations (a.space - 64) wal_start operations ≡ done w)
        × (file ≡ wal_header base (length operations) w ++ w.output)
        × (0 < length operations)
        × (length operations ≤ 10000)
        × (base < 2 ^ 64 - 1)
  unfolding update_wal_write wal_finish wal_encode stored_bytes
  written_file status file below e =
      elim (Result-cases (write_operations (a.space - 64) wal_start operations)) [
        | inl (w, done_w) ↦ (
          w,
          done_w,
          ground (arith, done_w, e),
          ground (arith, e),
          ground (arith, e),
          ground (arith, e),
        )
        | inr (s, failed) ↦ absurd (ground (arith, e, failed))
      ]

  -- A base generation within a uint64_t and operations that can be logged: every file that the writer
  -- renames to `update.wal`, whatever the calls answered, is loaded back, where memory is granted and
  -- the file can be closed, as that generation, the next one and those operations in order.
  pub update_wal_write-update_wal_load :
      (status : Status) (file : List ℕ)
      → base < 2 ^ 64
      → update_wal_write a base operations ≡ (status, some file)
      → update_wal_load true true true (present file)
        ≡ done (record {
          base_generation = base;
          target_generation = base + 1;
          operations = operations;
        })
  unfolding update_wal_load
  update_wal_write-update_wal_load status file below e =
      let (w, run, is_file, some_operation, few, room) = written_file status file below e in
      let (is_w, small) =
        write_operations-written (a.space - 64) operations wal_start w logged (omega arith) run in
      rw (is_file, is_w, parse_back base operations logged room some_operation few (omega arith))
        refl
