-- ===== src/Examples/Log.antt =====
-- An update log that is written and loaded.
use yappod.Prelude.{
  ℕ, ◌+◌, ◌≡◌, ◌≤◌, ◌<◌, refl, true, false, none, some, List, [], ◌∷◌, arith, length, drop, All,
  inl, inr, Option,
}
use yappod.Codec.{put_u32_le, put_u64_le, get_u32_le, get_u64_le}
use yappod.Codec.Crc.{crc32c, crc32c_update}
use yappod.Types.{Status, ok, done}
use yappod.Wal.{
  Operation, WalAnswers, wal_encode, wal_finish, stored_bytes, wal_header, write_bytes,
  write_values, write_texts, write_operation, write_operations, operation_header, update_wal_write,
}
use yappod.Wal.Loading.{UpdateWal, present, update_wal_load}
use yappod.Wal.Reading.{IsLogged}
use yappod.Wal.Recovery.{update_wal_write-update_wal_load}
use yappod.Wal.Reading.{operation_bytes, value_bytes}
use yappod.Wal.RoundTrip.{operations_bytes}
use yappod.Wal.Success.{AllSucceed, update_wal_write_succeeds}
use yappod.Wal.Intact.{IsNamed, update_wal_load-intact}
use yappod.Wal.Failures.{Outcome, update_wal_write-Outcome}

abbrev insertion : Operation
insertion = record {
  kind = 1;
  id = some (b'k' ∷ []);
  url = b'u' ∷ [];
  title = [];
  body = b'x' ∷ b'y' ∷ [];
  metadata_json = [];
  updated_at = 1700000000000;
  vectors = some (0x3f800000 ∷ 0 ∷ []);
  vector_count = 1;
  vector_dimensions = 2;
}

abbrev removal : Operation
removal = record {
  kind = 2;
  id = some (b'd' ∷ b'2' ∷ []);
  url = [];
  title = [];
  body = [];
  metadata_json = [];
  updated_at = 0;
  vectors = none;
  vector_count = 0;
  vector_dimensions = 0;
}

abbrev update : List Operation
update = insertion ∷ removal ∷ []

abbrev all_calls_succeed : WalAnswers
all_calls_succeed = record {
  paths_fit = true;
  created = true;
  opened = true;
  space = 1000;
  flushed = true;
  closed = true;
  left = [];
  renamed = true;
  synced = true;
}

abbrev logged_file : Status × Option (List ℕ) → List ℕ
logged_file (status, none) = []
logged_file (status, some file) = file

update_file : List ℕ
unfolding update_wal_write wal_finish stored_bytes wal_encode wal_header write_bytes write_values
    write_texts write_operation write_operations operation_header put_u32_le put_u64_le
    crc32c_update
update_file = logged_file (update_wal_write all_calls_succeed 7 update)

update_written : update_wal_write all_calls_succeed 7 update ≡ (ok, some update_file)
unfolding update_file
update_written = refl

insertion-IsLogged : IsLogged insertion
insertion-IsLogged = record {
  kind = refl;
  named = (b'k' ∷ [], refl, omega arith, omega arith);
  url = omega arith;
  title = omega arith;
  body = omega arith;
  metadata = omega arith;
  updated = omega arith;
  count = omega arith;
  dimensions = omega arith;
  guard = refl;
  values =
      inr (
        0x3f800000 ∷ 0 ∷ [],
        refl,
        refl,
        omega arith,
        omega arith,
        (omega arith, (omega arith, tt)),
      );
}

removal-IsLogged : IsLogged removal
removal-IsLogged = record {
  kind = refl;
  named = (b'd' ∷ b'2' ∷ [], refl, omega arith, omega arith);
  url = omega arith;
  title = omega arith;
  body = omega arith;
  metadata = omega arith;
  updated = omega arith;
  count = omega arith;
  dimensions = omega arith;
  guard = refl;
  values = inl (refl, refl);
}

update-IsLogged : All IsLogged update
update-IsLogged = (insertion-IsLogged, (removal-IsLogged, tt))

abbrev loaded : UpdateWal
loaded = record { base_generation = 7; target_generation = 8; operations = update }

update_wal_write-update_wal_load_example :
    update_wal_load true true true (present update_file) ≡ done loaded
update_wal_write-update_wal_load_example =
    update_wal_write-update_wal_load all_calls_succeed 7 update update-IsLogged ok update_file
      (omega arith) update_written

update_wal_load-intact_example :
    (get_u32_le (drop 48 update_file) ≡ crc32c (drop 64 update_file))
    × (get_u64_le (drop 40 update_file) ≡ length (drop 64 update_file))
    × (loaded.target_generation ≡ loaded.base_generation + 1)
    × (length loaded.operations ≡ get_u64_le (drop 32 update_file))
    × (0 < length loaded.operations)
    × (length loaded.operations ≤ 10000)
    × All IsNamed loaded.operations
update_wal_load-intact_example =
    update_wal_load-intact true true true update_file loaded
      update_wal_write-update_wal_load_example

-- Flushing fails, and the temporary file has only the first bytes.
abbrev flush_fails : WalAnswers
flush_fails = record all_calls_succeed { flushed = false; left = b'Y' ∷ [] }

update_wal_write-Outcome_example :
    Outcome flush_fails 7 update (update_wal_write flush_fails 7 update)
update_wal_write-Outcome_example = update_wal_write-Outcome flush_fails 7 update

every_call : AllSucceed all_calls_succeed
every_call = record {
  paths_fit = refl;
  created = refl;
  opened = refl;
  flushed = refl;
  closed = refl;
  renamed = refl;
  synced = refl;
}

length-update : length (operations_bytes update) ≡ 158
unfolding operations_bytes operation_bytes operation_header value_bytes put_u32_le put_u64_le
length-update = refl

update_wal_write_succeeds_example :
    (file : List ℕ) × (update_wal_write all_calls_succeed 7 update ≡ (ok, some file))
    × (update_wal_load true true true (present file) ≡ done loaded)
update_wal_write_succeeds_example =
    update_wal_write_succeeds all_calls_succeed 7 update every_call update-IsLogged (omega arith)
      (omega arith) (omega arith) (omega (arith, length-update)) (omega (arith, length-update))
