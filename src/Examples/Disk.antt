-- ===== src/Examples/Disk.antt =====
-- A disk in memory, on which every call succeeds, as far as it is handed bytes.
use yappod.Prelude.{
  ℕ, ◌≡◌, ◌⊎◌, inl, inr, refl, Bool, true, false, Option, none, some, List, [], ◌∷◌, arith, ltb,
  length, All, Bool-cases,
}
use yappod.Prelude.Bytes.{IsByte}
use yappod.ManifestFile.Publish.{Posix, Memory}
use yappod.ManifestFile.Publish.Outcome.{IsPosix}

-- The file under the path and the `.tmp` file, both made of bytes.
pub record Disk : Type 0 where
  pub file : Option (List ℕ)
  pub temporary : List ℕ
  pub file_bytes : (xs : List ℕ) → file ≡ some xs → All IsByte xs
  pub temporary_bytes : All IsByte temporary

abbrev are_bytes : (xs : List ℕ) → All IsByte xs ⊎ Unit {0}
are_bytes [] = inl tt
are_bytes (x ∷ xs) = elim (Bool-cases (ltb x 256)) [
  | inr no_byte ↦ inr tt
  | inl byte ↦ elim (are_bytes xs) [
    | inl rest ↦ inl (ground (arith, byte), rest)
    | inr no_byte ↦ inr tt
  ]
]

abbrev written : Disk → (xs : List ℕ) → All IsByte xs ⊎ Unit {0} → Bool × Disk
written d xs (inl bytes) = (true, record d { temporary = xs; temporary_bytes = bytes })
written d xs (inr tt) = (false, d)

abbrev renamed : Disk → Disk
renamed d = record {
  file = some d.temporary;
  temporary = d.temporary;
  file_bytes =
      λ xs e. let same : d.temporary ≡ xs = ground (arith, e) in rw (← same) (d.temporary_bytes);
  temporary_bytes = d.temporary_bytes;
}

abbrev pub memory_disk : Posix Disk
memory_disk = record {
  file_size = λ d. elim d.file [ none ↦ none | some xs ↦ some (length xs) ];
  read_file = λ d. d.file;
  is_missing = λ d. elim d.file [ none ↦ true | some xs ↦ false ];
  create_temporary = λ d. (true, d);
  write_temporary = λ d xs. written d xs (are_bytes xs);
  close_temporary = λ d. (true, d);
  rename_temporary = λ d. (true, renamed d);
  sync_directory = λ d path. (true, d);
  unlink_temporary = λ d. d;
  lock = λ d. (true, d);
  unlock = λ d. (true, d);
}

written-file :
    (d : Disk) (xs : List ℕ) (v : All IsByte xs ⊎ Unit {0}) → (written d xs v).1.file ≡ d.file
written-file d xs (inl bytes) = refl
written-file d xs (inr tt) = refl

written-temporary :
    (d : Disk) (xs : List ℕ) (v : All IsByte xs ⊎ Unit {0})
    → (written d xs v).0 ≡ true
    → (written d xs v).1.temporary ≡ xs
written-temporary d xs (inl bytes) e = refl
written-temporary d xs (inr tt) e = absurd (ground (arith, e))

is_missing-none :
    (o : Option (List ℕ)) → (elim o [ none ↦ true | some xs ↦ false ]) ≡ true → o ≡ none
is_missing-none none e = refl
is_missing-none (some xs) e = absurd (ground (arith, e))

pub disk_laws : IsPosix memory_disk
disk_laws = record {
  content = λ d. d.file;
  pending = λ d. d.temporary;
  bytes = λ d. d.file_bytes;
  read_ok = λ d xs e. e;
  missing = λ d. is_missing-none d.file;
  created = λ d. refl;
  kept = λ d xs. written-file d xs (are_bytes xs);
  written = λ d xs. written-temporary d xs (are_bytes xs);
  closed = λ d. refl;
  closed_pending = λ d. refl;
  renamed = λ d e. refl;
  not_renamed = λ d e. absurd (ground (arith, e));
  synced = λ d path. refl;
  unlinked = λ d. refl;
  locked = λ d. refl;
  unlocked = λ d. refl;
}

abbrev pub all_granted : Memory
all_granted = record {
  load_data = true;
  load_tables = true;
  validation = true;
  file_data = true;
  temporary = true;
  parent_copy = true;
  lock_path = true;
}

abbrev pub empty_disk : Disk
empty_disk = record {
  file = none;
  temporary = [];
  file_bytes = λ xs e. absurd (ground (arith, e));
  temporary_bytes = tt;
}
