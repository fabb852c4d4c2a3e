-- ===== src/Wal/Failures.antt =====
-- How writing the log fails.
use yappod.Prelude.{
  ℕ, ◌≡◌, ◌≢◌, refl, ap, Bool, true, false, not, ◌||◌, Option, none, some, List, [], ◌∷◌, arith,
  ltb, ◌==◌, if◌then◌else◌, length, ◌≤◌, ◌<◌, ◌⊎◌, inl, inr, ◌↔◌, ◌∙◌,
}
use yappod.Types.{
  Status, ok, io_error, invalid_argument, out_of_range, Result, done, fail, ◌>>◌, reject_if,
}
use yappod.Types.Binds.{bind-ne-fail_ok, Result-cases}
use yappod.Storage.Slots.{size_max}
use yappod.Wal.{
  wal_max_operations, Operation, WalWriter, WalAnswers, wal_encode, wal_finish, stored_bytes,
  write_bytes, write_values, write_texts, write_operation, write_operations, update_wal_write,
}

reject_if-ne-fail_ok :
    {A : Type 0} (b : Bool) (s : Status) (k : Result A)
    → s ≢ ok
    → k ≢ fail ok
    → (reject_if b s >> k) ≢ fail ok
reject_if-ne-fail_ok true s k hs hk e = hs (ground (arith, e))
reject_if-ne-fail_ok false s k hs hk e = hk e

module _ (space : ℕ) where
  write_bytes-ne-fail_ok : (w : WalWriter) (bytes : List ℕ) → write_bytes space w bytes ≢ fail ok
  unfolding write_bytes
  write_bytes-ne-fail_ok w bytes = ground arith

  write_values-ne-fail_ok :
      (values : List ℕ) (w : WalWriter) → write_values space w values ≢ fail ok
  unfolding write_values
  write_values-ne-fail_ok [] w = ground arith
  write_values-ne-fail_ok (bits ∷ more) w =
      bind-ne-fail_ok _ _ (write_bytes-ne-fail_ok w _) (λ w'. write_values-ne-fail_ok more w')

  write_texts-ne-fail_ok : (w : WalWriter) (o : Operation) → write_texts space w o ≢ fail ok
  unfolding write_texts
  write_texts-ne-fail_ok w o = bind-ne-fail_ok _ _ (write_bytes-ne-fail_ok _ _) (λ w1.
      bind-ne-fail_ok _ _ (write_bytes-ne-fail_ok _ _) (λ w2.
        bind-ne-fail_ok _ _ (write_bytes-ne-fail_ok _ _) (λ w3.
          bind-ne-fail_ok _ _ (write_bytes-ne-fail_ok _ _) (λ w4.
            bind-ne-fail_ok _ _ (write_bytes-ne-fail_ok _ _) (λ w5. write_bytes-ne-fail_ok _ _)))))

  write_operation-ne-fail_ok : (w : WalWriter) (o : Operation) → write_operation space w o ≢ fail ok
  unfolding write_operation
  write_operation-ne-fail_ok w o = reject_if-ne-fail_ok _ invalid_argument _ (ground arith) (
      reject_if-ne-fail_ok _ out_of_range _ (ground arith) (
        reject_if-ne-fail_ok _ invalid_argument _ (ground arith)
          (bind-ne-fail_ok _ _ (write_texts-ne-fail_ok w o) (λ w'. write_values-ne-fail_ok _ w'))))

  write_operations-ne-fail_ok :
      (operations : List Operation) (w : WalWriter) → write_operations space w operations ≢ fail ok
  unfolding write_operations
  write_operations-ne-fail_ok [] w = ground arith
  write_operations-ne-fail_ok (o ∷ more) w =
      bind-ne-fail_ok _ _ (write_operation-ne-fail_ok w o)
        (λ w'. write_operations-ne-fail_ok more w')

wal_encode-ne-fail_ok :
    (space base : ℕ) (operations : List Operation) → wal_encode space base operations ≢ fail ok
unfolding wal_encode
wal_encode-ne-fail_ok space base operations =
    reject_if-ne-fail_ok _ io_error _ (ground arith)
      (bind-ne-fail_ok _ _ (write_operations-ne-fail_ok _ operations _) (λ w. ground arith))

-- 1 to 10000 operations, and a base generation with a successor.
pub record InRange (base : ℕ) (operations : List Operation) : Type 0 where
  pub some_operation : 0 < length operations
  pub few : length operations ≤ 10000
  pub successor : base ≢ size_max

-- Every call in front of the writing has succeeded.
pub record IsOpened (a : WalAnswers) (base : ℕ) (operations : List Operation) : Type 0 where
  pub in_range : InRange base operations
  pub paths_fit : a.paths_fit ≡ true
  pub created : a.created ≡ true
  pub opened : a.opened ≡ true

-- The whole log is under the path: it was written, flushed, closed and renamed.
pub record IsInPlace (a : WalAnswers) (base : ℕ) (operations : List Operation) (file : List ℕ)
    : Type 0 where
  pub ready : IsOpened a base operations
  pub encoded : wal_encode a.space base operations ≡ done file
  pub flushed : a.flushed ≡ true
  pub closed : a.closed ≡ true
  pub renamed : a.renamed ≡ true

-- How a call ends, and for which answers: `none` stands for the old log, left as it was.
pub data Outcome (a : WalAnswers) (base : ℕ) (operations : List Operation)
    : Status × Option (List ℕ) → Type 0 where
  replaced :
      (file : List ℕ)
      → IsInPlace a base operations file
      → a.synced ≡ true
      → Outcome a base operations (ok, some file)
  unsynced :
      (file : List ℕ)
      → IsInPlace a base operations file
      → a.synced ≡ false
      → Outcome a base operations (io_error, some file)
  refused : ¬ InRange base operations → Outcome a base operations (invalid_argument, none)
  long_paths :
      InRange base operations → a.paths_fit ≡ false → Outcome a base operations (out_of_range, none)
  not_opened :
      InRange base operations
      → a.paths_fit ≡ true
      → (a.created ≡ false) ⊎ (a.opened ≡ false)
      → Outcome a base operations (io_error, none)
  not_written :
      (s : Status)
      → IsOpened a base operations
      → wal_encode a.space base operations ≡ fail s
      → s ≢ ok
      → Outcome a base operations (s, none)
  not_finished :
      (file : List ℕ)
      → IsOpened a base operations
      → wal_encode a.space base operations ≡ done file
      → (a.flushed ≡ false) ⊎ (a.closed ≡ false) ⊎ (a.renamed ≡ false)
      → Outcome a base operations (io_error, none)

InRange-iff :
    (base : ℕ) (operations : List Operation)
    → ((length operations == 0 || ltb wal_max_operations (length operations) || base == size_max)
        ≡ false)
      ↔ InRange base operations
InRange-iff base operations = (
  λ h. record {
    some_operation = ground (arith, h);
    few = ground (arith, h);
    successor = λ e. ground (arith, h, e);
  },
  λ v. ground (arith, v.some_operation, v.few, v.successor),
)

module _ (a : WalAnswers) (base : ℕ) (operations : List Operation) where
  Outcome-if :
      (b : Bool) (x y : Status × Option (List ℕ))
      → (b ≡ true → Outcome a base operations x)
      → (b ≡ false → Outcome a base operations y)
      → Outcome a base operations (if b then x else y)
  Outcome-if true x y hx hy = hx refl
  Outcome-if false x y hx hy = hy refl

  in_place :
      (file : List ℕ)
      → IsOpened a base operations
      → wal_encode a.space base operations ≡ done file
      → (not a.flushed || not a.closed || not a.renamed) ≡ false
      → IsInPlace a base operations (stored_bytes a file)
  unfolding stored_bytes
  in_place file ready encoded fine = record {
    ready = ready;
    encoded = ground (arith, encoded, fine);
    flushed = ground (arith, fine);
    closed = ground (arith, fine);
    renamed = ground (arith, fine);
  }

  finished_lem :
      (file : List ℕ)
      → IsOpened a base operations
      → wal_encode a.space base operations ≡ done file
      → Outcome a base operations (wal_finish a (done file))
  unfolding wal_finish
  finished_lem file ready encoded =
      Outcome-if (not a.flushed || not a.closed || not a.renamed) _ _
        (λ failed. not_finished file ready encoded (ground (arith, failed)))
        (λ fine.
          let there = in_place file ready encoded fine in
          Outcome-if a.synced _ _ (replaced _ there) (unsynced _ there))

  wal_finish-Outcome :
      IsOpened a base operations
      → Outcome a base operations (wal_finish a (wal_encode a.space base operations))
  wal_finish-Outcome ready = elim (Result-cases (wal_encode a.space base operations)) [
    | inl (file, e) ↦ rw e (finished_lem file ready e)
    | inr (s, e) ↦
        let bad : s ≢ ok =
          λ same. wal_encode-ne-fail_ok a.space base operations (e ∙ ap fail same) in
        unfold wal_finish in rw e (not_written s ready e bad)
  ]

  -- How writing the log ends: with success only when the arguments are in range, every call of the
  -- operating system has succeeded, and the whole log, written, flushed and closed, is the file that
  -- was renamed; with `io_error` and that file in place where only the directory could not be
  -- synchronized; and in every other case with an error that the failed call or the arguments account
  -- for, and the old log untouched.
  pub update_wal_write-Outcome : Outcome a base operations (update_wal_write a base operations)
  unfolding update_wal_write
  update_wal_write-Outcome =
      Outcome-if
        (length operations == 0 || ltb wal_max_operations (length operations) || base == size_max) _
        _ (λ bad. refused (λ v. ground (arith, bad, (InRange-iff base operations).1 v)))
        (λ good.
          let in_range = (InRange-iff base operations).0 good in
          Outcome-if (not a.paths_fit) _ _ (λ long. long_paths in_range (ground (arith, long)))
            (λ fit.
              Outcome-if (not a.created || not a.opened) _ _
                (λ failed. not_opened in_range (ground (arith, fit)) (ground (arith, failed)))
                (λ fine. wal_finish-Outcome (record {
                  in_range = in_range;
                  paths_fit = ground (arith, fit);
                  created = ground (arith, fine);
                  opened = ground (arith, fine);
                }))))
