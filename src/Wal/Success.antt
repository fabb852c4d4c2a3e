-- ===== src/Wal/Success.antt =====
-- Writing the log when every call of the operating system succeeds.
use yappod.Prelude.{
  ℕ, ◌+◌, ◌-◌, ◌^◌, ◌≤◌, ◌<◌, ◌≡◌, refl, ap, ◌∙◌, Bool, true, false, not, ◌&&◌, ◌||◌, none, some,
  List, [], ◌∷◌, ◌++◌, arith, ltb, ◌==◌, length, All, inl, inr, length-append, append-nil,
}
use yappod.Codec.Crc.{crc32c_update}
use yappod.Storage.Slots.{size_max}
use yappod.Types.{ok, Result, done, ◌>>=◌}
use yappod.Wal.{
  Operation, WalWriter, WalAnswers, id_text, valid_kind, vector_values, operation_header, wal_start,
  wal_header, wal_encode, wal_finish, stored_bytes, write_bytes, write_values, write_texts,
  write_operation, write_operations, update_wal_write,
}
use yappod.Wal.Loading.{update_wal_load, present}
use yappod.Wal.Reading.{value_bytes, IsLogged, operation_bytes}
use yappod.Wal.RoundTrip.{operations_bytes}
use yappod.Wal.Recovery.{update_wal_write-update_wal_load}
use yappod.Wal.Writing.{
  written, written-append, written_values, written_values_lem, text_bytes, operation_bytes_split,
}

module _ (space : ℕ) where
  -- A step that writes `bytes` wherever there is room for them.
  Runs : (WalWriter → Result WalWriter) → List ℕ → Type 0
  Runs f bytes =
      (w : WalWriter)
      → length w.output + length bytes ≤ space
      → w.payload_bytes + length bytes < 2 ^ 64
      → f w ≡ done (written w bytes)

  Runs-then :
      (f g : WalWriter → Result WalWriter) (xs ys : List ℕ)
      → Runs f xs
      → Runs g ys
      → Runs (λ w. f w >>= g) (xs ++ ys)
  unfolding Runs
  Runs-then f g xs ys hf hg w room small =
      let size = length-append xs ys in
      rw (hf w (omega arith) (omega arith)) (
        hg (written w xs) (unfold written in omega (arith, length-append w.output xs))
          (unfold written in omega arith)
        ∙ ap done (written-append w xs ys))

  Runs-none : Runs (λ w. done w) []
  unfolding Runs written
  Runs-none w room small =
      let nothing : w.payload_bytes + 0 ≡ w.payload_bytes = omega arith in
      unfold crc32c_update in rw (nothing, append-nil w.output) refl

  write_bytes-Runs : (bytes : List ℕ) → Runs (λ w. write_bytes space w bytes) bytes
  unfolding Runs write_bytes written
  write_bytes-Runs bytes w room small = ground arith

  write_values-Runs :
      (values : List ℕ) → Runs (λ w. write_values space w values) (value_bytes values)
  unfolding write_values value_bytes
  write_values-Runs [] = Runs-none
  write_values-Runs (bits ∷ more) =
      Runs-then _ (λ w. write_values space w more) _ (value_bytes more) (write_bytes-Runs _)
        (write_values-Runs more)

  write_texts-Runs : (o : Operation) → Runs (λ w. write_texts space w o) (text_bytes o)
  unfolding write_texts
  write_texts-Runs o = Runs-then _ _ (operation_header o) _ (write_bytes-Runs _) (
      Runs-then _ _ (id_text o) _ (write_bytes-Runs _) (
        Runs-then _ _ o.url _ (write_bytes-Runs _) (
          Runs-then _ _ o.title _ (write_bytes-Runs _)
            (Runs-then _ _ o.body _ (write_bytes-Runs _) (write_bytes-Runs _)))))

  write_body :
      (o : Operation)
      → Runs
          (λ w. write_texts space w o >>= λ w. write_values space w (written_values o))
          (text_bytes o ++ value_bytes (written_values o))
  write_body o =
      Runs-then _ _ (text_bytes o) (value_bytes (written_values o)) (write_texts-Runs o)
        (write_values-Runs (written_values o))

  module _ (o : Operation) (v : IsLogged o) where
    id_accepted : (elim o.id [ none ↦ true | some id ↦ not (valid_kind o.kind) ]) ≡ false
    id_accepted = let (id, e, _, _) = v.named in rw e (ground (arith, v.kind))

    values_accepted :
        (not (vector_values o == 0) && (elim o.vectors [ none ↦ true | some values ↦ false ]))
        ≡ false
    values_accepted = elim v.values [
      | inl (zero_values, no_vectors) ↦ rw zero_values refl
      | inr (vs, some_vectors, _, _, _, _) ↦
          rw some_vectors (and_false (not (vector_values o == 0)))
    ]
      where
        and_false : (b : Bool) → (b && false) ≡ false
        and_false b = ground arith

    write_operation-Runs : Runs (λ w. write_operation space w o) (operation_bytes o)
    unfolding write_operation Runs
    write_operation-Runs w room small =
        let run : Runs (λ w. write_texts space w o >>= λ w. write_values space w (written_values o))
            (operation_bytes o) =
          rw (← operation_bytes_split o v, ← written_values_lem o v) (write_body o) in
        rw (id_accepted, v.guard, values_accepted) (run w room small)

  write_operations-Runs :
      (operations : List Operation)
      → All IsLogged operations
      → Runs (λ w. write_operations space w operations) (operations_bytes operations)
  unfolding write_operations operations_bytes
  write_operations-Runs [] v = Runs-none
  write_operations-Runs (o ∷ more) v =
      Runs-then _ (λ w. write_operations space w more) (operation_bytes o) _
        (write_operation-Runs o v.0) (write_operations-Runs more v.1)

-- Every call of the operating system succeeds.
pub record AllSucceed (a : WalAnswers) : Type 0 where
  pub paths_fit : a.paths_fit ≡ true
  pub created : a.created ≡ true
  pub opened : a.opened ≡ true
  pub flushed : a.flushed ≡ true
  pub closed : a.closed ≡ true
  pub renamed : a.renamed ≡ true
  pub synced : a.synced ≡ true

module _ (a : WalAnswers) (base : ℕ) (operations : List Operation) (succeed : AllSucceed a)
    (logged : All IsLogged operations) where
  encoded :
      64 + length (operations_bytes operations) ≤ a.space
      → length (operations_bytes operations) < 2 ^ 64
      → (file : List ℕ) × (wal_encode a.space base operations ≡ done file)
  unfolding wal_encode Runs
  encoded room small =
      let run =
        write_operations-Runs (a.space - 64) operations logged wal_start (omega arith)
          (omega arith) in
      let enough : ltb a.space 64 ≡ false = not_less a.space (omega arith) in
      (
        wal_header base (length operations) (written wal_start (operations_bytes operations))
            ++ (written wal_start (operations_bytes operations)).output,
        rw (enough, run) refl,
      )
    where
      not_less : (n : ℕ) → 64 ≤ n → ltb n 64 ≡ false
      not_less n h = ground arith

  -- If every call succeeds, the disk has room for the log and the operations can be logged, from 1 to
  -- 10000 of them, then writing reports success, and loading the file that was written gives the
  -- operations back.
  pub update_wal_write_succeeds :
      base < 2 ^ 64 - 1
      → 0 < length operations
      → length operations ≤ 10000
      → 64 + length (operations_bytes operations) ≤ a.space
      → length (operations_bytes operations) < 2 ^ 64
      → (file : List ℕ) × (update_wal_write a base operations ≡ (ok, some file))
        × (update_wal_load true true true (present file)
            ≡ done (record {
              base_generation = base;
              target_generation = base + 1;
              operations = operations;
            }))
  unfolding update_wal_write wal_finish stored_bytes
  update_wal_write_succeeds below some_operation few room small =
      let (file, is_file) = encoded room small in
      let accepted : (length operations == 0 || ltb 10000 (length operations) || base == size_max)
          ≡ false =
        in_range (length operations) base some_operation few below in
      let wrote : update_wal_write a base operations ≡ (ok, some file) =
        rw
          (
            accepted, succeed.paths_fit, succeed.created, succeed.opened, is_file, succeed.flushed,
            succeed.closed, succeed.renamed, succeed.synced,
          )
          refl in
      (
        file,
        wrote,
        update_wal_write-update_wal_load a base operations logged ok file (omega arith) wrote,
      )
    where
      in_range :
          (n b : ℕ)
          → 0 < n
          → n ≤ 10000
          → b < 2 ^ 64 - 1
          → (n == 0 || ltb 10000 n || b == size_max) ≡ false
      in_range n b h k l = ground arith
