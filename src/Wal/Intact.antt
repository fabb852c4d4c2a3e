-- ===== src/Wal/Intact.antt =====
-- What a log that was loaded says of the file it came from.
use yappod.Prelude.{
  ℕ, zero, suc, ◌+◌, ◌*◌, ◌/◌, ◌%◌, ◌^◌, ◌≤◌, ◌<◌, ◌≡◌, ◌≢◌, refl, sym, ap, ◌∙◌, Bool, true, false,
  not, ◌&&◌, ◌||◌, List, [], ◌∷◌, ◌++◌, arith, ltb, ◌==◌, length, drop, get_or, All, inl, inr,
  append-nil, not-false, or_false, ==-true,
}
use yappod.Codec.{get_u32_le, get_u64_le}
use yappod.Codec.Crc.{crc32c, not_u32}
use yappod.Storage.Slots.{size_max}
use yappod.Types.{Status, Result, done, fail, ◌>>=◌, ◌>>◌, reject_if}
use yappod.Types.Binds.{Result-cases, bind-done, reject_if-done}
use yappod.Wal.{Operation, id_text, valid_kind}
use yappod.Wal.Loading.{
  UpdateWal, WalReader, present, update_wal_load, wal_header_bad, wal_parse, read_exact, read_text,
  read_vectors, read_operation, read_operations,
}
use yappod.Wal.Reading.{reader}
use yappod.Wal.Consuming.{Consumes, read_operations-Consumes}

length_zero : (xs : List ℕ) → length xs ≡ 0 → xs ≡ []
length_zero [] h = refl
length_zero (x ∷ xs) h = absurd (omega arith)

nonzero : (n : ℕ) → (n == 0) ≡ false → 0 < n
nonzero n h = ground arith

not_below : (a b : ℕ) → ltb a b ≡ false → b ≤ a
not_below a b h = ground arith

-- A parser whose results have a property.
Yields : {A : Type 0} → (A → Type 0) → (WalReader → Result (A × WalReader)) → Type 0
Yields {A} P p = (r : WalReader) (a : A) (r' : WalReader) → p r ≡ done (a, r') → P a

module _ {B : Type 0} (P : B → Type 0) where
  Yields-then :
      {A : Type 0} (p : WalReader → Result (A × WalReader))
      (f : A × WalReader → Result (B × WalReader))
      → ((a : A) → Yields P (λ r. f (a, r)))
      → Yields P (λ r. p r >>= f)
  unfolding Yields
  Yields-then p f hf r b r' e = let ((a, m), _, after) = bind-done (p r) f e in hf a m b r' after

  Yields-if :
      (b : Bool) (s : Status) (p : WalReader → Result (B × WalReader))
      → (b ≡ false → Yields P p)
      → Yields P (λ r. reject_if b s >> p r)
  unfolding Yields
  Yields-if b s p h r a r' e =
      let (passed, after) = reject_if-done b s (p r) e in h passed r a r' after

  Yields-done : (b : B) → P b → Yields P (λ r. done (b, r))
  unfolding Yields
  Yields-done b h r a r' e = let same : b ≡ a = ground (arith, e) in rw (← same) h

-- What an operation of a loaded log has.
abbrev pub IsNamed : Operation → Type 0
IsNamed o = (valid_kind o.kind ≡ true) × (get_or (id_text o) 0 0 ≢ 0)

module _ (granted : Bool) where
  read_operation-IsNamed : Yields IsNamed (read_operation granted)
  unfolding read_operation
  read_operation-IsNamed =
      Yields-then _ (λ r. read_exact r 72) _
        (λ head.
          Yields-if _
            (not (valid_kind (get_u32_le head))
              || not (get_u64_le (drop 16 head) == 0)
                && ltb (size_max / get_u64_le (drop 16 head)) (get_u64_le (drop 24 head)))
            _ _
            (λ kind.
              Yields-then _ (λ r. read_text granted r (get_u64_le (drop 32 head))) _
                (λ id.
                  Yields-then _ (λ r. read_text granted r (get_u64_le (drop 40 head))) _
                    (λ url.
                      Yields-then _ (λ r. read_text granted r (get_u64_le (drop 48 head))) _
                        (λ title.
                          Yields-then _ (λ r. read_text granted r (get_u64_le (drop 56 head))) _
                            (λ body.
                              Yields-then _ (λ r. read_text granted r (get_u64_le (drop 64 head))) _
                                (λ metadata_json.
                                  Yields-then _
                                    (read_vectors granted (
                                      get_u64_le (drop 16 head)
                                      * get_u64_le (drop 24 head)
                                      % 2 ^ 64))
                                    _
                                    (λ vectors. Yields-if _ (get_or id 0 0 == 0) _ _ (λ named.
                                      let valid : valid_kind (get_u32_le head) ≡ true =
                                        not-false _ (or_false _ _ kind).0 in
                                      let not_empty : get_or id 0 0 ≢ 0 = ground (arith, named) in
                                      Yields-done _ _ (valid, not_empty))))))))))

  read_operations-IsNamed :
      (rounds : ℕ) (r : WalReader) (a : List Operation) (r' : WalReader)
      → read_operations granted rounds r ≡ done (a, r')
      → (length a ≡ rounds) × All IsNamed a
  unfolding read_operations Yields
  read_operations-IsNamed zero r a r' e =
      let same : [] ≡ a = ground (arith, e) in rw (← same) (omega arith, tt)
  read_operations-IsNamed (suc rounds) r a r' e = elim (Result-cases (read_operation granted r)) [
    | inl ((o, m), first) ↦ elim (Result-cases (read_operations granted rounds m)) [
      | inl ((more, m'), second) ↦
          let same : o ∷ more ≡ a = ground (arith, e, first, second) in
          let (count, rest) = read_operations-IsNamed rounds m more m' second in
          rw (← same) (omega (arith, count), (read_operation-IsNamed r o m first, rest))
      | inr (s, failed) ↦ absurd (ground (arith, e, first, failed))
    ]
    | inr (s, failed) ↦ absurd (ground (arith, e, failed))
  ]

  parse_intact :
      (file : List ℕ) (wal : UpdateWal)
      → wal_parse granted file ≡ done wal
      → (get_u32_le (drop 48 file) ≡ crc32c (drop 64 file))
        × (get_u64_le (drop 40 file) ≡ length (drop 64 file))
        × (wal.target_generation ≡ wal.base_generation + 1)
        × (length wal.operations ≡ get_u64_le (drop 32 file))
        × (0 < length wal.operations)
        × (length wal.operations ≤ 10000)
        × All IsNamed wal.operations
  unfolding wal_parse wal_header_bad Consumes crc32c
  parse_intact file wal e =
      let (short, e1) = reject_if-done (ltb (length file) 64) _ _ e in
      let (header, e2) = reject_if-done (wal_header_bad granted file (length file)) _ _ e1 in
      let (target, e3) =
        reject_if-done
          (get_u64_le (drop 16 file) == size_max
            || not (get_u64_le (drop 24 file) == get_u64_le (drop 16 file) + 1))
          _ _ e2 in
      let (_, e4) = reject_if-done (not granted) _ _ e3 in
      let ((operations, r), parsed, e5) =
        bind-done
          (read_operations granted (get_u64_le (drop 32 file))
            (reader (drop 64 file) 0xffffffff (get_u64_le (drop 40 file))))
          _ e4 in
      let (end, e6) =
        reject_if-done
          (not (r.remaining == 0)
            || not (not_u32 r.crc == get_u32_le (drop 48 file))
            || not (length r.input == 0))
          _ _ e5 in
      let result : record {
        base_generation = get_u64_le (drop 16 file);
        target_generation = get_u64_le (drop 24 file);
        operations = operations;
      }
          ≡ wal =
        ap (λ (res : Result UpdateWal). elim res [ done w ↦ w | fail _ ↦ wal ]) e6 in
      let (count, named) = read_operations-IsNamed _ _ operations r parsed in
      let (c, input, crc, remaining) = read_operations-Consumes granted _ _ operations r parsed in
      let (emptied, at_end) = or_false _ _ end in
      let all_counted : r.remaining ≡ 0 = ==-true _ _ (not-false _ (or_false _ _ emptied).0) in
      let stored : not_u32 r.crc ≡ get_u32_le (drop 48 file) =
        ==-true _ _ (not-false _ (or_false _ _ emptied).1) in
      let drained : length r.input ≡ 0 = ==-true _ _ (not-false _ at_end) in
      let empty : r.input ≡ [] = length_zero r.input drained in
      let whole : drop 64 file ≡ c =
        input ∙ ap (λ (rest : List ℕ). c ++ rest) empty ∙ append-nil c in
      let (few, size) = or_false _ _ header in
      let (fewer, many) = or_false _ _ few in
      let some_operation : (get_u64_le (drop 32 file) == 0) ≡ false = (or_false _ _ fewer).1 in
      rw (← result) (
        rw whole (sym stored ∙ ap not_u32 crc),
        rw whole (omega arith),
        ==-true _ _ (not-false _ (or_false _ _ target).1),
        count,
        rw count (nonzero _ some_operation),
        rw count (not_below _ _ many),
        named,
      )

-- A log that loads has the stored checksum over exactly the bytes behind its header, the stored size,
-- a target generation one above its base, the stored number of operations, 1 to 10000, and only
-- operations of a known kind with an id that is not empty.
pub update_wal_load-intact :
    (path_fits granted closed : Bool) (file : List ℕ) (wal : UpdateWal)
    → update_wal_load path_fits granted closed (present file) ≡ done wal
    → (get_u32_le (drop 48 file) ≡ crc32c (drop 64 file))
      × (get_u64_le (drop 40 file) ≡ length (drop 64 file))
      × (wal.target_generation ≡ wal.base_generation + 1)
      × (length wal.operations ≡ get_u64_le (drop 32 file))
      × (0 < length wal.operations)
      × (length wal.operations ≤ 10000)
      × All IsNamed wal.operations
unfolding update_wal_load
update_wal_load-intact false granted closed file wal e = absurd (ground (arith, e))
update_wal_load-intact true granted closed file wal e =
    let (loaded, parsed, e1) = bind-done (wal_parse granted file) _ e in
    let (_, e2) = reject_if-done (not closed) _ _ e1 in
    let same : loaded ≡ wal =
      ap (λ (res : Result UpdateWal). elim res [ done w ↦ w | fail _ ↦ wal ]) e2 in
    rw (← same) (parse_intact granted file loaded parsed)
