-- ===== src/Wal/Consuming.antt =====
-- What the parsers of the log take from the file: bytes that are counted and added to the checksum.
use yappod.Prelude.{
  ℕ, zero, suc, ◌+◌, ◌-◌, ◌/◌, ◌≡◌, refl, Bool, true, false, not, none, List, [], ◌++◌, arith, ltb,
  ◌==◌, if◌then◌else◌, length, take, inl, inr, length-append, length-take, append_assoc,
  take-append-drop,
}
use yappod.Codec.Crc.{crc32c_update, crc32c_update-append}
use yappod.Storage.Slots.{size_max}
use yappod.Types.{Status, Result, done, ◌>>=◌, ◌>>◌, reject_if}
use yappod.Types.Binds.{Result-cases}
use yappod.Wal.Loading.{
  WalReader, read_exact, read_text, read_values, read_vectors, read_operation, read_operations,
}

-- From `r` to `r'`, the bytes `c` were read, counted and added to the checksum.
abbrev pub Advances : WalReader → WalReader → Type 0
Advances r r' =
    (c : List ℕ) × (r.input ≡ c ++ r'.input)
    × (r'.crc ≡ crc32c_update r.crc c)
    × (r.remaining ≡ length c + r'.remaining)

Advances-refl : (r : WalReader) → Advances r r
Advances-refl r = ([], refl, unfold crc32c_update in refl, omega arith)

Advances-trans : (r s t : WalReader) → Advances r s → Advances s t → Advances r t
Advances-trans r s t (c, input, crc, count) (d, input', crc', count') = (
  c ++ d,
  rw (input, input', append_assoc c d t.input) refl,
  rw (crc', crc, crc32c_update-append r.crc c d) refl,
  omega (arith, length-append c d),
)

-- A parser that leaves the reader behind what it has read.
unfoldable pub Consumes : {A : Type 0} → (WalReader → Result (A × WalReader)) → Type 0
Consumes {A} p = (r : WalReader) (a : A) (r' : WalReader) → p r ≡ done (a, r') → Advances r r'

module _ {A : Type 0} where
  Consumes-then :
      {B : Type 0} (p : WalReader → Result (A × WalReader))
      (f : A × WalReader → Result (B × WalReader))
      → Consumes p
      → ((a : A) → Consumes (λ r. f (a, r)))
      → Consumes (λ r. p r >>= f)
  unfolding Consumes
  Consumes-then p f hp hf r b r' e = elim (Result-cases (p r)) [
    | inl ((a, m), first) ↦
        Advances-trans r m r' (hp r a m first) (hf a m b r' (ground (arith, e, first)))
    | inr (s, failed) ↦ absurd (ground (arith, e, failed))
  ]

  Consumes-if :
      (b : Bool) (s : Status) (p : WalReader → Result (A × WalReader))
      → Consumes p
      → Consumes (λ r. reject_if b s >> p r)
  unfolding Consumes
  Consumes-if true s p h r a r' e = absurd (ground (arith, e))
  Consumes-if false s p h r a r' e = h r a r' e

  Consumes-branch :
      (b : Bool) (p q : WalReader → Result (A × WalReader))
      → Consumes p
      → Consumes q
      → Consumes (λ r. if b then p r else q r)
  Consumes-branch true p q hp hq = hp
  Consumes-branch false p q hp hq = hq

Consumes-done : {A : Type 0} (a : A) → Consumes (λ r. done (a, r))
unfolding Consumes
Consumes-done a r b r' e = let same : r ≡ r' = ground (arith, e) in rw (← same) (Advances-refl r)

read_exact-Consumes : (n : ℕ) → Consumes (λ r. read_exact r n)
unfolding Consumes read_exact
read_exact-Consumes n r a r' e = (
  take n r.input,
  ground (arith, e, take-append-drop n r.input),
  ground (arith, e),
  ground (arith, e, length-take n r.input),
)

module _ (granted : Bool) where
  read_text-Consumes : (n : ℕ) → Consumes (λ r. read_text granted r n)
  unfolding read_text
  read_text-Consumes n =
      Consumes-if (ltb (size_max - 1) n) _ _ (Consumes-if (not granted) _ _ (read_exact-Consumes n))

  read_values-Consumes : (rounds : ℕ) → Consumes (read_values granted rounds)
  unfolding read_values
  read_values-Consumes zero = Consumes-done []
  read_values-Consumes (suc rounds) =
      Consumes-then _ _ (read_exact-Consumes 4)
        (λ encoded. Consumes-then _ _ (read_values-Consumes rounds) (λ more. Consumes-done _))

  read_vectors-Consumes : (values : ℕ) → Consumes (read_vectors granted values)
  unfolding read_vectors
  read_vectors-Consumes values =
      Consumes-branch (values == 0) (λ r. done (none, r)) _ (Consumes-done none)
        (Consumes-if (ltb (size_max / 4) values) _ _ (
          Consumes-if (not granted) _ _
            (Consumes-then _ _ (read_values-Consumes values) (λ vectors. Consumes-done _))))

  read_operation-Consumes : Consumes (read_operation granted)
  unfolding read_operation
  read_operation-Consumes = Consumes-then _ _ (read_exact-Consumes 72) (λ head. Consumes-if _ _ _ (
      Consumes-then _ _ (read_text-Consumes _) (λ id.
        Consumes-then _ _ (read_text-Consumes _) (λ url.
          Consumes-then _ _ (read_text-Consumes _) (λ title.
            Consumes-then _ _ (read_text-Consumes _) (λ body.
              Consumes-then _ _ (read_text-Consumes _) (λ metadata_json.
                Consumes-then _ _ (read_vectors-Consumes _)
                  (λ vectors. Consumes-if _ _ _ (Consumes-done _)))))))))

  pub read_operations-Consumes : (rounds : ℕ) → Consumes (read_operations granted rounds)
  unfolding read_operations
  read_operations-Consumes zero = Consumes-done []
  read_operations-Consumes (suc rounds) =
      Consumes-then _ _ read_operation-Consumes
        (λ o. Consumes-then _ _ (read_operations-Consumes rounds) (λ more. Consumes-done _))
