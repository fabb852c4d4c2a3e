-- ===== src/Wal/Writing.antt =====
-- What a run of writes that succeeds leaves in the file.
use yappod.Prelude.{
  ℕ, ◌+◌, ◌^◌, ◌<◌, ◌≡◌, refl, sym, ap, ◌∙◌, none, some, List, [], ◌∷◌, ◌++◌, arith, length, take,
  All, inl, inr, length-append, append-nil, append_assoc, take_all,
}
use yappod.Codec.Crc.{crc32c_update, crc32c_update-append}
use yappod.Types.{Result, done, ◌>>=◌}
use yappod.Types.Binds.{Result-cases}
use yappod.Wal.{
  Operation, WalWriter, id_text, vector_values, operation_header, write_bytes, write_values,
  write_texts, write_operation, write_operations,
}
use yappod.Wal.Reading.{value_bytes, IsLogged, given_values, operation_bytes}
use yappod.Wal.RoundTrip.{operations_bytes}

unfoldable pub written : WalWriter → List ℕ → WalWriter
written w bytes = record {
  output = w.output ++ bytes;
  crc = crc32c_update w.crc bytes;
  payload_bytes = w.payload_bytes + length bytes;
}

pub written-append :
    (w : WalWriter) (xs ys : List ℕ) → written (written w xs) ys ≡ written w (xs ++ ys)
unfolding written
written-append w xs ys =
    let size = length-append xs ys in
    let count : w.payload_bytes + length xs + length ys ≡ w.payload_bytes + length (xs ++ ys) =
      omega arith in
    rw (append_assoc w.output xs ys, crc32c_update-append w.crc xs ys, count) refl

-- A step that, when it succeeds, has written `bytes`.
Appends : (WalWriter → Result WalWriter) → List ℕ → Type 0
Appends f bytes =
    (w w' : WalWriter)
    → w.payload_bytes < 2 ^ 64
    → f w ≡ done w'
    → (w' ≡ written w bytes) × (w'.payload_bytes < 2 ^ 64)

Appends-then :
    (f g : WalWriter → Result WalWriter) (xs ys : List ℕ)
    → Appends f xs
    → Appends g ys
    → Appends (λ w. f w >>= g) (xs ++ ys)
unfolding Appends
Appends-then f g xs ys hf hg w w' small e = elim (Result-cases (f w)) [
  | inl (m, first) ↦
      let (is_m, below) = hf w m small first in
      let (is_w', fits) = hg m w' below (ground (arith, e, first)) in
      (is_w' ∙ ap (λ v. written v ys) is_m ∙ written-append w xs ys, fits)
  | inr (s, failed) ↦ absurd (ground (arith, e, failed))
]

Appends-none : Appends (λ w. done w) []
unfolding Appends written
Appends-none w w' small e =
    let same : w ≡ w' = cc in
    let nothing : w.payload_bytes + 0 ≡ w.payload_bytes = omega arith in
    (unfold crc32c_update in rw (nothing, append-nil w.output) (sym same), rw (← same) small)

-- The part of the vectors that is written.
abbrev pub written_values : Operation → List ℕ
written_values o = elim o.vectors [ none ↦ List.[] | some values ↦ take (vector_values o) values ]

abbrev pub text_bytes : Operation → List ℕ
text_bytes o =
    operation_header o ++ (id_text o ++ (o.url ++ (o.title ++ (o.body ++ o.metadata_json))))

module _ (o : Operation) (v : IsLogged o) where
  pub written_values_lem : written_values o ≡ given_values o
  written_values_lem = elim v.values [
    | inl (zero_values, no_vectors) ↦ rw no_vectors
    | inr (vs, some_vectors, counted, _, _, _) ↦
        rw some_vectors (take_all (vector_values o) vs (omega arith))
  ]

  pub operation_bytes_split : text_bytes o ++ value_bytes (given_values o) ≡ operation_bytes o
  unfolding operation_bytes
  operation_bytes_split = simp append_assoc

module _ (space : ℕ) where
  write_bytes-Appends : (bytes : List ℕ) → Appends (λ w. write_bytes space w bytes) bytes
  unfolding Appends write_bytes written
  write_bytes-Appends bytes w w' small e = ground arith

  write_values-Appends :
      (values : List ℕ) → Appends (λ w. write_values space w values) (value_bytes values)
  unfolding write_values value_bytes
  write_values-Appends [] = Appends-none
  write_values-Appends (bits ∷ more) =
      Appends-then _ (λ w. write_values space w more) _ (value_bytes more) (write_bytes-Appends _)
        (write_values-Appends more)

  write_texts-Appends : (o : Operation) → Appends (λ w. write_texts space w o) (text_bytes o)
  unfolding write_texts
  write_texts-Appends o = Appends-then _ _ (operation_header o) _ (write_bytes-Appends _) (
      Appends-then _ _ (id_text o) _ (write_bytes-Appends _) (
        Appends-then _ _ o.url _ (write_bytes-Appends _) (
          Appends-then _ _ o.title _ (write_bytes-Appends _)
            (Appends-then _ _ o.body _ (write_bytes-Appends _) (write_bytes-Appends _)))))

  write_operation-Appends :
      (o : Operation) → IsLogged o → Appends (λ w. write_operation space w o) (operation_bytes o)
  unfolding write_operation
  write_operation-Appends o v =
      rw (← operation_bytes_split o v, ← written_values_lem o v)
        (unfold Appends in
          λ w w' small e.
            let body : (write_texts space w o >>= λ w. write_values space w (written_values o))
                ≡ done w' =
              ground arith in
            unfold Appends in write_body w w' small body)
    where
      write_body :
          Appends
            (λ w. write_texts space w o >>= λ w. write_values space w (written_values o))
            (text_bytes o ++ value_bytes (written_values o))
      write_body =
          Appends-then _ _ (text_bytes o) (value_bytes (written_values o)) (write_texts-Appends o)
            (write_values-Appends (written_values o))

  write_operations-Appends :
      (operations : List Operation)
      → All IsLogged operations
      → Appends (λ w. write_operations space w operations) (operations_bytes operations)
  unfolding write_operations operations_bytes
  write_operations-Appends [] v = Appends-none
  write_operations-Appends (o ∷ more) v =
      Appends-then _ (λ w. write_operations space w more) (operation_bytes o) _
        (write_operation-Appends o v.0) (write_operations-Appends more v.1)

  pub write_operations-written :
      (operations : List Operation) (w w' : WalWriter)
      → All IsLogged operations
      → w.payload_bytes < 2 ^ 64
      → write_operations space w operations ≡ done w'
      → (w' ≡ written w (operations_bytes operations))
        × (w.payload_bytes + length (operations_bytes operations) < 2 ^ 64)
  unfolding Appends written
  write_operations-written operations w w' v small e =
      let (same, below) = write_operations-Appends operations v w w' small e in
      (same, rw same at below)
