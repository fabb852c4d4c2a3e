-- ===== src/Wal/RoundTrip.antt =====
-- Reading one operation back, then all of them.
use yappod.Prelude.{
  ℕ, ◌-◌, ◌^◌, ◌<◌, ◌≡◌, refl, sym, ap, true, false, some, List, [], ◌∷◌, ◌++◌, arith, ◌==◌, length,
  get_or, All,
}
use yappod.Codec.Crc.{crc32c_update}
use yappod.Types.{done}
use yappod.Wal.{Operation, id_text, vector_values, operation_header}
use yappod.Wal.Loading.{read_exact, read_text, read_vectors, read_operation, read_operations}
use yappod.Wal.Reading.{
  reader, read_exact_back, read_text_back, value_bytes, Reads, Reads-then, Reads-last, IsLogged,
  given_values, operation_bytes, length-operation_header, head_fields, head_lengths, vectors_back,
}

module _ (o : Operation) (v : IsLogged o) where
  text_back :
      (bytes : List ℕ)
      → length bytes < 2 ^ 64 - 1
      → Reads (λ r. read_text true r (length bytes)) bytes bytes
  unfolding Reads
  text_back bytes small rest crc k = read_text_back bytes rest crc k small

  id_back : Reads (λ r. read_text true r (length (id_text o))) (id_text o) (id_text o)
  id_back = let (id, e, _, small) = v.named in rw e (text_back id small)

  named_guard : (get_or (id_text o) 0 0 == 0) ≡ false
  named_guard = let (id, e, n, _) = v.named in rw e (ground (arith, n))

  same_id : some (id_text o) ≡ o.id
  same_id = let (id, e, _, _) = v.named in rw e refl

  head_back : Reads (λ r. read_exact r 72) (operation_header o) (operation_header o)
  unfolding Reads
  head_back rest crc k =
      read_exact_back (operation_header o) rest crc k 72 (sym (length-operation_header o))

  pub read_operation_back : Reads (read_operation true) (operation_bytes o) o
  unfolding read_operation operation_bytes
  read_operation_back =
      let (kind, updated, count, dimensions) = head_fields o v in
      let (l0, l1, l2, l3, l4) = head_lengths o v in
      Reads-then (λ r. read_exact r 72) _ _ _ _ o head_back
        (rw (kind, updated, count, dimensions, l0, l1, l2, l3, l4, v.kind, v.guard)
          (Reads-then _ _ (id_text o) _ (id_text o) o id_back (
            Reads-then _ _ o.url _ o.url o (text_back o.url v.url) (
              Reads-then _ _ o.title _ o.title o (text_back o.title v.title) (
                Reads-then _ _ o.body _ o.body o (text_back o.body v.body) (
                  Reads-then _ _ o.metadata_json _ o.metadata_json o
                    (text_back o.metadata_json v.metadata)
                    (Reads-last (read_vectors true (vector_values o)) _
                      (value_bytes (given_values o)) o.vectors o (vectors_back o v)
                      (λ r. rw (named_guard, same_id) refl))))))))

unfoldable pub operations_bytes : List Operation → List ℕ
operations_bytes [] = []
operations_bytes (o ∷ more) = operation_bytes o ++ operations_bytes more

pub read_operations_back :
    (operations : List Operation)
    → All IsLogged operations
    → Reads (read_operations true (length operations)) (operations_bytes operations) operations
unfolding read_operations operations_bytes
read_operations_back [] v =
    unfold crc32c_update Reads in
    λ rest crc k. ap (λ (n : ℕ). done ([], reader rest crc n)) (omega arith)
read_operations_back (o ∷ more) v =
    Reads-then (read_operation true) _ (operation_bytes o) (operations_bytes more) o (o ∷ more)
      (read_operation_back o v.0)
      (Reads-last (read_operations true (length more)) _ (operations_bytes more) more (o ∷ more)
        (read_operations_back more v.1) (λ r. refl))
