-- ===== src/Wal/Reading.antt =====
-- Reading one part of the log, with any bytes behind it.
use yappod.Prelude.{
  ℕ, ◌+◌, ◌-◌, ◌/◌, ◌^◌, ◌≤◌, ◌<◌, ◌≡◌, ◌≢◌, ◌⊎◌, inl, inr, refl, sym, ap, ◌∙◌, true, false, not,
  ◌&&◌, none, some, List, [], ◌∷◌, ◌++◌, arith, ltb, ◌==◌, length, drop, get_or, All, take-append,
  drop-append, length-append, append-nil, append_assoc,
}
use yappod.Codec.{put_u32_le, put_u64_le, get_u32_le, get_u64_le}
use yappod.Codec.Crc.{crc32c_update, crc32c_update-append}
use yappod.Codec.Words.{get_u32-put_u32, get_u64-put_u64, length-put_u32}
use yappod.Types.{Result, done, ◌>>=◌}
use yappod.Storage.Slots.{size_max}
use yappod.Wal.{Operation, id_text, vector_values, valid_kind, operation_header}
use yappod.Wal.Loading.{WalReader, read_exact, read_text, read_values, read_vectors}

abbrev pub reader : List ℕ → ℕ → ℕ → WalReader
reader input crc remaining = record { input = input; crc = crc; remaining = remaining }

module _ (bytes rest : List ℕ) (crc k : ℕ) where
  pub read_exact_back :
      (n : ℕ)
      → n ≡ length bytes
      → read_exact (reader (bytes ++ rest) crc (length bytes + k)) n
        ≡ done (bytes, reader rest (crc32c_update crc bytes) k)
  unfolding read_exact
  read_exact_back n e =
      let left : length bytes + k - n ≡ k = omega arith in
      ground (
        arith,
        length-append bytes rest,
        take-append bytes rest n e,
        drop-append bytes rest n e,
        left,
      )

  pub read_text_back :
      length bytes < 2 ^ 64 - 1
      → read_text true (reader (bytes ++ rest) crc (length bytes + k)) (length bytes)
        ≡ done (bytes, reader rest (crc32c_update crc bytes) k)
  unfolding read_text
  read_text_back small = ground (arith, read_exact_back (length bytes) refl)

-- The bytes of the values.
unfoldable pub value_bytes : List ℕ → List ℕ
value_bytes [] = []
value_bytes (bits ∷ more) = put_u32_le bits ++ value_bytes more

abbrev pub IsWord : ℕ → Type 0
IsWord bits = bits < 2 ^ 32

four : (bits : ℕ) → length (put_u32_le bits) ≡ 4
four bits = length-put_u32 bits

pub read_values_back :
    (values rest : List ℕ) (crc k : ℕ)
    → All IsWord values
    → read_values true
        (length values)
        (reader (value_bytes values ++ rest) crc (length (value_bytes values) + k))
      ≡ done (values, reader rest (crc32c_update crc (value_bytes values)) k)
unfolding read_values value_bytes
read_values_back [] rest crc k v =
    unfold crc32c_update in ap (λ (n : ℕ). done ([], reader rest crc n)) (omega arith)
read_values_back (bits ∷ more) rest crc k v =
    let tail = value_bytes more in
    let size = length-append (put_u32_le bits) tail in
    let count : length (put_u32_le bits ++ tail) + k
        ≡ length (put_u32_le bits) + (length tail + k) =
      omega arith in
    let head =
      read_exact_back (put_u32_le bits) (tail ++ rest) crc (length tail + k) 4 (sym (four bits)) in
    let back : get_u32_le (put_u32_le bits) ≡ bits =
      ap get_u32_le (sym (append-nil (put_u32_le bits))) ∙ get_u32-put_u32 bits [] v.0 in
    let again = read_values_back more rest (crc32c_update crc (put_u32_le bits)) k v.1 in
    rw
      (
        count,
        append_assoc (put_u32_le bits) tail rest,
        head,
        again,
        back,
        crc32c_update-append crc (put_u32_le bits) tail,
      )
      refl

-- A parser reads `a` from `bytes`, whatever follows them.
unfoldable pub Reads : {A : Type 0} → (WalReader → Result (A × WalReader)) → List ℕ → A → Type 0
Reads p bytes a =
    (rest : List ℕ) (crc k : ℕ)
    → p (reader (bytes ++ rest) crc (length bytes + k))
      ≡ done (a, reader rest (crc32c_update crc bytes) k)

pub Reads-then :
    {A B : Type 0} (p : WalReader → Result (A × WalReader))
    (f : A × WalReader → Result (B × WalReader)) (bytes more : List ℕ) (a : A) (b : B)
    → Reads p bytes a
    → Reads (λ r. f (a, r)) more b
    → Reads (λ r. p r >>= f) (bytes ++ more) b
unfolding Reads
Reads-then p f bytes more a b h k rest crc left =
    let size = length-append bytes more in
    let count : length (bytes ++ more) + left ≡ length bytes + (length more + left) = omega arith in
    rw
      (
        count,
        append_assoc bytes more rest,
        h (more ++ rest) crc (length more + left),
        crc32c_update-append crc bytes more,
      )
      (k rest (crc32c_update crc bytes) left)

pub Reads-last :
    {A B : Type 0} (p : WalReader → Result (A × WalReader))
    (f : A × WalReader → Result (B × WalReader)) (bytes : List ℕ) (a : A) (b : B)
    → Reads p bytes a
    → ((r : WalReader) → f (a, r) ≡ done (b, r))
    → Reads (λ r. p r >>= f) bytes b
unfolding Reads
Reads-last p f bytes a b h k rest crc left =
    rw (h rest crc left) (k (reader rest (crc32c_update crc bytes) left))

-- An operation that can be logged and read back: its fields are within their C types, the id is not
-- the empty string, and the vectors are as many words as the two counts say.
pub record IsLogged (o : Operation) : Type 0 where
  pub kind : valid_kind o.kind ≡ true
  pub named : (id : List ℕ) × (o.id ≡ some id) × (get_or id 0 0 ≢ 0) × (length id < 2 ^ 64 - 1)
  pub url : length o.url < 2 ^ 64 - 1
  pub title : length o.title < 2 ^ 64 - 1
  pub body : length o.body < 2 ^ 64 - 1
  pub metadata : length o.metadata_json < 2 ^ 64 - 1
  pub updated : o.updated_at < 2 ^ 64
  pub count : o.vector_count < 2 ^ 64
  pub dimensions : o.vector_dimensions < 2 ^ 64
  pub guard :
      (not (o.vector_count == 0) && ltb (size_max / o.vector_count) o.vector_dimensions) ≡ false
  pub values :
      ((vector_values o ≡ 0) × (o.vectors ≡ none))
      ⊎ ((vs : List ℕ) × (o.vectors ≡ some vs)
          × (length vs ≡ vector_values o)
          × (0 < length vs)
          × (length vs ≤ size_max / 4)
          × All IsWord vs)

abbrev pub given_values : Operation → List ℕ
given_values o = elim o.vectors [ none ↦ List.[] | some vs ↦ vs ]

unfoldable pub operation_bytes : Operation → List ℕ
operation_bytes o =
    operation_header o
    ++ (id_text o
        ++ (o.url ++ (o.title ++ (o.body ++ (o.metadata_json ++ value_bytes (given_values o))))))

pub length-operation_header : (o : Operation) → length (operation_header o) ≡ 72
unfolding operation_header put_u32_le put_u64_le
length-operation_header o = refl

module _ (o : Operation) (v : IsLogged o) where
  abbrev head : List ℕ
  head = operation_header o

  id_small : length (id_text o) < 2 ^ 64
  id_small = let (id, e, _, small) = v.named in rw e (omega arith)

  pub head_fields :
      (get_u32_le head ≡ o.kind)
      × (get_u64_le (drop 8 head) ≡ o.updated_at)
      × (get_u64_le (drop 16 head) ≡ o.vector_count)
      × (get_u64_le (drop 24 head) ≡ o.vector_dimensions)
  unfolding operation_header put_u32_le put_u64_le
  head_fields = (
    get_u32-put_u32 o.kind _ (ground (arith, v.kind)),
    get_u64-put_u64 o.updated_at _ v.updated,
    get_u64-put_u64 o.vector_count _ v.count,
    get_u64-put_u64 o.vector_dimensions _ v.dimensions,
  )

  pub head_lengths :
      (get_u64_le (drop 32 head) ≡ length (id_text o))
      × (get_u64_le (drop 40 head) ≡ length o.url)
      × (get_u64_le (drop 48 head) ≡ length o.title)
      × (get_u64_le (drop 56 head) ≡ length o.body)
      × (get_u64_le (drop 64 head) ≡ length o.metadata_json)
  unfolding operation_header put_u32_le put_u64_le
  head_lengths = (
    get_u64-put_u64 (length (id_text o)) _ id_small,
    get_u64-put_u64 (length o.url) _ (omega (arith, v.url)),
    get_u64-put_u64 (length o.title) _ (omega (arith, v.title)),
    get_u64-put_u64 (length o.body) _ (omega (arith, v.body)),
    ap get_u64_le (sym (append-nil (put_u64_le (length o.metadata_json))))
        ∙ get_u64-put_u64 (length o.metadata_json) [] (omega (arith, v.metadata)),
  )

  pub vectors_back :
      Reads (read_vectors true (vector_values o)) (value_bytes (given_values o)) o.vectors
  unfolding read_vectors Reads
  vectors_back rest crc k = elim v.values [
    | inl (zero_values, no_vectors) ↦
        rw (no_vectors, zero_values)
          (unfold value_bytes crc32c_update in
            ap (λ (n : ℕ). done (none, reader rest crc n)) (omega arith))
    | inr (vs, some_vectors, counted, some_value, few, words) ↦
        rw (some_vectors, ← counted)
          (ground (arith, some_value, few, read_values_back vs rest crc k words))
  ]
