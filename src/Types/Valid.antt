-- ===== src/Types/Valid.antt =====
-- What an accepted document or passage satisfies.
use yappod.Prelude.{ℕ, ◌≤◌, ◌<◌, ◌≡◌, ◌↔◌, refl, true, false, arith}
use yappod.Prelude.Bytes.{contains}
use yappod.Prelude.Integers.{ℤ, pos, negsuc, ltb_int}
use yappod.Types.{
  ok, BytesView, DocumentView, PassageView, is_null, content, bytes_view_validate,
  document_validate, passage_validate, max_identifier_bytes, max_url_bytes, max_metadata_bytes,
  max_chunk_chars,
}

-- A text field: within its limit, not NULL unless it is empty, and without a NUL byte.
pub record IsText (v : BytesView) (max_bytes : ℕ) : Type 0 where
  pub fits : v.len ≤ max_bytes
  pub present : 0 < v.len → is_null v ≡ false
  pub clean : contains 0 (content v) ≡ false

pub record IsRequiredText (v : BytesView) (max_bytes : ℕ) : Type 0 where
  pub text : IsText v max_bytes
  pub not_empty : 0 < v.len

optional-IsText :
    (v : BytesView) (max_bytes : ℕ)
    → (bytes_view_validate v max_bytes false ≡ ok) ↔ IsText v max_bytes
unfolding bytes_view_validate
optional-IsText v max_bytes = (
  λ h. record { fits = ground arith; present = λ p. ground arith; clean = ground arith },
  λ t. ground (arith, t.fits, t.present, t.clean),
)

required_text :
    (v : BytesView) (max_bytes : ℕ)
    → (bytes_view_validate v max_bytes true ≡ ok) ↔ IsRequiredText v max_bytes
unfolding bytes_view_validate
required_text v max_bytes = (
  λ h. record {
    text = record { fits = ground arith; present = λ p. ground arith; clean = ground arith };
    not_empty = ground arith;
  },
  λ t. ground (arith, t.text.fits, t.text.present t.not_empty, t.text.clean, t.not_empty),
)

-- An integer that stands for a natural number.
abbrev pub IsNonNegative : ℤ → Type 0
IsNonNegative z = (n : ℕ) × (z ≡ pos n)

IsNonNegative-iff : (z : ℤ) → (ltb_int z (pos 0) ≡ false) ↔ IsNonNegative z
unfolding ltb_int
IsNonNegative-iff (pos n) = (λ h. (n, refl), λ v. ground arith)
IsNonNegative-iff (negsuc n) = (λ h. absurd (ground (arith, h)), λ v. absurd (ground (arith, v.1)))

pub record IsDocument (d : DocumentView) : Type 0 where
  pub id : IsRequiredText d.id max_identifier_bytes
  pub url : IsText d.url max_url_bytes
  pub title : IsText d.title max_identifier_bytes
  pub body : IsText d.body max_metadata_bytes
  pub metadata_json : IsText d.metadata_json max_metadata_bytes
  pub updated : IsNonNegative d.updated_at_unix_ms

pub record IsPassage (p : PassageView) : Type 0 where
  pub id : IsRequiredText p.id max_identifier_bytes
  pub parent : IsRequiredText p.parent_document_id max_identifier_bytes
  pub text : IsRequiredText p.text max_metadata_bytes
  pub ordered : p.start_char ≤ p.end_char
  pub fits : p.end_char ≤ max_chunk_chars

-- `document_validate` accepts exactly the documents whose id is present, whose fields are within
-- their limits and free of NUL bytes, and whose time stamp is not negative.
pub document_validate_iff : (d : DocumentView) → (document_validate d ≡ ok) ↔ IsDocument d
unfolding document_validate
document_validate_iff d = (
  λ h. record {
    id = (required_text d.id max_identifier_bytes).0 (ground arith);
    url = (optional-IsText d.url max_url_bytes).0 (ground arith);
    title = (optional-IsText d.title max_identifier_bytes).0 (ground arith);
    body = (optional-IsText d.body max_metadata_bytes).0 (ground arith);
    metadata_json = (optional-IsText d.metadata_json max_metadata_bytes).0 (ground arith);
    updated = (IsNonNegative-iff d.updated_at_unix_ms).0 (ground arith);
  },
  λ v.
      rw
        (
          (required_text d.id max_identifier_bytes).1 v.id,
          (optional-IsText d.url max_url_bytes).1 v.url,
          (optional-IsText d.title max_identifier_bytes).1 v.title,
          (optional-IsText d.body max_metadata_bytes).1 v.body,
          (optional-IsText d.metadata_json max_metadata_bytes).1 v.metadata_json,
          (IsNonNegative-iff d.updated_at_unix_ms).1 v.updated,
        )
        refl,
)

-- `passage_validate` accepts exactly the passages whose three texts are present, within their
-- limits and free of NUL bytes, and whose character range is ordered and within the limit.
pub passage_validate_iff : (p : PassageView) → (passage_validate p ≡ ok) ↔ IsPassage p
unfolding passage_validate
passage_validate_iff p = (
  λ h. record {
    id = (required_text p.id max_identifier_bytes).0 (ground arith);
    parent = (required_text p.parent_document_id max_identifier_bytes).0 (ground arith);
    text = (required_text p.text max_metadata_bytes).0 (ground arith);
    ordered = ground arith;
    fits = ground arith;
  },
  λ v.
      rw
        (
          (required_text p.id max_identifier_bytes).1 v.id,
          (required_text p.parent_document_id max_identifier_bytes).1 v.parent,
          (required_text p.text max_metadata_bytes).1 v.text,
        )
        (ground (arith, v.ordered, v.fits)),
)
