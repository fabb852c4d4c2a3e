-- ===== src/Types.antt =====
-- src/common/yappo_types_v2.h and .c: the status codes, and the views that documents and passages
-- are checked through.
pub mod Valid
pub mod Binds
pub mod Views
use yappod.Prelude.{
  ℕ, ◌*◌, Bool, true, false, ◌&&◌, ◌||◌, Option, none, some, List, take, ltb, ◌==◌, if◌then◌else◌,
}
use yappod.Prelude.Bytes.{contains}
use yappod.Prelude.Integers.{ℤ, pos, ltb_int}
use Prim.Native.String.{String}

-- `YAP_V2_STATUS`
pub data Status : Type 0 where
  ok invalid_argument invalid_format out_of_range duplicate allocation_failed : Status
  io_error checksum_mismatch conflict not_found segment_capacity_exceeded : Status

-- What a function that returns a status and writes an output gives: the output, or the status.
pub data Result {ℓ} (A : Type ℓ) : Type ℓ where
  done : A → Result A
  fail : Status → Result A

infixl 5 ◌>>=◌ ◌>>◌
abbrev pub ◌>>=◌ {ℓ κ} : {A : Type ℓ} {B : Type κ} → Result A → (A → Result B) → Result B
done a >>= f = f a
fail s >>= f = fail s

abbrev pub ◌>>◌ {ℓ} : {B : Type ℓ} → Result (Unit {0}) → Result B → Result B
m >> k = m >>= λ _. k

-- `if (bad) return s;`
abbrev pub reject_if : Bool → Status → Result (Unit {0})
reject_if true s = fail s
reject_if false s = done tt

-- `if (status != YAP_V2_OK) return status;`
abbrev pub check : Status → Result (Unit {0})
check ok = done tt
check s = fail s

abbrev pub status_of {ℓ} : {A : Type ℓ} → Result A → Status
status_of (done a) = ok
status_of (fail s) = s

abbrev pub is_ok : Status → Bool
is_ok ok = true
is_ok _ = false

pub status_string : Status → String
status_string ok = "ok"
status_string invalid_argument = "invalid argument"
status_string invalid_format = "invalid format"
status_string out_of_range = "out of range"
status_string duplicate = "duplicate"
status_string allocation_failed = "allocation failed"
status_string io_error = "I/O error"
status_string checksum_mismatch = "checksum mismatch"
status_string conflict = "conflict"
status_string not_found = "not found"
status_string segment_capacity_exceeded = "segment capacity exceeded"

abbrev pub format_version : ℕ
format_version = 2

abbrev pub max_identifier_bytes : ℕ
max_identifier_bytes = 255

abbrev pub max_url_bytes : ℕ
max_url_bytes = 8 * 1024

abbrev pub max_metadata_bytes : ℕ
max_metadata_bytes = 1024 * 1024

abbrev pub max_chunk_chars : ℕ
max_chunk_chars = 1024 * 1024

-- `YAP_V2_BYTES_VIEW`; `bytes` is `none` for a NULL `data`.
pub record BytesView : Type 0 where
  pub bytes : Option (List ℕ)
  pub len : ℕ

abbrev pub is_null : BytesView → Bool
is_null v = elim v.bytes [ none ↦ true | some xs ↦ false ]

-- The bytes that `data[0 .. len)` names.
abbrev pub content : BytesView → List ℕ
content v = elim v.bytes [ none ↦ List.[] | some xs ↦ take v.len xs ]

-- `YAP_V2_DOCUMENT_VIEW`; the int64_t is an integer.
pub record DocumentView : Type 0 where
  pub id : BytesView
  pub url : BytesView
  pub title : BytesView
  pub body : BytesView
  pub metadata_json : BytesView
  pub updated_at_unix_ms : ℤ

pub record PassageView : Type 0 where
  pub id : BytesView
  pub parent_document_id : BytesView
  pub text : BytesView
  pub ordinal : ℕ
  pub start_char : ℕ
  pub end_char : ℕ

unfoldable pub bytes_view_validate : BytesView → ℕ → Bool → Status
bytes_view_validate value max_bytes required =
    if required && (is_null value || value.len == 0)
    then invalid_format
    else if ltb max_bytes value.len || (ltb 0 value.len && is_null value)
    then out_of_range
    else if contains 0 (content value)
    then invalid_format
    else ok

pub document_validate : DocumentView → Status
document_validate d = status_of (do
  check (bytes_view_validate d.id max_identifier_bytes true)
  check (bytes_view_validate d.url max_url_bytes false)
  check (bytes_view_validate d.title max_identifier_bytes false)
  check (bytes_view_validate d.body max_metadata_bytes false)
  check (bytes_view_validate d.metadata_json max_metadata_bytes false)
  reject_if (ltb_int d.updated_at_unix_ms (pos 0)) out_of_range)

pub passage_validate : PassageView → Status
passage_validate p = status_of (do
  check (bytes_view_validate p.id max_identifier_bytes true)
  check (bytes_view_validate p.parent_document_id max_identifier_bytes true)
  check (bytes_view_validate p.text max_metadata_bytes true)
  reject_if
      (ltb p.end_char p.start_char
        || ltb max_chunk_chars p.start_char
        || ltb max_chunk_chars p.end_char)
      out_of_range)
