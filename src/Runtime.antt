-- ===== src/Runtime.antt =====
-- src/config/yappo_runtime_policy_v2.c without the TOML reader and the sockets, and
-- src/config/yappo_compaction_policy_v2.c: the limits of a daemon, the limiter of requests in flight,
-- the authorization of writes, and the compaction policy.
pub mod Admission
pub mod Config
pub mod Authorization
use yappod.Prelude.{
  ℕ, zero, suc, ◌+◌, ◌-◌, ◌*◌, ◌%◌, ◌^◌, Bool, true, false, not, ◌&&◌, ◌||◌, Option, none, some,
  List, [], ◌∷◌, ltb, leb, ◌==◌, if◌then◌else◌, length, get_or, take, drop, bit_or, bit_xor,
}
use yappod.Prelude.Bytes.{bytes_eq}
use yappod.Types.{
  Status, ok, invalid_argument, invalid_format, out_of_range, conflict, io_error, Result, done,
  fail, ◌>>=◌, reject_if,
}

pub record RuntimePolicy : Type 0 where
  pub max_inflight : ℕ
  pub max_inflight_bytes : ℕ
  pub request_timeout_ms : ℕ
  pub ingest_max_body_bytes : ℕ
  pub ingest_timeout_ms : ℕ
  pub write_token : List ℕ

abbrev pub runtime_policy_init : RuntimePolicy
runtime_policy_init = record {
  max_inflight = 16;
  max_inflight_bytes = 4 * 1024 * 1024;
  request_timeout_ms = 5000;
  ingest_max_body_bytes = 64 * 1024 * 1024;
  ingest_timeout_ms = 60000;
  write_token = [];
}

pub record Limiter : Type 0 where
  pub inflight : ℕ
  pub inflight_bytes : ℕ
  pub max_inflight : ℕ
  pub max_inflight_bytes : ℕ
  pub initialized : Bool

-- `memset(limiter, 0, sizeof(*limiter))`
abbrev pub closed_limiter : Limiter
closed_limiter = record {
  inflight = 0;
  inflight_bytes = 0;
  max_inflight = 0;
  max_inflight_bytes = 0;
  initialized = false;
}

-- `mutex_ready` is the answer of `pthread_mutex_init`.
unfoldable pub limiter_init : Bool → Limiter → RuntimePolicy → Status × Limiter
limiter_init mutex_ready l policy =
    if policy.max_inflight == 0 || policy.max_inflight_bytes == 0 || l.initialized
    then (invalid_argument, l)
    else if not mutex_ready
    then (io_error, closed_limiter)
    else (
      ok,
      record {
        inflight = 0;
        inflight_bytes = 0;
        max_inflight = policy.max_inflight;
        max_inflight_bytes = policy.max_inflight_bytes;
        initialized = true;
      },
    )

unfoldable pub limiter_close : Limiter → Limiter
limiter_close l = if not l.initialized then l else closed_limiter

-- The subtraction is on size_t: it wraps.
unfoldable pub limiter_acquire : Limiter → ℕ → Status × Limiter
limiter_acquire l request_bytes =
    if not l.initialized || request_bytes == 0
    then (invalid_argument, l)
    else if leb l.max_inflight l.inflight
        || ltb ((2 ^ 64 + l.max_inflight_bytes - l.inflight_bytes) % 2 ^ 64) request_bytes
    then (out_of_range, l)
    else (
      ok,
      record l {
        inflight = (l.inflight + 1) % 2 ^ 64;
        inflight_bytes = (l.inflight_bytes + request_bytes) % 2 ^ 64;
      },
    )

unfoldable pub limiter_release : Limiter → ℕ → Limiter
limiter_release l request_bytes =
    if not l.initialized
    then l
    else if ltb 0 l.inflight && leb request_bytes l.inflight_bytes
    then record l { inflight = l.inflight - 1; inflight_bytes = l.inflight_bytes - request_bytes }
    else l

-- `for (i = 0U; i < maximum; i++)`, on the rounds that are left.
unfoldable pub differences : ℕ → ℕ → List ℕ → List ℕ → ℕ → ℕ
differences zero i left right difference = difference
differences (suc rounds) i left right difference =
    let a = if ltb i (length left) then get_or left i 0 else 0 in
    let b = if ltb i (length right) then get_or right i 0 else 0 in
    differences rounds (i + 1) left right (bit_or difference (bit_xor a b))

unfoldable pub constant_time_equal : List ℕ → List ℕ → Bool
constant_time_equal left right =
    let maximum = if ltb (length right) (length left) then length left else length right in
    differences maximum 0 left right (bit_xor (length left) (length right) % 2 ^ 32) == 0

abbrev pub bearer : List ℕ
bearer = b'B' ∷ b'e' ∷ b'a' ∷ b'r' ∷ b'e' ∷ b'r' ∷ b' ' ∷ []

-- `authorization` is the header's C string, `none` for NULL.
unfoldable pub authorize_write : RuntimePolicy → Option (List ℕ) → Status
authorize_write policy authorization =
    if length policy.write_token == 0 then ok else elim authorization [
      | none ↦ conflict
      | some text ↦
          if not (bytes_eq (take 7 text) bearer)
          then conflict
          else if constant_time_equal (drop 7 text) policy.write_token
          then ok
          else conflict
    ]

pub record CompactionPolicy : Type 0 where
  pub enabled : ℕ
  pub check_interval_ms : ℕ
  pub small_segment_bytes : ℕ
  pub min_small_segments : ℕ

abbrev pub compaction_policy_init : CompactionPolicy
compaction_policy_init = record {
  enabled = 1;
  check_interval_ms = 30000;
  small_segment_bytes = 64 * 1024 * 1024;
  min_small_segments = 4;
}

-- `enabled` is an int; the model leaves out negative ones, which the source refuses as well.
unfoldable pub compaction_policy_validate : CompactionPolicy → Status
compaction_policy_validate p =
    if not (p.enabled == 0) && not (p.enabled == 1)
      || ltb p.check_interval_ms 1000
      || ltb 3600000 p.check_interval_ms
      || p.small_segment_bytes == 0
      || ltb (256 * 1024 * 1024) p.small_segment_bytes
      || ltb p.min_small_segments 2
      || ltb 8 p.min_small_segments
    then out_of_range
    else ok
