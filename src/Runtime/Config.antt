-- ===== src/Runtime/Config.antt =====
-- `read_size` and `YAP_V2_runtime_policy_load_config` of src/config/yappo_runtime_policy_v2.c. What
-- `fopen` and the TOML parser answer is an argument; the policy is handed back only with `YAP_V2_OK`.
use yappod.Prelude.{
  ℕ, ◌*◌, ◌≤◌, ◌<◌, ◌≡◌, ◌⊎◌, inl, inr, refl, Bool, false, ◌||◌, List, [], ◌∷◌, arith, ltb, leb,
  ◌==◌, if◌then◌else◌, length,
}
use yappod.Types.{invalid_format, io_error, Result, done, fail, ◌>>=◌}
use yappod.Types.Binds.{Result-cases}
use yappod.Storage.Slots.{size_max}
use yappod.Runtime.{RuntimePolicy, runtime_policy_init}

-- `toml_int_in` and `toml_key_exists` on one key; an int64 that is not positive stands by itself.
pub data IntDatum : Type 0 where
  no_key not_an_int not_positive : IntDatum
  positive : ℕ → IntDatum

-- `toml_string_in` and `toml_key_exists`.
pub data StringDatum : Type 0 where
  no_string_key not_a_string : StringDatum
  text : List ℕ → StringDatum

pub record DaemonTable : Type 0 where
  pub max_inflight : IntDatum
  pub max_inflight_bytes : IntDatum
  pub request_timeout_ms : IntDatum
  pub ingest_max_body_bytes : IntDatum
  pub ingest_timeout_ms : IntDatum
  pub write_token : StringDatum

pub data ConfigFile : Type 0 where
  no_path unreadable malformed no_daemon : ConfigFile
  daemon : DaemonTable → ConfigFile

unfoldable pub read_size : IntDatum → ℕ → ℕ → Result ℕ
read_size no_key maximum old = done old
read_size not_an_int maximum old = fail invalid_format
read_size not_positive maximum old = fail invalid_format
read_size (positive n) maximum old =
    if ltb maximum n || ltb size_max n then fail invalid_format else done n

-- A byte that a token may not contain.
unfoldable pub bad_token_bytes : List ℕ → Bool
bad_token_bytes [] = false
bad_token_bytes (c ∷ rest) = leb c 32 || c == 127 || bad_token_bytes rest

unfoldable pub read_token : StringDatum → Result (List ℕ)
read_token no_string_key = done []
read_token not_a_string = fail invalid_format
read_token (text token) =
    if ltb (length token) 16 || ltb 255 (length token) || bad_token_bytes token
    then fail invalid_format
    else done token

unfoldable pub read_daemon : DaemonTable → Result RuntimePolicy
read_daemon table = do
  max_inflight ← read_size table.max_inflight 1024 runtime_policy_init.max_inflight
  max_inflight_bytes ←
      read_size table.max_inflight_bytes (1024 * 1024 * 1024) runtime_policy_init.max_inflight_bytes
  request_timeout_ms ←
      read_size table.request_timeout_ms 60000 runtime_policy_init.request_timeout_ms
  ingest_max_body_bytes ←
      read_size table.ingest_max_body_bytes (256 * 1024 * 1024)
        runtime_policy_init.ingest_max_body_bytes
  ingest_timeout_ms ← read_size table.ingest_timeout_ms 600000 runtime_policy_init.ingest_timeout_ms
  write_token ← read_token table.write_token
  done (record {
    max_inflight = max_inflight;
    max_inflight_bytes = max_inflight_bytes;
    request_timeout_ms = request_timeout_ms;
    ingest_max_body_bytes = ingest_max_body_bytes;
    ingest_timeout_ms = ingest_timeout_ms;
    write_token = write_token;
  })

unfoldable pub policy_load_config : ConfigFile → Result RuntimePolicy
policy_load_config no_path = done runtime_policy_init
policy_load_config unreadable = fail io_error
policy_load_config malformed = fail invalid_format
policy_load_config no_daemon = done runtime_policy_init
policy_load_config (daemon table) = read_daemon table

-- A policy within the limits, whose token is empty or has 16 to 255 bytes, none of them white space
-- or a control byte.
pub record IsPolicy (p : RuntimePolicy) : Type 0 where
  pub requests : (0 < p.max_inflight) × (p.max_inflight ≤ 1024)
  pub bytes : (0 < p.max_inflight_bytes) × (p.max_inflight_bytes ≤ 1024 * 1024 * 1024)
  pub timeout : (0 < p.request_timeout_ms) × (p.request_timeout_ms ≤ 60000)
  pub body : (0 < p.ingest_max_body_bytes) × (p.ingest_max_body_bytes ≤ 256 * 1024 * 1024)
  pub ingest : (0 < p.ingest_timeout_ms) × (p.ingest_timeout_ms ≤ 600000)
  pub token :
      (p.write_token ≡ [])
      ⊎ ((16 ≤ length p.write_token)
          × (length p.write_token ≤ 255)
          × (bad_token_bytes p.write_token ≡ false))

-- A datum as the TOML parser gives it: what it calls positive is.
abbrev pub IsDatum : IntDatum → Type 0
IsDatum no_key = Unit {0}
IsDatum not_an_int = Unit {0}
IsDatum not_positive = Unit {0}
IsDatum (positive n) = 0 < n

abbrev pub IsConfig : ConfigFile → Type 0
IsConfig no_path = Unit {0}
IsConfig unreadable = Unit {0}
IsConfig malformed = Unit {0}
IsConfig no_daemon = Unit {0}
IsConfig (daemon t) =
    IsDatum t.max_inflight
    × IsDatum t.max_inflight_bytes
    × IsDatum t.request_timeout_ms
    × IsDatum t.ingest_max_body_bytes
    × IsDatum t.ingest_timeout_ms

read_size-bounds :
    (d : IntDatum) (maximum old n : ℕ)
    → IsDatum d
    → 0 < old
    → old ≤ maximum
    → read_size d maximum old ≡ done n
    → (0 < n) × (n ≤ maximum)
unfolding read_size
read_size-bounds no_key maximum old n v h k e =
    let s : old ≡ n = ground (arith, e) in (omega arith, omega arith)
read_size-bounds not_an_int maximum old n v h k e = absurd (ground (arith, e))
read_size-bounds not_positive maximum old n v h k e = absurd (ground (arith, e))
read_size-bounds (positive i) maximum old n v h k e = (ground (arith, e, v), ground (arith, e))

token_lem :
    (d : StringDatum) (token : List ℕ)
    → read_token d ≡ done token
    → (token ≡ []) ⊎ ((16 ≤ length token) × (length token ≤ 255) × (bad_token_bytes token ≡ false))
unfolding read_token
token_lem no_string_key token e = inl (ground (arith, e))
token_lem not_a_string token e = absurd (ground (arith, e))
token_lem (text given) token e =
    let same : given ≡ token = ground (arith, e) in
    inr (rw (← same) (ground (arith, e), ground (arith, e), ground (arith, e)))

done_inj : {a b : RuntimePolicy} → done a ≡ done b → a ≡ b
done_inj e = cc e

default-IsPolicy : IsPolicy runtime_policy_init
default-IsPolicy = record {
  requests = (omega arith, omega arith);
  bytes = (omega arith, omega arith);
  timeout = (omega arith, omega arith);
  body = (omega arith, omega arith);
  ingest = (omega arith, omega arith);
  token = inl refl;
}

read_daemon-IsPolicy :
    (t : DaemonTable) (p : RuntimePolicy)
    → IsConfig (daemon t)
    → read_daemon t ≡ done p
    → IsPolicy p
unfolding read_daemon
read_daemon-IsPolicy t p v e = elim (Result-cases (read_size t.max_inflight 1024 16)) [
  | inr (status, stopped) ↦ ground (arith, e, stopped)
  | inl (a, read_a) ↦
      elim (Result-cases (read_size t.max_inflight_bytes (1024 * 1024 * 1024) (4 * 1024 * 1024))) [
        | inr (status, stopped) ↦ ground (arith, e, read_a, stopped)
        | inl (b, read_b) ↦ elim (Result-cases (read_size t.request_timeout_ms 60000 5000)) [
          | inr (status, stopped) ↦ ground (arith, e, read_a, read_b, stopped)
          | inl (c, read_c) ↦
              elim (Result-cases
                (read_size t.ingest_max_body_bytes (256 * 1024 * 1024) (64 * 1024 * 1024))) [
                  | inr (status, stopped) ↦ ground (arith, e, read_a, read_b, read_c, stopped)
                  | inl (d, read_d) ↦
                      elim (Result-cases (read_size t.ingest_timeout_ms 600000 60000)) [
                        | inr (status, stopped) ↦
                            ground (arith, e, read_a, read_b, read_c, read_d, stopped)
                        | inl (f, read_f) ↦ elim (Result-cases (read_token t.write_token)) [
                          | inr (status, stopped) ↦
                              ground (arith, e, read_a, read_b, read_c, read_d, read_f, stopped)
                          | inl (token, read_g) ↦
                              let same : record {
                                max_inflight = a;
                                max_inflight_bytes = b;
                                request_timeout_ms = c;
                                ingest_max_body_bytes = d;
                                ingest_timeout_ms = f;
                                write_token = token;
                              }
                                  ≡ p =
                                ground (arith, e, read_a, read_b, read_c, read_d, read_f, read_g) in
                              rw (← same) (record {
                                requests =
                                    read_size-bounds t.max_inflight _ _ a v.0 (omega arith)
                                      (omega arith) read_a;
                                bytes =
                                    read_size-bounds t.max_inflight_bytes _ _ b v.1 (omega arith)
                                      (omega arith) read_b;
                                timeout =
                                    read_size-bounds t.request_timeout_ms _ _ c v.2 (omega arith)
                                      (omega arith) read_c;
                                body =
                                    read_size-bounds t.ingest_max_body_bytes _ _ d v.3 (omega arith)
                                      (omega arith) read_d;
                                ingest =
                                    read_size-bounds t.ingest_timeout_ms _ _ f v.4 (omega arith)
                                      (omega arith) read_f;
                                token = token_lem t.write_token token read_g;
                              })
                        ]
                      ]
                ]
        ]
      ]
]

-- Every policy that loading the configuration gives is within the limits, and its token is empty or
-- well-formed; a table of the daemon may be any whose positive integers are positive.
pub policy_load_config-IsPolicy :
    (f : ConfigFile) (p : RuntimePolicy) → IsConfig f → policy_load_config f ≡ done p → IsPolicy p
unfolding policy_load_config
policy_load_config-IsPolicy no_path p v e = rw (← done_inj e) default-IsPolicy
policy_load_config-IsPolicy unreadable p v e = absurd (ground (arith, e))
policy_load_config-IsPolicy malformed p v e = absurd (ground (arith, e))
policy_load_config-IsPolicy no_daemon p v e = rw (← done_inj e) default-IsPolicy
policy_load_config-IsPolicy (daemon t) p v e = read_daemon-IsPolicy t p v e
