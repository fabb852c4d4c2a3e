-- ===== src/ManifestFile/Failures.antt =====
-- A failure of the loader never carries the status of success.
use yappod.Prelude.{ℕ, zero, suc, ◌≢◌, Bool, List, [], arith, drop, inl, inr}
use yappod.Types.{ok, fail}
use yappod.Types.Binds.{bind-ne-fail_ok, Result-cases}
use yappod.Storage.Descriptor.{Component, add_component}
use yappod.Storage.Header.{file_header_decode, file_header_bytes}
use yappod.Storage.Manifest.{Manifest, manifest_init, add_segment}
use yappod.ManifestFile.{
  reader_take, reader_u32, reader_u64, parse_component, parse_components, parse_segment,
  parse_segments, parse_payload, parse_file,
}

reader_take-ne-fail_ok : (reader : List ℕ) (n : ℕ) → reader_take reader n ≢ fail ok
unfolding reader_take
reader_take-ne-fail_ok reader n e = ground (arith, e)

reader_u32-ne-fail_ok : (reader : List ℕ) → reader_u32 reader ≢ fail ok
unfolding reader_u32
reader_u32-ne-fail_ok reader =
    bind-ne-fail_ok (reader_take reader 4) _ (reader_take-ne-fail_ok reader 4)
      (λ a e. ground (arith, e))

reader_u64-ne-fail_ok : (reader : List ℕ) → reader_u64 reader ≢ fail ok
unfolding reader_u64
reader_u64-ne-fail_ok reader =
    bind-ne-fail_ok (reader_take reader 8) _ (reader_take-ne-fail_ok reader 8)
      (λ a e. ground (arith, e))

parse_component-ne-fail_ok : (reader : List ℕ) → parse_component reader ≢ fail ok
unfolding parse_component
parse_component-ne-fail_ok reader =
    bind-ne-fail_ok (reader_u32 reader) _ (reader_u32-ne-fail_ok reader) (λ (n, r1).
      bind-ne-fail_ok (reader_u32 r1) _ (reader_u32-ne-fail_ok r1) (λ (t, r2).
        bind-ne-fail_ok (reader_u64 r2) _ (reader_u64-ne-fail_ok r2) (λ (c, r3).
          bind-ne-fail_ok (reader_u64 r3) _ (reader_u64-ne-fail_ok r3) (λ (b, r4).
            bind-ne-fail_ok (reader_take r4 32) _ (reader_take-ne-fail_ok r4 32)
              (λ (s, r5) e. ground (arith, e, reader_take-ne-fail_ok r5 n))))))

parse_components-ne-fail_ok :
    (rounds : ℕ) (components : List Component) (reader : List ℕ)
    → parse_components rounds components reader ≢ fail ok
unfolding parse_components
parse_components-ne-fail_ok zero components reader = λ e. ground (arith, e)
parse_components-ne-fail_ok (suc rounds) components reader =
    bind-ne-fail_ok (parse_component reader) _ (parse_component-ne-fail_ok reader) (λ (c, r1) e.
      ground (arith, e, parse_components-ne-fail_ok rounds (add_component components c).1 r1))

parse_segment-ne-fail_ok : (reader : List ℕ) → parse_segment reader ≢ fail ok
unfolding parse_segment
parse_segment-ne-fail_ok reader =
    bind-ne-fail_ok (reader_u32 reader) _ (reader_u32-ne-fail_ok reader) (λ (n, r1).
      bind-ne-fail_ok (reader_u32 r1) _ (reader_u32-ne-fail_ok r1) (λ (c, r2).
        bind-ne-fail_ok (reader_u64 r2) _ (reader_u64-ne-fail_ok r2) (λ (a, r3).
          bind-ne-fail_ok (reader_u64 r3) _ (reader_u64-ne-fail_ok r3) (λ (b, r4).
            bind-ne-fail_ok (reader_u64 r4) _ (reader_u64-ne-fail_ok r4) (λ (s, r5) e.
              elim (Result-cases (reader_take r5 n)) [
                | inr (status, stopped) ↦ ground (arith, e, stopped, reader_take-ne-fail_ok r5 n)
                | inl ((id, r6), taken) ↦
                    ground (arith, e, taken, parse_components-ne-fail_ok c [] r6)
              ])))))

parse_segments-ne-fail_ok :
    (granted : Bool) (rounds : ℕ) (m : Manifest) (reader : List ℕ)
    → parse_segments granted rounds m reader ≢ fail ok
unfolding parse_segments
parse_segments-ne-fail_ok granted zero m reader = λ e. ground (arith, e)
parse_segments-ne-fail_ok granted (suc rounds) m reader =
    bind-ne-fail_ok (parse_segment reader) _ (parse_segment-ne-fail_ok reader) (λ (s, r1) e.
      ground
        (arith, e, parse_segments-ne-fail_ok granted rounds (add_segment granted granted m s).1 r1))

parse_payload-ne-fail_ok :
    (granted : Bool) (generation : ℕ) (reader : List ℕ)
    → parse_payload granted generation reader ≢ fail ok
unfolding parse_payload
parse_payload-ne-fail_ok granted generation reader =
    bind-ne-fail_ok (reader_u32 reader) _ (reader_u32-ne-fail_ok reader) (λ (v, r1).
      bind-ne-fail_ok (reader_u32 r1) _ (reader_u32-ne-fail_ok r1) (λ (c, r2).
        bind-ne-fail_ok (reader_take r2 32) _ (reader_take-ne-fail_ok r2 32) (λ (f, r3) e. ground (
          arith,
          e,
          parse_segments-ne-fail_ok granted c
              (record manifest_init { generation = generation; config_fingerprint = f }) r3,
        ))))

file_header_decode-ne-fail_ok : (input : List ℕ) → file_header_decode input ≢ fail ok
unfolding file_header_decode
file_header_decode-ne-fail_ok input e = ground (arith, e)

-- Reading a file never fails with the status of success.
pub parse_file-ne-fail_ok : (granted : Bool) (file : List ℕ) → parse_file granted file ≢ fail ok
unfolding parse_file
parse_file-ne-fail_ok granted file =
    bind-ne-fail_ok (file_header_decode file) _ (file_header_decode-ne-fail_ok file) (λ h e.
      ground
        (arith, e, parse_payload-ne-fail_ok granted h.generation (drop file_header_bytes file)))
