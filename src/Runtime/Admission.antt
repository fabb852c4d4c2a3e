-- ===== src/Runtime/Admission.antt =====
-- The limiter against the list of the requests in flight.
use yappod.Prelude.{
  ℕ, ◌+◌, ◌-◌, ◌^◌, ◌≤◌, ◌<◌, ◌≡◌, ◌⊎◌, inl, inr, Bool, true, List, [], ◌∷◌, ◌++◌, arith, length,
  length-append, ltb, Bool-cases, ◌&&◌, leb, ◌==◌, if◌then◌else◌,
}
use yappod.Types.{ok, invalid_argument, out_of_range}
use yappod.Runtime.{Limiter, limiter_acquire, limiter_release}

-- The bytes of all the requests.
unfoldable pub total : List ℕ → ℕ
total [] = 0
total (n ∷ rest) = n + total rest

-- The limiter counts the requests in flight and their bytes, and both are within the limits.
pub record Tracks (l : Limiter) (requests : List ℕ) : Type 0 where
  pub open_for_use : l.initialized ≡ true
  pub counted : l.inflight ≡ length requests
  pub bytes : l.inflight_bytes ≡ total requests
  pub few : l.inflight ≤ l.max_inflight
  pub light : l.inflight_bytes ≤ l.max_inflight_bytes
  pub size : l.max_inflight < 2 ^ 64
  pub size_bytes : l.max_inflight_bytes < 2 ^ 64

total-append : (xs ys : List ℕ) → total (xs ++ ys) ≡ total xs + total ys
unfolding total
total-append [] ys = omega arith
total-append (x ∷ xs) ys = omega (arith, total-append xs ys)

-- A request of `n` bytes fits beside the others.
abbrev pub Fits : Limiter → List ℕ → ℕ → Type 0
Fits l requests n =
    (0 < n) × (length requests < l.max_inflight) × (total requests + n ≤ l.max_inflight_bytes)

-- The test, without the wrap-around.
abbrev fits : Limiter → ℕ → Bool
fits l n =
    ltb 0 n && ltb l.inflight l.max_inflight && leb (l.inflight_bytes + n) l.max_inflight_bytes

admitted : (l : Limiter) (n : ℕ) → Limiter
admitted l n = record l { inflight = l.inflight + 1; inflight_bytes = l.inflight_bytes + n }

acquire_free :
    (l : Limiter) (requests : List ℕ) (n : ℕ)
    → Tracks l requests
    → fits l n ≡ true
    → (limiter_acquire l n).1 ≡ admitted l n
unfolding limiter_acquire admitted
acquire_free l requests n v free =
    ground (arith, free, v.open_for_use, v.few, v.light, v.size_bytes, v.size)

admitted_lem :
    (l : Limiter) (requests : List ℕ) (n : ℕ)
    → Tracks l requests
    → n < 2 ^ 64
    → fits l n ≡ true
    → Tracks (limiter_acquire l n).1 (n ∷ requests)
unfolding admitted total
admitted_lem l requests n v small free = rw (acquire_free l requests n v free) (record {
  open_for_use = v.open_for_use;
  counted = omega (arith, v.counted);
  bytes = omega (arith, v.bytes);
  few = ground (arith, free);
  light = ground (arith, free);
  size = v.size;
  size_bytes = v.size_bytes;
})

-- The limiter admits a request exactly when it has a byte, fewer requests than the limit are in
-- flight, and their bytes and its own are within the limit. An admitted request is then counted; a
-- refused one changes nothing, and the answer says why.
pub limiter_acquire-Tracks :
    (l : Limiter) (requests : List ℕ) (n : ℕ)
    → Tracks l requests
    → n < 2 ^ 64
    → (Fits l requests n
        × ((limiter_acquire l n).0 ≡ ok)
        × Tracks (limiter_acquire l n).1 (n ∷ requests))
      ⊎ (¬ Fits l requests n
          × ((limiter_acquire l n).0 ≡ (if n == 0 then invalid_argument else out_of_range))
          × ((limiter_acquire l n).1 ≡ l))
unfolding limiter_acquire total
limiter_acquire-Tracks l requests n v small = elim (Bool-cases (fits l n)) [
  | inl free ↦ inl (
    (ground (arith, free), ground (arith, free, v.counted), ground (arith, free, v.bytes, v.light)),
    ground (arith, free, v.open_for_use, v.few, v.light, v.size_bytes),
    admitted_lem l requests n v small free,
  )
  | inr busy ↦ inr (
    (λ (some_byte, few, light). ground (arith, busy, v.counted, v.bytes, some_byte, few, light)),
    ground (arith, busy, v.open_for_use, v.counted, v.bytes, v.few, v.light, v.size_bytes),
    ground (arith, busy, v.open_for_use, v.counted, v.bytes, v.few, v.light, v.size_bytes),
  )
]

released :
    (l : Limiter) (n : ℕ)
    → l.initialized ≡ true
    → 0 < l.inflight
    → n ≤ l.inflight_bytes
    → limiter_release l n
      ≡ record l { inflight = l.inflight - 1; inflight_bytes = l.inflight_bytes - n }
unfolding limiter_release
released l n h k m = ground (arith, h, k, m)

-- Releasing a request that is in flight, whichever it is, takes it out of the count.
pub limiter_release-Tracks :
    (l : Limiter) (before after : List ℕ) (n : ℕ)
    → Tracks l (before ++ n ∷ after)
    → Tracks (limiter_release l n) (before ++ after)
unfolding total
limiter_release-Tracks l before after n v =
    let count = length-append before (n ∷ after) in
    let count' = length-append before after in
    let sum = total-append before (n ∷ after) in
    let sum' = total-append before after in
    rw (released l n v.open_for_use (omega (arith, v.counted)) (omega (arith, v.bytes))) (record {
      open_for_use = v.open_for_use;
      counted = omega (arith, v.counted);
      bytes = omega (arith, v.bytes);
      few = omega (arith, v.few);
      light = omega (arith, v.light);
      size = v.size;
      size_bytes = v.size_bytes;
    })
