-- ===== src/Executor/Queue.antt =====
-- The ring of jobs as a first-in first-out queue.
use yappod.Prelude.{
  ℕ, zero, suc, ◌+◌, ◌-◌, ◌%◌, ◌^◌, ◌≤◌, ◌<◌, ◌≡◌, ◌≢◌, refl, ap, ◌∙◌, List, [], ◌∷◌, ◌++◌, arith,
  get_or, set, length, Bool-cases, inl, inr, ltb, ◌==◌, take, drop, length-set, get_or-set_self,
  get_or-set_ne,
}
use yappod.Prelude.Remainders.{remainder_small, remainder_once}
use yappod.Executor.{Job, no_job, Executor, enqueue, take_head, take_batch}

-- The `n` jobs from `head` on, round the ring.
unfoldable pub window : ℕ → ℕ → ℕ → List Job → List Job
window zero head capacity jobs = []
window (suc n) head capacity jobs =
    get_or jobs head no_job ∷ window n ((head + 1) % capacity) capacity jobs

-- The place of the job behind `n` others.
abbrev place : ℕ → ℕ → ℕ → ℕ
place head n capacity = (head + n) % capacity

place-lt : (head n capacity : ℕ) → 0 < capacity → place head n capacity < capacity
place-lt head n capacity h = omega arith

place-suc :
    (head n capacity : ℕ)
    → head < capacity
    → n < capacity
    → place ((head + 1) % capacity) n capacity ≡ place head (suc n) capacity
place-suc head n capacity h k = elim (Bool-cases (ltb (head + 1) capacity)) [
  | inl inside ↦
      rw (remainder_small (head + 1) capacity (ground arith))
        (ap (λ (t : ℕ). t % capacity) (omega arith))
  | inr wrapped ↦
      let last : head + 1 ≡ capacity = ground arith in
      let first : (head + 1) % capacity ≡ 0 =
        remainder_once (head + 1) capacity (omega arith) (omega arith) ∙ omega arith in
      let near : (0 + n) % capacity ≡ n =
        remainder_small (0 + n) capacity (omega arith) ∙ omega arith in
      let far : (head + suc n) % capacity ≡ n =
        remainder_once (head + suc n) capacity (omega arith) (omega arith) ∙ omega arith in
      rw (first, far) near
]

place-ne :
    (head n capacity : ℕ) → head < capacity → 0 < n → n < capacity → place head n capacity ≢ head
place-ne head n capacity h k l e = elim (Bool-cases (ltb (head + n) capacity)) [
  | inl inside ↦ let s = remainder_small (head + n) capacity (ground arith) in omega arith
  | inr wrapped ↦
      let around : capacity ≤ head + n = ground arith in
      let s = remainder_once (head + n) capacity around (omega arith) in omega arith
]

-- Writing behind the last job puts it at the end of the queue.
window-set :
    (n head capacity : ℕ) (jobs : List Job) (job : Job)
    → length jobs ≡ capacity
    → head < capacity
    → n < capacity
    → window (suc n) head capacity (set jobs (place head n capacity) job)
      ≡ window n head capacity jobs ++ job ∷ []
unfolding window
window-set zero head capacity jobs job size h k =
    let here : place head 0 capacity ≡ head =
      ap (λ (t : ℕ). t % capacity) (omega arith) ∙ remainder_small head capacity h in
    rw (here, get_or-set_self jobs head job no_job (omega arith)) refl
window-set (suc n) head capacity jobs job size h k =
    let other =
      get_or-set_ne jobs (place head (suc n) capacity) head job no_job
        (place-ne head (suc n) capacity h (omega arith) k) in
    let more =
      window-set n ((head + 1) % capacity) capacity jobs job size (omega arith) (omega arith) in
    rw other (
      ap (λ t. get_or jobs head no_job ∷ t)
        (rw (place-suc head n capacity h (omega arith)) at more))

-- A sound executor: the ring has its capacity, and the head and the number of jobs are within it.
pub record IsExecutor (e : Executor) : Type 0 where
  pub some_room : 0 < e.queue_capacity
  pub small : e.queue_capacity < 2 ^ 60
  pub sized : length e.jobs ≡ e.queue_capacity
  pub inside : e.head < e.queue_capacity
  pub few : e.queued ≤ e.queue_capacity

-- The jobs that wait, the oldest first.
unfoldable pub waiting : Executor → List Job
waiting e = window e.queued e.head e.queue_capacity e.jobs

pub enqueue-IsExecutor :
    (e : Executor) (job : Job)
    → IsExecutor e
    → e.queued < e.queue_capacity
    → IsExecutor (enqueue e job) × (waiting (enqueue e job) ≡ waiting e ++ job ∷ [])
unfolding enqueue waiting
enqueue-IsExecutor e job v room =
    let sum : (e.head + e.queued) % 2 ^ 64 ≡ e.head + e.queued = omega (arith, v.small, v.inside) in
    let one : (e.queued + 1) % 2 ^ 64 ≡ suc e.queued = omega (arith, v.small) in
    (
      record {
        some_room = v.some_room;
        small = v.small;
        sized = length-set e.jobs _ job ∙ v.sized;
        inside = v.inside;
        few = omega (arith, v.small);
      },
      rw (sum, one) (window-set e.queued e.head e.queue_capacity e.jobs job v.sized v.inside room),
    )

pub take_head-IsExecutor :
    (e : Executor)
    → IsExecutor e
    → 0 < e.queued
    → IsExecutor (take_head e).1 × (waiting e ≡ (take_head e).0 ∷ waiting (take_head e).1)
unfolding take_head waiting window
take_head-IsExecutor e v some_job =
    let one : (e.head + 1) % 2 ^ 64 ≡ e.head + 1 = omega (arith, v.small, v.inside) in
    let count : e.queued ≡ suc (e.queued - 1) = omega arith in
    (
      record {
        some_room = v.some_room;
        small = v.small;
        sized = v.sized;
        inside = omega (arith, v.some_room);
        few = omega (arith, v.few);
      },
      ap (λ n. window n e.head e.queue_capacity e.jobs) count ∙ rw one refl,
    )

pub length-window :
    (n head capacity : ℕ) (jobs : List Job) → length (window n head capacity jobs) ≡ n
unfolding window
length-window zero head capacity jobs = refl
length-window (suc n) head capacity jobs =
    omega (arith, length-window n ((head + 1) % capacity) capacity jobs)

pub length-waiting : (e : Executor) → length (waiting e) ≡ e.queued
unfolding waiting
length-waiting e = length-window e.queued e.head e.queue_capacity e.jobs

pub waiting-none : (e : Executor) → e.queued ≡ 0 → waiting e ≡ []
unfolding waiting window
waiting-none e none_there = rw none_there refl

-- The counters, and the flag, that taking a job from the ring leaves alone.
pub record SameCounters (e e' : Executor) : Type 0 where
  pub submitted : e'.submitted ≡ e.submitted
  pub completed : e'.completed ≡ e.completed
  pub active : e'.active ≡ e.active
  pub accepting : e'.accepting ≡ e.accepting

-- A batch takes the oldest jobs, in order, at most as many as the rounds, and leaves the others.
pub take_batch-waiting :
    (rounds : ℕ) (e : Executor)
    → IsExecutor e
    → ((take_batch rounds e).0 ≡ take rounds (waiting e))
      × (waiting (take_batch rounds e).1 ≡ drop rounds (waiting e))
      × IsExecutor (take_batch rounds e).1
      × SameCounters e (take_batch rounds e).1
unfolding take_batch
take_batch-waiting zero e v =
    (refl, refl, v, record { submitted = refl; completed = refl; active = refl; accepting = refl })
take_batch-waiting (suc rounds) e v = elim (Bool-cases (e.queued == 0)) [
  | inl empty ↦
      let idle : waiting e ≡ [] = waiting-none e (ground arith) in
      rw (empty, idle)
        (
          refl,
          refl,
          v,
          record { submitted = refl; completed = refl; active = refl; accepting = refl },
        )
  | inr some_job ↦
      let (v', front) = take_head-IsExecutor e v (ground arith) in
      let (items, left, v'', same) = take_batch-waiting rounds (take_head e).1 v' in
      rw (some_job, front)
        (
          ap (λ t. (take_head e).0 ∷ t) items,
          left,
          v'',
          record {
            submitted = same.submitted ∙ unfold take_head in refl;
            completed = same.completed ∙ unfold take_head in refl;
            active = same.active ∙ unfold take_head in refl;
            accepting = same.accepting ∙ unfold take_head in refl;
          },
        )
]
