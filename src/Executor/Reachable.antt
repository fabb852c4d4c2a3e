-- ===== src/Executor/Reachable.antt =====
-- The states that the threads can reach from an executor that was opened.
use yappod.Prelude.{
  ℕ, ◌+◌, ◌%◌, ◌^◌, ◌≤◌, ◌≡◌, refl, sym, ap, ◌∙◌, some, [], ◌++◌, arith, length, length-append,
  length-replicate, Option-cases, true, inl, inr,
}
use yappod.Executor.{Executor, executor_open, executor_open_batch, no_job}
use yappod.Executor.Queue.{waiting, waiting-none, length-waiting}
use yappod.Executor.Steps.{System, Step, IsSystem, Step-IsSystem}

-- An executor that was just opened for single jobs, or for batches.
pub data Opened (e : Executor) : Type 0 where
  single : (workers capacity : ℕ) → executor_open workers capacity ≡ some e → Opened e
  batched :
      (capacity max_batch delay : ℕ)
      → executor_open_batch capacity max_batch delay ≡ some e
      → Opened e

abbrev pub at_start : Executor → System
at_start e = record { executor = e; accepted_jobs = []; started_jobs = [] }

-- Any number of steps, by whichever threads.
pub data Reaches (s : System) : System → Type 0 where
  here : Reaches s s
  further : (s' s'' : System) → Reaches s s' → Step s' s'' → Reaches s s''

open_lem :
    (workers capacity : ℕ) (e : Executor)
    → executor_open workers capacity ≡ some e
    → IsSystem (at_start e)
unfolding executor_open
open_lem workers capacity e h = record {
  sound = record {
    some_room = ground (arith, h);
    small = ground (arith, h);
    sized = ground (arith, h, length-replicate capacity no_job);
    inside = ground (arith, h);
    few = ground (arith, h);
  };
  fifo = sym (waiting-none e (ground (arith, h)));
  submitted = ground (arith, h);
  started = ground (arith, h);
  active = ground (arith, h);
}

pub Opened-IsSystem : (e : Executor) → Opened e → IsSystem (at_start e)
unfolding executor_open_batch
Opened-IsSystem e (single workers capacity h) = open_lem workers capacity e h
Opened-IsSystem e (batched capacity max_batch delay h) =
    elim (Option-cases (executor_open 1 capacity)) [
      | inl none_there ↦ ground (arith, h, none_there)
      | inr (e', opened) ↦
          let v = open_lem 1 capacity e' opened in
          let same : e ≡ record e' { max_batch = max_batch; batch = true } =
            ground (arith, h, opened) in
          rw same (record {
            sound = record {
              some_room = v.sound.some_room;
              small = v.sound.small;
              sized = v.sound.sized;
              inside = v.sound.inside;
              few = v.sound.few;
            };
            fifo = v.fifo ∙ unfold waiting in refl;
            submitted = v.submitted;
            started = v.started;
            active = v.active;
          })
    ]

pub Reaches-IsSystem : (s s' : System) → Reaches s s' → IsSystem s → IsSystem s'
Reaches-IsSystem s s' here v = v
Reaches-IsSystem s s' (further s1 s2 path step) v =
    Step-IsSystem s1 s2 step (Reaches-IsSystem s s1 path v)

-- In every state that the threads can reach from an executor that was opened, by submissions, workers
-- that take and finish jobs one by one or in batches, and a close, in any order: the jobs that were
-- accepted are the jobs that were started, in the order in which they were accepted, followed by the
-- waiting ones; no more jobs wait than the queue has room for; and the number of submitted jobs is the
-- number of queued, active and completed ones, up to the wrap-around of the counters at 2^64.
pub reachable-fifo :
    (e : Executor) (s : System)
    → Opened e
    → Reaches (at_start e) s
    → (s.accepted_jobs ≡ s.started_jobs ++ waiting s.executor)
      × (s.executor.queued ≤ s.executor.queue_capacity)
      × (s.executor.submitted
          ≡ (s.executor.queued + s.executor.active + s.executor.completed) % 2 ^ 64)
reachable-fifo e s o path =
    let v = Reaches-IsSystem (at_start e) s path (Opened-IsSystem e o) in
    let size = ap length v.fifo ∙ length-append s.started_jobs (waiting s.executor) in
    (v.fifo, v.sound.few, omega (arith, v.submitted, v.started, size, length-waiting s.executor))
