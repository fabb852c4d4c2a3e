-- ===== src/Executor/Steps.antt =====
-- What the threads do, one critical section at a time, and what holds in every state that they reach.
-- A system keeps, beside the executor, the jobs that were accepted and those that were started.
use yappod.Prelude.{
  ℕ, ◌+◌, ◌%◌, ◌^◌, ◌≤◌, ◌<◌, ◌≡◌, refl, sym, ap, ◌∙◌, Bool, not, ◌||◌, none, some, List, [], ◌∷◌,
  ◌++◌, arith, length, Bool-cases, inl, inr, ◌==◌, append_assoc, length-append, take-append-drop,
}
use yappod.Executor.{
  Job, Executor, Reply, accepted, full, submit, enqueue, try_submit, try_submit_item, worker_take,
  take_head, finish_jobs, batch_take, take_batch, executor_close,
}
use yappod.Executor.Queue.{
  IsExecutor, waiting, enqueue-IsExecutor, take_head-IsExecutor, take_batch-waiting, SameCounters,
}

pub record System : Type 0 where
  pub executor : Executor
  pub accepted_jobs : List Job
  pub started_jobs : List Job

-- A submission of `job` that answers `r`.
abbrev pub submission : System → Job → Reply × Executor → System
submission s job (accepted, e) = record s {
  executor = e;
  accepted_jobs = s.accepted_jobs ++ job ∷ [];
}
submission s job (full, e) = record s { executor = e }

pub data Step (s : System) : System → Type 0 where
  submits :
      (function context : ℕ)
      → Step s (
          submission s
            (record { function = some function; context = context })
            (try_submit s.executor function context))
  submits_item :
      (item : ℕ)
      → Step s (
          submission s
            (record { function = none; context = item })
            (try_submit_item s.executor item))
  takes :
      (job : Job) (e : Executor)
      → worker_take s.executor ≡ some (job, e)
      → Step s (record s { executor = e; started_jobs = s.started_jobs ++ job ∷ [] })
  takes_batch :
      (items : List Job) (e : Executor)
      → batch_take s.executor ≡ some (items, e)
      → Step s (record s { executor = e; started_jobs = s.started_jobs ++ items })
  finishes :
      (count : ℕ)
      → count ≤ s.executor.active
      → Step s (record s { executor = finish_jobs s.executor count })
  closes : Step s (record s { executor = executor_close s.executor })

-- What every reachable system keeps: the ring is sound, the accepted jobs are the started ones and
-- behind them, in order, the waiting ones, and the counters count them, up to their wrap-around.
pub record IsSystem (s : System) : Type 0 where
  pub sound : IsExecutor s.executor
  pub fifo : s.accepted_jobs ≡ s.started_jobs ++ waiting s.executor
  pub submitted : s.executor.submitted ≡ length s.accepted_jobs % 2 ^ 64
  pub started : (s.executor.completed + s.executor.active) % 2 ^ 64 ≡ length s.started_jobs % 2 ^ 64
  pub active : s.executor.active < 2 ^ 64

submit-IsSystem :
    (s : System) (refused : Bool) (job : Job)
    → IsSystem s
    → IsSystem (submission s job (submit refused s.executor job))
unfolding submit
submit-IsSystem s refused job v =
    elim (Bool-cases
      (refused || not s.executor.accepting || s.executor.queued == s.executor.queue_capacity)) [
        | inl rejected ↦ rw rejected (record {
          sound = record {
            some_room = v.sound.some_room;
            small = v.sound.small;
            sized = v.sound.sized;
            inside = v.sound.inside;
            few = v.sound.few;
          };
          fifo = v.fifo ∙ unfold waiting in refl;
          submitted = v.submitted;
          started = v.started;
          active = v.active;
        })
        | inr free ↦
            let e = s.executor in
            let (sound, queue) =
              enqueue-IsExecutor e job v.sound (ground (arith, free, v.sound.few)) in
            let size = length-append s.accepted_jobs (job ∷ []) in
            rw free (record {
              sound = sound;
              fifo =
                  ap (λ t. t ++ job ∷ []) v.fifo
                  ∙ append_assoc s.started_jobs (waiting e) (job ∷ [])
                  ∙ ap (λ t. s.started_jobs ++ t) (sym queue);
              submitted = unfold enqueue in omega (arith, v.submitted, size);
              started = unfold enqueue in v.started;
              active = unfold enqueue in v.active;
            })
      ]

-- Starting the jobs at the front, as `worker_take` and `batch_take` do.
started-IsSystem :
    (s : System) (items : List Job) (e : Executor)
    → IsSystem s
    → IsExecutor e
    → waiting s.executor ≡ items ++ waiting e
    → SameCounters s.executor e
    → IsSystem (record s {
      executor = record e { active = (e.active + length items) % 2 ^ 64 };
      started_jobs = s.started_jobs ++ items;
    })
started-IsSystem s items e v sound front same = record {
  sound = record {
    some_room = sound.some_room;
    small = sound.small;
    sized = sound.sized;
    inside = sound.inside;
    few = sound.few;
  };
  fifo =
      v.fifo
      ∙ ap (λ t. s.started_jobs ++ t) front
      ∙ sym (append_assoc s.started_jobs items (waiting e))
      ∙ unfold waiting in refl;
  submitted = same.submitted ∙ v.submitted;
  started =
      omega (arith, same.completed, same.active, v.started, length-append s.started_jobs items);
  active = omega arith;
}

pub worker_take-eq-some :
    (e e' : Executor) (job : Job)
    → worker_take e ≡ some (job, e')
    → (0 < e.queued)
      × (job ≡ (take_head e).0)
      × (e' ≡ record (take_head e).1 { active = ((take_head e).1.active + 1) % 2 ^ 64 })
unfolding worker_take
worker_take-eq-some e e' job h = (ground (arith, h), ground (arith, h), ground (arith, h))

pub batch_take-eq-some :
    (e e' : Executor) (items : List Job)
    → batch_take e ≡ some (items, e')
    → (items ≡ (take_batch e.max_batch e).0)
      × (e' ≡ record (take_batch e.max_batch e).1 {
        active =
            ((take_batch e.max_batch e).1.active + length (take_batch e.max_batch e).0) % 2 ^ 64;
      })
unfolding batch_take
batch_take-eq-some e e' items h = (ground (arith, h), ground (arith, h))

finish_jobs-IsSystem :
    (s : System) (count : ℕ)
    → IsSystem s
    → count ≤ s.executor.active
    → IsSystem (record s { executor = finish_jobs s.executor count })
unfolding finish_jobs
finish_jobs-IsSystem s count v few = record {
  sound = record {
    some_room = v.sound.some_room;
    small = v.sound.small;
    sized = v.sound.sized;
    inside = v.sound.inside;
    few = v.sound.few;
  };
  fifo = v.fifo ∙ unfold waiting in refl;
  submitted = v.submitted;
  started = omega (arith, v.started, v.active);
  active = omega arith;
}

-- Every step of a thread keeps the invariant.
pub Step-IsSystem : (s s' : System) → Step s s' → IsSystem s → IsSystem s'
unfolding try_submit try_submit_item executor_close take_head
Step-IsSystem s s' (submits function context) v =
    submit-IsSystem s s.executor.batch (record { function = some function; context = context }) v
Step-IsSystem s s' (submits_item item) v =
    submit-IsSystem s (not s.executor.batch) (record { function = none; context = item }) v
Step-IsSystem s s' (takes job e h) v =
    let (some_job, first, after) = worker_take-eq-some s.executor e job h in
    let (sound, front) = take_head-IsExecutor s.executor v.sound some_job in
    rw (first, after)
      (started-IsSystem s ((take_head s.executor).0 ∷ []) (take_head s.executor).1 v sound front
        (record { submitted = refl; completed = refl; active = refl; accepting = refl }))
Step-IsSystem s s' (takes_batch items e h) v =
    let (batch, after) = batch_take-eq-some s.executor e items h in
    let (first, left, sound, same) = take_batch-waiting s.executor.max_batch s.executor v.sound in
    rw (batch, after)
      (started-IsSystem s (take_batch s.executor.max_batch s.executor).0
        (take_batch s.executor.max_batch s.executor).1 v sound
        (rw (first, left) (sym (take-append-drop s.executor.max_batch (waiting s.executor)))) same)
Step-IsSystem s s' (finishes count few) v = finish_jobs-IsSystem s count v few
Step-IsSystem s s' closes v = record {
  sound = record {
    some_room = v.sound.some_room;
    small = v.sound.small;
    sized = v.sound.sized;
    inside = v.sound.inside;
    few = v.sound.few;
  };
  fifo = v.fifo ∙ unfold waiting in refl;
  submitted = v.submitted;
  started = v.started;
  active = v.active;
}
