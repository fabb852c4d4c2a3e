-- ===== src/Executor.antt =====
-- The bounded executor of src/server/yappo_executor_v2.c: its state, and what each function and each
-- worker does while it holds the lock. A job's function and context are numbers that stand for the
-- pointers, `none` for the NULL function of an item. The counters are size_t and wrap.
pub mod Queue
pub mod Steps
pub mod Reachable
pub mod Closing
use yappod.Prelude.{
  ℕ, zero, suc, ◌+◌, ◌-◌, ◌/◌, ◌%◌, ◌^◌, Bool, true, false, not, ◌||◌, ◌&&◌, Option, none, some,
  List, [], ◌∷◌, ltb, ◌==◌, if◌then◌else◌, get_or, set, replicate, length,
}
use yappod.Storage.Slots.{size_max}

-- `EXECUTOR_JOB`
pub record Job : Type 0 where
  pub function : Option ℕ
  pub context : ℕ

abbrev pub no_job : Job
no_job = record { function = none; context = 0 }

-- `EXECUTOR_STATE` without the lock and the threads; `batch` says that a batch function is set.
pub record Executor : Type 0 where
  pub jobs : List Job
  pub queue_capacity : ℕ
  pub head : ℕ
  pub queued : ℕ
  pub active : ℕ
  pub submitted : ℕ
  pub completed : ℕ
  pub rejected : ℕ
  pub accepting : Bool
  pub max_batch : ℕ
  pub batch : Bool

-- What a submission answers: `YAP_V2_OK` or `YAP_V2_EXECUTOR_FULL`.
pub data Reply : Type 0 where
  accepted full : Reply

abbrev add_size : ℕ → ℕ → ℕ
add_size a b = (a + b) % 2 ^ 64

abbrev sub_size : ℕ → ℕ → ℕ
sub_size a b = (2 ^ 64 + a - b) % 2 ^ 64

-- The state with which the workers of `YAP_V2_executor_open` start; `none` for the arguments that it
-- refuses. A `pthread_t` has 8 bytes and a job 16.
unfoldable pub executor_open : ℕ → ℕ → Option Executor
executor_open worker_threads queue_capacity =
    if worker_threads == 0
      || queue_capacity == 0
      || ltb (size_max / 8) worker_threads
      || ltb (size_max / 16) queue_capacity
    then none
    else some (record {
      jobs = replicate queue_capacity no_job;
      queue_capacity = queue_capacity;
      head = 0;
      queued = 0;
      active = 0;
      submitted = 0;
      completed = 0;
      rejected = 0;
      accepting = true;
      max_batch = 0;
      batch = false;
    })

-- The state with which the batch worker of `YAP_V2_executor_open_batch` starts.
unfoldable pub executor_open_batch : ℕ → ℕ → ℕ → Option Executor
executor_open_batch queue_capacity max_batch max_delay_microseconds =
    if queue_capacity == 0
      || max_batch == 0
      || ltb queue_capacity max_batch
      || max_delay_microseconds == 0
    then none
    else elim (executor_open 1 queue_capacity) [
      | none ↦ none
      | some e ↦ some (record e { max_batch = max_batch; batch = true })
    ]

-- Writing a job behind the last one.
unfoldable pub enqueue : Executor → Job → Executor
enqueue e job =
    let tail = add_size e.head e.queued % e.queue_capacity in
    record e {
      jobs = set e.jobs tail job;
      queued = add_size e.queued 1;
      submitted = add_size e.submitted 1;
    }

-- The common body of the two submissions; `refused` is the test of the batch function.
unfoldable pub submit : Bool → Executor → Job → Reply × Executor
submit refused e job =
    if refused || not e.accepting || e.queued == e.queue_capacity
    then (full, record e { rejected = add_size e.rejected 1 })
    else (accepted, enqueue e job)

unfoldable pub try_submit : Executor → ℕ → ℕ → Reply × Executor
try_submit e function context =
    submit e.batch e (record { function = some function; context = context })

unfoldable pub try_submit_item : Executor → ℕ → Reply × Executor
try_submit_item e item = submit (not e.batch) e (record { function = none; context = item })

-- Taking the job at the head.
unfoldable pub take_head : Executor → Job × Executor
take_head e = (
  get_or e.jobs e.head no_job,
  record e { head = add_size e.head 1 % e.queue_capacity; queued = e.queued - 1 },
)

-- A worker that has the lock: `none` while it waits, or when it ends (`worker_ends`).
unfoldable pub worker_take : Executor → Option (Job × Executor)
worker_take e =
    if e.queued == 0
    then none
    else let (job, e) = take_head e in some (job, record e { active = add_size e.active 1 })

unfoldable pub worker_ends : Executor → Bool
worker_ends e = e.queued == 0 && not e.accepting

-- A worker after a job, and the batch worker after `count` items.
unfoldable pub finish_jobs : Executor → ℕ → Executor
finish_jobs e count = record e {
  active = sub_size e.active count;
  completed = add_size e.completed count;
}

-- `while (count < state->max_batch && state->queued != 0U)`, on the rounds that are left.
unfoldable pub take_batch : ℕ → Executor → List Job × Executor
take_batch zero e = ([], e)
take_batch (suc rounds) e =
    let (job, e') = take_head e in
    let (jobs, e'') = take_batch rounds e' in if e.queued == 0 then ([], e) else (job ∷ jobs, e'')

-- The batch worker that has the lock, after its wait for more items.
unfoldable pub batch_take : Executor → Option (List Job × Executor)
batch_take e =
    if e.queued == 0
    then none
    else let (items, e) = take_batch e.max_batch e in
      some (items, record e { active = add_size e.active (length items) })

-- `YAP_V2_executor_close`, up to the end of the workers that it waits for.
unfoldable pub executor_close : Executor → Executor
executor_close e = record e { accepting = false }

-- `YAP_V2_EXECUTOR_STATE`; `worker_threads` is the argument with which it was opened.
pub record Snapshot : Type 0 where
  pub worker_threads : ℕ
  pub queue_capacity : ℕ
  pub queued : ℕ
  pub active : ℕ
  pub submitted : ℕ
  pub completed : ℕ
  pub rejected : ℕ
  pub accepting : Bool

unfoldable pub executor_snapshot : ℕ → Executor → Snapshot
executor_snapshot worker_threads e = record {
  worker_threads = worker_threads;
  queue_capacity = e.queue_capacity;
  queued = e.queued;
  active = e.active;
  submitted = e.submitted;
  completed = e.completed;
  rejected = e.rejected;
  accepting = e.accepting;
}
