-- ===== src/Examples/Daemon.antt =====
-- An executor of two places, a limiter, a token and a configuration.
use yappod.Prelude.{
  ℕ, ◌≤◌, ◌≡◌, ◌↔◌, ◌⊎◌, ◌+◌, ◌%◌, ◌^◌, refl, true, false, none, some, List, [], ◌∷◌, ◌++◌, arith,
  take, drop, ◌==◌, if◌then◌else◌,
}
use yappod.Prelude.Bytes.{contains}
use yappod.Types.{ok, conflict, invalid_argument, out_of_range, done}
use yappod.Executor.{Executor, executor_open, try_submit, take_batch, executor_close}
use yappod.Executor.{take_head, submit, enqueue, worker_ends, worker_take}
use yappod.Executor.Closing.{close-drains}
use yappod.Executor.Steps.{takes}
use yappod.Executor.Queue.{IsExecutor, waiting, take_batch-waiting, SameCounters}
use yappod.Executor.Steps.{System, submission, submits, closes}
use yappod.Executor.Reachable.{single, at_start, here, further, reachable-fifo}
use yappod.Runtime.{
  RuntimePolicy, runtime_policy_init, Limiter, limiter_acquire, limiter_release,
  constant_time_equal, authorize_write, bearer,
}
use yappod.Runtime.Admission.{Tracks, Fits, total, limiter_acquire-Tracks, limiter_release-Tracks}
use yappod.Runtime.Authorization.{constant_time_equal_iff, authorize_write_iff}
use yappod.Runtime.Config.{
  ConfigFile, policy_load_config, IsPolicy, policy_load_config-IsPolicy, daemon, positive, no_key,
  no_string_key, read_daemon, read_size, read_token,
}

abbrev fresh : Executor
fresh = record {
  jobs = record { function = none; context = 0 } ∷ record { function = none; context = 0 } ∷ [];
  queue_capacity = 2;
  head = 0;
  queued = 0;
  active = 0;
  submitted = 0;
  completed = 0;
  rejected = 0;
  accepting = true;
  max_batch = 0;
  batch = false;
}

fresh_opened : executor_open 1 2 ≡ some fresh
unfolding executor_open
fresh_opened = refl

-- The system after a submission and a close.
abbrev submitted_system : System
submitted_system =
    submission (at_start fresh) (record { function = some 4; context = 5 }) (try_submit fresh 4 5)

abbrev closed_system : System
closed_system = record submitted_system { executor = executor_close submitted_system.executor }

reachable-fifo_example :
    (closed_system.accepted_jobs ≡ closed_system.started_jobs ++ waiting closed_system.executor)
    × (closed_system.executor.queued ≤ closed_system.executor.queue_capacity)
    × (closed_system.executor.submitted
        ≡ (closed_system.executor.queued + closed_system.executor.active
            + closed_system.executor.completed)
          % 2 ^ 64)
reachable-fifo_example = reachable-fifo fresh closed_system (single 1 2 fresh_opened) (
    further submitted_system closed_system
      (further (at_start fresh) submitted_system here (submits 4 5)) closes)

-- A worker takes the job that is left.
abbrev drained : Executor
drained = record (take_head closed_system.executor).1 { active = 1 }

abbrev drained_system : System
drained_system = record closed_system {
  executor = drained;
  started_jobs = closed_system.started_jobs ++ record { function = some 4; context = 5 } ∷ [];
}

taken :
    worker_take closed_system.executor ≡ some (record { function = some 4; context = 5 }, drained)
unfolding worker_take take_head executor_close try_submit submit enqueue
taken = refl

close-drains_example :
    (drained_system.executor.accepting ≡ false)
    × (drained_system.accepted_jobs ≡ submitted_system.accepted_jobs)
    × (submitted_system.accepted_jobs
        ≡ drained_system.started_jobs ++ waiting drained_system.executor)
    × ((worker_ends drained_system.executor ≡ true)
        ↔ (drained_system.started_jobs ≡ submitted_system.accepted_jobs))
close-drains_example =
    close-drains fresh submitted_system drained_system (single 1 2 fresh_opened)
      (further (at_start fresh) submitted_system here (submits 4 5))
      (further closed_system drained_system here (takes _ drained taken))

-- A ring whose two jobs go round its end.
abbrev wrapped : Executor
wrapped = record fresh {
  jobs = record { function = none; context = 8 } ∷ record { function = none; context = 7 } ∷ [];
  head = 1;
  queued = 2;
  submitted = 3;
  completed = 1;
}

take_batch-waiting_example :
    ((take_batch 1 wrapped).0 ≡ take 1 (waiting wrapped))
    × (waiting (take_batch 1 wrapped).1 ≡ drop 1 (waiting wrapped))
    × IsExecutor (take_batch 1 wrapped).1
    × SameCounters wrapped (take_batch 1 wrapped).1
take_batch-waiting_example = take_batch-waiting 1 wrapped (record {
  some_room = omega arith;
  small = omega arith;
  sized = refl;
  inside = omega arith;
  few = omega arith;
})

-- Two requests of 10 and 20 bytes in flight, of at most three and 100 bytes.
abbrev limiter : Limiter
limiter = record {
  inflight = 2;
  inflight_bytes = 30;
  max_inflight = 3;
  max_inflight_bytes = 100;
  initialized = true;
}

sum : 30 ≡ total (10 ∷ 20 ∷ [])
unfolding total
sum = refl

limiter-Tracks : Tracks limiter (10 ∷ 20 ∷ [])
limiter-Tracks = record {
  open_for_use = refl;
  counted = refl;
  bytes = sum;
  few = omega arith;
  light = omega arith;
  size = omega arith;
  size_bytes = omega arith;
}

limiter_acquire-Tracks_example :
    (Fits limiter (10 ∷ 20 ∷ []) 70
      × ((limiter_acquire limiter 70).0 ≡ ok)
      × Tracks (limiter_acquire limiter 70).1 (70 ∷ 10 ∷ 20 ∷ []))
    ⊎ (¬ Fits limiter (10 ∷ 20 ∷ []) 70
        × ((limiter_acquire limiter 70).0 ≡ (if 70 == 0 then invalid_argument else out_of_range))
        × ((limiter_acquire limiter 70).1 ≡ limiter))
limiter_acquire-Tracks_example =
    limiter_acquire-Tracks limiter (10 ∷ 20 ∷ []) 70 limiter-Tracks (omega arith)

limiter_release-Tracks_example : Tracks (limiter_release limiter 20) (10 ∷ [])
limiter_release-Tracks_example = limiter_release-Tracks limiter (10 ∷ []) [] 20 limiter-Tracks

abbrev token : List ℕ
token = b'k' ∷ b'e' ∷ b'y' ∷ []

clean_token : contains 0 token ≡ false
unfolding contains
clean_token = refl

clean_header : contains 0 (bearer ++ token) ≡ false
unfolding contains
clean_header = refl

constant_time_equal_iff_example : (constant_time_equal token token ≡ true) ↔ (token ≡ token)
constant_time_equal_iff_example = constant_time_equal_iff token token clean_token clean_token

abbrev policy : RuntimePolicy
policy = record runtime_policy_init { write_token = token }

authorize_write_iff_example :
    ((authorize_write policy (some (bearer ++ token)) ≡ ok) ↔ (bearer ++ token ≡ bearer ++ token))
    × (authorize_write policy none ≡ conflict)
authorize_write_iff_example =
    authorize_write_iff policy (bearer ++ token) (omega arith) clean_token clean_header

-- A table that sets one limit.
abbrev config : ConfigFile
config = daemon (record {
  max_inflight = positive 8;
  max_inflight_bytes = no_key;
  request_timeout_ms = no_key;
  ingest_max_body_bytes = no_key;
  ingest_timeout_ms = no_key;
  write_token = no_string_key;
})

loaded : policy_load_config config ≡ done (record runtime_policy_init { max_inflight = 8 })
unfolding policy_load_config read_daemon read_size read_token
loaded = refl

policy_load_config-IsPolicy_example : IsPolicy (record runtime_policy_init { max_inflight = 8 })
policy_load_config-IsPolicy_example =
    policy_load_config-IsPolicy config (record runtime_policy_init { max_inflight = 8 })
      (omega arith, tt, tt, tt, tt) loaded
