-- ===== src/Executor/Closing.antt =====
-- What happens after a close.
use yappod.Prelude.{
  ◌≡◌, refl, sym, ap, ◌∙◌, Bool, true, false, not, ◌||◌, ◌++◌, arith, ◌==◌, append-nil, ◌↔◌, length,
  length-append,
}
use yappod.Executor.{
  Job, Executor, submit, try_submit, try_submit_item, take_head, finish_jobs, executor_close,
  worker_ends,
}
use yappod.Executor.Queue.{waiting, waiting-none, length-waiting, take_batch-waiting}
use yappod.Executor.Steps.{
  System, Step, submission, submits, submits_item, takes, takes_batch, finishes, closes, IsSystem,
  Step-IsSystem, worker_take-eq-some, batch_take-eq-some,
}
use yappod.Executor.Reachable.{
  Opened, Opened-IsSystem, at_start, Reaches, here, further, Reaches-IsSystem,
}

-- Nothing is accepted any more, and what was accepted stays.
record IsClosed (s s' : System) : Type 0 where
  closed : s'.executor.accepting ≡ false
  kept : s'.accepted_jobs ≡ s.accepted_jobs

refused_lem :
    (s : System) (job : Job) (refused : Bool)
    → s.executor.accepting ≡ false
    → IsClosed s (submission s job (submit refused s.executor job))
unfolding submit
refused_lem s job refused h =
    let guard : (refused
          || not s.executor.accepting
          || s.executor.queued == s.executor.queue_capacity)
        ≡ true =
      ground (arith, h) in
    rw guard (record { closed = h; kept = refl })

Step-IsClosed :
    (s s' : System) → Step s s' → IsSystem s → s.executor.accepting ≡ false → IsClosed s s'
unfolding try_submit try_submit_item take_head finish_jobs executor_close
Step-IsClosed s s' (submits function context) v h = refused_lem s _ s.executor.batch h
Step-IsClosed s s' (submits_item item) v h = refused_lem s _ (not s.executor.batch) h
Step-IsClosed s s' (takes job e taken) v h =
    let (_, _, after) = worker_take-eq-some s.executor e job taken in
    record { closed = rw after h; kept = refl }
Step-IsClosed s s' (takes_batch items e taken) v h =
    let (_, after) = batch_take-eq-some s.executor e items taken in
    let (_, _, _, same) = take_batch-waiting s.executor.max_batch s.executor v.sound in
    record { closed = rw after (same.accepting ∙ h); kept = refl }
Step-IsClosed s s' (finishes count few) v h = record { closed = h; kept = refl }
Step-IsClosed s s' closes v h = record { closed = refl; kept = refl }

Reaches-IsClosed :
    (s s' : System) → Reaches s s' → IsSystem s → s.executor.accepting ≡ false → IsClosed s s'
Reaches-IsClosed s s' here v h = record { closed = h; kept = refl }
Reaches-IsClosed s s' (further s1 s2 path step) v h =
    let before = Reaches-IsClosed s s1 path v h in
    let after = Step-IsClosed s1 s2 step (Reaches-IsSystem s s1 path v) before.closed in
    record { closed = after.closed; kept = after.kept ∙ before.kept }

ends-eq : (e : Executor) → worker_ends e ≡ true → e.queued ≡ 0
unfolding worker_ends
ends-eq e h = ground (arith, h)

-- The state in which `executor_close` leaves the executor.
abbrev pub after_close : System → System
after_close s = record s { executor = executor_close s.executor }

after_close_refuses : (s : System) → (after_close s).executor.accepting ≡ false
unfolding executor_close
after_close_refuses s = refl

drained_iff :
    (s : System)
    → IsSystem s
    → s.executor.accepting ≡ false
    → (worker_ends s.executor ≡ true) ↔ (s.started_jobs ≡ s.accepted_jobs)
unfolding worker_ends
drained_iff s v h =
    let size = ap length v.fifo ∙ length-append s.started_jobs (waiting s.executor) in
    let left = length-waiting s.executor in
    (
      λ ends.
          let idle = waiting-none s.executor (ends-eq s.executor ends) in
          sym (append-nil s.started_jobs) ∙ ap (λ t. s.started_jobs ++ t) (sym idle) ∙ sym v.fifo,
      λ all_started.
          let idle : s.executor.queued ≡ 0 = omega (arith, size, left, ap length all_started) in
          ground (arith, h, idle),
    )

-- Whatever the threads do after `executor_close`, in a state that they reach from an executor that was
-- opened: the executor does not accept jobs, no job is accepted any more, the jobs that were accepted
-- are the started ones, in the order in which they were accepted, followed by the waiting ones, and
-- the workers end exactly when every accepted job has been started.
pub close-drains :
    (e : Executor) (s s' : System)
    → Opened e
    → Reaches (at_start e) s
    → Reaches (after_close s) s'
    → (s'.executor.accepting ≡ false)
      × (s'.accepted_jobs ≡ s.accepted_jobs)
      × (s.accepted_jobs ≡ s'.started_jobs ++ waiting s'.executor)
      × ((worker_ends s'.executor ≡ true) ↔ (s'.started_jobs ≡ s.accepted_jobs))
close-drains e s s' o before after =
    let v = Reaches-IsSystem (at_start e) s before (Opened-IsSystem e o) in
    let v1 = Step-IsSystem s (after_close s) closes v in
    let c = Reaches-IsClosed (after_close s) s' after v1 (after_close_refuses s) in
    let v' = Reaches-IsSystem (after_close s) s' after v1 in
    let (ends, started) = drained_iff s' v' c.closed in
    (c.closed, c.kept, sym c.kept ∙ v'.fifo, (λ h. ends h ∙ c.kept, λ h. started (h ∙ sym c.kept)))
