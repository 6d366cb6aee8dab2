-- ===== src/Jobs/Scheduler/Kept.antt =====
-- The scheduler's accounts under the handlers of its loop (core/jobs/src/lib.rs).
use pdf_platform.Jobs.Scheduler.Handlers.{
  end_event, end_state, may_retry, on_crash, on_done, queue_job, queue_jobs, receive, retry_job,
  settle, succeeded, add_durable, cancel_all, dispatch_item, dispatch_on, on_control, pop_ready,
  record_graph, shut_down, accept, receive_from,
}
use pdf_platform.Jobs.Scheduler.{
  JobRunError, Pending, Scheduler, WorkDone, emit, execution, push_ready, set_state, String,
  Control, DurableQueue, worker_crashed,
}
use pdf_platform.Jobs.Scheduler.Accounts.{
  Accounts, IsAccounted, IsSame-IsAccounted, finish_job-IsAccounted, has_found, keep-IsSame,
  push_ready-IsSame, set_state-IsSame, waiting, IsSame, checkpoint-IsSame,
}
use pdf_platform.Jobs.Graph.{JobGraph, JobSpec}
use pdf_platform.Jobs.Graph.Counts.{ids}
use pdf_platform.Jobs.Persistence.{PersistedJobState}
use pdf_platform.Jobs.Event.{JobEvent}
use pdf_platform.Common.{
  ℕ, ◌++◌, ◌-◌, ◌<◌, ==_iff, Bool, Bool-cases, List, Option-cases, Result, [], ◌^◌, arith, err,
  false, inl, inr, length, true, ◌∷◌, ◌≡◌, ok, ◌+◌, Option, ap, ltb, none, refl, some, suc, zero,
}
use pdf_platform.Common.Map.{insert, lookup, has, contains-keys-insert, insert-Distinct, keys}
use pdf_platform.Common.Keys.{◌==◌, contains, ==_refl, nat_eq}

settle-IsAccounted :
    (capacity : ℕ) (d : WorkDone) (s : Scheduler)
    → capacity < 2 ^ 64
    → IsAccounted capacity s
    → IsAccounted capacity (settle d s)
unfolding settle
settle-IsAccounted capacity d s small h =
    let told = emit (end_event d) s in
    let marked = set_state d.job (end_state d) told in
    finish_job-IsAccounted capacity d.job (succeeded d) marked small
      (IsSame-IsAccounted capacity told marked (set_state-IsSame d.job (end_state d) told) h)

retry_job-IsAccounted :
    (capacity job : ℕ) (message : String) (p : Pending) (s : Scheduler)
    → has job s.pending ≡ true
    → IsAccounted capacity s
    → IsAccounted capacity (retry_job job message p s)
unfolding retry_job
retry_job-IsAccounted capacity job message p s there h =
    let kept = record s { pending = insert job (record p { crash_retries = 1 }) s.pending } in
    let told = emit (JobEvent.worker_crashed job true message) kept in
    let pushed = push_ready p.spec.priority job told in
    IsSame-IsAccounted capacity pushed _ (set_state-IsSame job PersistedJobState.pending pushed) (
      IsSame-IsAccounted capacity told pushed (push_ready-IsSame p.spec.priority job told) (
        IsSame-IsAccounted capacity s kept
          (keep-IsSame job (record p { crash_retries = 1 }) s there) h))

on_crash-IsAccounted :
    (capacity : ℕ) (d : WorkDone) (message : String) (s : Scheduler)
    → capacity < 2 ^ 64
    → IsAccounted capacity s
    → IsAccounted capacity (on_crash d message s)
unfolding on_crash
on_crash-IsAccounted capacity d message s small h =
    let told = emit (JobEvent.worker_crashed d.job false message) s in
    let given_up = settle-IsAccounted capacity d told small h in
    elim (Option-cases (lookup d.job s.pending)) [
      | inl absent ↦ rw (on_crash, absent) given_up
      | inr (p, found) ↦ elim (Bool-cases (may_retry p)) [
        | inl again ↦
            rw (on_crash, found, again)
              (retry_job-IsAccounted capacity d.job message p s (has_found d.job s.pending p found)
                h)
        | inr last ↦ rw (on_crash, found, last) given_up
      ]
    ]

pub on_done-IsAccounted :
    (capacity : ℕ) (job : ℕ) (result : Result JobRunError (Unit {0})) (cancelled : Bool)
    (s : Scheduler)
    → capacity < 2 ^ 64
    → IsAccounted capacity s
    → IsAccounted capacity
        (on_done (record { job = job; result = result; cancelled = cancelled }) s)
unfolding on_done
on_done-IsAccounted capacity job result true s small h =
    settle-IsAccounted capacity _ (record s { running = s.running - 1 }) small h
on_done-IsAccounted capacity job (ok u) false s small h =
    settle-IsAccounted capacity _ (record s { running = s.running - 1 }) small h
on_done-IsAccounted capacity job (err (execution message)) false s small h =
    settle-IsAccounted capacity _ (record s { running = s.running - 1 }) small h
on_done-IsAccounted capacity job (err (worker_crashed message)) false s small h =
    on_crash-IsAccounted capacity _ message (record s { running = s.running - 1 }) small h

-- A received job goes from the unseen to the pending ones.
pub queue_lem :
    (capacity reserved : ℕ) (job : JobSpec) (p : Pending) (held : List (ℕ × Pending))
    (live unseen : List ℕ)
    → Accounts capacity (keys held) live reserved (job.id ∷ unseen)
    → Accounts capacity (keys (insert job.id p held)) live reserved unseen
unfolding contains
queue_lem capacity reserved job p held live unseen h =
    let self : (job.id == job.id) ≡ true = ==_refl job.id in
    let there : contains job.id live ≡ true = ground (arith, h.unseen_live job.id) in
    record {
      pending_distinct = insert-Distinct job.id p held h.pending_distinct;
      live_distinct = h.live_distinct;
      unseen_distinct = h.unseen_distinct.1;
      counted = h.counted;
      bounded = h.bounded;
      pending_live = λ id m. ground (
        arith,
        h.pending_live id,
        contains-keys-insert id job.id p held,
        ==_iff job.id id,
        there,
      );
      unseen_live = λ id m. ground (arith, h.unseen_live id);
      apart = λ id m. ground (
        arith,
        h.apart id,
        contains-keys-insert id job.id p held,
        ==_iff job.id id,
        h.unseen_distinct.0,
      );
    }

abbrev pub IsPartly : ℕ → List JobSpec → Scheduler → Type 0
IsPartly capacity specs s =
    Accounts capacity (keys s.pending) (keys s.tokens) s.reservations
      (ids specs ++ waiting s.controls)

queue_job-IsPartly :
    (capacity : ℕ) (spec : JobSpec) (specs : List JobSpec) (s : Scheduler)
    → IsPartly capacity (spec ∷ specs) s
    → IsPartly capacity specs (queue_job spec s)
unfolding queue_job push_ready
queue_job-IsPartly capacity spec specs s h = elim (Bool-cases (length spec.dependencies == 0)) [
  | inl free ↦
      rw (queue_job, free)
        (queue_lem capacity s.reservations spec _ s.pending (keys s.tokens)
          (ids specs ++ waiting s.controls) h)
  | inr bound ↦
      rw (queue_job, bound)
        (queue_lem capacity s.reservations spec _ s.pending (keys s.tokens)
          (ids specs ++ waiting s.controls) h)
]

queue_jobs-IsAccounted :
    (capacity : ℕ) (specs : List JobSpec) (s : Scheduler)
    → IsPartly capacity specs s
    → IsAccounted capacity (queue_jobs specs s)
unfolding queue_jobs
queue_jobs-IsAccounted capacity [] s h = h
queue_jobs-IsAccounted capacity (spec ∷ specs) s h =
    queue_jobs-IsAccounted capacity specs (queue_job spec s)
      (queue_job-IsPartly capacity spec specs s h)

record_graph-IsSame :
    (durable : Option DurableQueue) (specs : List JobSpec) (s : Scheduler)
    → IsSame s (record_graph durable specs s)
unfolding record_graph
record_graph-IsSame none specs s = record {
  same_pending = refl;
  same_tokens = refl;
  same_reservations = refl;
  same_controls = refl;
}
record_graph-IsSame (some queue) specs s = checkpoint-IsSame (add_durable specs queue) s

keys-cancel_all : (tokens : List (ℕ × Bool)) → keys (cancel_all tokens) ≡ keys tokens
unfolding cancel_all
keys-cancel_all [] = refl
keys-cancel_all ((id, flag) ∷ tokens) = ap (◌∷◌ id) (keys-cancel_all tokens)

-- Submissions that are dropped leave their tokens, and nothing else, behind.
forget_lem :
    (capacity reserved : ℕ) (held live dropped unseen : List ℕ)
    → Accounts capacity held live reserved (dropped ++ unseen)
    → Accounts capacity held live reserved unseen
unfolding contains
forget_lem capacity reserved held live [] unseen h = h
forget_lem capacity reserved held live (id ∷ dropped) unseen h =
    forget_lem capacity reserved held live dropped unseen (record {
      pending_distinct = h.pending_distinct;
      live_distinct = h.live_distinct;
      unseen_distinct = h.unseen_distinct.1;
      counted = h.counted;
      bounded = h.bounded;
      pending_live = h.pending_live;
      unseen_live = λ k m. ground (arith, h.unseen_live k);
      apart = λ k m. ground (arith, h.apart k);
    })

accept-IsAccounted :
    (capacity : ℕ) (ending : Bool) (graph : JobGraph) (s : Scheduler)
    → IsPartly capacity graph.jobs s
    → IsAccounted capacity (accept ending graph s)
unfolding accept
accept-IsAccounted capacity true graph s h =
    forget_lem capacity s.reservations (keys s.pending) (keys s.tokens) (ids graph.jobs)
      (waiting s.controls) h
accept-IsAccounted capacity false graph s h =
    let noted = record_graph s.durable graph.jobs s in
    let same = record_graph-IsSame s.durable graph.jobs s in
    queue_jobs-IsAccounted capacity graph.jobs noted
      (rw (same.same_pending, same.same_tokens, same.same_reservations, same.same_controls) h)

on_control-IsAccounted :
    (capacity : ℕ) (control : Control) (s : Scheduler)
    → Accounts capacity
        (keys s.pending)
        (keys s.tokens)
        s.reservations
        (waiting (control ∷ s.controls))
    → IsAccounted capacity (on_control control s)
unfolding on_control waiting shut_down
on_control-IsAccounted capacity (Control.submit graph) s h =
    accept-IsAccounted capacity s.shutting_down graph s h
on_control-IsAccounted capacity Control.shutdown s h = rw (keys-cancel_all s.tokens) h

receive_from-IsAccounted :
    (capacity : ℕ) (controls : List Control) (s : Scheduler)
    → IsAccounted capacity s
    → Accounts capacity (keys s.pending) (keys s.tokens) s.reservations (waiting controls)
    → IsAccounted capacity (receive_from controls s)
unfolding receive_from
receive_from-IsAccounted capacity [] s h first = h
receive_from-IsAccounted capacity (control ∷ controls) s h first =
    on_control-IsAccounted capacity control (record s { controls = controls }) first

pub receive-IsAccounted :
    (capacity : ℕ) (s : Scheduler) → IsAccounted capacity s → IsAccounted capacity (receive s)
unfolding receive
receive-IsAccounted capacity s h = receive_from-IsAccounted capacity s.controls s h h

dispatch_item-IsAccounted :
    (capacity job : ℕ) (s : Scheduler)
    → capacity < 2 ^ 64
    → IsAccounted capacity s
    → IsAccounted capacity (dispatch_item job s)
unfolding dispatch_item
dispatch_item-IsAccounted capacity job s small h = elim (Option-cases (lookup job s.pending)) [
  | inl absent ↦ rw (dispatch_item, absent) h
  | inr (p, found) ↦ elim (Option-cases (lookup job s.tokens)) [
    | inl absent ↦ rw (dispatch_item, found, absent) h
    | inr (flag, live) ↦ elim (Bool-cases flag) [
      | inl cancelled ↦
          rw (dispatch_item, found, live, cancelled)
            (finish_job-IsAccounted capacity job false (emit (JobEvent.cancelled job) s) small h)
      | inr kept ↦
          let handed = record s { sent = s.sent ++ p.spec ∷ []; running = s.running + 1 } in
          rw (dispatch_item, found, live, kept)
            (IsSame-IsAccounted capacity handed _
              (set_state-IsSame job PersistedJobState.running handed) h)
    ]
  ]
]

pub dispatch_on-IsAccounted :
    (capacity fuel workers : ℕ) (s : Scheduler)
    → capacity < 2 ^ 64
    → IsAccounted capacity s
    → IsAccounted capacity (dispatch_on fuel workers s)
unfolding dispatch_on
dispatch_on-IsAccounted capacity zero workers s small h = h
dispatch_on-IsAccounted capacity (suc fuel) workers s small h =
    elim (Bool-cases (ltb s.running workers)) [
      | inr full ↦ rw (dispatch_on, full) h
      | inl free ↦ elim (Option-cases (pop_ready s.ready)) [
        | inl nothing ↦ rw (dispatch_on, free, nothing) h
        | inr ((item, rest), popped) ↦
            rw (dispatch_on, free, popped)
              (dispatch_on-IsAccounted capacity fuel workers
                (dispatch_item item.job (record s { ready = rest })) small
                (dispatch_item-IsAccounted capacity item.job (record s { ready = rest }) small h))
      ]
    ]
