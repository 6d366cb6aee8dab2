-- ===== src/Jobs/Scheduler/Turns.antt =====
-- The turns of the dispatch loop (core/jobs/src/lib.rs).
use pdf_platform.Jobs.Scheduler.Dispatching.{pop_ready_lem}
use pdf_platform.Jobs.Scheduler.Fuel.{finish_job_terminates}
use pdf_platform.Jobs.Scheduler.Handlers.{dispatch_item, dispatch_on, pop_ready, dispatch}
use pdf_platform.Jobs.Scheduler.{
  DurableQueue, Ready, Scheduler, checkpoint, checkpoint_file, drop_job, emit, fail_blocked,
  finish_job, finish_on, release_jobs, release_next, set_state, set_state_in, Pending,
}
use pdf_platform.Jobs.Event.{JobEvent}
use pdf_platform.Jobs.Persistence.{PersistedJobState}
use pdf_platform.Jobs.Graph.{dependants_of}
use pdf_platform.Common.{
  ℕ, ◌+◌, Bool-cases, List, Option, Option-cases, Result-cases, [], arith, false, inl, inr, length,
  length-append, none, refl, some, suc, true, zero, ◌∙◌, ◌∷◌, ◌≡◌, ◌≤◌, ltb, sym, ◌==◌, Bool,
}
use pdf_platform.Common.Keys.{nat_eq}
use pdf_platform.Common.Map.{has, lookup, insert}

checkpoint_ready : (queue : DurableQueue) (s : Scheduler) → (checkpoint queue s).ready ≡ s.ready
unfolding checkpoint
checkpoint_ready queue s = elim (Result-cases (checkpoint_file queue)) [
  | inl (bytes, fine) ↦ rw (checkpoint, fine) refl
  | inr (e, bad) ↦ rw (checkpoint, bad) refl
]

set_state_in_ready :
    (durable : Option DurableQueue) (job : ℕ) (state : PersistedJobState) (s : Scheduler)
    → (set_state_in durable job state s).ready ≡ s.ready
unfolding set_state_in
set_state_in_ready none job state s = refl
set_state_in_ready (some queue) job state s = checkpoint_ready _ s

set_state_ready :
    (job : ℕ) (state : PersistedJobState) (s : Scheduler) → (set_state job state s).ready ≡ s.ready
unfolding set_state
set_state_ready job state s = set_state_in_ready s.durable job state s

failed_blocks : (old : Pending) → (release_next false old).blocked ≡ true
unfolding release_next
failed_blocks old = ground arith

-- A job that did not succeed makes no job ready.
release_jobs_ready : (jobs : List ℕ) (s : Scheduler) → (release_jobs false jobs s).0.ready ≡ s.ready
unfolding release_jobs
release_jobs_ready [] s = refl
release_jobs_ready (job ∷ jobs) s = elim (Option-cases (lookup job s.pending)) [
  | inl absent ↦ rw (release_jobs, absent) (release_jobs_ready jobs s)
  | inr (old, found) ↦
      let next = release_next false old in
      let rest = release_jobs_ready jobs (record s { pending = insert job next s.pending }) in
      elim (Bool-cases (next.remaining == 0)) [
        | inl last ↦ rw (release_jobs, found, last, failed_blocks old) rest
        | inr more ↦ rw (release_jobs, found, more) rest
      ]
]

fail_blocked_ready :
    (finish : ℕ → Scheduler → Scheduler) (jobs : List ℕ) (s : Scheduler)
    → ((job : ℕ) (t : Scheduler) → (finish job t).ready ≡ t.ready)
    → (fail_blocked finish jobs s).ready ≡ s.ready
unfolding fail_blocked
fail_blocked_ready finish [] s h = refl
fail_blocked_ready finish (job ∷ jobs) s h =
    let after =
      emit (JobEvent.failed job "dependency did not complete")
        (set_state job PersistedJobState.failed s) in
    fail_blocked_ready finish jobs (finish job after) h
    ∙ h job after
    ∙ set_state_ready job PersistedJobState.failed s

finish_on_ready : (fuel job : ℕ) (s : Scheduler) → (finish_on fuel false job s).ready ≡ s.ready
unfolding finish_on drop_job
finish_on_ready zero job s = refl
finish_on_ready (suc fuel) job s = elim (Bool-cases (has job s.pending)) [
  | inr absent ↦ rw (finish_on, absent) refl
  | inl there ↦
      rw (finish_on, there)
        (fail_blocked_ready (finish_on fuel false) _ _ (λ j t. finish_on_ready fuel j t)
          ∙ release_jobs_ready (dependants_of job s.dependants) (drop_job job s))
]

dispatch_item_ready : (job : ℕ) (s : Scheduler) → (dispatch_item job s).ready ≡ s.ready
unfolding dispatch_item finish_job
dispatch_item_ready job s = elim (Option-cases (lookup job s.pending)) [
  | inl absent ↦ rw (dispatch_item, absent) refl
  | inr (p, found) ↦ elim (Option-cases (lookup job s.tokens)) [
    | inl absent ↦ rw (dispatch_item, found, absent) refl
    | inr (true, live) ↦
        rw (dispatch_item, found, live)
          (finish_on_ready (length s.pending) job (emit (JobEvent.cancelled job) s))
    | inr (false, live) ↦
        rw (dispatch_item, found, live) (set_state_ready job PersistedJobState.running _)
  ]
]

pop_ready_shorter :
    (items : List Ready) (item : Ready) (rest : List Ready)
    → pop_ready items ≡ some (item, rest)
    → length rest + 1 ≡ length items
pop_ready_shorter items item rest h =
    let (before, after, whole, kept, first) = pop_ready_lem items item rest h in
    rw (whole, kept)
      (omega (arith, length-append before (item ∷ after), length-append before after))

nothing_ready : (items : List Ready) → length items ≤ 0 → pop_ready items ≡ none
unfolding pop_ready
nothing_ready [] h = refl
nothing_ready (item ∷ items) h = ground arith

-- Without ready jobs the loop does nothing, whatever its fuel.
dispatch_on_idle :
    (fuel workers : ℕ) (s : Scheduler) → length s.ready ≤ 0 → dispatch_on fuel workers s ≡ s
unfolding dispatch_on
dispatch_on_idle zero workers s h = refl
dispatch_on_idle (suc fuel) workers s h = elim (Bool-cases (ltb s.running workers)) [
  | inr full ↦ rw (dispatch_on, full) refl
  | inl free ↦ rw (dispatch_on, free, nothing_ready s.ready h) refl
]

dispatch_on_agree :
    (a b workers : ℕ) (s : Scheduler)
    → length s.ready ≤ a
    → length s.ready ≤ b
    → dispatch_on a workers s ≡ dispatch_on b workers s
unfolding dispatch_on
dispatch_on_agree zero b workers s h k = sym (dispatch_on_idle b workers s h)
dispatch_on_agree (suc a) zero workers s h k = dispatch_on_idle (suc a) workers s k
dispatch_on_agree (suc a) (suc b) workers s h k = elim (Bool-cases (ltb s.running workers)) [
  | inr full ↦ rw (dispatch_on, full) refl
  | inl free ↦ elim (Option-cases (pop_ready s.ready)) [
    | inl nothing ↦ rw (dispatch_on, free, nothing) refl
    | inr ((item, rest), popped) ↦
        let next = dispatch_item item.job (record s { ready = rest }) in
        let left : length next.ready + 1 ≡ length s.ready =
          rw (dispatch_item_ready item.job (record s { ready = rest }))
            (pop_ready_shorter s.ready item rest popped) in
        rw (dispatch_on, free, popped)
          (dispatch_on_agree a b workers next (omega (arith, left)) (omega (arith, left)))
  ]
]

-- The dispatch loop takes no more turns than there are ready jobs: with more fuel it does the same.
dispatch_terminates :
    (extra workers : ℕ) (s : Scheduler)
    → dispatch_on (length s.ready + extra) workers s ≡ dispatch workers s
unfolding dispatch
dispatch_terminates extra workers s =
    dispatch_on_agree (length s.ready + extra) (length s.ready) workers s (omega arith)
      (omega arith)

-- `finish_job` needs no more nesting than there are pending jobs, and the dispatch loop no more turns
-- than there are ready jobs: with more fuel they do the same.
pub loops_terminate :
    (extra workers job : ℕ) (success : Bool) (s : Scheduler)
    → (finish_on (length s.pending + extra) success job s ≡ finish_job job success s)
      × (dispatch_on (length s.ready + extra) workers s ≡ dispatch workers s)
loops_terminate extra workers job success s =
    (finish_job_terminates extra success job s, dispatch_terminates extra workers s)
