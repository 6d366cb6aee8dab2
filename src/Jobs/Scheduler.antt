-- ===== src/Jobs/Scheduler.antt =====
-- core/jobs/src/lib.rs: the job scheduler. The maps, the heap of ready jobs, the tokens, the counter of
-- reservations and the channels are one state; an event sent is appended to `events`, work handed to
-- the workers to `sent`. Each handler is a function, and runs as a whole: no thread comes between
-- its locks. The worker threads are not modelled.
pub mod Handlers
pub mod Restoring
pub mod Restored
pub mod Accounts
pub mod Kept
pub mod Submitting
pub mod Steps
pub mod Dispatching
pub mod Fuel
pub mod Turns
mod Tests
use pdf_platform.Jobs.Graph.{
  JobGraph, JobPriority, JobSpec, new_graph, dependants_of, maintenance, user_initiated,
  interactive_adjacent,
}
use pdf_platform.Jobs.Persistence.{
  EncodeFailure, PersistedJobState, error, new_snapshot, graph_result, PersistenceError,
}
use pdf_platform.Jobs.Persistence.Log.{append_snapshot}
use pdf_platform.Jobs.Event.{JobEvent}
use pdf_platform.Common.Map.{insert, lookup, remove, has}
use pdf_platform.Common.Keys.{◌==◌, nat_eq}
use pdf_platform.Common.{
  ℕ, Bool, List, Option, Result, ◌%◌, ◌&&◌, ◌+◌, ◌++◌, ◌-◌, ◌>>=◌, [], ◌^◌, err, false, length, ltb,
  none, not, ok, some, suc, true, zero, ◌||◌, ◌∷◌,
}
use Prim.Native.String.{String}

pub data JobRunError : Type 0 where
  execution : String → JobRunError
  worker_crashed : String → JobRunError

pub data SubmitError : Type 0 where
  queue_full : SubmitError
  duplicate_job : ℕ → SubmitError
  closed : SubmitError

pub data Control : Type 0 where
  submit : JobGraph → Control
  shutdown : Control

pub record WorkDone : Type 0 where
  pub job : ℕ
  pub result : Result JobRunError (Unit {0})
  pub cancelled : Bool

pub record Ready : Type 0 where
  pub priority : JobPriority
  pub sequence : ℕ
  pub job : ℕ

pub record Pending : Type 0 where
  pub spec : JobSpec
  pub remaining : ℕ
  pub blocked : Bool
  pub crash_retries : ℕ

-- The path is the file there.
pub record DurableQueue : Type 0 where
  pub file : Option (List ℕ)
  pub jobs : List JobSpec
  pub states : List (ℕ × PersistedJobState)

pub record Scheduler : Type 0 where
  pub pending : List (ℕ × Pending)
  pub dependants : List (ℕ × List ℕ)
  pub ready : List Ready
  pub sequence : ℕ
  pub running : ℕ
  pub shutting_down : Bool
  pub durable : Option DurableQueue
  pub tokens : List (ℕ × Bool)
  pub persistent_ids : Option (List ℕ)
  pub reservations : ℕ
  pub controls : List Control
  pub events : List JobEvent
  pub sent : List JobSpec

unfoldable pub priority_rank : JobPriority → ℕ
priority_rank maintenance = 0
priority_rank user_initiated = 1
priority_rank interactive_adjacent = 2

-- `Ord for Ready`: whether the heap gives `a` before `b`.
unfoldable pub goes_first : Ready → Ready → Bool
goes_first a b =
    ltb (priority_rank b.priority) (priority_rank a.priority)
    || (priority_rank a.priority == priority_rank b.priority && ltb a.sequence b.sequence)

abbrev pub emit : JobEvent → Scheduler → Scheduler
emit event s = record s { events = s.events ++ event ∷ [] }

-- An error of the source's chain of results.
unfoldable pub lift {ℓ} : {A : Type ℓ} → Result PersistenceError A → Result EncodeFailure A
lift (ok a) = ok a
lift (err e) = err (error e)

-- `DurableQueue::checkpoint`: the file after it, or the failure.
unfoldable pub checkpoint_file : DurableQueue → Result EncodeFailure (List ℕ)
checkpoint_file queue = lift (graph_result (new_graph queue.jobs)) >>= λ graph.
    lift (new_snapshot graph queue.states) >>= λ snapshot. append_snapshot queue.file snapshot

unfoldable pub checkpoint : DurableQueue → Scheduler → Scheduler
checkpoint queue s = elim (checkpoint_file queue) [
  | ok bytes ↦ record s { durable = some (record queue { file = some bytes }) }
  | err e ↦ emit (JobEvent.persistence_failed e) (record s { durable = some queue })
]

-- `if let Some(queue) = durable.as_mut() { queue.states.insert(job, state); queue.checkpoint(events) }`
unfoldable pub set_state_in : Option DurableQueue → ℕ → PersistedJobState → Scheduler → Scheduler
set_state_in none job state s = s
set_state_in (some queue) job state s =
    checkpoint (record queue { states = insert job state queue.states }) s

unfoldable pub set_state : ℕ → PersistedJobState → Scheduler → Scheduler
set_state job state s = set_state_in s.durable job state s

-- `ready.push(..); sequence += 1`
unfoldable pub push_ready : JobPriority → ℕ → Scheduler → Scheduler
push_ready priority job s = record s {
  ready = s.ready ++ (record { priority = priority; sequence = s.sequence; job = job }) ∷ [];
  sequence = (s.sequence + 1) % 2 ^ 64;
}

-- What a finished dependency does to a job.
unfoldable pub release_next : Bool → Pending → Pending
release_next success next = record next {
  remaining = next.remaining - 1;
  blocked = next.blocked || not success;
}

-- The first loop of `finish_job`: the state after it and the jobs blocked.
unfoldable pub release_jobs : Bool → List ℕ → Scheduler → Scheduler × List ℕ
release_jobs success [] s = (s, [])
release_jobs success (dependant ∷ dependants) s = elim (lookup dependant s.pending) [
  | none ↦ release_jobs success dependants s
  | some old ↦
      let next = release_next success old in
      let kept = record s { pending = insert dependant next s.pending } in
      elim (next.remaining == 0) [
        | false ↦ release_jobs success dependants kept
        | true ↦ elim next.blocked [
          | true ↦ let rest = release_jobs success dependants kept in (rest.0, dependant ∷ rest.1)
          | false ↦ release_jobs success dependants (push_ready next.spec.priority dependant kept)
        ]
      ]
]

-- Its second loop, over the function that finishes a job.
unfoldable pub fail_blocked : (ℕ → Scheduler → Scheduler) → List ℕ → Scheduler → Scheduler
fail_blocked finish [] s = s
fail_blocked finish (dependant ∷ blocked) s = fail_blocked finish blocked (
    finish dependant (
      emit (JobEvent.failed dependant "dependency did not complete")
        (set_state dependant PersistedJobState.failed s)))

-- The job leaves the maps, and its reservation is given back.
unfoldable pub drop_job : ℕ → Scheduler → Scheduler
drop_job job s = record s {
  pending = remove job s.pending;
  tokens = remove job s.tokens;
  reservations = (s.reservations + (2 ^ 64 - 1)) % 2 ^ 64;
}

-- A nested call finds one pending job less.
unfoldable pub finish_on : ℕ → Bool → ℕ → Scheduler → Scheduler
finish_on zero success job s = s
finish_on (suc fuel) success job s = elim (has job s.pending) [
  | false ↦ s
  | true ↦
      let released = release_jobs success (dependants_of job s.dependants) (drop_job job s) in
      fail_blocked (finish_on fuel false) released.1 released.0
]

unfoldable pub finish_job : ℕ → Bool → Scheduler → Scheduler
finish_job job success s = finish_on (length s.pending) success job s
