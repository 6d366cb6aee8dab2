-- ===== src/Jobs/Scheduler/Restoring.antt =====
-- core/jobs/src/lib.rs: the scheduler that starts with the unfinished jobs of a snapshot.
use pdf_platform.Jobs.Scheduler.Handlers.{add_tokens}
use pdf_platform.Jobs.Scheduler.{Scheduler, emit, fail_blocked, finish_job, push_ready, String}
use pdf_platform.Jobs.Graph.{JobSpec, push_dependants}
use pdf_platform.Jobs.Graph.Counts.{ids}
use pdf_platform.Jobs.Event.{JobEvent}
use pdf_platform.Jobs.Persistence.{JobSnapshot, PersistedJobState, PersistenceError}
use pdf_platform.Jobs.Persistence.Log.{load_latest}
use pdf_platform.Common.{
  ℕ, ◌&&◌, ◌>>=◌, Bool, List, Option, Result, [], if◌then◌else◌, err, false, length, ltb, none, ok,
  some, true, ◌||◌, ◌∷◌, ◌==◌,
}
use pdf_platform.Common.Map.{insert, lookup}
use pdf_platform.Common.Keys.{nat_eq}

pub data SchedulerError : Type 0 where
  zero_capacity : SchedulerError
  thread_spawn : String → SchedulerError
  persistence : PersistenceError → SchedulerError
  restore_exceeds_capacity : SchedulerError

-- `snapshot.state(id) == Some(Pending)`
unfoldable pub is_pending : List (ℕ × PersistedJobState) → ℕ → Bool
is_pending states id = elim (lookup id states) [
  | none ↦ false
  | some PersistedJobState.pending ↦ true
  | some _ ↦ false
]

-- `matches!(snapshot.state(id), Some(Failed | Cancelled))`
unfoldable pub is_lost : List (ℕ × PersistedJobState) → ℕ → Bool
is_lost states id = elim (lookup id states) [
  | none ↦ false
  | some PersistedJobState.failed ↦ true
  | some PersistedJobState.cancelled ↦ true
  | some _ ↦ false
]

unfoldable pub live_jobs : List (ℕ × PersistedJobState) → List JobSpec → List JobSpec
live_jobs states [] = []
live_jobs states (spec ∷ specs) =
    let rest = live_jobs states specs in if is_pending states spec.id then spec ∷ rest else rest

unfoldable pub pending_dependencies : List (ℕ × PersistedJobState) → List ℕ → List ℕ
pending_dependencies states [] = []
pending_dependencies states (id ∷ dependencies) =
    let rest = pending_dependencies states dependencies in
    if is_pending states id then id ∷ rest else rest

unfoldable pub any_lost : List (ℕ × PersistedJobState) → List ℕ → Bool
any_lost states [] = false
any_lost states (id ∷ dependencies) = is_lost states id || any_lost states dependencies

unfoldable pub check_capacity : ℕ → Option JobSnapshot → Result SchedulerError (Option JobSnapshot)
check_capacity capacity none = ok none
check_capacity capacity (some snapshot) =
    if ltb capacity (length (live_jobs snapshot.states snapshot.graph.jobs))
    then err restore_exceeds_capacity
    else ok (some snapshot)

unfoldable pub load_result : {A : Type 0} → Result PersistenceError A → Result SchedulerError A
load_result (ok a) = ok a
load_result (err e) = err (persistence e)

unfoldable pub load_persistent :
    (List ℕ → Bool) → ℕ → Option (List ℕ) → Result SchedulerError (Option JobSnapshot)
load_persistent is_utf8 capacity file =
    load_result (load_latest is_utf8 file) >>= λ found. check_capacity capacity found

-- The body of the loop over the jobs of the snapshot, for a job that is pending.
unfoldable pub restore_job : List (ℕ × PersistedJobState) → JobSpec → Scheduler → Scheduler
restore_job states spec s =
    let open_dependencies = pending_dependencies states spec.dependencies in
    let lost = any_lost states spec.dependencies in
    let linked = record s { dependants = push_dependants spec.id open_dependencies s.dependants } in
    let pushed =
      if lost
      then linked
      else if length open_dependencies == 0
      then push_ready spec.priority spec.id linked
      else linked in
    emit (JobEvent.queued spec.id) (record pushed {
      pending =
          insert spec.id
            (record {
              spec = spec;
              remaining = length open_dependencies;
              blocked = lost;
              crash_retries = 0;
            })
            pushed.pending;
    })

unfoldable pub restore_jobs : List (ℕ × PersistedJobState) → List JobSpec → Scheduler → Scheduler
restore_jobs states [] s = s
restore_jobs states (spec ∷ specs) s = elim (is_pending states spec.id) [
  | false ↦ restore_jobs states specs s
  | true ↦ restore_jobs states specs (restore_job states spec s)
]

-- The jobs that the loop finds blocked.
unfoldable pub blocked_jobs : List (ℕ × PersistedJobState) → List JobSpec → List ℕ
blocked_jobs states [] = []
blocked_jobs states (spec ∷ specs) =
    let rest = blocked_jobs states specs in
    if is_pending states spec.id && any_lost states spec.dependencies then spec.id ∷ rest else rest

-- The state in which `create` starts the loop with a snapshot.
unfoldable pub created : List ℕ → JobSnapshot → Scheduler
created file snapshot =
    let live = live_jobs snapshot.states snapshot.graph.jobs in
    record {
      pending = [];
      dependants = [];
      ready = [];
      sequence = 0;
      running = 0;
      shutting_down = false;
      durable =
          some (record { file = some file; jobs = snapshot.graph.jobs; states = snapshot.states });
      tokens = add_tokens live [];
      persistent_ids = some (ids snapshot.graph.jobs);
      reservations = length live;
      controls = [];
      events = [];
      sent = [];
    }

-- The scheduler when its loop begins.
unfoldable pub restored : List ℕ → JobSnapshot → Scheduler
restored file snapshot =
    fail_blocked (λ job s. finish_job job false s)
      (blocked_jobs snapshot.states snapshot.graph.jobs)
      (restore_jobs snapshot.states snapshot.graph.jobs (created file snapshot))
