-- ===== src/Jobs/Scheduler/Handlers.antt =====
-- core/jobs/src/lib.rs: what the scheduler's loop does with the end of a job, a control message and the
-- ready jobs, and the calls of its clients. A send to the workers does not fail, since the loop
-- holds the receiver.
use pdf_platform.Jobs.Scheduler.{
  Control, DurableQueue, Pending, Ready, Scheduler, SubmitError, WorkDone, checkpoint, emit,
  execution, finish_job, goes_first, push_ready, queue_full, set_state, String, worker_crashed,
}
use pdf_platform.Jobs.Graph.{JobGraph, JobSpec, push_dependants}
use pdf_platform.Jobs.Event.{JobEvent}
use pdf_platform.Jobs.Persistence.{PersistedJobState}
use pdf_platform.Common.{
  ℕ, ◌%◌, ◌&&◌, ◌+◌, ◌++◌, ◌-◌, ◌>>=◌, Bool, List, Option, Result, [], ◌^◌, if◌then◌else◌, err,
  false, length, ltb, none, not, ok, some, suc, true, zero, ◌∷◌,
}
use pdf_platform.Common.Map.{insert, lookup, keys}
use pdf_platform.Common.Keys.{◌==◌, contains, nat_eq}

-- The event, and the state, of a job that has ended.
unfoldable pub end_event : WorkDone → JobEvent
end_event d = if d.cancelled then JobEvent.cancelled d.job else elim d.result [
  | ok u ↦ JobEvent.completed d.job
  | err (execution message) ↦ JobEvent.failed d.job message
  | err (worker_crashed message) ↦ JobEvent.failed d.job message
]

unfoldable pub succeeded : WorkDone → Bool
succeeded d = not d.cancelled && (elim d.result [ ok u ↦ true | err e ↦ false ])

unfoldable pub end_state : WorkDone → PersistedJobState
end_state d =
    if d.cancelled
    then PersistedJobState.cancelled
    else if succeeded d
    then PersistedJobState.completed
    else PersistedJobState.failed

unfoldable pub settle : WorkDone → Scheduler → Scheduler
settle d s = finish_job d.job (succeeded d) (set_state d.job (end_state d) (emit (end_event d) s))

-- A job whose worker was lost is retried once, when it is idempotent.
unfoldable pub may_retry : Pending → Bool
may_retry p = p.spec.idempotent && p.crash_retries == 0

unfoldable pub retry_job : ℕ → String → Pending → Scheduler → Scheduler
retry_job job message p s = set_state job PersistedJobState.pending (
    push_ready p.spec.priority job (
      emit (JobEvent.worker_crashed job true message)
        (record s { pending = insert job (record p { crash_retries = 1 }) s.pending })))

unfoldable pub on_crash : WorkDone → String → Scheduler → Scheduler
on_crash d message s =
    let given_up = settle d (emit (JobEvent.worker_crashed d.job false message) s) in
    elim (lookup d.job s.pending) [
      | none ↦ given_up
      | some p ↦ if may_retry p then retry_job d.job message p s else given_up
    ]

-- The body of the loop over `done_rx`.
unfoldable pub on_done : WorkDone → Scheduler → Scheduler
on_done d s =
    let s1 = record s { running = s.running - 1 } in
    if d.cancelled then settle d s1 else elim d.result [
      | ok u ↦ settle d s1
      | err (execution message) ↦ settle d s1
      | err (worker_crashed message) ↦ on_crash d message s1
    ]

-- The loop over a submitted graph for the durable queue.
unfoldable pub add_durable : List JobSpec → DurableQueue → DurableQueue
add_durable [] queue = queue
add_durable (spec ∷ specs) queue = add_durable specs (record queue {
  jobs = queue.jobs ++ spec ∷ [];
  states = insert spec.id PersistedJobState.pending queue.states;
})

unfoldable pub record_graph : Option DurableQueue → List JobSpec → Scheduler → Scheduler
record_graph none specs s = s
record_graph (some queue) specs s = checkpoint (add_durable specs queue) s

unfoldable pub queue_job : JobSpec → Scheduler → Scheduler
queue_job spec s =
    let told =
      emit (JobEvent.queued spec.id)
        (record s { dependants = push_dependants spec.id spec.dependencies s.dependants }) in
    let pushed =
      if length spec.dependencies == 0 then push_ready spec.priority spec.id told else told in
    record pushed {
      pending =
          insert spec.id
            (record {
              spec = spec;
              remaining = length spec.dependencies;
              blocked = false;
              crash_retries = 0;
            })
            pushed.pending;
    }

unfoldable pub queue_jobs : List JobSpec → Scheduler → Scheduler
queue_jobs [] s = s
queue_jobs (spec ∷ specs) s = queue_jobs specs (queue_job spec s)

unfoldable pub cancel_all : List (ℕ × Bool) → List (ℕ × Bool)
cancel_all [] = []
cancel_all ((id, flag) ∷ tokens) = (id, true) ∷ cancel_all tokens

unfoldable pub shut_down : Scheduler → Scheduler
shut_down s = record s { shutting_down = true; tokens = cancel_all s.tokens }

unfoldable pub accept : Bool → JobGraph → Scheduler → Scheduler
accept true graph s = s
accept false graph s = queue_jobs graph.jobs (record_graph s.durable graph.jobs s)

unfoldable pub on_control : Control → Scheduler → Scheduler
on_control (Control.submit graph) s = accept s.shutting_down graph s
on_control Control.shutdown s = shut_down s

-- The match on `controls.recv_timeout`, which gives the first message, or times out.
unfoldable pub receive_from : List Control → Scheduler → Scheduler
receive_from [] s = s
receive_from (control ∷ controls) s = on_control control (record s { controls = controls })

unfoldable pub receive : Scheduler → Scheduler
receive s = receive_from s.controls s

-- `ready.pop()`: the job that goes first, and the others.
unfoldable pub pop_ready : List Ready → Option (Ready × List Ready)
pop_ready [] = none
pop_ready (item ∷ items) = elim (pop_ready items) [
  | none ↦ some (item, [])
  | some (best, rest) ↦
      if goes_first best item then some (best, item ∷ rest) else some (item, items)
]

-- What the dispatch loop does with a job it took.
unfoldable pub dispatch_item : ℕ → Scheduler → Scheduler
dispatch_item job s = elim (lookup job s.pending) [
  | none ↦ s
  | some p ↦ elim (lookup job s.tokens) [
    | none ↦ s
    | some cancelled ↦
        if cancelled
        then finish_job job false (emit (JobEvent.cancelled job) s)
        else set_state job PersistedJobState.running
            (record s { sent = s.sent ++ p.spec ∷ []; running = s.running + 1 })
  ]
]

-- The `while running < workers.len()` loop, each turn of which takes a ready job.
unfoldable pub dispatch_on : ℕ → ℕ → Scheduler → Scheduler
dispatch_on zero workers s = s
dispatch_on (suc fuel) workers s = elim (ltb s.running workers) [
  | false ↦ s
  | true ↦ elim (pop_ready s.ready) [
    | none ↦ s
    | some (item, rest) ↦
        dispatch_on fuel workers (dispatch_item item.job (record s { ready = rest }))
  ]
]

-- On as many turns as there are ready jobs.
unfoldable pub dispatch : ℕ → Scheduler → Scheduler
dispatch workers s = dispatch_on (length s.ready) workers s

-- `reserve`, when no other thread changes the counter in between.
unfoldable pub reserve : ℕ → ℕ → ℕ → Result SubmitError ℕ
reserve current capacity amount =
    if ltb (capacity - current) amount then err queue_full else ok ((current + amount) % 2 ^ 64)

-- `jobs.iter().find(|job| live.contains(&job.id))`
unfoldable pub find_live : List ℕ → List JobSpec → Option ℕ
find_live live [] = none
find_live live (job ∷ jobs) = if contains job.id live then some job.id else find_live live jobs

unfoldable pub add_tokens : List JobSpec → List (ℕ × Bool) → List (ℕ × Bool)
add_tokens [] tokens = tokens
add_tokens (job ∷ jobs) tokens = add_tokens jobs (insert job.id false tokens)

unfoldable pub add_ids : List JobSpec → List ℕ → List ℕ
add_ids [] live = live
add_ids (job ∷ jobs) live = job.id ∷ add_ids jobs live

unfoldable pub check_duplicate : Option ℕ → Result SubmitError (Unit {0})
check_duplicate none = ok tt
check_duplicate (some job) = err (SubmitError.duplicate_job job)

-- `JobScheduler::submit`, while the scheduler's thread receives.
unfoldable pub submit_graph : ℕ → JobGraph → Scheduler → Result SubmitError Scheduler
submit_graph capacity graph s =
    check_duplicate (elim s.persistent_ids [ none ↦ none | some live ↦ find_live live graph.jobs ])
    >>= λ _. check_duplicate (find_live (keys s.tokens) graph.jobs) >>= λ _.
        reserve s.reservations capacity (length graph.jobs) >>= λ reserved. ok (record s {
          tokens = add_tokens graph.jobs s.tokens;
          reservations = reserved;
          persistent_ids = elim s.persistent_ids [
            | none ↦ none
            | some live ↦ some (add_ids graph.jobs live)
          ];
          controls = s.controls ++ Control.submit graph ∷ [];
        })

-- `JobScheduler::cancel`
unfoldable pub cancel : ℕ → Scheduler → Scheduler × Bool
cancel job s = elim (lookup job s.tokens) [
  | none ↦ (s, false)
  | some cancelled ↦ (record s { tokens = insert job true s.tokens }, true)
]

-- `shutdown` and `Drop`, up to the join.
unfoldable pub stop : Scheduler → Scheduler
stop s = record s { controls = s.controls ++ Control.shutdown ∷ [] }

-- A scheduler without a log, or with an empty one.
unfoldable pub new_scheduler : Bool → Scheduler
new_scheduler persistent = record {
  pending = [];
  dependants = [];
  ready = [];
  sequence = 0;
  running = 0;
  shutting_down = false;
  durable = if persistent then some (record { file = none; jobs = []; states = [] }) else none;
  tokens = [];
  persistent_ids = if persistent then some [] else none;
  reservations = 0;
  controls = [];
  events = [];
  sent = [];
}
