-- ===== src/Jobs/Scheduler/Tests.antt =====
-- Runs of the job scheduler, and its theorems at concrete states.
use pdf_platform.Jobs.Scheduler.Turns.{loops_terminate}
use pdf_platform.Jobs.Persistence.{PersistedJobState}
use pdf_platform.Common.Map.{insert, lookup, remove}
use pdf_platform.Jobs.Graph.Counts.{ids}
use pdf_platform.Jobs.Scheduler.Dispatching.{pop_ready_lem, IsNoEarlier}
use pdf_platform.Jobs.Scheduler.Steps.{Reached-IsAccounted, initial, receives, step, submits}
use pdf_platform.Jobs.Scheduler.Accounts.{IsAccounted}
use pdf_platform.Common.Keys.{Distinct, contains, nat_eq}
use pdf_platform.Jobs.Scheduler.Handlers.{
  dispatch, new_scheduler, on_done, receive, submit_graph, accept, add_tokens, check_duplicate,
  dispatch_item, dispatch_on, end_event, end_state, find_live, on_control, pop_ready, queue_job,
  queue_jobs, receive_from, record_graph, reserve, settle, succeeded,
}
use pdf_platform.Jobs.Scheduler.{
  Scheduler, WorkDone, Pending, Ready, drop_job, fail_blocked, finish_job, finish_on, goes_first,
  priority_rank, push_ready, release_jobs, release_next, set_state, set_state_in,
}
use pdf_platform.Jobs.Graph.{
  JobGraph, JobSpec, depends_on, new_spec, maintenance, push_dependant, push_dependants,
  user_initiated,
}
use pdf_platform.Common.{
  ℕ, List, [], err, false, ok, ◌∷◌, ◌++◌, All, arith, none, refl, some, true, ◌≡◌, ◌+◌, length,
}

-- Job 1, and job 2 that depends on it.
abbrev two_jobs : JobGraph
two_jobs = record {
  jobs = new_spec 1 [] maintenance ∷ depends_on (new_spec 2 [] maintenance) 1 ∷ [];
}

abbrev submit_two : Scheduler → Scheduler
submit_two s = elim (submit_graph 4 two_jobs s) [ ok t ↦ t | err e ↦ s ]

abbrev succeeds : ℕ → WorkDone
succeeds job = record { job = job; result = ok tt; cancelled = false }

-- Submits the two jobs, runs job 1 and hands out what is ready then.
abbrev run_two : Scheduler → Scheduler
run_two s = dispatch 2 (on_done (succeeds 1) (dispatch 2 (receive (submit_two s))))

abbrev run_ids : List JobSpec → List ℕ
run_ids [] = []
run_ids (spec ∷ specs) = spec.id ∷ run_ids specs

-- Ids that are used again after their jobs ended make job 2 run twice in the second run.
second_run :
    run_ids (run_two (on_done (succeeds 2) (run_two (new_scheduler false)))).sent
    ≡ 1 ∷ 2 ∷ 1 ∷ 2 ∷ 2 ∷ []
unfolding submit_graph check_duplicate find_live reserve new_scheduler depends_on new_spec
    add_tokens insert contains dispatch dispatch_on dispatch_item on_done settle receive
    receive_from on_control accept queue_jobs queue_job record_graph push_ready pop_ready goes_first
    priority_rank finish_job finish_on drop_job release_jobs release_next fail_blocked set_state
    set_state_in succeeded end_state end_event push_dependants push_dependant lookup remove
second_run = refl

submit_two_ok :
    submit_graph 4 two_jobs (new_scheduler false) ≡ ok (submit_two (new_scheduler false))
unfolding submit_graph check_duplicate find_live reserve new_scheduler depends_on new_spec
    add_tokens insert contains
submit_two_ok = refl

two_jobs-Distinct : Distinct (ids two_jobs.jobs)
unfolding contains new_spec depends_on
two_jobs-Distinct = (refl, (refl, tt))

Reached-IsAccounted_example : IsAccounted 4 (receive (submit_two (new_scheduler false)))
Reached-IsAccounted_example =
    Reached-IsAccounted 4 (receive (submit_two (new_scheduler false))) (omega arith)
      (step (step (initial false) (submits two_jobs two_jobs-Distinct submit_two_ok)) receives)

abbrev early : Ready
early = record { priority = maintenance; sequence = 0; job = 5 }

abbrev urgent : Ready
urgent = record { priority = user_initiated; sequence = 1; job = 6 }

pop_early : pop_ready (early ∷ urgent ∷ []) ≡ some (urgent, early ∷ [])
unfolding pop_ready goes_first priority_rank
pop_early = refl

pop_ready_lem_example :
    (before : List Ready) × (after : List Ready) × (early ∷ urgent ∷ [] ≡ before ++ urgent ∷ after)
    × (early ∷ [] ≡ before ++ after)
    × All (λ r. IsNoEarlier r urgent) (early ∷ urgent ∷ [])
pop_ready_lem_example = pop_ready_lem (early ∷ urgent ∷ []) urgent (early ∷ []) pop_early

abbrev lone : Pending
lone = record {
  spec = new_spec 1 [] maintenance;
  remaining = 0;
  blocked = false;
  crash_retries = 0;
}

-- Job 1 is ready in a durable queue, and was cancelled.
abbrev cancelled_early : Scheduler
cancelled_early = record {
  pending = (1, lone) ∷ [];
  dependants = [];
  ready = [];
  sequence = 1;
  running = 0;
  shutting_down = false;
  durable = some (record {
    file = none;
    jobs = new_spec 1 [] maintenance ∷ [];
    states = (1, PersistedJobState.pending) ∷ [];
  });
  tokens = (1, true) ∷ [];
  persistent_ids = some (1 ∷ []);
  reservations = 1;
  controls = [];
  events = [];
  sent = [];
}

loops_terminate_example :
    (finish_on (length cancelled_early.pending + 3) true 1 cancelled_early
      ≡ finish_job 1 true cancelled_early)
    × (dispatch_on (length cancelled_early.ready + 3) 1 cancelled_early
        ≡ dispatch 1 cancelled_early)
loops_terminate_example = loops_terminate 3 1 1 true cancelled_early
