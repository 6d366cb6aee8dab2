-- ===== src/Jobs/Scheduler/Steps.antt =====
-- What the scheduler reaches, in any interleaving of its handlers and its clients (core/jobs/src/lib.rs).
use pdf_platform.Jobs.Scheduler.Restored.{restored-IsAccounted}
use pdf_platform.Jobs.Scheduler.Restoring.{restored, load_persistent}
use pdf_platform.Jobs.Persistence.{JobSnapshot}
use pdf_platform.Jobs.Scheduler.Submitting.{submit_graph-IsAccounted, waiting-append}
use pdf_platform.Jobs.Scheduler.Kept.{
  dispatch_on-IsAccounted, on_done-IsAccounted, receive-IsAccounted,
}
use pdf_platform.Jobs.Scheduler.Handlers.{
  cancel, dispatch, new_scheduler, on_done, receive, stop, submit_graph,
}
use pdf_platform.Jobs.Scheduler.{Scheduler, WorkDone, Control}
use pdf_platform.Jobs.Scheduler.Accounts.{IsAccounted, has_found, waiting, keys-insert_present}
use pdf_platform.Jobs.Graph.{JobGraph}
use pdf_platform.Jobs.Graph.Counts.{ids}
use pdf_platform.Common.{
  ℕ, ◌<◌, Bool, Option-cases, ◌^◌, arith, inl, inr, length, true, ◌≡◌, ok, refl, List, some,
}
use mathlib.Core.List.{append-nil}
use pdf_platform.Common.Map.{lookup}
use pdf_platform.Common.Keys.{contains, Distinct, nat_eq}

-- One step of the loop, or one call of a client.
pub data Step (capacity : ℕ) : Scheduler → Scheduler → Type 0 where
  finishes : {s : Scheduler} (d : WorkDone) → Step capacity s (on_done d s)
  receives : {s : Scheduler} → Step capacity s (receive s)
  dispatches : {s : Scheduler} (workers : ℕ) → Step capacity s (dispatch workers s)
  submits :
      {s t : Scheduler} (graph : JobGraph)
      → Distinct (ids graph.jobs)
      → submit_graph capacity graph s ≡ ok t
      → Step capacity s t
  cancels : {s : Scheduler} (job : ℕ) → Step capacity s (cancel job s).0
  stops : {s : Scheduler} → Step capacity s (stop s)

pub data Reached (capacity : ℕ) : Scheduler → Type 0 where
  initial : (persistent : Bool) → Reached capacity (new_scheduler persistent)
  restores :
      (is_utf8 : List ℕ → Bool) (file : List ℕ) (snapshot : JobSnapshot)
      → Distinct (ids snapshot.graph.jobs)
      → load_persistent is_utf8 capacity (some file) ≡ ok (some snapshot)
      → Reached capacity (restored file snapshot)
  step : {s t : Scheduler} → Reached capacity s → Step capacity s t → Reached capacity t

cancel-IsAccounted :
    (capacity job : ℕ) (s : Scheduler)
    → IsAccounted capacity s
    → IsAccounted capacity (cancel job s).0
unfolding cancel
cancel-IsAccounted capacity job s h = elim (Option-cases (lookup job s.tokens)) [
  | inl absent ↦ rw (cancel, absent) h
  | inr (flag, found) ↦
      rw (cancel, found, keys-insert_present job true s.tokens (has_found job s.tokens flag found))
        h
]

stop-IsAccounted :
    (capacity : ℕ) (s : Scheduler) → IsAccounted capacity s → IsAccounted capacity (stop s)
unfolding stop waiting
stop-IsAccounted capacity s h =
    rw (waiting-append s.controls Control.shutdown, append-nil (waiting s.controls)) h

Step-IsAccounted :
    (capacity : ℕ) (s t : Scheduler)
    → capacity < 2 ^ 64
    → Step capacity s t
    → IsAccounted capacity s
    → IsAccounted capacity t
unfolding dispatch
Step-IsAccounted capacity _ _ small (finishes {s} d) h =
    on_done-IsAccounted capacity d.job d.result d.cancelled s small h
Step-IsAccounted capacity _ _ small (receives {s}) h = receive-IsAccounted capacity s h
Step-IsAccounted capacity _ _ small (dispatches {s} workers) h =
    dispatch_on-IsAccounted capacity (length s.ready) workers s small h
Step-IsAccounted capacity _ _ small (submits {s} {t} graph d e) h =
    submit_graph-IsAccounted capacity graph s t small d e h
Step-IsAccounted capacity _ _ small (cancels {s} job) h = cancel-IsAccounted capacity job s h
Step-IsAccounted capacity _ _ small (stops {s}) h = stop-IsAccounted capacity s h

start-IsAccounted :
    (capacity : ℕ) (persistent : Bool) → IsAccounted capacity (new_scheduler persistent)
unfolding new_scheduler waiting contains
start-IsAccounted capacity persistent = record {
  pending_distinct = tt;
  live_distinct = tt;
  unseen_distinct = tt;
  counted = refl;
  bounded = omega arith;
  pending_live = λ id m. m;
  unseen_live = λ id m. m;
  apart = λ id m. refl;
}

-- Whatever the scheduler's loop and its clients do, in any order, from a new scheduler or one restored
-- from a log whose jobs have distinct ids, with a capacity below 2^64: the reservations are the
-- number of live jobs and never exceed the capacity, each live job has one token, and every pending
-- or submitted job is live.
pub Reached-IsAccounted :
    (capacity : ℕ) (s : Scheduler) → capacity < 2 ^ 64 → Reached capacity s → IsAccounted capacity s
Reached-IsAccounted capacity _ small (initial persistent) = start-IsAccounted capacity persistent
Reached-IsAccounted capacity _ small (restores is_utf8 file snapshot d loaded) =
    restored-IsAccounted is_utf8 capacity file snapshot small d loaded
Reached-IsAccounted capacity _ small (step {s} {t} r next) =
    Step-IsAccounted capacity s t small next (Reached-IsAccounted capacity s small r)
