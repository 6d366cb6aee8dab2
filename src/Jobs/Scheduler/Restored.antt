-- ===== src/Jobs/Scheduler/Restored.antt =====
-- The accounts of a scheduler that starts from a snapshot (core/jobs/src/lib.rs).
use pdf_platform.Jobs.Scheduler.Submitting.{submit_lem}
use pdf_platform.Jobs.Persistence.Log.{load_latest}
use pdf_platform.Jobs.Graph.Counts.{ids}
use pdf_platform.Jobs.Scheduler.Handlers.{find_live, add_tokens}
use pdf_platform.Jobs.Scheduler.Restoring.{
  any_lost, is_pending, live_jobs, load_persistent, load_result, pending_dependencies, restore_job,
  restore_jobs, restored, created, check_capacity,
}
use pdf_platform.Jobs.Scheduler.{Pending, Scheduler, finish_job, push_ready}
use pdf_platform.Jobs.Graph.{JobSpec}
use pdf_platform.Jobs.Scheduler.Kept.{IsPartly, queue_lem}
use pdf_platform.Jobs.Scheduler.Accounts.{
  Accounts, IsAccounted, fail_blocked-IsAccounted, finish_job-IsAccounted, waiting,
}
use pdf_platform.Jobs.Persistence.{JobSnapshot, PersistedJobState}
use pdf_platform.Common.{
  ℕ, ◌%◌, ◌+◌, ◌++◌, ◌<◌, Bool, Bool-cases, List, Result-cases, [], ◌^◌, arith, false, inl, inr,
  length, none, ok, refl, some, true, ◌∷◌, ◌≡◌, ◌≤◌, ◌==◌, Option, subst,
}
use pdf_platform.Common.Keys.{contains, Distinct, nat_eq}
use mathlib.Core.List.{append-nil}
use pdf_platform.Common.Map.{lookup, keys}

contains-live_jobs :
    (states : List (ℕ × PersistedJobState)) (jobs : List JobSpec) (id : ℕ)
    → contains id (ids (live_jobs states jobs)) ≡ true
    → contains id (ids jobs) ≡ true
unfolding live_jobs contains
contains-live_jobs states [] id m = ground arith
contains-live_jobs states (job ∷ jobs) id m = ground (arith, contains-live_jobs states jobs id)

live_jobs-Distinct :
    (states : List (ℕ × PersistedJobState)) (jobs : List JobSpec)
    → Distinct (ids jobs)
    → Distinct (ids (live_jobs states jobs))
unfolding live_jobs
live_jobs-Distinct states [] d = tt
live_jobs-Distinct states (job ∷ jobs) d =
    ground (arith, live_jobs-Distinct states jobs d.1, contains-live_jobs states jobs job.id, d.0)

restore_job-IsPartly :
    (capacity : ℕ) (states : List (ℕ × PersistedJobState)) (spec : JobSpec) (specs : List JobSpec)
    (s : Scheduler)
    → IsPartly capacity (spec ∷ specs) s
    → IsPartly capacity specs (restore_job states spec s)
unfolding restore_job push_ready
restore_job-IsPartly capacity states spec specs s h =
    let moved = λ (p : Pending).
      queue_lem capacity s.reservations spec p s.pending (keys s.tokens)
        (ids specs ++ waiting s.controls) h in
    elim (Bool-cases (any_lost states spec.dependencies)) [
      | inl lost ↦ rw (restore_job, lost) (moved _)
      | inr kept ↦ elim (Bool-cases (length (pending_dependencies states spec.dependencies) == 0)) [
        | inl free ↦ rw (restore_job, kept, free) (moved _)
        | inr bound ↦ rw (restore_job, kept, bound) (moved _)
      ]
    ]

restore_jobs-IsAccounted :
    (capacity : ℕ) (states : List (ℕ × PersistedJobState)) (specs : List JobSpec) (s : Scheduler)
    → IsPartly capacity (live_jobs states specs) s
    → IsAccounted capacity (restore_jobs states specs s)
unfolding restore_jobs live_jobs
restore_jobs-IsAccounted capacity states [] s h = h
restore_jobs-IsAccounted capacity states (spec ∷ specs) s h =
    elim (Bool-cases (is_pending states spec.id)) [
      | inl live ↦
          rw (restore_jobs, live)
            (restore_jobs-IsAccounted capacity states specs (restore_job states spec s)
              (restore_job-IsPartly capacity states spec (live_jobs states specs) s (rw live at h)))
      | inr ended ↦
          rw (restore_jobs, ended)
            (restore_jobs-IsAccounted capacity states specs s (rw ended at h))
    ]

nothing-IsAccounted : (capacity : ℕ) → Accounts capacity [] [] 0 []
unfolding contains
nothing-IsAccounted capacity = record {
  pending_distinct = tt;
  live_distinct = tt;
  unseen_distinct = tt;
  counted = refl;
  bounded = omega arith;
  pending_live = λ id m. m;
  unseen_live = λ id m. m;
  apart = λ id m. refl;
}

find_live-nothing : (jobs : List JobSpec) → find_live [] jobs ≡ none
unfolding find_live contains
find_live-nothing [] = refl
find_live-nothing (job ∷ jobs) = find_live-nothing jobs

check_capacity_ok :
    (capacity : ℕ) (found : Option JobSnapshot) (snapshot : JobSnapshot)
    → check_capacity capacity found ≡ ok (some snapshot)
    → length (live_jobs snapshot.states snapshot.graph.jobs) ≤ capacity
unfolding check_capacity
check_capacity_ok capacity none snapshot h = ground arith
check_capacity_ok capacity (some loaded) snapshot h =
    let same : loaded ≡ snapshot = ground arith in
    let room : length (live_jobs loaded.states loaded.graph.jobs) ≤ capacity = ground arith in
    subst (λ t. length (live_jobs t.states t.graph.jobs) ≤ capacity) same room

fits_capacity :
    (is_utf8 : List ℕ → Bool) (capacity : ℕ) (file : List ℕ) (snapshot : JobSnapshot)
    → load_persistent is_utf8 capacity (some file) ≡ ok (some snapshot)
    → length (live_jobs snapshot.states snapshot.graph.jobs) ≤ capacity
unfolding load_persistent load_result
fits_capacity is_utf8 capacity file snapshot h =
    elim (Result-cases (load_latest is_utf8 (some file))) [
      | inr (e, bad) ↦ ground arith
      | inl (found, loaded) ↦ check_capacity_ok capacity found snapshot (ground arith)
    ]

pub restored-IsAccounted :
    (is_utf8 : List ℕ → Bool) (capacity : ℕ) (file : List ℕ) (snapshot : JobSnapshot)
    → capacity < 2 ^ 64
    → Distinct (ids snapshot.graph.jobs)
    → load_persistent is_utf8 capacity (some file) ≡ ok (some snapshot)
    → IsAccounted capacity (restored file snapshot)
unfolding restored created waiting find_live lookup
restored-IsAccounted is_utf8 capacity file snapshot small d loaded =
    let live = live_jobs snapshot.states snapshot.graph.jobs in
    let room : length live ≤ capacity = fits_capacity is_utf8 capacity file snapshot loaded in
    let first =
      submit_lem capacity 0 live [] [] [] small
        (live_jobs-Distinct snapshot.states snapshot.graph.jobs d) (find_live-nothing live)
        (omega (arith, room)) (nothing-IsAccounted capacity) in
    let count : (0 + length live) % 2 ^ 64 ≡ length live = omega (arith, room) in
    let start : IsPartly capacity live (created file snapshot) =
      subst (λ n. Accounts capacity [] (keys (add_tokens live [])) n (ids live ++ [])) count
        (rw (append-nil (ids live)) first) in
    fail_blocked-IsAccounted capacity (λ job s. finish_job job false s) _ _
      (λ job s h. finish_job-IsAccounted capacity job false s small h)
      (restore_jobs-IsAccounted capacity snapshot.states snapshot.graph.jobs (created file snapshot)
        start)
