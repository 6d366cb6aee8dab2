-- ===== src/Jobs/Scheduler/Fuel.antt =====
-- The nesting of `finish_job` (core/jobs/src/lib.rs).
use pdf_platform.Jobs.Scheduler.{
  Pending, Scheduler, drop_job, emit, fail_blocked, finish_job, finish_on, release_jobs, set_state,
}
use pdf_platform.Jobs.Scheduler.Accounts.{IsSame, release_jobs-IsSame, set_state-IsSame}
use pdf_platform.Jobs.Event.{JobEvent}
use pdf_platform.Jobs.Persistence.{PersistedJobState}
use pdf_platform.Jobs.Graph.{dependants_of}
use pdf_platform.Common.{
  ℕ, ◌+◌, Bool, Bool-cases, List, [], ap, arith, false, inl, inr, length, min, refl, suc, sym, true,
  zero, ◌∙◌, ◌∷◌, ◌≡◌, ◌≤◌,
}
use pdf_platform.Common.Keys.{contains, nat_eq}
use pdf_platform.Common.Map.{has, keys, length-remove_present}

length-keys_pending : (m : List (ℕ × Pending)) → length (keys m) ≡ length m
length-keys_pending [] = refl
length-keys_pending (entry ∷ m) = ap suc (length-keys_pending m)

IsSame-length : (s t : Scheduler) → IsSame s t → length t.pending ≡ length s.pending
IsSame-length s t same =
    sym (length-keys_pending t.pending)
    ∙ ap length same.same_pending
    ∙ length-keys_pending s.pending

-- What a dependant's failure leaves before the nested call.
abbrev marked : ℕ → Scheduler → Scheduler
marked job s =
    emit (JobEvent.failed job "dependency did not complete")
      (set_state job PersistedJobState.failed s)

length-marked : (job : ℕ) (s : Scheduler) → length (marked job s).pending ≡ length s.pending
length-marked job s =
    IsSame-length s (set_state job PersistedJobState.failed s)
      (set_state-IsSame job PersistedJobState.failed s)

fail_blocked_shrinks :
    (finish : ℕ → Scheduler → Scheduler) (jobs : List ℕ) (s : Scheduler)
    → ((job : ℕ) (t : Scheduler) → length (finish job t).pending ≤ length t.pending)
    → length (fail_blocked finish jobs s).pending ≤ length s.pending
unfolding fail_blocked
fail_blocked_shrinks finish [] s h = omega arith
fail_blocked_shrinks finish (job ∷ jobs) s h = omega (
  arith,
  fail_blocked_shrinks finish jobs (finish job (marked job s)) h,
  h job (marked job s),
  length-marked job s,
)

-- What `finish_job` does to a pending job before its nested calls has one pending job less.
abbrev released : Bool → ℕ → Scheduler → Scheduler × List ℕ
released success job s = release_jobs success (dependants_of job s.dependants) (drop_job job s)

length-released :
    (success : Bool) (job : ℕ) (s : Scheduler)
    → has job s.pending ≡ true
    → length (released success job s).0.pending + 1 ≡ length s.pending
unfolding drop_job
length-released success job s there = omega (
  arith,
  IsSame-length (drop_job job s) (released success job s).0
      (release_jobs-IsSame success (dependants_of job s.dependants) (drop_job job s)),
  length-remove_present job s.pending there,
)

finish_on_shrinks :
    (fuel : ℕ) (success : Bool) (job : ℕ) (s : Scheduler)
    → length (finish_on fuel success job s).pending ≤ length s.pending
unfolding finish_on
finish_on_shrinks zero success job s = omega arith
finish_on_shrinks (suc fuel) success job s = elim (Bool-cases (has job s.pending)) [
  | inr absent ↦ rw (finish_on, absent) (omega arith)
  | inl there ↦
      let nested =
        fail_blocked_shrinks (finish_on fuel false) (released success job s).1
          (released success job s).0 (λ j t. finish_on_shrinks fuel false j t) in
      rw (finish_on, there) (omega (arith, nested, length-released success job s there))
]

fail_blocked_agree :
    (f g : ℕ → Scheduler → Scheduler) (n : ℕ) (jobs : List ℕ) (s : Scheduler)
    → ((job : ℕ) (t : Scheduler) → length t.pending ≤ n → f job t ≡ g job t)
    → ((job : ℕ) (t : Scheduler) → length (g job t).pending ≤ length t.pending)
    → length s.pending ≤ n
    → fail_blocked f jobs s ≡ fail_blocked g jobs s
unfolding fail_blocked
fail_blocked_agree f g n [] s same shrinks h = refl
fail_blocked_agree f g n (job ∷ jobs) s same shrinks h =
    let fits : length (marked job s).pending ≤ n = omega (arith, length-marked job s) in
    ap (fail_blocked f jobs) (same job (marked job s) fits)
    ∙ fail_blocked_agree f g n jobs (g job (marked job s)) same shrinks
        (omega (arith, shrinks job (marked job s), fits))

nothing_pending : (job : ℕ) (m : List (ℕ × Pending)) → length m ≤ 0 → has job m ≡ false
unfolding contains
nothing_pending job [] h = refl
nothing_pending job (entry ∷ m) h = ground arith

-- Any two amounts of fuel that cover the pending jobs give the same.
finish_on_agree :
    (a b : ℕ) (success : Bool) (job : ℕ) (s : Scheduler)
    → length s.pending ≤ a
    → length s.pending ≤ b
    → finish_on a success job s ≡ finish_on b success job s
unfolding finish_on
finish_on_agree zero zero success job s h k = refl
finish_on_agree zero (suc b) success job s h k =
    rw (finish_on, nothing_pending job s.pending h) refl
finish_on_agree (suc a) zero success job s h k =
    rw (finish_on, nothing_pending job s.pending k) refl
finish_on_agree (suc a) (suc b) success job s h k = elim (Bool-cases (has job s.pending)) [
  | inr absent ↦ rw (finish_on, absent) refl
  | inl there ↦
      let shorter = length-released success job s there in
      rw (finish_on, there)
        (fail_blocked_agree (finish_on a false) (finish_on b false) (min a b)
          (released success job s).1 (released success job s).0
          (λ j t f. finish_on_agree a b false j t (omega arith) (omega arith))
          (λ j t. finish_on_shrinks b false j t) (omega (arith, shorter)))
]

-- `finish_job` needs no more nesting than there are pending jobs: with more fuel it does the same.
pub finish_job_terminates :
    (extra : ℕ) (success : Bool) (job : ℕ) (s : Scheduler)
    → finish_on (length s.pending + extra) success job s ≡ finish_job job success s
unfolding finish_job
finish_job_terminates extra success job s =
    finish_on_agree (length s.pending + extra) (length s.pending) success job s (omega arith)
      (omega arith)
