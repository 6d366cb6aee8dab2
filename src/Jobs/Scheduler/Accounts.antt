-- ===== src/Jobs/Scheduler/Accounts.antt =====
-- The accounts of the job scheduler: its tokens, reservations and pending jobs (core/jobs/src/lib.rs).
use pdf_platform.Jobs.Event.{JobEvent}
use pdf_platform.Jobs.Graph.{JobPriority, dependants_of}
use pdf_platform.Jobs.Scheduler.{
  Control, DurableQueue, Pending, Scheduler, checkpoint, checkpoint_file, push_ready, release_jobs,
  release_next, set_state, drop_job, emit, fail_blocked, finish_job, finish_on, set_state_in,
}
use pdf_platform.Jobs.Graph.Counts.{ids}
use pdf_platform.Jobs.Persistence.{PersistedJobState}
use pdf_platform.Common.{
  ℕ, ◌++◌, ==_iff, Bool, Bool-cases, List, Option-cases, Result-cases, [], ap, arith, false, inl,
  inr, length, refl, sym, true, ◌∙◌, ◌∷◌, ◌≡◌, ◌≤◌, ◌%◌, ◌+◌, ◌-◌, ◌<◌, ◌^◌, some, suc, zero,
  Option, none,
}
use pdf_platform.Common.Map.{insert, lookup, has, keys, keys-remove, lookup_absent}
use pdf_platform.Common.Keys.{
  ◌==◌, contains, Distinct, nat_eq, contains-retain_ne, length-retain_ne, retain_ne,
  retain_ne-Distinct,
}

-- The ids of the submissions that the loop has not received.
unfoldable pub waiting : List Control → List ℕ
waiting [] = []
waiting (Control.submit graph ∷ controls) = ids graph.jobs ++ waiting controls
waiting (Control.shutdown ∷ controls) = waiting controls

-- Each live job has one token and one reservation, and the reservations keep within the capacity. A
-- pending job is live, and so is one that waits to be received; no job is both.
pub record Accounts (capacity : ℕ) (held live : List ℕ) (reserved : ℕ) (unseen : List ℕ)
    : Type 0 where
  pub pending_distinct : Distinct held
  pub live_distinct : Distinct live
  pub unseen_distinct : Distinct unseen
  pub counted : reserved ≡ length live
  pub bounded : reserved ≤ capacity
  pub pending_live : (id : ℕ) → contains id held ≡ true → contains id live ≡ true
  pub unseen_live : (id : ℕ) → contains id unseen ≡ true → contains id live ≡ true
  pub apart : (id : ℕ) → contains id unseen ≡ true → contains id held ≡ false

abbrev pub IsAccounted : ℕ → Scheduler → Type 0
IsAccounted capacity s =
    Accounts capacity (keys s.pending) (keys s.tokens) s.reservations (waiting s.controls)

-- What no account depends on has changed.
pub record IsSame (s t : Scheduler) : Type 0 where
  pub same_pending : keys t.pending ≡ keys s.pending
  pub same_tokens : keys t.tokens ≡ keys s.tokens
  pub same_reservations : t.reservations ≡ s.reservations
  pub same_controls : t.controls ≡ s.controls

pub IsSame-IsAccounted :
    (capacity : ℕ) (s t : Scheduler) → IsSame s t → IsAccounted capacity s → IsAccounted capacity t
IsSame-IsAccounted capacity s t same h =
    rw (same.same_pending, same.same_tokens, same.same_reservations, same.same_controls) h

pub IsSame-join : (s t u : Scheduler) → IsSame s t → IsSame t u → IsSame s u
IsSame-join s t u a b = record {
  same_pending = b.same_pending ∙ a.same_pending;
  same_tokens = b.same_tokens ∙ a.same_tokens;
  same_reservations = b.same_reservations ∙ a.same_reservations;
  same_controls = b.same_controls ∙ a.same_controls;
}

pub keys-insert_present :
    {V : Type 0} (k : ℕ) (v : V) (m : List (ℕ × V)) → has k m ≡ true → keys (insert k v m) ≡ keys m
unfolding contains insert
keys-insert_present k v [] h = cc
keys-insert_present k v ((i, w) ∷ m) h = elim (Bool-cases (i == k)) [
  | inl here ↦ rw here (ap (λ j. j ∷ keys m) (sym ((==_iff i k).0 here)))
  | inr other ↦ rw other (ap (◌∷◌ i) (keys-insert_present k v m (ground arith)))
]

pub checkpoint-IsSame : (queue : DurableQueue) (s : Scheduler) → IsSame s (checkpoint queue s)
unfolding checkpoint
checkpoint-IsSame queue s = elim (Result-cases (checkpoint_file queue)) [
  | inl (bytes, fine) ↦
      rw (checkpoint, fine)
        (record {
          same_pending = refl;
          same_tokens = refl;
          same_reservations = refl;
          same_controls = refl;
        })
  | inr (e, bad) ↦
      rw (checkpoint, bad)
        (record {
          same_pending = refl;
          same_tokens = refl;
          same_reservations = refl;
          same_controls = refl;
        })
]

set_state_in-IsSame :
    (durable : Option DurableQueue) (job : ℕ) (state : PersistedJobState) (s : Scheduler)
    → IsSame s (set_state_in durable job state s)
unfolding set_state_in
set_state_in-IsSame none job state s = record {
  same_pending = refl;
  same_tokens = refl;
  same_reservations = refl;
  same_controls = refl;
}
set_state_in-IsSame (some queue) job state s =
    checkpoint-IsSame (record queue { states = insert job state queue.states }) s

pub set_state-IsSame :
    (job : ℕ) (state : PersistedJobState) (s : Scheduler) → IsSame s (set_state job state s)
unfolding set_state
set_state-IsSame job state s = set_state_in-IsSame s.durable job state s

pub push_ready-IsSame : (p : JobPriority) (job : ℕ) (s : Scheduler) → IsSame s (push_ready p job s)
unfolding push_ready
push_ready-IsSame p job s = record {
  same_pending = refl;
  same_tokens = refl;
  same_reservations = refl;
  same_controls = refl;
}

pub has_found :
    {V : Type 0} (k : ℕ) (m : List (ℕ × V)) (v : V) → lookup k m ≡ some v → has k m ≡ true
has_found k m v h = elim (Bool-cases (has k m)) [
  | inl found ↦ found
  | inr absent ↦ ground (arith, lookup_absent k m absent)
]

pub keep-IsSame :
    (job : ℕ) (p : Pending) (s : Scheduler)
    → has job s.pending ≡ true
    → IsSame s (record s { pending = insert job p s.pending })
keep-IsSame job p s h = record {
  same_pending = keys-insert_present job p s.pending h;
  same_tokens = refl;
  same_reservations = refl;
  same_controls = refl;
}

pub release_jobs-IsSame :
    (success : Bool) (jobs : List ℕ) (s : Scheduler) → IsSame s (release_jobs success jobs s).0
unfolding release_jobs contains
release_jobs-IsSame success [] s = record {
  same_pending = refl;
  same_tokens = refl;
  same_reservations = refl;
  same_controls = refl;
}
release_jobs-IsSame success (job ∷ jobs) s = elim (Option-cases (lookup job s.pending)) [
  | inl absent ↦ rw (release_jobs, absent) (release_jobs-IsSame success jobs s)
  | inr (old, found) ↦
      let next = release_next success old in
      let kept = record s { pending = insert job next s.pending } in
      let same = keep-IsSame job next s (has_found job s.pending old found) in
      elim (Bool-cases (next.remaining == 0)) [
        | inr more ↦
            rw (release_jobs, found, more)
              (IsSame-join s kept _ same (release_jobs-IsSame success jobs kept))
        | inl last ↦ elim (Bool-cases next.blocked) [
          | inl blocked ↦
              rw (release_jobs, found, last, blocked)
                (IsSame-join s kept _ same (release_jobs-IsSame success jobs kept))
          | inr free ↦
              let pushed = push_ready next.spec.priority job kept in
              rw (release_jobs, found, last, free)
                (IsSame-join s kept _ same (
                  IsSame-join kept pushed _ (push_ready-IsSame next.spec.priority job kept)
                    (release_jobs-IsSame success jobs pushed)))
        ]
      ]
]

-- A job that leaves takes its token and its reservation with it.
drop_lem :
    (capacity job reserved : ℕ) (held live unseen : List ℕ)
    → capacity < 2 ^ 64
    → contains job held ≡ true
    → Accounts capacity held live reserved unseen
    → Accounts capacity
        (retain_ne job held)
        (retain_ne job live)
        ((reserved + (2 ^ 64 - 1)) % 2 ^ 64)
        unseen
drop_lem capacity job reserved held live unseen small there h =
    let shorter = length-retain_ne job live h.live_distinct (h.pending_live job there) in
    let counted : (reserved + (2 ^ 64 - 1)) % 2 ^ 64 ≡ length (retain_ne job live) =
      omega (arith, shorter, h.counted, h.bounded) in
    record {
      pending_distinct = retain_ne-Distinct job held h.pending_distinct;
      live_distinct = retain_ne-Distinct job live h.live_distinct;
      unseen_distinct = h.unseen_distinct;
      counted = counted;
      bounded = omega (arith, counted, shorter, h.counted, h.bounded);
      pending_live = λ id m. ground (
        arith,
        h.pending_live id,
        contains-retain_ne id job held,
        contains-retain_ne id job live,
      );
      unseen_live = λ id m. ground (
        arith,
        h.unseen_live id,
        h.apart id,
        there,
        contains-retain_ne id job live,
        ==_iff job id,
      );
      apart = λ id m. ground (arith, h.apart id, contains-retain_ne id job held);
    }

drop_job-IsAccounted :
    (capacity job : ℕ) (s : Scheduler)
    → capacity < 2 ^ 64
    → has job s.pending ≡ true
    → IsAccounted capacity s
    → IsAccounted capacity (drop_job job s)
unfolding drop_job
drop_job-IsAccounted capacity job s small there h =
    rw (keys-remove job s.pending h.pending_distinct, keys-remove job s.tokens h.live_distinct)
      (drop_lem capacity job s.reservations (keys s.pending) (keys s.tokens) (waiting s.controls)
        small there h)

pub fail_blocked-IsAccounted :
    (capacity : ℕ) (finish : ℕ → Scheduler → Scheduler) (jobs : List ℕ) (s : Scheduler)
    → ((job : ℕ) (t : Scheduler) → IsAccounted capacity t → IsAccounted capacity (finish job t))
    → IsAccounted capacity s
    → IsAccounted capacity (fail_blocked finish jobs s)
unfolding fail_blocked
fail_blocked-IsAccounted capacity finish [] s f h = h
fail_blocked-IsAccounted capacity finish (job ∷ jobs) s f h =
    let marked = set_state job PersistedJobState.failed s in
    fail_blocked-IsAccounted capacity finish jobs
      (finish job (emit (JobEvent.failed job "dependency did not complete") marked)) f
      (f job (emit (JobEvent.failed job "dependency did not complete") marked)
        (IsSame-IsAccounted capacity s marked (set_state-IsSame job PersistedJobState.failed s) h))

finish_on-IsAccounted :
    (capacity fuel : ℕ) (success : Bool) (job : ℕ) (s : Scheduler)
    → capacity < 2 ^ 64
    → IsAccounted capacity s
    → IsAccounted capacity (finish_on fuel success job s)
unfolding finish_on
finish_on-IsAccounted capacity zero success job s small h = h
finish_on-IsAccounted capacity (suc fuel) success job s small h =
    elim (Bool-cases (has job s.pending)) [
      | inr absent ↦ rw (finish_on, absent) h
      | inl there ↦
          let dropped = drop_job job s in
          let released = release_jobs success (dependants_of job s.dependants) dropped in
          rw (finish_on, there)
            (fail_blocked-IsAccounted capacity (finish_on fuel false) released.1 released.0
              (λ j t g. finish_on-IsAccounted capacity fuel false j t small g)
              (IsSame-IsAccounted capacity dropped released.0
                (release_jobs-IsSame success (dependants_of job s.dependants) dropped)
                (drop_job-IsAccounted capacity job s small there h)))
    ]

pub finish_job-IsAccounted :
    (capacity job : ℕ) (success : Bool) (s : Scheduler)
    → capacity < 2 ^ 64
    → IsAccounted capacity s
    → IsAccounted capacity (finish_job job success s)
unfolding finish_job
finish_job-IsAccounted capacity job success s small h =
    finish_on-IsAccounted capacity (length s.pending) success job s small h
