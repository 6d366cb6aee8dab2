-- ===== src/Jobs/Scheduler/Submitting.antt =====
-- The scheduler's accounts under a submission (core/jobs/src/lib.rs).
use pdf_platform.Jobs.Scheduler.Handlers.{
  add_tokens, find_live, submit_graph, check_duplicate, reserve,
}
use pdf_platform.Jobs.Scheduler.{Scheduler, Control}
use pdf_platform.Jobs.Scheduler.Accounts.{Accounts, IsAccounted, waiting}
use pdf_platform.Jobs.Graph.{JobGraph, JobSpec}
use pdf_platform.Jobs.Graph.Counts.{ids}
use pdf_platform.Common.{
  ℕ, ◌++◌, ◌-◌, ◌<◌, ==_iff, Bool, Bool-cases, List, [], ◌^◌, arith, false, inl, inr, length, true,
  ◌∷◌, ◌≡◌, ok, ◌+◌, ap, none, refl, suc, ◌||◌, ◌%◌, subst, sym, ◌≤◌, ◌∙◌,
}
use mathlib.Core.List.{append_assoc, append-nil}
use pdf_platform.Common.Map.{
  insert, has, contains-keys-insert, insert-Distinct, keys, length-insert_absent,
}
use pdf_platform.Common.Keys.{◌==◌, contains, ==_refl, Distinct, nat_eq, contains-append}

find_live_absent :
    (live : List ℕ) (jobs : List JobSpec)
    → find_live live jobs ≡ none
    → (id : ℕ) → contains id (ids jobs) ≡ true
    → contains id live ≡ false
unfolding find_live contains
find_live_absent live [] h id m = ground arith
find_live_absent live (job ∷ jobs) h id m =
    let absent : contains job.id live ≡ false = ground arith in
    let others : find_live live jobs ≡ none = ground arith in
    elim (Bool-cases (job.id == id)) [
      | inl here ↦ subst (λ i. contains i live ≡ false) ((==_iff job.id id).0 here) absent
      | inr other ↦ find_live_absent live jobs others id (ground arith)
    ]

-- What `submit` adds to the tokens.
keys-add_tokens :
    (jobs : List JobSpec) (tokens : List (ℕ × Bool))
    → Distinct (ids jobs)
    → ((id : ℕ) → contains id (ids jobs) ≡ true → has id tokens ≡ false)
    → Distinct (keys tokens)
    → Distinct (keys (add_tokens jobs tokens))
      × (length (add_tokens jobs tokens) ≡ length tokens + length jobs)
      × ((id : ℕ) → has id (add_tokens jobs tokens) ≡ (has id tokens || contains id (ids jobs)))
unfolding add_tokens contains
keys-add_tokens [] tokens d new t = (t, omega arith, λ id. ground arith)
keys-add_tokens (job ∷ jobs) tokens d new t =
    let fresh : has job.id tokens ≡ false = new job.id (ground (arith, ==_refl job.id)) in
    let (distinct, long, members) =
      keys-add_tokens jobs (insert job.id false tokens) d.1
        (λ id m.
          ground
            (arith, new id, contains-keys-insert id job.id false tokens, ==_iff job.id id, d.0))
        (insert-Distinct job.id false tokens t) in
    (
      distinct,
      omega (arith, long, length-insert_absent job.id false tokens fresh),
      λ id. ground (arith, members id, contains-keys-insert id job.id false tokens),
    )

append-Distinct :
    (xs ys : List ℕ)
    → Distinct xs
    → Distinct ys
    → ((id : ℕ) → contains id xs ≡ true → contains id ys ≡ false)
    → Distinct (xs ++ ys)
unfolding contains
append-Distinct [] ys d e apart = e
append-Distinct (x ∷ xs) ys d e apart = (
  ground (arith, contains-append x xs ys, apart x, ==_refl x, d.0),
  append-Distinct xs ys d.1 e (λ id m. apart id (ground arith)),
)

pub waiting-append :
    (controls : List Control) (control : Control)
    → waiting (controls ++ control ∷ []) ≡ waiting controls ++ waiting (control ∷ [])
unfolding waiting
waiting-append [] control = refl
waiting-append (Control.submit graph ∷ controls) control =
    rw (waiting-append controls control)
      (sym (append_assoc (ids graph.jobs) (waiting controls) (waiting (control ∷ []))))
waiting-append (Control.shutdown ∷ controls) control = waiting-append controls control

length-keys : (tokens : List (ℕ × Bool)) → length (keys tokens) ≡ length tokens
length-keys [] = refl
length-keys (token ∷ tokens) = ap suc (length-keys tokens)

-- An accepted submission adds its jobs to the accounts.
pub submit_lem :
    (capacity reserved : ℕ) (jobs : List JobSpec) (held unseen : List ℕ) (tokens : List (ℕ × Bool))
    → capacity < 2 ^ 64
    → Distinct (ids jobs)
    → find_live (keys tokens) jobs ≡ none
    → length jobs ≤ capacity - reserved
    → Accounts capacity held (keys tokens) reserved unseen
    → Accounts capacity held
        (keys (add_tokens jobs tokens))
        ((reserved + length jobs) % 2 ^ 64)
        (unseen ++ ids jobs)
submit_lem capacity reserved jobs held unseen tokens small d fresh room h =
    let new = find_live_absent (keys tokens) jobs fresh in
    let (distinct, long, members) = keys-add_tokens jobs tokens d new h.live_distinct in
    let sum : (reserved + length jobs) % 2 ^ 64 ≡ reserved + length jobs =
      omega (arith, h.bounded) in
    record {
      pending_distinct = h.pending_distinct;
      live_distinct = distinct;
      unseen_distinct =
          append-Distinct unseen (ids jobs) h.unseen_distinct d
            (λ id m. ground (arith, h.unseen_live id, new id));
      counted =
          omega
            (arith, sum, long, h.counted, length-keys tokens, length-keys (add_tokens jobs tokens));
      bounded = omega (arith, sum, h.bounded);
      pending_live = λ id m. ground (arith, members id, h.pending_live id);
      unseen_live = λ id m.
          ground (arith, members id, h.unseen_live id, contains-append id unseen (ids jobs));
      apart = λ id m.
          ground
            (arith, h.apart id, h.pending_live id, new id, contains-append id unseen (ids jobs));
    }

-- A submission that is accepted, as a state.
submit_graph_ok :
    (capacity : ℕ) (graph : JobGraph) (s t : Scheduler)
    → submit_graph capacity graph s ≡ ok t
    → (find_live (keys s.tokens) graph.jobs ≡ none)
      × (length graph.jobs ≤ capacity - s.reservations)
      × (t.pending ≡ s.pending)
      × (t.tokens ≡ add_tokens graph.jobs s.tokens)
      × (t.reservations ≡ (s.reservations + length graph.jobs) % 2 ^ 64)
      × (t.controls ≡ s.controls ++ Control.submit graph ∷ [])
unfolding submit_graph reserve check_duplicate
submit_graph_ok capacity graph s t h =
    (ground arith, ground arith, ground arith, ground arith, ground arith, ground arith)

pub submit_graph-IsAccounted :
    (capacity : ℕ) (graph : JobGraph) (s t : Scheduler)
    → capacity < 2 ^ 64
    → Distinct (ids graph.jobs)
    → submit_graph capacity graph s ≡ ok t
    → IsAccounted capacity s
    → IsAccounted capacity t
unfolding waiting
submit_graph-IsAccounted capacity graph s t small d e h =
    let (fresh, room, e1, e2, e3, e4) = submit_graph_ok capacity graph s t e in
    let last : waiting t.controls ≡ waiting s.controls ++ ids graph.jobs =
      ap waiting e4
      ∙ waiting-append s.controls (Control.submit graph)
      ∙ ap (◌++◌ (waiting s.controls)) (append-nil (ids graph.jobs)) in
    rw (e1, e2, e3, last)
      (submit_lem capacity s.reservations graph.jobs (keys s.pending) (waiting s.controls) s.tokens
        small d fresh room h)
