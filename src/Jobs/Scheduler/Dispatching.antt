-- ===== src/Jobs/Scheduler/Dispatching.antt =====
-- The dispatch of ready jobs (core/jobs/src/lib.rs).

use pdf_platform.Jobs.Scheduler.Handlers.{pop_ready}
use pdf_platform.Jobs.Scheduler.{Ready, goes_first, priority_rank}
use pdf_platform.Common.{
  ◌++◌, All, Bool-cases, List, Option-cases, [], ap, arith, false, inl, inr, none, refl, some, true,
  ◌∙◌, ◌∷◌, ◌≡◌, subst, sym, ◌≤◌,
}
use pdf_platform.Common.Keys.{nat_eq}

goes_first_irreflexive : (a : Ready) → goes_first a a ≡ false
unfolding goes_first
goes_first_irreflexive a = ground arith

goes_first_asymmetric : (a b : Ready) → goes_first a b ≡ true → goes_first b a ≡ false
unfolding goes_first
goes_first_asymmetric a b h = ground arith

-- What does not go before `b`, which does not go before `c`, does not go before `c`.
goes_first_trans :
    (a b c : Ready) → goes_first a b ≡ false → goes_first b c ≡ false → goes_first a c ≡ false
unfolding goes_first
goes_first_trans a b c h k = ground arith

none_before :
    (best item : Ready) (items : List Ready)
    → goes_first best item ≡ false
    → All (λ r. goes_first r best ≡ false) items
    → All (λ r. goes_first r item ≡ false) items
none_before best item [] h all = tt
none_before best item (r ∷ items) h all =
    (goes_first_trans r best item all.0 h, none_before best item items h all.1)

pop_ready_nothing : (items : List Ready) → pop_ready items ≡ none → items ≡ []
unfolding pop_ready
pop_ready_nothing [] h = refl
pop_ready_nothing (item ∷ items) h = elim (Option-cases (pop_ready items)) [
  | inl nothing ↦ ground arith
  | inr ((best, rest), found) ↦ elim (Bool-cases (goes_first best item)) [
    | inl first ↦ ground arith
    | inr last ↦ ground arith
  ]
]

pop_ready_split :
    (items : List Ready) (item : Ready) (rest : List Ready)
    → pop_ready items ≡ some (item, rest)
    → (before : List Ready) × (after : List Ready) × (items ≡ before ++ item ∷ after)
      × (rest ≡ before ++ after)
      × All (λ r. goes_first r item ≡ false) items
unfolding pop_ready
pop_ready_split [] item rest h = ground arith
pop_ready_split (head ∷ items) item rest h = elim (Option-cases (pop_ready items)) [
  | inl nothing ↦
      let alone : items ≡ [] = pop_ready_nothing items nothing in
      let same : item ≡ head = ground arith in
      let left : rest ≡ [] = ground arith in
      ([], [], rw (alone, same) refl, left, rw (alone, same) (goes_first_irreflexive head, tt))
  | inr ((best, others), found) ↦
      let (before, after, whole, kept, least) = pop_ready_split items best others found in
      elim (Bool-cases (goes_first best head)) [
        | inl first ↦
            let same : item ≡ best = ground arith in
            let left : rest ≡ head ∷ others = ground arith in
            (
              head ∷ before,
              after,
              rw same (ap (◌∷◌ head) whole),
              left ∙ ap (◌∷◌ head) kept,
              subst (λ j. All (λ r. goes_first r j ≡ false) (head ∷ items)) (sym same)
                  (goes_first_asymmetric best head first, least),
            )
        | inr last ↦
            let same : item ≡ head = ground arith in
            let left : rest ≡ items = ground arith in
            (
              [],
              items,
              rw same refl,
              left,
              subst (λ j. All (λ r. goes_first r j ≡ false) (head ∷ items)) (sym same)
                  (goes_first_irreflexive head, none_before best head items last least),
            )
      ]
]

-- `a` has no higher priority than `b`, and with the same priority it was queued no earlier.
abbrev pub IsNoEarlier : Ready → Ready → Type 0
IsNoEarlier a b =
    (priority_rank a.priority ≤ priority_rank b.priority)
    × (priority_rank a.priority ≡ priority_rank b.priority → b.sequence ≤ a.sequence)

not_first : (a b : Ready) → goes_first a b ≡ false → IsNoEarlier a b
unfolding goes_first
not_first a b h = (ground arith, λ same. ground arith)

no_earlier :
    (item : Ready) (items : List Ready)
    → All (λ r. goes_first r item ≡ false) items
    → All (λ r. IsNoEarlier r item) items
no_earlier item [] h = tt
no_earlier item (r ∷ items) h = (not_first r item h.0, no_earlier item items h.1)

-- `ready.pop()` takes one of the ready jobs and leaves the others in place. None of the ready jobs has a
-- higher priority than the one taken, and none of the same priority was queued before it.
pub pop_ready_lem :
    (items : List Ready) (item : Ready) (rest : List Ready)
    → pop_ready items ≡ some (item, rest)
    → (before : List Ready) × (after : List Ready) × (items ≡ before ++ item ∷ after)
      × (rest ≡ before ++ after)
      × All (λ r. IsNoEarlier r item) items
pop_ready_lem items item rest h =
    let (before, after, whole, kept, first) = pop_ready_split items item rest h in
    (before, after, whole, kept, no_earlier item items first)
