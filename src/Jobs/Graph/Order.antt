-- ===== src/Jobs/Graph/Order.antt =====
-- Orders of jobs, and the jobs that the loop of `JobGraph::new` visits (core/jobs/src/lib.rs).
use pdf_platform.Jobs.Graph.Counts.{ids, need, unmet}
use pdf_platform.Jobs.Graph.{
  JobSpec, collect_dependants, dependants_of, release_dependants, visit_ready,
}
use pdf_platform.Jobs.Graph.Visit.{IsVisiting, WasReady, visit-IsVisiting}
use pdf_platform.Common.{
  ℕ, ◌+◌, ◌<◌, ==_iff, All, Bool-cases, List, [], ◌^◌, ap, arith, inl, inr, length, refl, suc, true,
  zero, ◌∷◌, ◌≡◌, ◌≤◌, sym, ◌∙◌,
}
use pdf_platform.Common.Keys.{contains, ◌==◌, ==_refl, Distinct, length_within, nat_eq}

-- The dependencies of job `id` are all among `done`.
abbrev pub IsMet : List ℕ → ℕ → JobSpec → Type 0
IsMet done id job = job.id ≡ id → All (λ d. contains d done ≡ true) job.dependencies

-- In the order, its last id first, every job stands after its dependencies.
unfoldable pub RunsInOrder : List JobSpec → List ℕ → Type 0
RunsInOrder jobs [] = Unit {0}
RunsInOrder jobs (id ∷ earlier) = All (IsMet earlier id) jobs × RunsInOrder jobs earlier

-- An order of all the jobs, each once, in which every job stands after its dependencies.
pub record IsSchedule (jobs : List JobSpec) (order : List ℕ) : Type 0 where
  pub every : (id : ℕ) → contains id order ≡ contains id (ids jobs)
  pub once : Distinct order
  pub in_order : RunsInOrder jobs order

pub length-ids : (jobs : List JobSpec) → length (ids jobs) ≡ length jobs
length-ids [] = refl
length-ids (job ∷ jobs) = ap suc (length-ids jobs)

unmet_zero :
    (visited dependencies : List ℕ)
    → unmet visited dependencies ≡ 0
    → All (λ d. contains d visited ≡ true) dependencies
unfolding unmet
unmet_zero visited [] h = tt
unmet_zero visited (d ∷ ds) h = (ground arith, unmet_zero visited ds (ground arith))

need_zero :
    (visited : List ℕ) (id : ℕ) (jobs : List JobSpec)
    → need visited id jobs ≡ 0
    → All (IsMet visited id) jobs
unfolding need
need_zero visited id [] h = tt
need_zero visited id (job ∷ jobs) h = (
  λ same. unmet_zero visited job.dependencies (ground (arith, ==_iff job.id id)),
  need_zero visited id jobs (omega arith),
)

WasReady-RunsInOrder :
    (jobs : List JobSpec) (visited : List ℕ) → WasReady jobs visited → RunsInOrder jobs visited
unfolding WasReady RunsInOrder
WasReady-RunsInOrder jobs [] h = tt
WasReady-RunsInOrder jobs (id ∷ earlier) h =
    (need_zero earlier id jobs h.0, WasReady-RunsInOrder jobs earlier h.1)

unmet_nothing_left :
    (done visited dependencies : List ℕ)
    → ((id : ℕ) → contains id done ≡ true → contains id visited ≡ true)
    → All (λ d. contains d done ≡ true) dependencies
    → unmet visited dependencies ≡ 0
unfolding unmet
unmet_nothing_left done visited [] h m = refl
unmet_nothing_left done visited (d ∷ ds) h m =
    ground (arith, h d m.0, unmet_nothing_left done visited ds h m.1)

none_needed :
    (done visited : List ℕ) (id : ℕ) (jobs : List JobSpec)
    → ((asked : ℕ) → contains asked done ≡ true → contains asked visited ≡ true)
    → All (IsMet done id) jobs
    → need visited id jobs ≡ 0
unfolding need
none_needed done visited id [] h m = refl
none_needed done visited id (job ∷ jobs) h m = elim (Bool-cases (job.id == id)) [
  | inl same ↦ ground (
    arith,
    unmet_nothing_left done visited job.dependencies h (m.0 ((==_iff job.id id).0 same)),
    none_needed done visited id jobs h m.1,
  )
  | inr other ↦ ground (arith, none_needed done visited id jobs h m.1)
]

visit_ready_nothing :
    (fuel : ℕ) (dependants : List (ℕ × List ℕ)) (indegree : List (ℕ × ℕ)) (visited : ℕ)
    → visit_ready fuel dependants [] indegree visited ≡ visited
unfolding visit_ready
visit_ready_nothing zero dependants indegree visited = refl
visit_ready_nothing (suc fuel) dependants indegree visited = refl

module _ (jobs : List JobSpec) (distinct : Distinct (ids jobs))
    (bounded : All (λ job. length job.dependencies < 2 ^ 64) jobs) where
  -- Where the loop ends, whatever fuel is left over.
  pub visit_ready-IsVisiting :
      (fuel : ℕ) (visited ready : List ℕ) (indegree : List (ℕ × ℕ))
      → fuel + length visited ≡ length jobs
      → IsVisiting jobs visited ready indegree
      → (final : List ℕ) × (last : List (ℕ × ℕ)) × IsVisiting jobs final [] last
        × ((extra : ℕ)
            → visit_ready
                (fuel + extra)
                (collect_dependants jobs [])
                ready
                indegree
                (length visited)
              ≡ length final)
  unfolding contains visit_ready release_dependants
  visit_ready-IsVisiting zero visited [] indegree e h = (
    visited,
    indegree,
    h,
    λ extra. visit_ready_nothing (0 + extra) (collect_dependants jobs []) indegree (length visited),
  )
  visit_ready-IsVisiting zero visited (id ∷ ready) indegree e h =
      let over : length (id ∷ visited) ≤ length (ids jobs) =
        length_within (id ∷ visited) (ids jobs)
          (h.apart id (ground (arith, ==_refl id)), h.distinct_visited) distinct
          (λ k m. ground (arith, h.queued k)) in
      ground (arith, length-ids jobs)
  visit_ready-IsVisiting (suc fuel) visited [] indegree e h = (
    visited,
    indegree,
    h,
    λ extra.
        visit_ready_nothing (suc fuel + extra) (collect_dependants jobs []) indegree
          (length visited),
  )
  visit_ready-IsVisiting (suc fuel) visited (id ∷ ready) indegree e h =
      let released =
        release_dependants (dependants_of id (collect_dependants jobs [])) indegree ready in
      let (final, last, done, run) =
        visit_ready-IsVisiting fuel (id ∷ visited) released.1 released.0 (omega arith)
          (visit-IsVisiting jobs distinct bounded id visited ready indegree h) in
      let more : (extra : ℕ) → suc fuel + extra ≡ suc (fuel + extra) = λ extra. omega arith in
      let counted : length visited + 1 ≡ length (id ∷ visited) = omega arith in
      (final, last, done, λ extra. rw (more extra, visit_ready, counted) (run extra))

contains-ids :
    (visited : List ℕ) (jobs : List JobSpec) (indegree : List (ℕ × ℕ))
    → IsVisiting jobs visited [] indegree
    → (id : ℕ) → contains id visited ≡ true
    → contains id (ids jobs) ≡ true
unfolding contains
contains-ids visited jobs indegree h id m = ground (arith, h.queued id)

-- When as many are visited as there are jobs, they are a schedule.
pub all_visited-IsSchedule :
    (visited : List ℕ) (jobs : List JobSpec) (indegree : List (ℕ × ℕ))
    → Distinct (ids jobs)
    → IsVisiting jobs visited [] indegree
    → length visited ≡ length jobs
    → IsSchedule jobs visited
unfolding contains
all_visited-IsSchedule visited jobs indegree d h e = record {
  every = λ id. elim (Bool-cases (contains id visited)) [
    | inl seen ↦ seen ∙ sym (contains-ids visited jobs indegree h id seen)
    | inr unseen ↦ elim (Bool-cases (contains id (ids jobs))) [
      | inr absent ↦ unseen ∙ sym absent
      | inl there ↦
          let over =
            length_within (id ∷ visited) (ids jobs) (unseen, h.distinct_visited) d
              (λ k m. ground (arith, contains-ids visited jobs indegree h k, ==_iff id k)) in
          ground (arith, over, length-ids jobs)
    ]
  ];
  once = h.distinct_visited;
  in_order = WasReady-RunsInOrder jobs visited h.in_order;
}

-- What a schedule lists is visited.
scheduled_visited :
    (order visited : List ℕ) (jobs : List JobSpec) (indegree : List (ℕ × ℕ))
    → IsVisiting jobs visited [] indegree
    → RunsInOrder jobs order
    → ((id : ℕ) → contains id order ≡ true → contains id (ids jobs) ≡ true)
    → (id : ℕ) → contains id order ≡ true
    → contains id visited ≡ true
unfolding contains RunsInOrder
scheduled_visited [] visited jobs indegree h r known id m = ground arith
scheduled_visited (first ∷ order) visited jobs indegree h r known id m =
    let earlier =
      scheduled_visited order visited jobs indegree h r.1 (λ k n. known k (ground arith)) in
    let met : need visited first jobs ≡ 0 = none_needed order visited first jobs earlier r.0 in
    ground (arith, earlier id, known id, h.queued id, ==_iff first id, met)

-- Where there is a schedule, the loop visits every job.
pub schedule_counted :
    (order visited : List ℕ) (jobs : List JobSpec) (indegree : List (ℕ × ℕ))
    → Distinct (ids jobs)
    → IsVisiting jobs visited [] indegree
    → IsSchedule jobs order
    → length visited ≡ length jobs
schedule_counted order visited jobs indegree d h s =
    let seen =
      scheduled_visited order visited jobs indegree h s.in_order (λ id m. sym (s.every id) ∙ m) in
    let least =
      length_within (ids jobs) visited d h.distinct_visited (λ id m. seen id (s.every id ∙ m)) in
    let most =
      length_within visited (ids jobs) h.distinct_visited d
        (contains-ids visited jobs indegree h) in
    omega (arith, least, most, length-ids jobs)
