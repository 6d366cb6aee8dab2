-- ===== src/Jobs/Graph/Visit.antt =====
-- The loop of `JobGraph::new` over the ready jobs, with the ids it has visited (core/jobs/src/lib.rs).
use pdf_platform.Jobs.Graph.Counts.{
  degree-count_indegree, ids, need, need_absent, need_bounded, need_visit, occurrences,
  occurrences-collect_dependants, unmet_nothing, uses, uses_absent,
}
use pdf_platform.Jobs.Graph.{
  JobSpec, collect_dependants, count_indegree, degree, dependants_of, first_ready,
  release_dependants,
}
use pdf_platform.Jobs.Graph.Release.{IsCounted, release_dependants-IsReleased}
use pdf_platform.Common.{
  ℕ, ◌&&◌, ◌<◌, ==_iff, All, List, [], ◌^◌, arith, false, length, refl, true, ◌||◌, ◌∷◌, ◌≡◌,
}
use pdf_platform.Common.Keys.{contains, ◌==◌, ==_refl, Distinct, nat_eq}
use pdf_platform.Common.Map.{lookup}

contains-first_ready :
    (id : ℕ) (jobs : List JobSpec)
    → Distinct (ids jobs)
    → contains id (first_ready jobs) ≡ (contains id (ids jobs) && (need [] id jobs == 0))
unfolding first_ready contains need
contains-first_ready id [] d = refl
contains-first_ready id (job ∷ jobs) d = ground (
  arith,
  contains-first_ready id jobs d.1,
  need_absent [] id jobs,
  unmet_nothing job.dependencies,
  ==_iff job.id id,
  d.0,
)

first_ready-Distinct : (jobs : List JobSpec) → Distinct (ids jobs) → Distinct (first_ready jobs)
unfolding first_ready contains
first_ready-Distinct [] d = tt
first_ready-Distinct (job ∷ jobs) d =
    ground (arith, first_ready-Distinct jobs d.1, contains-first_ready job.id jobs d.1, d.0)

-- Every visited id, the last one first, was ready when it was visited: no dependency of its was left.
unfoldable pub WasReady : List JobSpec → List ℕ → Type 0
WasReady jobs [] = Unit {0}
WasReady jobs (id ∷ earlier) = (need earlier id jobs ≡ 0) × WasReady jobs earlier

-- The state of the loop, with the visited ids.
pub record IsVisiting (jobs : List JobSpec) (visited ready : List ℕ) (indegree : List (ℕ × ℕ))
    : Type 0 where
  pub degrees : (id : ℕ) → degree id indegree ≡ need visited id jobs
  pub queued :
      (id : ℕ)
      → (contains id visited || contains id ready)
        ≡ (contains id (ids jobs) && (need visited id jobs == 0))
  pub apart : (id : ℕ) → contains id ready ≡ true → contains id visited ≡ false
  pub distinct_visited : Distinct visited
  pub distinct_ready : Distinct ready
  pub in_order : WasReady jobs visited

module _ (jobs : List JobSpec) (distinct : Distinct (ids jobs))
    (bounded : All (λ job. length job.dependencies < 2 ^ 64) jobs) where
  pub start-IsVisiting : IsVisiting jobs [] (first_ready jobs) (count_indegree jobs [])
  unfolding contains WasReady lookup
  start-IsVisiting = record {
    degrees =
        λ id. ground (arith, degree-count_indegree id jobs [] distinct, need_absent [] id jobs);
    queued = λ id. contains-first_ready id jobs distinct;
    apart = λ id m. refl;
    distinct_visited = tt;
    distinct_ready = first_ready-Distinct jobs distinct;
    in_order = tt;
  }

  occurrences-dependants_of :
      (asked id : ℕ)
      → occurrences asked (dependants_of id (collect_dependants jobs [])) ≡ uses id asked jobs
  unfolding lookup occurrences
  occurrences-dependants_of asked id =
      omega (arith, occurrences-collect_dependants asked id jobs [])

  pub visit-IsVisiting :
      (id : ℕ) (visited ready : List ℕ) (indegree : List (ℕ × ℕ))
      → IsVisiting jobs visited (id ∷ ready) indegree
      → (let released =
            release_dependants (dependants_of id (collect_dependants jobs [])) indegree ready in
          IsVisiting jobs (id ∷ visited) released.1 released.0)
  unfolding contains WasReady
  visit-IsVisiting id visited ready indegree h =
      let found = dependants_of id (collect_dependants jobs []) in
      let self : (id == id) ≡ true = ==_refl id in
      let fresh : contains id visited ≡ false = ground (arith, h.apart id) in
      let met : need visited id jobs ≡ 0 = ground (arith, h.queued id) in
      let counted : IsCounted found indegree ready = record {
        enough = λ j. ground (
          arith,
          h.degrees j,
          occurrences-dependants_of j id,
          need_visit visited id j jobs fresh,
        );
        small = λ j. ground (arith, h.degrees j, need_bounded visited j jobs distinct bounded);
        zeros = λ j m. ground (arith, h.degrees j, h.queued j);
        distinct_ready = h.distinct_ready.1;
      } in
      let after = release_dependants-IsReleased found indegree ready counted in
      record {
        degrees = λ j. ground (
          arith,
          after.degrees j,
          h.degrees j,
          occurrences-dependants_of j id,
          need_visit visited id j jobs fresh,
        );
        queued = λ j. ground (
          arith,
          after.queued j,
          after.degrees j,
          h.queued j,
          h.degrees j,
          occurrences-dependants_of j id,
          need_visit visited id j jobs fresh,
          uses_absent id j jobs,
          ==_iff id j,
        );
        apart = λ j m. ground (
          arith,
          h.apart j,
          h.distinct_ready.0,
          after.queued j,
          after.degrees j,
          h.queued j,
          h.degrees j,
          occurrences-dependants_of j id,
          need_visit visited id j jobs fresh,
          uses_absent id j jobs,
          ==_iff id j,
        );
        distinct_visited = (fresh, h.distinct_visited);
        distinct_ready = after.distinct;
        in_order = (met, h.in_order);
      }
