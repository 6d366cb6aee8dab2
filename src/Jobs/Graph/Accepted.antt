-- ===== src/Jobs/Graph/Accepted.antt =====
-- What `JobGraph::new` accepts (core/jobs/src/lib.rs).
use pdf_platform.Jobs.Graph.Visit.{start-IsVisiting, IsVisiting}
use pdf_platform.Jobs.Graph.Order.{
  IsMet, IsSchedule, RunsInOrder, all_visited-IsSchedule, visit_ready-IsVisiting, schedule_counted,
}
use pdf_platform.Jobs.Graph.Counts.{ids}
use pdf_platform.Common.Map.{contains-keys-insert, has, insert}
use pdf_platform.Jobs.Graph.{
  JobSpec, check_dependencies, check_jobs, index_jobs, JobGraph, collect_dependants, count_indegree,
  count_visited, first_ready, new_graph, visit_ready,
}
use pdf_platform.Common.{
  ℕ, ◌+◌, ==_iff, All, List, [], arith, false, ok, refl, true, ◌∷◌, ◌≡◌, ◌<◌, Bool-cases,
  Result-cases, ◌^◌, inl, inr, length, subst, sym, ◌∙◌, ◌==◌, ap,
}
use pdf_platform.Common.Keys.{contains, ==_refl, Distinct, nat_eq}

-- The first loop succeeds on new and distinct ids, and knows them all.
index_jobs_ok :
    (index : ℕ) (indexes : List (ℕ × ℕ)) (jobs : List JobSpec)
    → Distinct (ids jobs)
    → ((id : ℕ) → contains id (ids jobs) ≡ true → has id indexes ≡ false)
    → (final : List (ℕ × ℕ)) × (index_jobs index indexes jobs ≡ ok final)
      × ((id : ℕ) → contains id (ids jobs) ≡ true → has id final ≡ true)
      × ((id : ℕ) → has id indexes ≡ true → has id final ≡ true)
unfolding index_jobs contains
index_jobs_ok index indexes [] d new = (indexes, refl, λ id m. ground arith, λ id m. m)
index_jobs_ok index indexes (job ∷ jobs) d new =
    let fresh : has job.id indexes ≡ false = new job.id (ground (arith, ==_refl job.id)) in
    let (final, run, named, kept) =
      index_jobs_ok (index + 1) (insert job.id index indexes) jobs d.1 (λ id m.
        ground
          (arith, new id, contains-keys-insert id job.id index indexes, ==_iff job.id id, d.0)) in
    (
      final,
      rw (index_jobs, fresh) run,
      λ id m. ground (arith, named id, kept id, contains-keys-insert id job.id index indexes),
      λ id m. kept id (ground (arith, contains-keys-insert id job.id index indexes)),
    )

index_jobs-Distinct :
    (index : ℕ) (indexes : List (ℕ × ℕ)) (jobs : List JobSpec) (final : List (ℕ × ℕ))
    → index_jobs index indexes jobs ≡ ok final
    → Distinct (ids jobs) × ((id : ℕ) → contains id (ids jobs) ≡ true → has id indexes ≡ false)
unfolding index_jobs contains
index_jobs-Distinct index indexes [] final h = (tt, λ id m. ground arith)
index_jobs-Distinct index indexes (job ∷ jobs) final h =
    let (others, apart) =
      index_jobs-Distinct (index + 1) (insert job.id index indexes) jobs final (ground arith) in
    (
      (
        ground
            (arith, apart job.id, contains-keys-insert job.id job.id index indexes, ==_refl job.id),
        others,
      ),
      λ id m.
          ground (arith, apart id, contains-keys-insert id job.id index indexes, ==_iff job.id id),
    )

check_dependencies_ok :
    (indexes : List (ℕ × ℕ)) (job : ℕ) (dependencies : List ℕ)
    → All (λ d. has d indexes ≡ true) dependencies
    → check_dependencies indexes job dependencies ≡ ok tt
unfolding check_dependencies
check_dependencies_ok indexes job [] h = refl
check_dependencies_ok indexes job (d ∷ ds) h =
    rw (check_dependencies, h.0) (check_dependencies_ok indexes job ds h.1)

check_jobs_ok :
    (indexes : List (ℕ × ℕ)) (jobs : List JobSpec)
    → All (λ job. All (λ d. has d indexes ≡ true) job.dependencies) jobs
    → check_jobs indexes jobs ≡ ok tt
unfolding check_jobs
check_jobs_ok indexes [] h = refl
check_jobs_ok indexes (job ∷ jobs) h =
    rw (check_dependencies_ok indexes job.id job.dependencies h.0) (check_jobs_ok indexes jobs h.1)

known_if_done :
    (indexes : List (ℕ × ℕ)) (done dependencies : List ℕ)
    → ((k : ℕ) → contains k done ≡ true → has k indexes ≡ true)
    → All (λ d. contains d done ≡ true) dependencies
    → All (λ d. has d indexes ≡ true) dependencies
known_if_done indexes done [] h m = tt
known_if_done indexes done (d ∷ ds) h m = (h d m.0, known_if_done indexes done ds h m.1)

listed_if_done :
    (indexes : List (ℕ × ℕ)) (done : List ℕ) (id : ℕ) (jobs : List JobSpec)
    → ((k : ℕ) → contains k done ≡ true → has k indexes ≡ true)
    → All (IsMet done id) jobs
    → All (λ job. job.id ≡ id → All (λ d. has d indexes ≡ true) job.dependencies) jobs
listed_if_done indexes done id [] h m = tt
listed_if_done indexes done id (job ∷ jobs) h m = (
  λ same. known_if_done indexes done job.dependencies h (m.0 same),
  listed_if_done indexes done id jobs h m.1,
)

-- In a schedule, what an id depends on is listed too.
listed :
    (indexes : List (ℕ × ℕ)) (jobs : List JobSpec) (order : List ℕ)
    → RunsInOrder jobs order
    → ((id : ℕ) → contains id order ≡ true → has id indexes ≡ true)
    → (id : ℕ) → contains id order ≡ true
    → All (λ job. job.id ≡ id → All (λ d. has d indexes ≡ true) job.dependencies) jobs
unfolding RunsInOrder contains
listed indexes jobs [] r h id m = ground arith
listed indexes jobs (first ∷ order) r h id m =
    let others : (k : ℕ) → contains k order ≡ true → has k indexes ≡ true =
      λ k n. h k (ground arith) in
    elim (Bool-cases (first == id)) [
      | inl here ↦
          listed_if_done indexes order id jobs others
            (subst (λ i. All (IsMet order i) jobs) ((==_iff first id).0 here) r.0)
      | inr later ↦ listed indexes jobs order r.1 others id (ground arith)
    ]

-- The jobs' dependencies are known when those of every id are.
each_job :
    (indexes : List (ℕ × ℕ)) (jobs : List JobSpec)
    → ((id : ℕ)
        → contains id (ids jobs) ≡ true
        → All (λ job. job.id ≡ id → All (λ d. has d indexes ≡ true) job.dependencies) jobs)
    → All (λ job. All (λ d. has d indexes ≡ true) job.dependencies) jobs
unfolding contains
each_job indexes [] f = tt
each_job indexes (job ∷ jobs) f = (
  (f job.id (ground (arith, ==_refl job.id))).0 refl,
  each_job indexes jobs (λ id m. (f id (ground arith)).1),
)

module _ (jobs : List JobSpec) (bounded : All (λ job. length job.dependencies < 2 ^ 64) jobs) where
  -- The ids visited at the end of the loop.
  visited_ids :
      Distinct (ids jobs)
      → (final : List ℕ) × (last : List (ℕ × ℕ)) × IsVisiting jobs final [] last
        × (count_visited jobs ≡ length final)
        × ((extra : ℕ)
            → visit_ready
                (length jobs + extra)
                (collect_dependants jobs [])
                (first_ready jobs)
                (count_indegree jobs [])
                0
              ≡ length final)
  unfolding count_visited
  visited_ids d =
      let (final, last, done, run) =
        visit_ready-IsVisiting jobs d bounded (length jobs) [] (first_ready jobs)
          (count_indegree jobs []) (omega arith) (start-IsVisiting jobs d bounded) in
      let same : length jobs ≡ length jobs + 0 = omega arith in
      (
        final,
        last,
        done,
        ap
              (λ n.
                visit_ready n (collect_dependants jobs []) (first_ready jobs)
                  (count_indegree jobs []) 0)
              same
            ∙ run 0,
        run,
      )

  -- When the ids are distinct and the lists of dependencies shorter than 2^64, the loop visits as many
  -- jobs with any more fuel as with the number of jobs, the fuel of `count_visited`.
  pub visit_ready_terminates :
      (extra : ℕ)
      → Distinct (ids jobs)
      → visit_ready
          (length jobs + extra)
          (collect_dependants jobs [])
          (first_ready jobs)
          (count_indegree jobs [])
          0
        ≡ count_visited jobs
  visit_ready_terminates extra d =
      let (final, last, done, counted, run) = visited_ids d in run extra ∙ sym counted

  -- When `new_graph` accepts jobs, whose lists of dependencies are shorter than 2^64, it keeps them as
  -- they are, their ids are distinct, and there is an order of all their ids, each once, in which every
  -- job stands after its dependencies.
  pub new_graph-IsSchedule :
      (graph : JobGraph)
      → new_graph jobs ≡ ok graph
      → (graph.jobs ≡ jobs) × Distinct (ids jobs) × ((order : List ℕ) × IsSchedule jobs order)
  unfolding new_graph
  new_graph-IsSchedule graph h = elim (Result-cases (index_jobs 0 [] jobs)) [
    | inr (e, wrong) ↦ ground arith
    | inl (indexes, indexed) ↦ elim (Result-cases (check_jobs indexes jobs)) [
      | inr (e, wrong) ↦ ground arith
      | inl (u, checked) ↦
          let (d, apart) = index_jobs-Distinct 0 [] jobs indexes indexed in
          let (final, last, done, counted, run) = visited_ids d in
          let all_of_them : count_visited jobs ≡ length jobs =
            ground (arith, ==_iff (count_visited jobs) (length jobs)) in
          (
            ground arith,
            d,
            (final, all_visited-IsSchedule final jobs last d done (sym counted ∙ all_of_them)),
          )
    ]
  ]

  -- Jobs with distinct ids, lists of dependencies shorter than 2^64 and an order of all of them in which
  -- every job stands after its dependencies are accepted by `new_graph`, as they are.
  pub new_graph_accepts :
      (order : List ℕ)
      → Distinct (ids jobs)
      → IsSchedule jobs order
      → new_graph jobs ≡ ok (record { jobs = jobs })
  unfolding new_graph contains
  new_graph_accepts order d s =
      let (indexes, indexed, named, kept) = index_jobs_ok 0 [] jobs d (λ id m. refl) in
      let known : (id : ℕ) → contains id order ≡ true → has id indexes ≡ true =
        λ id m. named id (sym (s.every id) ∙ m) in
      let checked = check_jobs_ok indexes jobs (
        each_job indexes jobs
          (λ id m. listed indexes jobs order s.in_order known id (s.every id ∙ m))) in
      let (final, last, done, counted, run) = visited_ids d in
      let complete : count_visited jobs ≡ length jobs =
        counted ∙ schedule_counted order final jobs last d done s in
      let all_of_them : (count_visited jobs == length jobs) ≡ true =
        (==_iff (count_visited jobs) (length jobs)).1 complete in
      rw (indexed, checked, all_of_them) refl
