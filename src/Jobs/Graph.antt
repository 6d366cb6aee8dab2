-- ===== src/Jobs/Graph.antt =====
-- core/jobs/src/lib.rs: job specifications and the validation of a job graph. Ids are u64, operation
-- names lists of bytes. The first ready jobs are queued in the order of the jobs, one of the orders in
-- which the source's HashMap may give them. `expect("validated dependant")` cannot fail: a dependant
-- is the id of a job, and each job has a degree.
pub mod Counts
pub mod Release
pub mod Visit
pub mod Order
pub mod Accepted
use pdf_platform.Common.{
  ℕ, ◌%◌, ◌+◌, ◌++◌, ◌-◌, ◌>>◌, ◌>>=◌, Bool, List, Result, [], ◌^◌, if◌then◌else◌, err, fail_if,
  false, length, none, not, ok, some, suc, true, zero, ◌∷◌, ◌==◌,
}
use pdf_platform.Common.Map.{insert, lookup, has}
use pdf_platform.Common.Keys.{nat_eq}

pub data JobPriority : Type 0 where
  maintenance : JobPriority
  user_initiated : JobPriority
  interactive_adjacent : JobPriority

pub record JobSpec : Type 0 where
  pub id : ℕ
  pub operation : List ℕ
  pub priority : JobPriority
  pub dependencies : List ℕ
  pub idempotent : Bool

unfoldable pub new_spec : ℕ → List ℕ → JobPriority → JobSpec
new_spec id operation priority = record {
  id = id;
  operation = operation;
  priority = priority;
  dependencies = [];
  idempotent = false;
}

unfoldable pub depends_on : JobSpec → ℕ → JobSpec
depends_on spec dependency = record spec { dependencies = spec.dependencies ++ dependency ∷ [] }

-- `JobSpec::idempotent`
unfoldable pub set_idempotent : JobSpec → JobSpec
set_idempotent spec = record spec { idempotent = true }

pub data GraphError : Type 0 where
  duplicate_job : ℕ → GraphError
  missing_dependency : ℕ → ℕ → GraphError
  cycle : GraphError

pub record JobGraph : Type 0 where
  pub jobs : List JobSpec

-- The first loop of `new`: where each id stands.
unfoldable pub index_jobs : ℕ → List (ℕ × ℕ) → List JobSpec → Result GraphError (List (ℕ × ℕ))
index_jobs index indexes [] = ok indexes
index_jobs index indexes (job ∷ jobs) =
    let rest = index_jobs (index + 1) (insert job.id index indexes) jobs in
    if has job.id indexes then err (duplicate_job job.id) else rest

-- The second loop: every dependency is a job.
unfoldable pub check_dependencies : List (ℕ × ℕ) → ℕ → List ℕ → Result GraphError (Unit {0})
check_dependencies indexes job [] = ok tt
check_dependencies indexes job (dependency ∷ dependencies) =
    let rest = check_dependencies indexes job dependencies in
    if has dependency indexes then rest else err (missing_dependency job dependency)

unfoldable pub check_jobs : List (ℕ × ℕ) → List JobSpec → Result GraphError (Unit {0})
check_jobs indexes [] = ok tt
check_jobs indexes (job ∷ jobs) =
    check_dependencies indexes job.id job.dependencies >> check_jobs indexes jobs

-- A number of the map, 0 where there is none.
abbrev pub degree : ℕ → List (ℕ × ℕ) → ℕ
degree id indegree = elim (lookup id indegree) [ none ↦ 0 | some n ↦ n ]

-- `dependants.get(&id).into_iter().flatten()`
abbrev pub dependants_of : ℕ → List (ℕ × List ℕ) → List ℕ
dependants_of id dependants = elim (lookup id dependants) [ none ↦ [] | some ids ↦ ids ]

-- `dependants.entry(dependency).or_default().push(job)`
unfoldable pub push_dependant : List (ℕ × List ℕ) → ℕ → ℕ → List (ℕ × List ℕ)
push_dependant dependants dependency job =
    insert dependency (dependants_of dependency dependants ++ job ∷ []) dependants

unfoldable pub push_dependants : ℕ → List ℕ → List (ℕ × List ℕ) → List (ℕ × List ℕ)
push_dependants job [] dependants = dependants
push_dependants job (dependency ∷ dependencies) dependants =
    push_dependants job dependencies (push_dependant dependants dependency job)

-- The third loop of `new`, its two maps.
unfoldable pub count_indegree : List JobSpec → List (ℕ × ℕ) → List (ℕ × ℕ)
count_indegree [] indegree = indegree
count_indegree (job ∷ jobs) indegree =
    count_indegree jobs (insert job.id (length job.dependencies) indegree)

unfoldable pub collect_dependants : List JobSpec → List (ℕ × List ℕ) → List (ℕ × List ℕ)
collect_dependants [] dependants = dependants
collect_dependants (job ∷ jobs) dependants =
    collect_dependants jobs (push_dependants job.id job.dependencies dependants)

-- `indegree.iter().filter_map(|(&id, &degree)| (degree == 0).then_some(id))`
unfoldable pub first_ready : List JobSpec → List ℕ
first_ready [] = []
first_ready (job ∷ jobs) =
    let rest = first_ready jobs in if length job.dependencies == 0 then job.id ∷ rest else rest

-- The inner loop over the dependants of a visited job: the degrees and the queue after it.
unfoldable pub release_dependants : List ℕ → List (ℕ × ℕ) → List ℕ → List (ℕ × ℕ) × List ℕ
release_dependants [] indegree ready = (indegree, ready)
release_dependants (dependant ∷ dependants) indegree ready =
    let left = (degree dependant indegree + (2 ^ 64 - 1)) % 2 ^ 64 in
    release_dependants dependants (insert dependant left indegree)
      (if left == 0 then ready ++ dependant ∷ [] else ready)

-- The `while let Some(id) = ready.pop_front()` loop, on fuel: the number visited.
unfoldable pub visit_ready : ℕ → List (ℕ × List ℕ) → List ℕ → List (ℕ × ℕ) → ℕ → ℕ
visit_ready zero dependants ready indegree visited = visited
visit_ready (suc fuel) dependants [] indegree visited = visited
visit_ready (suc fuel) dependants (id ∷ ready) indegree visited =
    let released = release_dependants (dependants_of id dependants) indegree ready in
    visit_ready fuel dependants released.1 released.0 (visited + 1)

-- How many jobs the loop visits; its fuel is the number of jobs, each of which is queued at most once.
unfoldable pub count_visited : List JobSpec → ℕ
count_visited jobs =
    visit_ready (length jobs) (collect_dependants jobs []) (first_ready jobs)
      (count_indegree jobs []) 0

-- `JobGraph::new`
unfoldable pub new_graph : List JobSpec → Result GraphError JobGraph
new_graph jobs = index_jobs 0 [] jobs >>= λ indexes. check_jobs indexes jobs >>= λ _.
    fail_if (not (count_visited jobs == length jobs)) cycle >>= λ _. ok (record { jobs = jobs })
