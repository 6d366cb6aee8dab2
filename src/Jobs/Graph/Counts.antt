-- ===== src/Jobs/Graph/Counts.antt =====
-- How often jobs depend on each other: what the maps of `JobGraph::new` hold (core/jobs/src/lib.rs).
use pdf_platform.Common.Map.{insert, lookup-insert}
use pdf_platform.Jobs.Graph.{
  JobSpec, collect_dependants, count_indegree, degree, dependants_of, push_dependant,
  push_dependants,
}
use pdf_platform.Common.{
  ℕ, ◌+◌, ◌++◌, ◌<◌, ==_iff, All, List, [], ◌^◌, arith, if◌then◌else◌, false, length, refl, ◌∷◌,
  ◌≡◌, ◌≤◌,
}
use pdf_platform.Common.Keys.{contains, ◌==◌, Distinct, nat_eq}

abbrev pub ids : List JobSpec → List ℕ
ids [] = []
ids (job ∷ jobs) = job.id ∷ ids jobs

unfoldable pub occurrences : ℕ → List ℕ → ℕ
occurrences id [] = 0
occurrences id (x ∷ xs) = (if x == id then 1 else 0) + occurrences id xs

-- How often job `id` names `dependency`.
unfoldable pub uses : ℕ → ℕ → List JobSpec → ℕ
uses dependency id [] = 0
uses dependency id (job ∷ jobs) =
    (if job.id == id then occurrences dependency job.dependencies else 0) + uses dependency id jobs

-- How many of the dependencies are not visited.
unfoldable pub unmet : List ℕ → List ℕ → ℕ
unmet visited [] = 0
unmet visited (dependency ∷ dependencies) =
    (if contains dependency visited then 0 else 1) + unmet visited dependencies

unfoldable pub need : List ℕ → ℕ → List JobSpec → ℕ
need visited id [] = 0
need visited id (job ∷ jobs) =
    (if job.id == id then unmet visited job.dependencies else 0) + need visited id jobs

occurrences-append :
    (id : ℕ) (xs ys : List ℕ) → occurrences id (xs ++ ys) ≡ occurrences id xs + occurrences id ys
unfolding occurrences
occurrences-append id [] ys = omega arith
occurrences-append id (x ∷ xs) ys = omega (arith, occurrences-append id xs ys)

occurrences-push_dependants :
    (asked id dependency : ℕ) (dependencies : List ℕ) (m : List (ℕ × List ℕ))
    → occurrences asked (dependants_of dependency (push_dependants id dependencies m))
      ≡ occurrences asked (dependants_of dependency m)
        + (if id == asked then occurrences dependency dependencies else 0)
unfolding push_dependants push_dependant occurrences
occurrences-push_dependants asked id dependency [] m = ground arith
occurrences-push_dependants asked id dependency (d ∷ ds) m = ground (
  arith,
  occurrences-push_dependants asked id dependency ds (push_dependant m d id),
  lookup-insert d dependency (dependants_of d m ++ id ∷ []) m,
  occurrences-append asked (dependants_of d m) (id ∷ []),
  ==_iff d dependency,
)

pub occurrences-collect_dependants :
    (asked dependency : ℕ) (jobs : List JobSpec) (m : List (ℕ × List ℕ))
    → occurrences asked (dependants_of dependency (collect_dependants jobs m))
      ≡ occurrences asked (dependants_of dependency m) + uses dependency asked jobs
unfolding collect_dependants uses
occurrences-collect_dependants asked dependency [] m = omega arith
occurrences-collect_dependants asked dependency (job ∷ jobs) m = omega (
  arith,
  occurrences-collect_dependants asked dependency jobs (push_dependants job.id job.dependencies m),
  occurrences-push_dependants asked job.id dependency job.dependencies m,
)

pub need_absent :
    (visited : List ℕ) (id : ℕ) (jobs : List JobSpec)
    → contains id (ids jobs) ≡ false
    → need visited id jobs ≡ 0
unfolding need contains
need_absent visited id [] h = refl
need_absent visited id (job ∷ jobs) h = ground (arith, need_absent visited id jobs)

pub uses_absent :
    (dependency id : ℕ) (jobs : List JobSpec)
    → contains id (ids jobs) ≡ false
    → uses dependency id jobs ≡ 0
unfolding uses contains
uses_absent dependency id [] h = refl
uses_absent dependency id (job ∷ jobs) h = ground (arith, uses_absent dependency id jobs)

unmet_visit :
    (visited : List ℕ) (id : ℕ) (dependencies : List ℕ)
    → contains id visited ≡ false
    → unmet visited dependencies ≡ unmet (id ∷ visited) dependencies + occurrences id dependencies
unfolding unmet occurrences contains
unmet_visit visited id [] h = refl
unmet_visit visited id (d ∷ ds) h =
    ground (arith, unmet_visit visited id ds h, ==_iff id d, ==_iff d id)

-- A visit meets as many dependencies as name the visited job.
pub need_visit :
    (visited : List ℕ) (id asked : ℕ) (jobs : List JobSpec)
    → contains id visited ≡ false
    → need visited asked jobs ≡ need (id ∷ visited) asked jobs + uses id asked jobs
unfolding need uses
need_visit visited id asked [] h = refl
need_visit visited id asked (job ∷ jobs) h =
    ground (arith, need_visit visited id asked jobs h, unmet_visit visited id job.dependencies h)

pub unmet_nothing : (dependencies : List ℕ) → unmet [] dependencies ≡ length dependencies
unfolding unmet contains
unmet_nothing [] = refl
unmet_nothing (d ∷ ds) = omega (arith, unmet_nothing ds)

unmet_bounded : (visited dependencies : List ℕ) → unmet visited dependencies ≤ length dependencies
unfolding unmet
unmet_bounded visited [] = omega arith
unmet_bounded visited (d ∷ ds) = ground (arith, unmet_bounded visited ds)

pub need_bounded :
    (visited : List ℕ) (id : ℕ) (jobs : List JobSpec)
    → Distinct (ids jobs)
    → All (λ job. length job.dependencies < 2 ^ 64) jobs
    → need visited id jobs < 2 ^ 64
unfolding need
need_bounded visited id [] d h = omega arith
need_bounded visited id (job ∷ jobs) d h = ground (
  arith,
  need_bounded visited id jobs d.1 h.1,
  unmet_bounded visited job.dependencies,
  need_absent visited id jobs,
  ==_iff job.id id,
)

pub degree-insert :
    (id asked n : ℕ) (m : List (ℕ × ℕ))
    → degree asked (insert id n m) ≡ (if id == asked then n else degree asked m)
degree-insert id asked n m = ground (arith, lookup-insert id asked n m)

pub degree-count_indegree :
    (asked : ℕ) (jobs : List JobSpec) (m : List (ℕ × ℕ))
    → Distinct (ids jobs)
    → degree asked (count_indegree jobs m)
      ≡ (if contains asked (ids jobs) then need [] asked jobs else degree asked m)
unfolding count_indegree need contains
degree-count_indegree asked [] m d = refl
degree-count_indegree asked (job ∷ jobs) m d = ground (
  arith,
  degree-count_indegree asked jobs (insert job.id (length job.dependencies) m) d.1,
  degree-insert job.id asked (length job.dependencies) m,
  unmet_nothing job.dependencies,
  need_absent [] asked jobs,
  ==_iff job.id asked,
  d.0,
)
