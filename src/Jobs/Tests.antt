-- ===== src/Jobs/Tests.antt =====
-- Runs of the job queue's snapshots, and its theorems at concrete queues.
use pdf_platform.Jobs.Graph.Accepted.{
  new_graph-IsSchedule, new_graph_accepts, visit_ready_terminates,
}
use pdf_platform.Jobs.Graph.Counts.{ids}
use pdf_platform.Jobs.Graph.Order.{IsSchedule, RunsInOrder}
use pdf_platform.Common.Bytes.{le_bytes}
use pdf_platform.Jobs.Persistence.Log.Frames.{IsTorn}
use pdf_platform.Jobs.Persistence.Snapshot.{IsStorable}
use pdf_platform.Jobs.Persistence.Log.Latest.{IsLatest, appended, created, load_latest-Log}
use pdf_platform.Jobs.Persistence.Log.{frame_bytes, load_latest, append_snapshot}
use pdf_platform.Common.Map.{insert, lookup}
use pdf_platform.Jobs.Graph.{
  JobSpec, check_dependencies, check_jobs, collect_dependants, count_indegree, count_visited,
  first_ready, index_jobs, interactive_adjacent, maintenance, new_graph, push_dependant,
  push_dependants, release_dependants, visit_ready, cycle, depends_on, new_spec,
}
use pdf_platform.Jobs.Persistence.{
  JobSnapshot, failed, running, encode_snapshot, frame_magic, dependency_bytes, encode_jobs,
  job_bytes, max_file_bytes, priority_tag, state_tag,
}
use pdf_platform.Common.{
  ℕ, List, [], false, ok, refl, true, ◌∷◌, ◌≡◌, ◌++◌, Bool, Option, some, arith, length, none, ◌≤◌,
  ◌+◌, ◌<◌, ==_iff, All, ◌^◌, err,
}
use pdf_platform.Common.Keys.{contains, Distinct, nat_eq}

-- Job 1, and job 2 that depends on it.
abbrev sample_jobs : List JobSpec
sample_jobs =
    (record {
      id = 1;
      operation = 111 ∷ 99 ∷ 114 ∷ [];
      priority = interactive_adjacent;
      dependencies = [];
      idempotent = true;
    })
    ∷ (record {
      id = 2;
      operation = [];
      priority = maintenance;
      dependencies = 1 ∷ [];
      idempotent = false;
    })
    ∷ []

abbrev sample : JobSnapshot
sample = record { graph = record { jobs = sample_jobs }; states = (1, running) ∷ (2, failed) ∷ [] }

sample_graph : new_graph sample_jobs ≡ ok (record { jobs = sample_jobs })
unfolding new_graph index_jobs check_jobs check_dependencies count_visited visit_ready
    collect_dependants push_dependants push_dependant first_ready count_indegree release_dependants
    insert lookup contains
sample_graph = refl

-- The bytes of `sample`.
abbrev sample_bytes : List ℕ
sample_bytes =
    80 ∷ 68 ∷ 70 ∷ 74 ∷ 79 ∷ 66 ∷ 83 ∷ 0 ∷ 2 ∷ 0 ∷ 0 ∷ 0 ∷ 2 ∷ 0 ∷ 0 ∷ 0 ∷ 1 ∷ 0 ∷ 0 ∷ 0 ∷ 0 ∷ 0 ∷ 0
    ∷ 0 ∷ 2 ∷ 1 ∷ 1 ∷ 3 ∷ 0 ∷ 0 ∷ 0 ∷ 111 ∷ 99 ∷ 114 ∷ 0 ∷ 0 ∷ 0 ∷ 0 ∷ 2 ∷ 0 ∷ 0 ∷ 0 ∷ 0 ∷ 0 ∷ 0 ∷ 0
    ∷ 0 ∷ 3 ∷ 0 ∷ 0 ∷ 0 ∷ 0 ∷ 0 ∷ 1 ∷ 0 ∷ 0 ∷ 0 ∷ 1 ∷ 0 ∷ 0 ∷ 0 ∷ 0 ∷ 0 ∷ 0 ∷ 0 ∷ []

encode_sample : encode_snapshot sample ≡ ok sample_bytes
unfolding encode_snapshot encode_jobs job_bytes dependency_bytes priority_tag state_tag le_bytes
    lookup
encode_sample = refl

abbrev any_text : List ℕ → Bool
any_text bytes = true

sample-IsStorable : IsStorable any_text sample
sample-IsStorable = record {
  valid = sample_graph;
  typed = (
    record { id_fits = omega arith; dependencies_fit = tt; is_text = refl },
    (record { id_fits = omega arith; dependencies_fit = (omega arith, tt); is_text = refl }, tt),
  );
}

-- What is left of a frame whose write was cut off after its magic.
frame_magic-IsTorn : IsTorn frame_magic
unfolding frame_bytes le_bytes
frame_magic-IsTorn = record {
  payload = [];
  missing = 0 ∷ 0 ∷ 0 ∷ 0 ∷ 0 ∷ 0 ∷ 0 ∷ 0 ∷ [];
  bounded = omega arith;
  part = refl;
  cut = omega arith;
}

append_sample : append_snapshot none sample ≡ ok (frame_bytes sample_bytes)
unfolding append_snapshot
append_sample = rw encode_sample refl

sample_fits : length (frame_bytes sample_bytes ++ frame_magic) ≤ max_file_bytes
unfolding frame_bytes le_bytes
sample_fits = omega arith

load_latest-Log_example :
    (found : Option JobSnapshot) × (load_latest any_text
        (some (frame_bytes sample_bytes ++ frame_magic))
      ≡ ok found)
    × IsLatest (some sample) found
load_latest-Log_example =
    load_latest-Log any_text (some (frame_bytes sample_bytes)) (some sample) frame_magic
      (appended sample created sample-IsStorable append_sample) frame_magic-IsTorn sample_fits

sample-IsSchedule : IsSchedule sample_jobs (2 ∷ 1 ∷ [])
unfolding RunsInOrder contains
sample-IsSchedule = record {
  every = λ id. ground (arith, ==_iff 1 id, ==_iff 2 id);
  once = (refl, (refl, tt));
  in_order =
      ((λ same. tt, (λ same. (refl, tt), tt)), ((λ same. tt, (λ same. ground arith, tt)), tt));
}

sample_bounded : All (λ job. length job.dependencies < 2 ^ 64) sample_jobs
sample_bounded = (omega arith, (omega arith, tt))

sample-Distinct : Distinct (ids sample_jobs)
unfolding contains
sample-Distinct = (refl, (refl, tt))

new_graph_accepts_example : new_graph sample_jobs ≡ ok (record { jobs = sample_jobs })
new_graph_accepts_example =
    new_graph_accepts sample_jobs sample_bounded (2 ∷ 1 ∷ []) sample-Distinct sample-IsSchedule

new_graph-IsSchedule_example :
    (sample_jobs ≡ sample_jobs)
    × Distinct (ids sample_jobs)
    × ((order : List ℕ) × IsSchedule sample_jobs order)
new_graph-IsSchedule_example =
    new_graph-IsSchedule sample_jobs sample_bounded (record { jobs = sample_jobs }) sample_graph

visit_ready_terminates_example :
    visit_ready
      (length sample_jobs + 5)
      (collect_dependants sample_jobs [])
      (first_ready sample_jobs)
      (count_indegree sample_jobs [])
      0
    ≡ count_visited sample_jobs
visit_ready_terminates_example = visit_ready_terminates sample_jobs sample_bounded 5 sample-Distinct

-- A job that depends on itself is a cycle.
self_cycle : new_graph (depends_on (new_spec 1 [] maintenance) 1 ∷ []) ≡ err cycle
unfolding new_graph index_jobs check_jobs check_dependencies count_visited visit_ready
    collect_dependants push_dependants push_dependant first_ready count_indegree release_dependants
    insert lookup contains depends_on new_spec
self_cycle = refl
