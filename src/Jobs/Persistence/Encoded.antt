-- ===== src/Jobs/Persistence/Encoded.antt =====
-- The bytes that `encode_snapshot` gives (core/jobs/src/persistence.rs).
use pdf_platform.Jobs.Persistence.{
  PersistedJobState, encode_jobs, job_bytes, max_dependencies, max_operation_bytes,
  max_snapshot_bytes, pending,
}
use pdf_platform.Jobs.Graph.{JobSpec}
use mathlib.Core.List.{append_assoc, append-nil}
use pdf_platform.Common.{
  ℕ, ◌++◌, All, List, Option-cases, [], arith, inl, inr, length, none, ok, some, ◌∙◌, ◌∷◌, ◌≡◌, ◌≤◌,
  subst, sym,
}
use pdf_platform.Common.Map.{lookup}
use pdf_platform.Common.Keys.{nat_eq}

abbrev pub state_at : List (ℕ × PersistedJobState) → ℕ → PersistedJobState
state_at states id = elim (lookup id states) [ none ↦ pending | some state ↦ state ]

unfoldable pub jobs_bytes : List (ℕ × PersistedJobState) → List JobSpec → List ℕ
jobs_bytes states [] = []
jobs_bytes states (job ∷ jobs) = job_bytes job (state_at states job.id) ++ jobs_bytes states jobs

-- The job has a state and keeps within the limits.
pub record IsEncoded (states : List (ℕ × PersistedJobState)) (job : JobSpec) : Type 0 where
  pub stated : lookup job.id states ≡ some (state_at states job.id)
  pub operation_bounded : length job.operation ≤ max_operation_bytes
  pub dependencies_bounded : length job.dependencies ≤ max_dependencies

-- The checks before a job is written, when they pass.
encode_step :
    (states : List (ℕ × PersistedJobState)) (output : List ℕ) (job : JobSpec) (jobs : List JobSpec)
    (bytes : List ℕ)
    → encode_jobs states output (job ∷ jobs) ≡ ok bytes
    → IsEncoded states job
      × (length (output ++ job_bytes job (state_at states job.id)) ≤ max_snapshot_bytes)
      × (encode_jobs states (output ++ job_bytes job (state_at states job.id)) jobs ≡ ok bytes)
unfolding encode_jobs
encode_step states output job jobs bytes h = elim (Option-cases (lookup job.id states)) [
  | inl absent ↦ ground arith
  | inr (state, found) ↦ ground arith
]

pub encode_jobs_ok :
    (states : List (ℕ × PersistedJobState)) (output : List ℕ) (jobs : List JobSpec) (bytes : List ℕ)
    → length output ≤ max_snapshot_bytes
    → encode_jobs states output jobs ≡ ok bytes
    → (bytes ≡ output ++ jobs_bytes states jobs)
      × (length bytes ≤ max_snapshot_bytes)
      × All (IsEncoded states) jobs
unfolding jobs_bytes
encode_jobs_ok states output [] bytes small h =
    unfold encode_jobs in
    let same : output ≡ bytes = cc in
    (sym same ∙ sym (append-nil output), subst (λ b. length b ≤ max_snapshot_bytes) same small, tt)
encode_jobs_ok states output (job ∷ jobs) bytes small h =
    let (fine, fits, next) = encode_step states output job jobs bytes h in
    let (same, short, others) =
      encode_jobs_ok states (output ++ job_bytes job (state_at states job.id)) jobs bytes fits
        next in
    (
      same ∙ append_assoc output (job_bytes job (state_at states job.id)) (jobs_bytes states jobs),
      short,
      (fine, others),
    )
