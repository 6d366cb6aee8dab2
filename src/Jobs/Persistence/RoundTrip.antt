-- ===== src/Jobs/Persistence/RoundTrip.antt =====
-- Jobs and their states, written and read again (core/jobs/src/persistence.rs).
use pdf_platform.Jobs.Graph.Counts.{ids}
use pdf_platform.Jobs.Persistence.{
  Cursor, PersistedJobState, bool_tag, dependency_bytes, format_version, job_bytes,
  max_dependencies, max_operation_bytes, priority_tag, read_job, state_tag, all_have_states,
  normalize_state, read_jobs,
}
use pdf_platform.Jobs.Persistence.Reading.{
  IsAt, take_bytes-IsAt, read_u64-IsAt, read_u32-IsAt, read_byte-IsAt, read_idempotent-IsAt,
  read_dependencies-IsAt, decode_priority-priority_tag, decode_state-state_tag,
}
use pdf_platform.Jobs.Graph.{JobSpec, index_jobs}
use mathlib.Core.List.{append_assoc, append-nil}
use pdf_platform.Jobs.Persistence.Encoded.{jobs_bytes, state_at}
use pdf_platform.Common.Map.{
  insert, lookup, has, lookup-insert, contains-keys-insert, length-insert_absent,
}
use pdf_platform.Common.Keys.{nat_eq, ==_refl, contains}
use pdf_platform.Common.{
  ℕ, ◌%◌, ◌++◌, ◌<◌, All, Bool, List, ◌^◌, arith, false, length, ltb, ok, refl, subst, true, ◌∷◌,
  ◌≡◌, ◌≤◌, ◌+◌, [], if◌then◌else◌, some,
}
use pdf_platform.Common.Bytes.{le_bytes}

module _ (is_utf8 : List ℕ → Bool) where
  -- A job as the source can hold it, within the limits that `encode_snapshot` checks.
  pub record IsJob (job : JobSpec) : Type 0 where
    pub id_fits : job.id < 2 ^ 64
    pub dependencies_fit : All (λ d. d < 2 ^ 64) job.dependencies
    pub is_text : is_utf8 job.operation ≡ true
    pub operation_bounded : length job.operation ≤ max_operation_bytes
    pub dependencies_bounded : length job.dependencies ≤ max_dependencies

  unrolled :
      (job : JobSpec) (state : PersistedJobState) (rest : List ℕ)
      → length job.operation ≤ max_operation_bytes
      → length job.dependencies ≤ max_dependencies
      → job_bytes job state ++ rest
        ≡ le_bytes 8 job.id
          ++ (priority_tag job.priority
              ∷ state_tag state
              ∷ bool_tag job.idempotent
              ∷ (le_bytes 4 (length job.operation)
                  ++ (job.operation
                      ++ (le_bytes 4 (length job.dependencies)
                          ++ (dependency_bytes job.dependencies ++ rest)))))
  unfolding job_bytes
  unrolled job state rest h k =
      let n : length job.operation % 2 ^ 32 ≡ length job.operation = omega arith in
      let m : length job.dependencies % 2 ^ 32 ≡ length job.dependencies = omega arith in
      rw (n, m) (simp append_assoc)

  read_job-IsAt :
      (job : JobSpec) (state : PersistedJobState) (rest : List ℕ) (c : Cursor)
      → IsJob job
      → IsAt c (job_bytes job state ++ rest)
      → (end : Cursor) × (read_job is_utf8 format_version c ≡ ok ((job, state), end))
        × IsAt end rest
  unfolding read_job
  read_job-IsAt job state rest c v at =
      let (r1, a1) =
        read_u64-IsAt job.id _ c v.id_fits (
          subst (IsAt c) (unrolled job state rest v.operation_bounded v.dependencies_bounded) at) in
      let (r2, a2) = read_byte-IsAt (priority_tag job.priority) _ _ a1 in
      let (r3, a3) = read_byte-IsAt (state_tag state) _ _ a2 in
      let (r4, a4) = read_idempotent-IsAt job.idempotent _ _ a3 in
      let (r5, a5) =
        read_u32-IsAt (length job.operation) _ _ (omega (arith, v.operation_bounded)) a4 in
      let (r6, a6) = take_bytes-IsAt (length job.operation) job.operation _ _ refl a5 in
      let (r7, a7) =
        read_u32-IsAt (length job.dependencies) _ _ (omega (arith, v.dependencies_bounded)) a6 in
      let (end, r8, a8) = read_dependencies-IsAt job.dependencies rest _ v.dependencies_fit a7 in
      let short : ltb max_operation_bytes (length job.operation) ≡ false =
        ground (arith, v.operation_bounded) in
      let few : ltb max_dependencies (length job.dependencies) ≡ false =
        ground (arith, v.dependencies_bounded) in
      (
        end,
        rw
            (
              read_job,
              r1,
              r2,
              decode_priority-priority_tag job.priority,
              r3,
              decode_state-state_tag state,
              r4,
              r5,
              short,
              r6,
              v.is_text,
              r7,
              few,
              r8,
            )
            refl,
        a8,
      )

-- The states that `read_jobs` collects.
unfoldable pub add_states :
    List (ℕ × PersistedJobState)
    → List (ℕ × PersistedJobState)
    → List JobSpec
    → List (ℕ × PersistedJobState)
add_states states read [] = read
add_states states read (job ∷ jobs) =
    add_states states (insert job.id (normalize_state (state_at states job.id)) read) jobs

pub lookup-add_states :
    (states read : List (ℕ × PersistedJobState)) (jobs : List JobSpec) (id : ℕ)
    → lookup id (add_states states read jobs) ≡ (
        if contains id (ids jobs)
        then some (normalize_state (state_at states id))
        else lookup id read)
unfolding add_states contains
lookup-add_states states read [] id = refl
lookup-add_states states read (job ∷ jobs) id = ground (
  arith,
  lookup-add_states states (insert job.id (normalize_state (state_at states job.id)) read) jobs id,
  lookup-insert job.id id (normalize_state (state_at states job.id)) read,
)

-- The ids are new to the map and distinct, as `index_jobs` finds them.
unfoldable pub IsFresh : List (ℕ × PersistedJobState) → List JobSpec → Type 0
IsFresh read [] = Unit {0}
IsFresh read (job ∷ jobs) =
    (has job.id read ≡ false)
    × ((state : PersistedJobState) → IsFresh (insert job.id state read) jobs)

pub index_jobs-IsFresh :
    (index : ℕ) (indexes : List (ℕ × ℕ)) (jobs : List JobSpec) (final : List (ℕ × ℕ))
    (read : List (ℕ × PersistedJobState))
    → index_jobs index indexes jobs ≡ ok final
    → ((id : ℕ) → has id indexes ≡ has id read)
    → IsFresh read jobs
unfolding index_jobs IsFresh
index_jobs-IsFresh index indexes [] final read h same = tt
index_jobs-IsFresh index indexes (job ∷ jobs) final read h same = (
  ground (arith, same job.id),
  λ state.
      index_jobs-IsFresh (index + 1) (insert job.id index indexes) jobs final
        (insert job.id state read) (ground arith)
        (λ id. ground (
          arith,
          same id,
          contains-keys-insert id job.id index indexes,
          contains-keys-insert id job.id state read,
        )),
)

pub length-add_states :
    (states read : List (ℕ × PersistedJobState)) (jobs : List JobSpec)
    → IsFresh read jobs
    → length (add_states states read jobs) ≡ length read + length jobs
unfolding add_states IsFresh
length-add_states states read [] v = omega arith
length-add_states states read (job ∷ jobs) (new, later) =
    let state = normalize_state (state_at states job.id) in
    omega (
      arith,
      length-add_states states (insert job.id state read) jobs (later state),
      length-insert_absent job.id state read new,
    )

pub all_have-add_states :
    (states : List (ℕ × PersistedJobState)) (jobs : List JobSpec)
    → ((id : ℕ) → contains id (ids jobs) ≡ true → has id states ≡ true)
    → all_have_states states jobs ≡ true
unfolding all_have_states contains
all_have-add_states states [] h = refl
all_have-add_states states (job ∷ jobs) h =
    ground (
      arith,
      h job.id,
      ==_refl job.id,
      all_have-add_states states jobs (λ id m. h id (ground arith)),
    )

module _ (is_utf8 : List ℕ → Bool) where
  pub read_jobs-IsAt :
      (states : List (ℕ × PersistedJobState)) (done jobs : List JobSpec)
      (read : List (ℕ × PersistedJobState)) (rest : List ℕ) (c : Cursor)
      → All (IsJob is_utf8) jobs
      → IsFresh read jobs
      → IsAt c (jobs_bytes states jobs ++ rest)
      → (end : Cursor) × (read_jobs is_utf8 format_version (length jobs) done read c
          ≡ ok ((done ++ jobs, add_states states read jobs), end))
        × IsAt end rest
  unfolding read_jobs jobs_bytes add_states IsFresh
  read_jobs-IsAt states done [] read rest c v fresh at = (c, rw (append-nil done) refl, at)
  read_jobs-IsAt states done (job ∷ jobs) read rest c v fresh at =
      let state = state_at states job.id in
      let (next, r1, a1) =
        read_job-IsAt is_utf8 job state (jobs_bytes states jobs ++ rest) c v.0
          (subst (IsAt c) (append_assoc (job_bytes job state) (jobs_bytes states jobs) rest) at) in
      let (end, r2, a2) =
        read_jobs-IsAt states (done ++ job ∷ []) jobs (insert job.id (normalize_state state) read)
          rest next v.1 (fresh.1 (normalize_state state)) a1 in
      (end, rw (read_jobs, r1, fresh.0, r2) (rw (append_assoc done (job ∷ []) jobs) refl), a2)
