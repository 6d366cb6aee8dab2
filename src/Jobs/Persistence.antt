-- ===== src/Jobs/Persistence.antt =====
-- core/jobs/src/persistence.rs: the snapshots of the job queue, and the log of framed snapshots. Bytes
-- are numbers; `str::from_utf8` is the parameter `is_utf8`. The log file is its bytes: an append is
-- written in full, and a write that was cut off is a prefix of a frame.
pub mod Reading
pub mod Encoded
pub mod RoundTrip
pub mod Snapshot
pub mod Log
use pdf_platform.Common.Bytes.{from_le_bytes, le_bytes}
use pdf_platform.Jobs.Graph.{
  GraphError, JobGraph, JobPriority, JobSpec, maintenance, user_initiated, interactive_adjacent,
  new_graph,
}
use Prim.Native.String.{String}
use pdf_platform.Common.{
  ℕ, ◌%◌, ◌&&◌, ◌*◌, ◌+◌, ◌++◌, ◌>>=◌, Bool, List, Result, [], ◌^◌, drop, if◌then◌else◌, err,
  fail_if, false, leb, length, ltb, not, ok, ok_or, suc, take, true, zero, ◌||◌, ◌∷◌, ◌==◌,
}
use pdf_platform.Common.Map.{insert, lookup, has}
use pdf_platform.Common.Keys.{Eq, nat_eq, bytes_beq}

-- "PDFJOBS\0" and "JOBSFRM\0"
abbrev pub snapshot_magic : List ℕ
snapshot_magic = 80 ∷ 68 ∷ 70 ∷ 74 ∷ 79 ∷ 66 ∷ 83 ∷ 0 ∷ []

abbrev pub frame_magic : List ℕ
frame_magic = 74 ∷ 79 ∷ 66 ∷ 83 ∷ 70 ∷ 82 ∷ 77 ∷ 0 ∷ []

abbrev pub format_version : ℕ
format_version = 2

abbrev pub max_file_bytes : ℕ
max_file_bytes = 16 * 1024 * 1024

abbrev pub max_snapshot_bytes : ℕ
max_snapshot_bytes = 4 * 1024 * 1024

abbrev pub max_jobs : ℕ
max_jobs = 100000

abbrev pub max_operation_bytes : ℕ
max_operation_bytes = 64 * 1024

abbrev pub max_dependencies : ℕ
max_dependencies = 100000

pub data PersistedJobState : Type 0 where
  pending : PersistedJobState
  running : PersistedJobState
  completed : PersistedJobState
  failed : PersistedJobState
  cancelled : PersistedJobState

pub data PersistenceError : Type 0 where
  io : List ℕ → PersistenceError
  unsupported_version : ℕ → PersistenceError
  malformed : String → PersistenceError
  limit_exceeded : String → PersistenceError
  graph_error : GraphError → PersistenceError

pub record JobSnapshot : Type 0 where
  pub graph : JobGraph
  pub states : List (ℕ × PersistedJobState)

unfoldable pub all_have_states : List (ℕ × PersistedJobState) → List JobSpec → Bool
all_have_states states [] = true
all_have_states states (job ∷ jobs) = has job.id states && all_have_states states jobs

-- `JobSnapshot::new`
unfoldable pub new_snapshot :
    JobGraph → List (ℕ × PersistedJobState) → Result PersistenceError JobSnapshot
new_snapshot graph states =
    if not (length states == length graph.jobs) || not (all_have_states states graph.jobs)
    then err (malformed "states do not match graph jobs")
    else ok (record { graph = graph; states = states })

unfoldable pub normalize_state : PersistedJobState → PersistedJobState
normalize_state pending = pending
normalize_state running = pending
normalize_state completed = completed
normalize_state failed = failed
normalize_state cancelled = cancelled

unfoldable pub priority_tag : JobPriority → ℕ
priority_tag maintenance = 0
priority_tag user_initiated = 1
priority_tag interactive_adjacent = 2

unfoldable pub decode_priority : ℕ → Result PersistenceError JobPriority
decode_priority tag =
    if tag == 0
    then ok maintenance
    else if tag == 1
    then ok user_initiated
    else if tag == 2
    then ok interactive_adjacent
    else err (malformed "priority tag")

unfoldable pub state_tag : PersistedJobState → ℕ
state_tag pending = 0
state_tag running = 1
state_tag completed = 2
state_tag failed = 3
state_tag cancelled = 4

unfoldable pub decode_state : ℕ → Result PersistenceError PersistedJobState
decode_state tag =
    if tag == 0
    then ok pending
    else if tag == 1
    then ok running
    else if tag == 2
    then ok completed
    else if tag == 3
    then ok failed
    else if tag == 4
    then ok cancelled
    else err (malformed "state tag")

-- `u8::from(job.idempotent)`
abbrev pub bool_tag : Bool → ℕ
bool_tag false = 0
bool_tag true = 1

unfoldable pub dependency_bytes : List ℕ → List ℕ
dependency_bytes [] = []
dependency_bytes (dependency ∷ dependencies) =
    le_bytes 8 dependency ++ dependency_bytes dependencies

-- What the loop of `encode_snapshot` appends for a job.
unfoldable pub job_bytes : JobSpec → PersistedJobState → List ℕ
job_bytes job state =
    le_bytes 8 job.id
    ++ (priority_tag job.priority ∷ state_tag state ∷ bool_tag job.idempotent ∷ [])
    ++ le_bytes 4 (length job.operation % 2 ^ 32)
    ++ job.operation
    ++ le_bytes 4 (length job.dependencies % 2 ^ 32)
    ++ dependency_bytes job.dependencies

-- An error, or the panic of `snapshot.states[&job.id]`.
pub data EncodeFailure : Type 0 where
  error : PersistenceError → EncodeFailure
  missing_state_panic : EncodeFailure

-- The loop of `encode_snapshot`.
unfoldable pub encode_jobs :
    List (ℕ × PersistedJobState) → List ℕ → List JobSpec → Result EncodeFailure (List ℕ)
encode_jobs states output [] = ok output
encode_jobs states output (job ∷ jobs) =
    fail_if (ltb max_operation_bytes (length job.operation))
      (error (limit_exceeded "operation length"))
    >>= λ _.
        fail_if (ltb max_dependencies (length job.dependencies))
          (error (limit_exceeded "dependency count"))
        >>= λ _. ok_or (lookup job.id states) missing_state_panic >>= λ state.
            fail_if (ltb max_snapshot_bytes (length (output ++ job_bytes job state)))
              (error (limit_exceeded "snapshot size"))
            >>= λ _. encode_jobs states (output ++ job_bytes job state) jobs

unfoldable pub encode_snapshot : JobSnapshot → Result EncodeFailure (List ℕ)
encode_snapshot snapshot =
    let jobs = snapshot.graph.jobs in
    fail_if (ltb max_jobs (length jobs)) (error (limit_exceeded "job count")) >>= λ _.
    encode_jobs snapshot.states
      (snapshot_magic ++ le_bytes 4 format_version ++ le_bytes 4 (length jobs % 2 ^ 32)) jobs

pub record Cursor : Type 0 where
  pub bytes : List ℕ
  pub offset : ℕ

abbrev pub Reader : Type 0 → Type 0
Reader A = Cursor → Result PersistenceError (A × Cursor)

-- `Cursor::take`
unfoldable pub take_bytes : ℕ → Reader (List ℕ)
take_bytes count c =
    let end = c.offset + count in
    if leb (2 ^ 64) end
    then err (malformed "length overflow")
    else if leb end (length c.bytes)
    then ok (take count (drop c.offset c.bytes), record c { offset = end })
    else err (malformed "truncated snapshot")

-- The number of the next `count` bytes.
unfoldable pub read_number : ℕ → Reader ℕ
read_number count c = take_bytes count c >>= λ (bytes, rest). ok (from_le_bytes bytes, rest)

-- `Cursor::byte`, of the one byte that `take(1)` gives.
unfoldable pub read_byte : Reader ℕ
read_byte = read_number 1

-- `Cursor::u32` and `Cursor::u64`
unfoldable pub read_u32 : Reader ℕ
read_u32 = read_number 4

unfoldable pub read_u64 : Reader ℕ
read_u64 = read_number 8

-- `Cursor::is_empty`
unfoldable pub at_end : Cursor → Bool
at_end c = c.offset == length c.bytes

unfoldable pub decode_flag : ℕ → Result PersistenceError Bool
decode_flag tag =
    if tag == 0 then ok false else if tag == 1 then ok true else err (malformed "idempotency tag")

-- From version 2 on a job has an idempotency byte.
unfoldable pub read_idempotent : ℕ → Reader Bool
read_idempotent version c =
    if leb 2 version
    then (read_byte c >>= λ (tag, rest). decode_flag tag >>= λ flag. ok (flag, rest))
    else ok (false, c)

unfoldable pub read_dependencies : ℕ → Reader (List ℕ)
read_dependencies zero c = ok ([], c)
read_dependencies (suc count) c = read_u64 c >>= λ (dependency, c1).
    read_dependencies count c1 >>= λ (dependencies, c2). ok (dependency ∷ dependencies, c2)

-- `map_err(PersistenceError::Graph)`
unfoldable pub graph_result : Result GraphError JobGraph → Result PersistenceError JobGraph
graph_result (ok graph) = ok graph
graph_result (err e) = err (graph_error e)

module _ (is_utf8 : List ℕ → Bool) where
  -- The body of the loop of `decode_snapshot`.
  unfoldable pub read_job : ℕ → Reader (JobSpec × PersistedJobState)
  read_job version c = read_u64 c >>= λ (id, c1). read_byte c1 >>= λ (tag, c2).
      decode_priority tag >>= λ priority. read_byte c2 >>= λ (state_byte, c3).
      decode_state state_byte >>= λ state. read_idempotent version c3 >>= λ (idempotent, c4).
      read_u32 c4 >>= λ (operation_len, c5).
      fail_if (ltb max_operation_bytes operation_len) (limit_exceeded "operation length") >>= λ _.
      take_bytes operation_len c5 >>= λ (operation, c6).
      fail_if (not (is_utf8 operation)) (malformed "operation UTF-8") >>= λ _.
      read_u32 c6 >>= λ (dependency_count, c7).
      fail_if (ltb max_dependencies dependency_count) (limit_exceeded "dependency count") >>= λ _.
      read_dependencies dependency_count c7 >>= λ (dependencies, c8). ok (
        (
          record {
            id = id;
            operation = operation;
            priority = priority;
            dependencies = dependencies;
            idempotent = idempotent;
          },
          state,
        ),
        c8,
      )

  -- The loop of `decode_snapshot`, over the jobs that are left.
  unfoldable pub read_jobs :
      ℕ
      → ℕ
      → List JobSpec
      → List (ℕ × PersistedJobState)
      → Reader (List JobSpec × List (ℕ × PersistedJobState))
  read_jobs version zero jobs states c = ok ((jobs, states), c)
  read_jobs version (suc count) jobs states c = read_job version c >>= λ (read, rest).
      fail_if (has read.0.id states) (malformed "duplicate job state") >>= λ _.
      read_jobs version count (jobs ++ read.0 ∷ [])
        (insert read.0.id (normalize_state read.1) states) rest

  unfoldable pub decode_snapshot : List ℕ → Result PersistenceError JobSnapshot
  decode_snapshot bytes =
      fail_if (ltb max_snapshot_bytes (length bytes)) (limit_exceeded "snapshot size") >>= λ _.
      take_bytes 8 (record { bytes = bytes; offset = 0 }) >>= λ (magic, c1).
      fail_if (not (bytes_beq magic snapshot_magic)) (malformed "snapshot magic") >>= λ _.
      read_u32 c1 >>= λ (version, c2).
      fail_if (not (version == 1 || version == format_version)) (unsupported_version version)
      >>= λ _. read_u32 c2 >>= λ (count, c3).
          fail_if (ltb max_jobs count) (limit_exceeded "job count") >>= λ _.
          read_jobs version count [] [] c3 >>= λ (read, c4).
          fail_if (not (at_end c4)) (malformed "trailing snapshot bytes") >>= λ _.
          graph_result (new_graph read.0) >>= λ graph. new_snapshot graph read.1
