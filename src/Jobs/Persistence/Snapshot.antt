-- ===== src/Jobs/Persistence/Snapshot.antt =====
-- A snapshot written and read again (core/jobs/src/persistence.rs).
use pdf_platform.Jobs.Graph.Counts.{ids}
use pdf_platform.Common.Map.{lookup, has, lookup_absent}
use pdf_platform.Common.Bytes.{le_bytes, length-le_bytes}
use mathlib.Core.Option
use mathlib.Core.List.{append_assoc, append-nil}
use pdf_platform.Common.Keys.{contains, ==_refl, nat_eq, bytes_beq}
use pdf_platform.Jobs.Persistence.{
  JobSnapshot, PersistedJobState, decode_snapshot, encode_jobs, encode_snapshot, format_version,
  max_jobs, max_snapshot_bytes, new_snapshot, normalize_state, snapshot_magic, at_end, graph_result,
}
use pdf_platform.Jobs.Persistence.Encoded.{IsEncoded, encode_jobs_ok, jobs_bytes, state_at}
use pdf_platform.Jobs.Persistence.Reading.{IsAt, read_u32-IsAt, take_bytes-IsAt}
use pdf_platform.Jobs.Persistence.RoundTrip.{
  IsFresh, IsJob, add_states, all_have-add_states, index_jobs-IsFresh, length-add_states,
  lookup-add_states, read_jobs-IsAt,
}
use pdf_platform.Jobs.Graph.{JobSpec, index_jobs, new_graph, JobGraph}
use pdf_platform.Common.{
  ℕ, List, ◌%◌, ◌++◌, ◌<◌, All, Bool, Bool-cases, Result-cases, [], ◌^◌, arith, if◌then◌else◌, inl,
  inr, length, none, ok, some, subst, true, ◌∷◌, ◌≡◌, ◌≤◌, ◌==◌, false, length-append, ltb, refl,
  ==_iff,
}

-- What the types of a job's fields promise: numbers of 64 bits, and a `String`.
pub record IsTyped (is_utf8 : List ℕ → Bool) (job : JobSpec) : Type 0 where
  pub id_fits : job.id < 2 ^ 64
  pub dependencies_fit : All (λ d. d < 2 ^ 64) job.dependencies
  pub is_text : is_utf8 job.operation ≡ true

All-IsJob :
    (is_utf8 : List ℕ → Bool) (states : List (ℕ × PersistedJobState)) (jobs : List JobSpec)
    → All (IsTyped is_utf8) jobs
    → All (IsEncoded states) jobs
    → All (IsJob is_utf8) jobs
All-IsJob is_utf8 states [] t e = tt
All-IsJob is_utf8 states (job ∷ jobs) (t, ts) (e, es) = (
  record {
    id_fits = t.id_fits;
    dependencies_fit = t.dependencies_fit;
    is_text = t.is_text;
    operation_bounded = e.operation_bounded;
    dependencies_bounded = e.dependencies_bounded;
  },
  All-IsJob is_utf8 states jobs ts es,
)

lookup-state_at :
    (states : List (ℕ × PersistedJobState)) (jobs : List JobSpec) (id : ℕ)
    → All (IsEncoded states) jobs
    → contains id (ids jobs) ≡ true
    → lookup id states ≡ some (state_at states id)
unfolding contains
lookup-state_at states [] id e m = ground arith
lookup-state_at states (job ∷ jobs) id e m = elim (Bool-cases (job.id == id)) [
  | inl same ↦
      subst (λ i. lookup i states ≡ some (state_at states i)) ((==_iff job.id id).0 same) e.0.stated
  | inr other ↦ lookup-state_at states jobs id e.1 (ground arith)
]

-- The head of a snapshot.
pub encode_snapshot_ok :
    (s : JobSnapshot) (bytes : List ℕ)
    → encode_snapshot s ≡ ok bytes
    → (length s.graph.jobs ≤ max_jobs)
      × (bytes
          ≡ snapshot_magic
            ++ (le_bytes 4 format_version
                ++ (le_bytes 4 (length s.graph.jobs) ++ (jobs_bytes s.states s.graph.jobs ++ []))))
      × (length bytes ≤ max_snapshot_bytes)
      × All (IsEncoded s.states) s.graph.jobs
unfolding encode_snapshot
encode_snapshot_ok s bytes h =
    let jobs = s.graph.jobs in
    let few : length jobs ≤ max_jobs = ground arith in
    let n : length jobs % 2 ^ 32 ≡ length jobs = omega arith in
    let head = snapshot_magic ++ le_bytes 4 format_version ++ le_bytes 4 (length jobs % 2 ^ 32) in
    let run : encode_jobs s.states head jobs ≡ ok bytes = ground arith in
    let n1 : length (le_bytes 4 format_version) ≡ 4 = length-le_bytes 4 format_version in
    let n2 : length (le_bytes 4 (length jobs % 2 ^ 32)) ≡ 4 =
      length-le_bytes 4 (length jobs % 2 ^ 32) in
    let n3 = length-append (le_bytes 4 format_version) (le_bytes 4 (length jobs % 2 ^ 32)) in
    let short : length head ≤ max_snapshot_bytes = omega (arith, n1, n2, n3) in
    let (same, bounded, fine) = encode_jobs_ok s.states head jobs bytes short run in
    let whole : bytes
        ≡ snapshot_magic
          ++ (le_bytes 4 format_version
              ++ (le_bytes 4 (length jobs) ++ (jobs_bytes s.states jobs ++ []))) =
      rw (same, n) (simp (append_assoc, append-nil)) in
    (few, whole, bounded, fine)

new_graph_ok :
    (jobs : List JobSpec) (graph : JobGraph)
    → new_graph jobs ≡ ok graph
    → (indexes : List (ℕ × ℕ)) × (index_jobs 0 [] jobs ≡ ok indexes)
unfolding new_graph
new_graph_ok jobs graph h = elim (Result-cases (index_jobs 0 [] jobs)) [
  | inl found ↦ found
  | inr (e, bad) ↦ ground arith
]

-- The states restored are those of the snapshot, a running job pending.
new_snapshot-add_states :
    (s : JobSnapshot)
    → IsFresh [] s.graph.jobs
    → ((id : ℕ)
        → contains id (ids s.graph.jobs) ≡ true
        → has id (add_states s.states [] s.graph.jobs) ≡ true)
    → new_snapshot s.graph (add_states s.states [] s.graph.jobs)
      ≡ ok (record { graph = s.graph; states = add_states s.states [] s.graph.jobs })
unfolding new_snapshot
new_snapshot-add_states s fresh every_id =
    let jobs = s.graph.jobs in
    let n : length (add_states s.states [] jobs) ≡ length jobs =
      omega (arith, length-add_states s.states [] jobs fresh) in
    let every = all_have-add_states (add_states s.states [] jobs) jobs every_id in
    rw (new_snapshot, n, ==_refl (length jobs), every) refl

restored_state :
    (s : JobSnapshot) (id : ℕ)
    → All (IsEncoded s.states) s.graph.jobs
    → lookup id (add_states s.states [] s.graph.jobs) ≡ (
        if contains id (ids s.graph.jobs)
        then Option.map normalize_state (lookup id s.states)
        else none)
unfolding lookup
restored_state s id fine =
    let seen = lookup-add_states s.states [] s.graph.jobs id in
    elim (Bool-cases (contains id (ids s.graph.jobs))) [
      | inl there ↦ rw (seen, there, lookup-state_at s.states s.graph.jobs id fine there) refl
      | inr absent ↦ rw (seen, absent) refl
    ]

has-add_states :
    (s : JobSnapshot) (id : ℕ)
    → contains id (ids s.graph.jobs) ≡ true
    → has id (add_states s.states [] s.graph.jobs) ≡ true
has-add_states s id there =
    let seen = lookup-add_states s.states [] s.graph.jobs id in
    elim (Bool-cases (has id (add_states s.states [] s.graph.jobs))) [
      | inl found ↦ found
      | inr absent ↦ ground (arith, lookup_absent id (add_states s.states [] s.graph.jobs) absent)
    ]

-- What a snapshot must be for its bytes to be read back: its graph is one that `JobGraph::new` gives.
pub record IsStorable (is_utf8 : List ℕ → Bool) (s : JobSnapshot) : Type 0 where
  pub valid : new_graph s.graph.jobs ≡ ok s.graph
  pub typed : All (IsTyped is_utf8) s.graph.jobs

-- The same graph, and for each of its jobs the state, a running one pending.
pub record IsRestored (s t : JobSnapshot) : Type 0 where
  pub same_graph : t.graph ≡ s.graph
  pub same_states :
      (id : ℕ)
      → lookup id t.states ≡ (
          if contains id (ids s.graph.jobs)
          then Option.map normalize_state (lookup id s.states)
          else none)

pub decode_snapshot-encode_snapshot :
    (is_utf8 : List ℕ → Bool) (s : JobSnapshot) (bytes : List ℕ)
    → IsStorable is_utf8 s
    → encode_snapshot s ≡ ok bytes
    → (t : JobSnapshot) × (decode_snapshot is_utf8 bytes ≡ ok t) × IsRestored s t
unfolding decode_snapshot bytes_beq graph_result
decode_snapshot-encode_snapshot is_utf8 s bytes storable h =
    let (few, same, short, fine) = encode_snapshot_ok s bytes h in
    let jobs = s.graph.jobs in
    let (indexes, indexed) = new_graph_ok jobs s.graph storable.valid in
    let fresh = index_jobs-IsFresh 0 [] jobs indexes [] indexed (λ id. refl) in
    let start : IsAt (record { bytes = bytes; offset = 0 }) bytes = record {
      stands = refl;
      total = omega arith;
      small = short;
    } in
    let (r1, a1) =
      take_bytes-IsAt 8 snapshot_magic _ _ refl
        (subst (IsAt (record { bytes = bytes; offset = 0 })) same start) in
    let (r2, a2) = read_u32-IsAt format_version _ _ (omega arith) a1 in
    let (r3, a3) = read_u32-IsAt (length jobs) _ _ (omega arith) a2 in
    let (end, r4, a4) =
      read_jobs-IsAt is_utf8 s.states [] jobs [] [] _
        (All-IsJob is_utf8 s.states jobs storable.typed fine) fresh a3 in
    let done : at_end end ≡ true = unfold at_end in ground (arith, a4.total) in
    let small : ltb max_snapshot_bytes (length bytes) ≡ false = ground arith in
    let some_jobs : ltb max_jobs (length jobs) ≡ false = ground arith in
    (
      record { graph = s.graph; states = add_states s.states [] jobs },
      rw (decode_snapshot, small, r1, r2, r3, some_jobs, r4, done, storable.valid)
          (new_snapshot-add_states s fresh (has-add_states s)),
      record { same_graph = refl; same_states = λ id. restored_state s id fine },
    )
