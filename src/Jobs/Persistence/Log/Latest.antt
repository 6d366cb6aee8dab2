-- ===== src/Jobs/Persistence/Log/Latest.antt =====
-- What `load_latest` finds in a log of appended snapshots (core/jobs/src/persistence.rs).
use pdf_platform.Jobs.Persistence.Log.Frames.{
  IsTorn, frame_parts, framed, length-framed, load_frames-frame, load_frames-torn,
}
use pdf_platform.Jobs.Persistence.Snapshot.{
  IsStorable, IsRestored, decode_snapshot-encode_snapshot, encode_snapshot_ok,
}
use pdf_platform.Jobs.Persistence.{
  decode_snapshot, JobSnapshot, max_snapshot_bytes, encode_snapshot, max_file_bytes,
}
use pdf_platform.Jobs.Persistence.Log.{
  load_frames, load_latest, frame_bytes, append_snapshot, contents,
}
use pdf_platform.Common.{
  ℕ, List, ◌+◌, ◌++◌, Bool, Option, arith, false, length, ltb, none, some, suc, sym, ◌≤◌, ◌≡◌, ok,
  length-append, refl, ◌∙◌, [], ap, inl, inr, ◌-◌, Result-cases,
}
use mathlib.Core.List.{append_assoc, append-nil}

-- A log: snapshots appended to a file that was not there, and the last of them.
pub data Log (is_utf8 : List ℕ → Bool) : Option (List ℕ) → Option JobSnapshot → Type 0 where
  created : Log is_utf8 none none
  appended :
      {file : Option (List ℕ)} {last : Option JobSnapshot} {next : List ℕ} (s : JobSnapshot)
      → Log is_utf8 file last
      → IsStorable is_utf8 s
      → append_snapshot file s ≡ ok next
      → Log is_utf8 (some next) (some s)

-- What is found is the last snapshot that was appended, if any.
pub IsLatest : Option JobSnapshot → Option JobSnapshot → Type 0
IsLatest none found = found ≡ none
IsLatest (some s) found = (t : JobSnapshot) × (found ≡ some t) × IsRestored s t

-- What an append writes, and that it is read back.
append_snapshot_ok :
    (is_utf8 : List ℕ → Bool) (file : Option (List ℕ)) (s : JobSnapshot) (next : List ℕ)
    → IsStorable is_utf8 s
    → append_snapshot file s ≡ ok next
    → (payload : List ℕ) × (t : JobSnapshot) × (next ≡ contents file ++ frame_bytes payload)
      × (length payload ≤ max_snapshot_bytes)
      × (decode_snapshot is_utf8 payload ≡ ok t)
      × IsRestored s t
unfolding append_snapshot
append_snapshot_ok is_utf8 file s next storable h = elim (Result-cases (encode_snapshot s)) [
  | inr (e, wrong) ↦ ground arith
  | inl (payload, written) ↦
      let (t, read, restored) =
        decode_snapshot-encode_snapshot is_utf8 s payload storable written in
      (payload, t, ground arith, (encode_snapshot_ok s payload written).2, read, restored)
]

-- The loop reads the frames of a log one by one, and goes on behind them.
load_frames-Log :
    (is_utf8 : List ℕ → Bool) (file : Option (List ℕ)) (last : Option JobSnapshot)
    → Log is_utf8 file last
    → (count : ℕ) × (found : Option JobSnapshot) × IsLatest last found
      × (count ≤ length (contents file))
      × ((fuel : ℕ) (rest : List ℕ)
          → load_frames is_utf8 (count + fuel) (contents file ++ rest) none
            ≡ load_frames is_utf8 fuel rest found)
unfolding IsLatest
load_frames-Log is_utf8 _ _ created = (
  0,
  none,
  refl,
  omega arith,
  λ fuel rest. ap (λ n. load_frames is_utf8 n rest none) (omega arith),
)
load_frames-Log is_utf8 _ _ (appended {file} {last} {next} s log storable h) =
    let (count, found, latest, bounded, run) = load_frames-Log is_utf8 file last log in
    let (payload, t, written, small, read, restored) =
      append_snapshot_ok is_utf8 file s next storable h in
    let frame_total = length-framed payload [] in
    let frame : frame_bytes payload ≡ framed payload [] =
      sym (append-nil (frame_bytes payload)) ∙ frame_parts payload [] small in
    let longer : count + 1 ≤ length next =
      rw (written, length-append (contents file) (frame_bytes payload), frame)
        (omega (arith, frame_total, bounded)) in
    let moved : (fuel : ℕ) → count + 1 + fuel ≡ count + suc fuel = λ fuel. omega arith in
    let step : (fuel : ℕ) (rest : List ℕ)
        → load_frames is_utf8 (count + 1 + fuel) (next ++ rest) none
          ≡ load_frames is_utf8 fuel rest (some t) =
      λ fuel rest.
        rw (moved fuel, written, append_assoc (contents file) (frame_bytes payload) rest)
          (run (suc fuel) (frame_bytes payload ++ rest)
            ∙ load_frames-frame is_utf8 payload rest t fuel found small read) in
    (count + 1, some t, (t, refl, restored), longer, step)

-- Reading a log that any number of appends wrote, with a part of a further frame at its end when
-- `tail` is torn or with nothing there, and of at most 16 MiB in all: `load_latest` succeeds and gives
-- the last snapshot appended, restored as `decode_snapshot` does it, or none when there was none.
pub load_latest-Log :
    (is_utf8 : List ℕ → Bool) (file : Option (List ℕ)) (last : Option JobSnapshot) (tail : List ℕ)
    → Log is_utf8 file last
    → IsTorn tail
    → length (contents file ++ tail) ≤ max_file_bytes
    → (found : Option JobSnapshot) × (load_latest is_utf8 (some (contents file ++ tail)) ≡ ok found)
      × IsLatest last found
unfolding load_latest
load_latest-Log is_utf8 file last tail log torn small =
    let (count, found, latest, bounded, run) = load_frames-Log is_utf8 file last log in
    let total = length-append (contents file) tail in
    let fits : ltb max_file_bytes (length (contents file ++ tail)) ≡ false = ground arith in
    let fuel = length (contents file ++ tail) - count in
    let enough : length (contents file ++ tail) ≡ count + fuel = omega (arith, bounded, total) in
    (
      found,
      rw (load_latest, fits)
          (ap (λ n. load_frames is_utf8 n (contents file ++ tail) none) enough
            ∙ run fuel tail
            ∙ load_frames-torn is_utf8 fuel tail found torn),
      latest,
    )
