-- ===== src/Jobs/Persistence/Log.antt =====
-- core/jobs/src/persistence.rs: the log of framed snapshots. A file that is not there is `none`; other
-- failures of the file system are not modelled.
pub mod Frames
pub mod Latest
use pdf_platform.Jobs.Persistence.{
  EncodeFailure, JobSnapshot, PersistenceError, decode_snapshot, encode_snapshot, frame_magic,
  max_file_bytes, max_snapshot_bytes, limit_exceeded, malformed,
}
use pdf_platform.Common.{
  ℕ, List, ◌%◌, ◌+◌, ◌++◌, ◌>>=◌, Bool, Option, Result, [], ◌^◌, drop, if◌then◌else◌, fail_if,
  is_empty, length, ltb, none, not, ok, some, suc, take, zero, ◌||◌, ◌==◌,
}
use pdf_platform.Common.Keys.{bytes_beq}
use pdf_platform.Common.Bytes.{le_bytes, from_le_bytes}

-- The bytes that `append_snapshot` writes for a payload.
unfoldable pub frame_bytes : List ℕ → List ℕ
frame_bytes payload =
    let n = length payload % 2 ^ 32 in frame_magic ++ le_bytes 4 n ++ payload ++ le_bytes 4 n

-- What a file holds.
abbrev pub contents : Option (List ℕ) → List ℕ
contents none = []
contents (some bytes) = bytes

-- The file after it, when every write succeeds.
unfoldable pub append_snapshot : Option (List ℕ) → JobSnapshot → Result EncodeFailure (List ℕ)
append_snapshot file snapshot =
    encode_snapshot snapshot >>= λ payload. ok (contents file ++ frame_bytes payload)

-- The length field of a frame, and the one that commits it.
abbrev pub frame_length : List ℕ → ℕ
frame_length remaining = from_le_bytes (take 4 (drop 8 remaining))

abbrev pub committed_length : List ℕ → ℕ
committed_length remaining = from_le_bytes (take 4 (drop (12 + frame_length remaining) remaining))

module _ (is_utf8 : List ℕ → Bool) where
  -- The loop of `load_latest` over the bytes that remain, on fuel. The sum of a frame's length does not
  -- overflow, since the length is bounded before.
  unfoldable pub load_frames :
      ℕ → List ℕ → Option JobSnapshot → Result PersistenceError (Option JobSnapshot)
  load_frames zero remaining latest = ok latest
  load_frames (suc fuel) remaining latest =
      if is_empty remaining || ltb (length remaining) 12
      then ok latest
      else (fail_if (not (bytes_beq (take 8 remaining) frame_magic)) (malformed "frame magic")
          >>= λ _.
              fail_if (ltb max_snapshot_bytes (frame_length remaining))
                (limit_exceeded "snapshot size")
              >>= λ _.
                  if ltb (length remaining) (12 + frame_length remaining + 4)
                  then ok latest
                  else (fail_if (not (committed_length remaining == frame_length remaining))
                        (malformed "frame commit length")
                      >>= λ _.
                          decode_snapshot is_utf8
                            (take (frame_length remaining) (drop 12 remaining))
                          >>= λ snapshot.
                              load_frames fuel (drop (12 + frame_length remaining + 4) remaining)
                                (some snapshot)))

  -- The fuel is the length of the file, since every turn of the loop moves on.
  unfoldable pub load_latest : Option (List ℕ) → Result PersistenceError (Option JobSnapshot)
  load_latest none = ok none
  load_latest (some bytes) =
      fail_if (ltb max_file_bytes (length bytes)) (limit_exceeded "log size") >>= λ _.
      load_frames (length bytes) bytes none
