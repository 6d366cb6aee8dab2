-- ===== src/Jobs/Persistence/Log/Frames.antt =====
-- What the loop of `load_latest` does at a frame and at a torn one (core/jobs/src/persistence.rs).

use pdf_platform.Jobs.Persistence.Reading.{drop-drop}
use pdf_platform.Common.Keys.{bytes_beq}
use pdf_platform.Common.Bytes.{from_le_bytes-le_bytes, le_bytes, length-le_bytes, from_le_bytes}
use pdf_platform.Jobs.Persistence.{decode_snapshot, JobSnapshot, frame_magic, max_snapshot_bytes}
use pdf_platform.Jobs.Persistence.Log.{load_frames, frame_bytes, frame_length}
use pdf_platform.Common.{
  ℕ, List, ◌%◌, ◌+◌, ◌++◌, Bool, Option, ◌^◌, arith, drop, drop-append, false, length, ltb, some,
  suc, sym, take, take-append, ◌≤◌, ◌≡◌, ok, length-append, refl, ◌∙◌, ==_iff, Bool-cases, [], ap,
  inl, inr, length-drop, true, zero, ◌∷◌, ◌==◌,
}
use mathlib.Core.List.{append_assoc, append-nil}

-- What a write that was cut off leaves: a part of a frame, not the whole.
pub record IsTorn (tail : List ℕ) : Type 0 where
  pub payload : List ℕ
  pub missing : List ℕ
  pub bounded : length payload ≤ max_snapshot_bytes
  pub part : frame_bytes payload ≡ tail ++ missing
  pub cut : 1 ≤ length missing

drop-append_by : (n : ℕ) (xs ys : List ℕ) → length xs ≡ n → drop n (xs ++ ys) ≡ ys
drop-append_by n xs ys e = rw (sym e) (drop-append xs ys)

take-append_by : (n : ℕ) (xs ys : List ℕ) → length xs ≡ n → take n (xs ++ ys) ≡ xs
take-append_by n xs ys e = rw (sym e) (take-append xs ys)

-- The parts of a frame, and what follows it.
pub frame_parts :
    (payload rest : List ℕ)
    → length payload ≤ max_snapshot_bytes
    → frame_bytes payload ++ rest
      ≡ frame_magic
        ++ (le_bytes 4 (length payload) ++ (payload ++ (le_bytes 4 (length payload) ++ rest)))
unfolding frame_bytes
frame_parts payload rest h =
    let n : length payload % 2 ^ 32 ≡ length payload = omega arith in rw n (simp append_assoc)

-- The fields that stand in such bytes.
frame_length-frame :
    (payload rest : List ℕ)
    → length payload ≤ max_snapshot_bytes
    → frame_length (frame_magic ++ (le_bytes 4 (length payload) ++ rest)) ≡ length payload
frame_length-frame payload rest h =
    let n = length payload in
    rw (take-append_by 4 (le_bytes 4 n) rest (length-le_bytes 4 n))
      (from_le_bytes-le_bytes 4 n (omega arith))

abbrev pub framed : List ℕ → List ℕ → List ℕ
framed payload rest =
    frame_magic
    ++ (le_bytes 4 (length payload) ++ (payload ++ (le_bytes 4 (length payload) ++ rest)))

pub length-framed :
    (payload rest : List ℕ) → length (framed payload rest) ≡ 16 + length payload + length rest
length-framed payload rest =
    let n = length payload in
    omega (
      arith,
      length-append (le_bytes 4 n) (payload ++ (le_bytes 4 n ++ rest)),
      length-append payload (le_bytes 4 n ++ rest),
      length-append (le_bytes 4 n) rest,
      length-le_bytes 4 n,
    )

drop-framed :
    (payload rest : List ℕ)
    → drop 12 (framed payload rest) ≡ payload ++ (le_bytes 4 (length payload) ++ rest)
drop-framed payload rest =
    drop-append_by 4 (le_bytes 4 (length payload))
      (payload ++ (le_bytes 4 (length payload) ++ rest)) (length-le_bytes 4 (length payload))

drop-payload :
    (payload rest : List ℕ)
    → drop (12 + length payload) (framed payload rest) ≡ le_bytes 4 (length payload) ++ rest
drop-payload payload rest =
    drop-drop 12 (length payload) (framed payload rest)
    ∙ rw (drop-framed payload rest) (drop-append payload (le_bytes 4 (length payload) ++ rest))

committed_framed :
    (payload rest : List ℕ)
    → length payload ≤ max_snapshot_bytes
    → from_le_bytes (take 4 (drop (12 + length payload) (framed payload rest))) ≡ length payload
committed_framed payload rest h =
    let n = length payload in
    rw (drop-payload payload rest) (
      rw (take-append_by 4 (le_bytes 4 n) rest (length-le_bytes 4 n))
        (from_le_bytes-le_bytes 4 n (omega arith)))

drop-whole : (payload rest : List ℕ) → drop (12 + length payload + 4) (framed payload rest) ≡ rest
drop-whole payload rest =
    drop-drop (12 + length payload) 4 (framed payload rest)
    ∙ rw (drop-payload payload rest)
        (drop-append_by 4 (le_bytes 4 (length payload)) rest (length-le_bytes 4 (length payload)))

-- A whole frame takes one turn.
pub load_frames-frame :
    (is_utf8 : List ℕ → Bool) (payload rest : List ℕ) (s : JobSnapshot) (fuel : ℕ)
    (latest : Option JobSnapshot)
    → length payload ≤ max_snapshot_bytes
    → decode_snapshot is_utf8 payload ≡ ok s
    → load_frames is_utf8 (suc fuel) (frame_bytes payload ++ rest) latest
      ≡ load_frames is_utf8 fuel rest (some s)
unfolding load_frames bytes_beq
load_frames-frame is_utf8 payload rest s fuel latest h d =
    let n = length payload in
    let total = length-framed payload rest in
    let len : frame_length (framed payload rest) ≡ n =
      frame_length-frame payload (payload ++ (le_bytes 4 n ++ rest)) h in
    let body : take n (drop 12 (framed payload rest)) ≡ payload =
      rw (drop-framed payload rest) (take-append payload (le_bytes 4 n ++ rest)) in
    let same : (n == n) ≡ true = (==_iff n n).1 refl in
    let long : ltb (length (framed payload rest)) 12 ≡ false = ground (arith, total) in
    let bounded : ltb max_snapshot_bytes n ≡ false = ground arith in
    let whole : ltb (length (framed payload rest)) (12 + n + 4) ≡ false = ground (arith, total) in
    rw
      (
        frame_parts payload rest h,
        long,
        len,
        bounded,
        whole,
        committed_framed payload rest h,
        same,
        body,
        d,
        drop-whole payload rest,
      )
      refl

take-append_within : (n : ℕ) (xs ys : List ℕ) → n ≤ length xs → take n (xs ++ ys) ≡ take n xs
take-append_within zero xs ys h = refl
take-append_within (suc n) [] ys h = ground arith
take-append_within (suc n) (x ∷ xs) ys h = ap (◌∷◌ x) (take-append_within n xs ys (omega arith))

drop-append_within : (n : ℕ) (xs ys : List ℕ) → n ≤ length xs → drop n (xs ++ ys) ≡ drop n xs ++ ys
drop-append_within zero xs ys h = refl
drop-append_within (suc n) [] ys h = ground arith
drop-append_within (suc n) (x ∷ xs) ys h = drop-append_within n xs ys (omega arith)

-- At a torn frame the loop stops with what it has.
pub load_frames-torn :
    (is_utf8 : List ℕ → Bool) (fuel : ℕ) (tail : List ℕ) (latest : Option JobSnapshot)
    → IsTorn tail
    → load_frames is_utf8 fuel tail latest ≡ ok latest
unfolding load_frames bytes_beq
load_frames-torn is_utf8 zero tail latest torn = refl
load_frames-torn is_utf8 (suc fuel) tail latest torn = elim (Bool-cases (ltb (length tail) 12)) [
  | inl short ↦ ground arith
  | inr long ↦
      let n = length torn.payload in
      let whole : tail ++ torn.missing ≡ framed torn.payload [] =
        sym torn.part
        ∙ sym (append-nil (frame_bytes torn.payload))
        ∙ frame_parts torn.payload [] torn.bounded in
      let enough : 12 ≤ length tail = ground arith in
      let magic : take 8 tail ≡ frame_magic =
        sym (take-append_within 8 tail torn.missing (omega arith)) ∙ ap (take 8) whole in
      let field : drop 8 tail ++ torn.missing ≡ drop 8 (framed torn.payload []) =
        sym (drop-append_within 8 tail torn.missing (omega arith)) ∙ ap (drop 8) whole in
      let len : frame_length tail ≡ n =
        ap from_le_bytes (
          sym (take-append_within 4 (drop 8 tail) torn.missing (omega (arith, length-drop 8 tail)))
          ∙ ap (take 4) field)
        ∙ frame_length-frame torn.payload (torn.payload ++ (le_bytes 4 n ++ [])) torn.bounded in
      let total : length tail + length torn.missing ≡ 16 + n + 0 =
        sym (length-append tail torn.missing) ∙ ap length whole ∙ length-framed torn.payload [] in
      let cut : ltb (length tail) (12 + n + 4) ≡ true = ground (arith, torn.cut) in
      let bounded : ltb max_snapshot_bytes n ≡ false = ground (arith, torn.bounded) in
      rw (long, magic, len, bounded, cut) (ground arith)
]
