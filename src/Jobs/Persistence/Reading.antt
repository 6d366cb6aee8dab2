-- ===== src/Jobs/Persistence/Reading.antt =====
-- Where a cursor stands, and what it reads there (core/jobs/src/persistence.rs).
use pdf_platform.Jobs.Persistence.{
  Cursor, max_snapshot_bytes, take_bytes, PersistedJobState, bool_tag, cancelled, completed,
  decode_flag, decode_priority, decode_state, dependency_bytes, failed, format_version, pending,
  priority_tag, read_byte, read_dependencies, read_idempotent, read_u32, read_u64, running,
  state_tag, read_number,
}
use pdf_platform.Jobs.Graph.{JobPriority, maintenance, user_initiated, interactive_adjacent}
use mathlib.Core.List.{append_assoc}
use pdf_platform.Common.{
  ℕ, ◌+◌, ◌++◌, List, [], arith, drop, length, ok, suc, zero, ◌∙◌, ◌∷◌, ◌≡◌, ◌≤◌, ◌*◌, ◌<◌, All,
  Bool, ◌^◌, drop-append, false, leb, length-append, le→leb, refl, subst, sym, take, take-append,
  true,
}
use pdf_platform.Common.Bytes.{le_bytes, from_le_bytes, length-le_bytes, from_le_bytes-le_bytes}

-- The cursor has `rest` still to read.
pub record IsAt (c : Cursor) (rest : List ℕ) : Type 0 where
  pub stands : drop c.offset c.bytes ≡ rest
  pub total : c.offset + length rest ≡ length c.bytes
  pub small : length c.bytes ≤ max_snapshot_bytes

abbrev pub advance : Cursor → ℕ → Cursor
advance c n = record c { offset = c.offset + n }

drop-nil : (n : ℕ) → ◌≡◌ {A = List ℕ} (drop n []) []
drop-nil zero = refl
drop-nil (suc n) = refl

pub drop-drop : (m n : ℕ) (xs : List ℕ) → drop (m + n) xs ≡ drop n (drop m xs)
drop-drop zero n xs = let same : 0 + n ≡ n = omega arith in rw same refl
drop-drop (suc m) n [] = drop-nil (suc m + n) ∙ sym (drop-nil n)
drop-drop (suc m) n (x ∷ xs) =
    let moved : suc m + n ≡ suc (m + n) = omega arith in rw moved (drop-drop m n xs)

pub take_bytes-IsAt :
    (n : ℕ) (chunk rest : List ℕ) (c : Cursor)
    → length chunk ≡ n
    → IsAt c (chunk ++ rest)
    → (take_bytes n c ≡ ok (chunk, advance c n)) × IsAt (advance c n) rest
unfolding take_bytes
take_bytes-IsAt n chunk rest c e h =
    let fits : c.offset + n + length rest ≡ length c.bytes =
      omega (arith, h.total, length-append chunk rest) in
    let inside : leb (2 ^ 64) (c.offset + n) ≡ false = ground (arith, h.small) in
    let read : take n (drop c.offset c.bytes) ≡ chunk =
      rw (h.stands, sym e) (take-append chunk rest) in
    (
      rw (take_bytes, inside, le→leb (c.offset + n) (length c.bytes) (omega arith), read) refl,
      record {
        stands = rw (drop-drop c.offset n c.bytes, h.stands, sym e) (drop-append chunk rest);
        total = fits;
        small = h.small;
      },
    )

-- A number written in `k` bytes is read back from them.
read_number-IsAt :
    (k v : ℕ) (rest : List ℕ) (c : Cursor)
    → v < 256 ^ k
    → IsAt c (le_bytes k v ++ rest)
    → (read_number k c ≡ ok (v, advance c k)) × IsAt (advance c k) rest
unfolding read_number
read_number-IsAt k v rest c h at =
    let (taken, next) = take_bytes-IsAt k (le_bytes k v) rest c (length-le_bytes k v) at in
    (rw (read_number, taken, from_le_bytes-le_bytes k v h) refl, next)

pub read_u64-IsAt :
    (v : ℕ) (rest : List ℕ) (c : Cursor)
    → v < 2 ^ 64
    → IsAt c (le_bytes 8 v ++ rest)
    → (read_u64 c ≡ ok (v, advance c 8)) × IsAt (advance c 8) rest
unfolding read_u64
read_u64-IsAt v rest c h at = read_number-IsAt 8 v rest c (omega arith) at

pub read_u32-IsAt :
    (v : ℕ) (rest : List ℕ) (c : Cursor)
    → v < 2 ^ 32
    → IsAt c (le_bytes 4 v ++ rest)
    → (read_u32 c ≡ ok (v, advance c 4)) × IsAt (advance c 4) rest
unfolding read_u32
read_u32-IsAt v rest c h at = read_number-IsAt 4 v rest c (omega arith) at

pub read_byte-IsAt :
    (v : ℕ) (rest : List ℕ) (c : Cursor)
    → IsAt c (v ∷ rest)
    → (read_byte c ≡ ok (v, advance c 1)) × IsAt (advance c 1) rest
unfolding read_byte read_number from_le_bytes
read_byte-IsAt v rest c at =
    let (taken, next) = take_bytes-IsAt 1 (v ∷ []) rest c refl at in
    let same : v + 256 * 0 ≡ v = omega arith in (rw (read_number, taken, same) refl, next)

pub decode_priority-priority_tag : (p : JobPriority) → decode_priority (priority_tag p) ≡ ok p
unfolding decode_priority priority_tag
decode_priority-priority_tag maintenance = refl
decode_priority-priority_tag user_initiated = refl
decode_priority-priority_tag interactive_adjacent = refl

pub decode_state-state_tag : (s : PersistedJobState) → decode_state (state_tag s) ≡ ok s
unfolding decode_state state_tag
decode_state-state_tag pending = refl
decode_state-state_tag running = refl
decode_state-state_tag completed = refl
decode_state-state_tag failed = refl
decode_state-state_tag cancelled = refl

pub read_idempotent-IsAt :
    (b : Bool) (rest : List ℕ) (c : Cursor)
    → IsAt c (bool_tag b ∷ rest)
    → (read_idempotent format_version c ≡ ok (b, advance c 1)) × IsAt (advance c 1) rest
unfolding read_idempotent decode_flag
read_idempotent-IsAt false rest c at =
    let (read, next) = read_byte-IsAt 0 rest c at in (rw (read_idempotent, read) refl, next)
read_idempotent-IsAt true rest c at =
    let (read, next) = read_byte-IsAt 1 rest c at in (rw (read_idempotent, read) refl, next)

-- The dependencies are read back, and the cursor stands behind them.
pub read_dependencies-IsAt :
    (deps : List ℕ) (rest : List ℕ) (c : Cursor)
    → All (λ d. d < 2 ^ 64) deps
    → IsAt c (dependency_bytes deps ++ rest)
    → (end : Cursor) × (read_dependencies (length deps) c ≡ ok (deps, end)) × IsAt end rest
unfolding read_dependencies dependency_bytes
read_dependencies-IsAt [] rest c h at = (c, refl, at)
read_dependencies-IsAt (d ∷ deps) rest c h at =
    let (read, next) =
      read_u64-IsAt d (dependency_bytes deps ++ rest) c h.0
        (subst (IsAt c) (append_assoc (le_bytes 8 d) (dependency_bytes deps) rest) at) in
    let (end, others, last) = read_dependencies-IsAt deps rest (advance c 8) h.1 next in
    (end, rw (read_dependencies, read, others) refl, last)
