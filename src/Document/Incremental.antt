-- ===== src/Document/Incremental.antt =====
-- core/pdf-write/src/lib.rs: IncrementalWriter::write_incremental. The output is a list of bytes to
-- which each `write_all` appends, as a Vec<u8> does; positions are u32, with the wrap-around of a
-- release build written out.
mod Tests
pub mod Section
pub mod Digits
pub mod Printed
pub mod Listed
pub mod Placing
pub mod Layout
pub mod Whole
pub mod Offsets
pub mod Table
use pdf_platform.Document.Overlay.{CowOverlay, get_object}
use pdf_platform.Common.Decimal.{codes, decimal}
use pdf_platform.Common.Map.{insert, keys}
use pdf_platform.Common.Keys.{◌==◌, nat_eq}
use pdf_platform.Common.{
  ℕ, List, Bool, Option, ◌%◌, ◌+◌, ◌++◌, ◌-◌, [], ◌^◌, if◌then◌else◌, false, leb, length, ltb, max,
  none, not, some, suc, true, zero, ◌∷◌, ◌>>◌,
}

pub record WriteResult : Type 0 where
  pub objects_written : ℕ
  pub xref_offset : ℕ
  pub bytes_appended : ℕ

pub record TrailerInfo : Type 0 where
  pub root_obj_num : ℕ
  pub info_obj_num : Option ℕ
  pub encrypt_obj_num : Option ℕ
  pub id : Option (List ℕ)

-- The loop over `obj_num..next_obj_num`, on the number of objects left.
unfoldable pub collect_objects : CowOverlay → ℕ → ℕ → List (ℕ × List ℕ)
collect_objects overlay obj_num zero = []
collect_objects overlay obj_num (suc left) = elim (get_object overlay obj_num) [
  | none ↦ collect_objects overlay (obj_num + 1) left
  | some bytes ↦ (obj_num, bytes) ∷ collect_objects overlay (obj_num + 1) left
]

-- `object_buffers.sort_by_key(|(n, _)| *n)`
unfoldable pub insert_buffer : ℕ × List ℕ → List (ℕ × List ℕ) → List (ℕ × List ℕ)
insert_buffer b [] = b ∷ []
insert_buffer b (c ∷ cs) =
    let rest = insert_buffer b cs in if leb b.0 c.0 then b ∷ c ∷ cs else c ∷ rest

unfoldable pub sort_buffers : List (ℕ × List ℕ) → List (ℕ × List ℕ)
sort_buffers [] = []
sort_buffers (b ∷ bs) = insert_buffer b (sort_buffers bs)

unfoldable pub needs_separator : List ℕ → Bool
needs_separator [] = true
needs_separator (c ∷ []) = not (c == b'\n')
needs_separator (c ∷ d ∷ cs) = needs_separator (d ∷ cs)

-- What the second pass writes of an object.
unfoldable pub object_text : List ℕ → List ℕ
object_text bytes = if needs_separator bytes then bytes ++ b'\n' ∷ [] else bytes

unfoldable pub bool_number : Bool → ℕ
bool_number false = 0
bool_number true = 1

-- The loop that records the offsets: `dirty_offsets`, the position and the count of objects.
unfoldable pub place_objects : List (ℕ × ℕ) → ℕ → ℕ → List (ℕ × List ℕ) → List (ℕ × ℕ) × ℕ × ℕ
place_objects offsets pos count [] = (offsets, pos, count)
place_objects offsets pos count ((n, bytes) ∷ rest) =
    place_objects (insert n pos offsets)
      ((pos + (length bytes % 2 ^ 32 + bool_number (needs_separator bytes))) % 2 ^ 32)
      ((count + 1) % 2 ^ 32) rest

unfoldable pub write_objects : List ℕ → List (ℕ × List ℕ) → List ℕ
write_objects out [] = out
write_objects out ((n, bytes) ∷ rest) = write_objects (out ++ object_text bytes) rest

-- The BTreeMap, as a list in the order of its keys: `insert`, and `entry(n).or_insert(offset)`.
unfoldable pub table_insert : ℕ → ℕ → List (ℕ × ℕ) → List (ℕ × ℕ)
table_insert n offset [] = (n, offset) ∷ []
table_insert n offset ((m, old) ∷ table) =
    let rest = table_insert n offset table in
    if n == m
    then (n, offset) ∷ table
    else if ltb n m
    then (n, offset) ∷ (m, old) ∷ table
    else (m, old) ∷ rest

unfoldable pub table_or_insert : ℕ → ℕ → List (ℕ × ℕ) → List (ℕ × ℕ)
table_or_insert n offset [] = (n, offset) ∷ []
table_or_insert n offset ((m, old) ∷ table) =
    let rest = table_or_insert n offset table in
    if n == m
    then (m, old) ∷ table
    else if ltb n m
    then (n, offset) ∷ (m, old) ∷ table
    else (m, old) ∷ rest

unfoldable pub table_of : List (ℕ × ℕ) → List (ℕ × ℕ)
table_of [] = []
table_of ((n, offset) ∷ offsets) = table_insert n offset (table_of offsets)

-- The objects of the source, where there is no section to chain to.
unfoldable pub add_originals : List (ℕ × ℕ) → List (ℕ × ℕ) → List (ℕ × ℕ)
add_originals table [] = table
add_originals table ((n, offset) ∷ originals) =
    add_originals (if ltb 0 offset then table_or_insert n offset table else table) originals

-- `{:010}`
unfoldable pub padding : ℕ → List ℕ
padding zero = []
padding (suc n) = b'0' ∷ padding n

unfoldable pub ten_digits : ℕ → List ℕ
ten_digits n = padding (10 - length (decimal n)) ++ decimal n

-- The entries of the run of consecutive numbers behind `last`, and what follows the run.
unfoldable pub run_behind : ℕ → List (ℕ × ℕ) → List (ℕ × ℕ) × List (ℕ × ℕ)
run_behind last [] = ([], [])
run_behind last ((n, offset) ∷ table) =
    let (run, rest) = run_behind n table in
    if n == (last + 1) % 2 ^ 32 then ((n, offset) ∷ run, rest) else ([], (n, offset) ∷ table)

unfoldable pub entries_text : List (ℕ × ℕ) → List ℕ
entries_text [] = []
entries_text ((n, offset) ∷ entries) =
    (ten_digits offset ++ codes " 00000 n " ++ b'\n' ∷ []) ++ entries_text entries

-- The subsections of a table, on fuel.
unfoldable pub subsections : ℕ → List (ℕ × ℕ) → List ℕ
subsections zero table = []
subsections (suc fuel) [] = []
subsections (suc fuel) ((n, offset) ∷ table) =
    let (run, rest) = run_behind n table in
    (decimal n ++ b' ' ∷ decimal (length run + 1) ++ b'\n' ∷ [])
    ++ entries_text ((n, offset) ∷ run)
    ++ subsections fuel rest

-- Each turn takes at least one entry.
unfoldable pub section_text : List (ℕ × ℕ) → List ℕ
section_text table =
    (codes "xref" ++ b'\n' ∷ [])
    ++ (codes "0 1" ++ b'\n' ∷ [])
    ++ (codes "0000000000 65535 f " ++ b'\n' ∷ [])
    ++ subsections (length table) table

unfoldable pub optional_entry : {A : Type 0} → Option A → (A → List ℕ) → List ℕ
optional_entry none show = []
optional_entry (some a) show = show a

unfoldable pub max_of : List ℕ → ℕ
max_of [] = 0
max_of (n ∷ ns) = max n (max_of ns)

unfoldable pub trailer_text : ℕ → TrailerInfo → ℕ → List ℕ
trailer_text max_obj trailer prev =
    (codes "trailer" ++ b'\n' ∷ [])
    ++ codes "<< /Size "
    ++ decimal max_obj
    ++ codes " /Root "
    ++ decimal trailer.root_obj_num
    ++ codes " 0 R"
    ++ optional_entry trailer.info_obj_num (λ n. codes " /Info " ++ decimal n ++ codes " 0 R")
    ++ optional_entry trailer.encrypt_obj_num (λ n. codes " /Encrypt " ++ decimal n ++ codes " 0 R")
    ++ optional_entry trailer.id (λ id. codes " /ID " ++ id)
    ++ (if ltb 0 prev then codes " /Prev " ++ decimal prev else [])
    ++ codes " >>"
    ++ b'\n' ∷ []

unfoldable pub startxref_text : ℕ → List ℕ
startxref_text xref_start =
    (codes "startxref" ++ b'\n' ∷ []) ++ decimal xref_start ++ b'\n' ∷ codes "%%EOF" ++ b'\n' ∷ []

-- The numbers of the objects that the output lists, with their offsets.
unfoldable pub xref_table : List (ℕ × ℕ) → ℕ → List (ℕ × ℕ) → List (ℕ × ℕ)
xref_table dirty_offsets prev originals =
    if prev == 0 then add_originals (table_of dirty_offsets) originals else table_of dirty_offsets

unfoldable pub max_object : CowOverlay → ℕ → List (ℕ × ℕ) → ℕ
max_object overlay next originals =
    max next ((max (max_of (keys originals)) (max_of overlay.dirty_objects) + 1) % 2 ^ 32)

-- The output behind `out`, and the result.
unfoldable pub write_incremental :
    List ℕ → CowOverlay → ℕ → ℕ → List (ℕ × ℕ) → ℕ → TrailerInfo → List ℕ × WriteResult
write_incremental out overlay prev next originals original_len trailer =
    let buffers = sort_buffers (collect_objects overlay 1 (next - 1)) in
    let (dirty_offsets, xref_start, written) = place_objects [] original_len 0 buffers in
    let section = section_text (xref_table dirty_offsets prev originals) in
    let trailing = trailer_text (max_object overlay next originals) trailer prev in
    let start = startxref_text xref_start in
    let end =
      (xref_start + length section % 2 ^ 32 + length trailing % 2 ^ 32 + length start % 2 ^ 32)
      % 2 ^ 32 in
    (
      write_objects out buffers ++ section ++ trailing ++ start,
      record { objects_written = written; xref_offset = xref_start; bytes_appended = end },
    )
