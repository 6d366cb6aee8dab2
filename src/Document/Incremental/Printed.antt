-- ===== src/Document/Incremental/Printed.antt =====
-- Cross-reference sections as core/pdf-write/src/lib.rs prints them, read again.
use pdf_platform.Document.Incremental.{entries_text, run_behind, section_text, subsections}
use pdf_platform.Document.Incremental.Section.{
  Consecutive, read_head, read_section, read_subsections, read_entries, read_entries-entries_text,
}
use pdf_platform.Document.Incremental.Placing.{Ascending}
use pdf_platform.Common.{
  ℕ, List, ◌%◌, ◌+◌, ◌++◌, ◌<◌, All, Bool-cases, [], ◌^◌, ap, arith, inl, inr, length, refl, some,
  subst, suc, zero, ◌∙◌, ◌∷◌, ◌≡◌, ◌≤◌, length-append, sym,
}
use pdf_platform.Common.Keys.{◌==◌, nat_eq, bytes_beq}
use pdf_platform.Common.Decimal.{decimal, parse_unsigned-decimal}
use mathlib.Core.List.{append_assoc}
use pdf_platform.Protocol.Wire.{lines, lines_from, strip_return}
use pdf_platform.Protocol.Wire.Fields.{
  IsLine, lines-line, join-IsLine, contains-decimal, decimal-IsLine, split_once-append,
}

-- Numbers and offsets that fit their types.
abbrev pub FitsU32 : List (ℕ × ℕ) → Type 0
FitsU32 table = All (λ d. (d.0 < 2 ^ 32) × (d.1 < 2 ^ 32)) table

abbrev head_row : ℕ → ℕ → List ℕ
head_row n count = decimal n ++ b' ' ∷ decimal count

head_row-IsLine : (n count : ℕ) → IsLine (head_row n count)
head_row-IsLine n count =
    join-IsLine (decimal n) b' ' (decimal count) (contains-decimal n b'\n' (omega arith)) refl refl
      (decimal-IsLine count)

read_head-head_row :
    (n count : ℕ) → n < 2 ^ 32 → count < 2 ^ 32 → read_head (head_row n count) ≡ some (n, count)
unfolding read_head
read_head-head_row n count hn hc =
    rw
      (
        read_head,
        split_once-append b' ' (decimal n) (decimal count) (contains-decimal n b' ' (omega arith)),
        parse_unsigned-decimal (2 ^ 32) n hn,
        parse_unsigned-decimal (2 ^ 32) count hc,
      )
      refl

-- A run counts up from the number before it, and the rest of the table is a table.
pub record IsRun (last : ℕ) (table run rest : List (ℕ × ℕ)) : Type 0 where
  pub consecutive : Consecutive (last + 1) run
  pub whole : run ++ rest ≡ table
  pub rest_ascending : Ascending rest
  pub rest_fits : FitsU32 rest

pub run_behind-IsRun :
    (last : ℕ) (table : List (ℕ × ℕ))
    → All (λ d. last < d.0) table
    → Ascending table
    → FitsU32 table
    → IsRun last table (run_behind last table).0 (run_behind last table).1
unfolding run_behind
run_behind-IsRun last [] above up fits = record {
  consecutive = tt;
  whole = refl;
  rest_ascending = tt;
  rest_fits = tt;
}
run_behind-IsRun last ((n, offset) ∷ table) above up fits =
    let later = run_behind-IsRun n table up.0 up.1 fits.1 in
    elim (Bool-cases (n == (last + 1) % 2 ^ 32)) [
      | inl next ↦
          let same : n ≡ last + 1 = ground (arith, above.0, fits.0.0, next) in
          rw (run_behind, next)
            (record {
              consecutive = (
                same,
                fits.0.1,
                subst (λ k. Consecutive (k + 1) (run_behind n table).0) same later.consecutive,
              );
              whole = ap (◌∷◌ (n, offset)) later.whole;
              rest_ascending = later.rest_ascending;
              rest_fits = later.rest_fits;
            })
      | inr gap ↦
          rw (run_behind, gap)
            (record { consecutive = tt; whole = refl; rest_ascending = up; rest_fits = fits })
    ]

subsections-lines :
    (n offset fuel : ℕ) (table : List (ℕ × ℕ))
    → lines (subsections (suc fuel) ((n, offset) ∷ table))
      ≡ head_row n (length (run_behind n table).0 + 1)
        ∷ lines (
            entries_text ((n, offset) ∷ (run_behind n table).0)
            ++ subsections fuel (run_behind n table).1)
unfolding subsections
subsections-lines n offset fuel table =
    let count = length (run_behind n table).0 + 1 in
    let more =
      entries_text ((n, offset) ∷ (run_behind n table).0)
      ++ subsections fuel (run_behind n table).1 in
    let shape : subsections (suc fuel) ((n, offset) ∷ table) ≡ head_row n count ++ b'\n' ∷ more =
      simp append_assoc in
    ap lines shape ∙ lines-line (head_row n count) more (head_row-IsLine n count)

read_subsections-subsections :
    (fuel limit : ℕ) (table : List (ℕ × ℕ))
    → length table ≤ fuel
    → length table ≤ limit
    → length table < 2 ^ 32
    → Ascending table
    → FitsU32 table
    → read_subsections limit (lines (subsections fuel table)) ≡ some table
unfolding read_subsections
read_subsections-subsections zero limit [] hf hl b up fits =
    unfold subsections lines lines_from in refl
read_subsections-subsections (suc fuel) limit [] hf hl b up fits =
    unfold subsections lines lines_from in refl
read_subsections-subsections zero limit (d ∷ table) hf hl b up fits = ground arith
read_subsections-subsections (suc fuel) zero (d ∷ table) hf hl b up fits = ground arith
read_subsections-subsections (suc fuel) (suc limit) ((n, offset) ∷ table) hf hl b up fits =
    let (run, rest) = run_behind n table in
    let split = run_behind-IsRun n table up.0 up.1 fits.1 in
    let parts : length run + length rest ≡ length table =
      sym (length-append run rest) ∙ ap length split.whole in
    let small : n < 2 ^ 32 = fits.0.0 in
    let head : read_head (head_row n (length run + 1)) ≡ some (n, length run + 1) =
      read_head-head_row n (length run + 1) small (omega arith) in
    let count : length run + 1 ≡ length {A = ℕ × ℕ} ((n, offset) ∷ run) = omega arith in
    let entries : read_entries n (length run + 1)
          (lines (entries_text ((n, offset) ∷ run) ++ subsections fuel rest))
        ≡ some ((n, offset) ∷ run, lines (subsections fuel rest)) =
      ap (λ c. read_entries n c (lines (entries_text ((n, offset) ∷ run) ++ subsections fuel rest)))
        count
      ∙ read_entries-entries_text n ((n, offset) ∷ run) (subsections fuel rest)
          (refl, fits.0.1, split.consecutive) in
    let later : read_subsections limit (lines (subsections fuel rest)) ≡ some rest =
      read_subsections-subsections fuel limit rest (omega arith) (omega arith) (omega arith)
        split.rest_ascending split.rest_fits in
    rw (subsections-lines n offset fuel table, read_subsections, head, entries, later)
      (ap (λ t. some ((n, offset) ∷ t)) split.whole)

-- The printed section of a table of ascending numbers that fits u32 is read as the table.
pub read_section-section_text :
    (extra : ℕ) (table : List (ℕ × ℕ))
    → length table < 2 ^ 32
    → Ascending table
    → FitsU32 table
    → read_section (length table + extra) (section_text table) ≡ some table
unfolding read_section section_text lines lines_from strip_return bytes_beq
read_section-section_text extra table b up fits =
    read_subsections-subsections (length table) (length table + extra) table (omega arith)
      (omega arith) b up fits
