-- ===== src/Document/Incremental/Section.antt =====
-- A reader of cross-reference sections, and the sections that core/pdf-write/src/lib.rs prints.
use pdf_platform.Document.Incremental.Digits.{
  length-ten_digits, parse_unsigned-ten_digits, ten_digits-IsDigit,
}
use pdf_platform.Document.Incremental.{ten_digits, entries_text}
use pdf_platform.Common.{
  ℕ, List, Option, take-append, drop-append, ◌&&◌, ◌+◌, ◌++◌, ◌<◌, [], ◌^◌, arith, drop,
  if◌then◌else◌, false, length, none, refl, some, suc, take, true, zero, ◌∷◌, ◌≡◌, ap, sym, ◌∙◌,
}
use pdf_platform.Common.Keys.{nat_eq, contains, bytes_beq}
use pdf_platform.Common.Decimal.{parse_unsigned, codes}
use mathlib.Core.List.{append_assoc}
use pdf_platform.Protocol.Wire.{lines, split_once, strip_return}
use pdf_platform.Protocol.Wire.Fields.{IsLine, lines-line, join-IsLine, contains-digits}

-- The entries of a subsection: ten digits of the offset and ` 00000 n `, for the numbers from `n` on.
unfoldable pub read_entries : ℕ → ℕ → List (List ℕ) → Option (List (ℕ × ℕ) × List (List ℕ))
read_entries n zero rows = some ([], rows)
read_entries n (suc count) [] = none
read_entries n (suc count) (row ∷ rows) = elim (bytes_beq (drop 10 row) (codes " 00000 n ")) [
  | false ↦ none
  | true ↦ elim (parse_unsigned (2 ^ 32) (take 10 row)) [
    | none ↦ none
    | some offset ↦ elim (read_entries (n + 1) count rows) [
      | none ↦ none
      | some (entries, rest) ↦ some ((n, offset) ∷ entries, rest)
    ]
  ]
]

-- The head of a subsection: its first number and how many entries it has.
unfoldable pub read_head : List ℕ → Option (ℕ × ℕ)
read_head row = elim (split_once b' ' row) [
  | none ↦ none
  | some (first, count) ↦ elim (parse_unsigned (2 ^ 32) first) [
    | none ↦ none
    | some n ↦ elim (parse_unsigned (2 ^ 32) count) [ none ↦ none | some c ↦ some (n, c) ]
  ]
]

-- Subsections up to the end, on fuel.
unfoldable pub read_subsections : ℕ → List (List ℕ) → Option (List (ℕ × ℕ))
read_subsections fuel [] = some []
read_subsections zero (row ∷ rows) = none
read_subsections (suc fuel) (row ∷ rows) = elim (read_head row) [
  | none ↦ none
  | some (n, count) ↦ elim (read_entries n count rows) [
    | none ↦ none
    | some (entries, rest) ↦ elim (read_subsections fuel rest) [
      | none ↦ none
      | some table ↦ some (entries ++ table)
    ]
  ]
]

-- Behind the keyword and the head of the free list.
unfoldable pub read_section : ℕ → List ℕ → Option (List (ℕ × ℕ))
read_section fuel text = elim (lines text) [
  | [] ↦ none
  | keyword ∷ [] ↦ none
  | keyword ∷ head ∷ [] ↦ none
  | keyword ∷ head ∷ free ∷ rows ↦
      if bytes_beq keyword (codes "xref")
        && bytes_beq head (codes "0 1")
        && bytes_beq free (codes "0000000000 65535 f ")
      then read_subsections fuel rows
      else none
]

-- Printed entries.
abbrev pub entry_row : ℕ → List ℕ
entry_row offset = ten_digits offset ++ b' ' ∷ codes "00000 n "

entry_row-IsLine : (offset : ℕ) → IsLine (entry_row offset)
entry_row-IsLine offset =
    join-IsLine (ten_digits offset) b' ' (codes "00000 n ")
      (contains-digits (ten_digits offset) b'\n' (omega arith) (ten_digits-IsDigit offset)) refl
      refl (unfold contains strip_return in record { one_line = refl; no_return = refl })

take-entry_row : (offset : ℕ) → offset < 2 ^ 32 → take 10 (entry_row offset) ≡ ten_digits offset
take-entry_row offset h =
    ap (λ k. take k (entry_row offset)) (sym (length-ten_digits offset h))
    ∙ take-append (ten_digits offset) (b' ' ∷ codes "00000 n ")

drop-entry_row : (offset : ℕ) → offset < 2 ^ 32 → drop 10 (entry_row offset) ≡ codes " 00000 n "
drop-entry_row offset h =
    ap (λ k. drop k (entry_row offset)) (sym (length-ten_digits offset h))
    ∙ drop-append (ten_digits offset) (b' ' ∷ codes "00000 n ")

-- Numbers that follow one another from `n` on, with offsets below 4 GiB.
abbrev pub Consecutive : ℕ → List (ℕ × ℕ) → Type 0
Consecutive n [] = Unit {0}
Consecutive n (e ∷ es) = (e.0 ≡ n) × (e.1 < 2 ^ 32) × Consecutive (n + 1) es

entries_text-cons :
    (n offset : ℕ) (entries : List (ℕ × ℕ)) (more : List ℕ)
    → lines (entries_text ((n, offset) ∷ entries) ++ more)
      ≡ entry_row offset ∷ lines (entries_text entries ++ more)
unfolding entries_text
entries_text-cons n offset entries more =
    let shape : entries_text ((n, offset) ∷ entries) ++ more
        ≡ entry_row offset ++ b'\n' ∷ (entries_text entries ++ more) =
      simp append_assoc in
    ap lines shape
    ∙ lines-line (entry_row offset) (entries_text entries ++ more) (entry_row-IsLine offset)

pub read_entries-entries_text :
    (n : ℕ) (entries : List (ℕ × ℕ)) (more : List ℕ)
    → Consecutive n entries
    → read_entries n (length entries) (lines (entries_text entries ++ more))
      ≡ some (entries, lines more)
unfolding read_entries
read_entries-entries_text n [] more h = unfold entries_text in refl
read_entries-entries_text n ((m, offset) ∷ entries) more (same, small, later) =
    let suffix : bytes_beq (drop 10 (entry_row offset)) (codes " 00000 n ") ≡ true =
      ap (λ t. bytes_beq t (codes " 00000 n ")) (drop-entry_row offset small)
      ∙ (unfold bytes_beq in refl) in
    let number : parse_unsigned (2 ^ 32) (take 10 (entry_row offset)) ≡ some offset =
      ap (parse_unsigned (2 ^ 32)) (take-entry_row offset small)
      ∙ parse_unsigned-ten_digits offset small in
    rw
      (
        entries_text-cons m offset entries more,
        read_entries,
        suffix,
        number,
        read_entries-entries_text (n + 1) entries more later,
      )
      (ap (λ k. some ((k, offset) ∷ entries, lines more)) (sym same))
