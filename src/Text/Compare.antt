-- ===== src/Text/Compare.antt =====
-- core/text-extract/src/compare.rs: line comparison. A line is any type with an equality. The table of
-- LCS lengths is a list of rows, u32 numbers; the row below a row is the next in the list. `pending`
-- keeps with each position the index that the source reads back from the operation there.
pub mod Sides
pub mod Longest
mod Tests
use pdf_platform.Common.Map.{lookup}
use pdf_platform.Common.{
  ℕ, ◌%◌, ◌+◌, List, Option, [], ◌^◌, drop, if◌then◌else◌, false, get_elem?, is_empty, leb, length,
  ltb, max, none, some, true, ◌||◌, ◌∷◌,
}
use pdf_platform.Common.Keys.{◌==◌, Eq, contains, nat_eq}

pub data LineDiff (Line : Type 0) : Type 0 where
  same : Line → ℕ → ℕ → LineDiff Line
  removed : Line → ℕ → LineDiff Line
  added : Line → ℕ → LineDiff Line
  moved : Line → ℕ → ℕ → LineDiff Line

pub data DiffQuality : Type 0 where
  aligned_quality : DiffQuality
  positional_fallback : DiffQuality

abbrev pub max_aligned_lines : ℕ
max_aligned_lines = 2000

-- A cell of a row, 0 beyond its end (which the source never reads).
abbrev pub cell : List ℕ → ℕ → ℕ
cell row j = elim (get_elem? row j) [ none ↦ 0 | some n ↦ n ]

abbrev pub first_row : List (List ℕ) → List ℕ
first_row [] = []
first_row (row ∷ rows) = row

-- `candidates.iter().copied().find(|c| !consumed[*c])`
unfoldable pub first_free : List ℕ → List (ℕ × ℕ) → Option (ℕ × ℕ)
first_free consumed [] = none
first_free consumed (c ∷ cs) = if contains c.0 consumed then first_free consumed cs else some c

module _ {Line : Type 0} ⦃e : Eq Line⦄ where
  -- The row of `line` over the row below it, from the column `j` on.
  unfoldable pub lcs_row : Line → List Line → List ℕ → ℕ → List ℕ
  lcs_row line [] below j = 0 ∷ []
  lcs_row line (other ∷ after) below j =
      let rest = lcs_row line after below (j + 1) in
      (if line == other
        then (cell below (j + 1) + 1) % 2 ^ 32
        else max (cell below j) (cell rest 0))
      ∷ rest

  unfoldable pub zero_row : List Line → List ℕ
  zero_row [] = 0 ∷ []
  zero_row (line ∷ after) = 0 ∷ zero_row after

  unfoldable pub lcs_table : List Line → List Line → List (List ℕ)
  lcs_table [] after = zero_row after ∷ []
  lcs_table (line ∷ before) after =
      let rows = lcs_table before after in lcs_row line after (first_row rows) 0 ∷ rows

  unfoldable pub all_removed : ℕ → List Line → List (LineDiff Line)
  all_removed i [] = []
  all_removed i (line ∷ before) = removed line i ∷ all_removed (i + 1) before

  unfoldable pub all_added : ℕ → List Line → List (LineDiff Line)
  all_added j [] = []
  all_added j (line ∷ after) = added line j ∷ all_added (j + 1) after

  -- The walk from (i, j) over the lines that are left; `below` are the table's rows under row i.
  unfoldable pub walk :
      ℕ → ℕ → List Line → List Line → List (List ℕ) → List ℕ → List (LineDiff Line)
  walk i j [] after below row = all_added j after
  walk i j (x ∷ before) [] below row = all_removed i (x ∷ before)
  walk i j (x ∷ before) (y ∷ after) below row = elim (x == y) [
    | true ↦ same x i j ∷ walk (i + 1) (j + 1) before after (drop 1 below) (first_row below)
    | false ↦ elim (leb (cell row (j + 1)) (cell (first_row below) j)) [
      | true ↦ removed x i ∷ walk (i + 1) j before (y ∷ after) (drop 1 below) (first_row below)
      | false ↦ added y j ∷ walk i (j + 1) (x ∷ before) after below row
    ]
  ]

  unfoldable pub aligned : List Line → List Line → List (LineDiff Line)
  aligned before after =
      let table = lcs_table before after in walk 0 0 before after (drop 1 table) (first_row table)

  -- The loop of `positional` from `index` on, over the lines that are left.
  unfoldable pub positional_from : ℕ → List Line → List Line → List (LineDiff Line)
  positional_from index [] [] = []
  positional_from index [] (a ∷ after) = added a index ∷ positional_from (index + 1) [] after
  positional_from index (b ∷ before) [] = removed b index ∷ positional_from (index + 1) before []
  positional_from index (b ∷ before) (a ∷ after) =
      let rest = positional_from (index + 1) before after in
      if b == a then same b index index ∷ rest else removed b index ∷ added a index ∷ rest

  unfoldable pub positional : List Line → List Line → List (LineDiff Line)
  positional before after = positional_from 0 before after

  -- `pending`, at one text: the positions of its additions from `position` on, and their indices.
  unfoldable pub additions_of : Line → ℕ → List (LineDiff Line) → List (ℕ × ℕ)
  additions_of text position [] = []
  additions_of text position (same t i j ∷ ops) = additions_of text (position + 1) ops
  additions_of text position (removed t i ∷ ops) = additions_of text (position + 1) ops
  additions_of text position (added t j ∷ ops) =
      let rest = additions_of text (position + 1) ops in
      if t == text then (position, j) ∷ rest else rest
  additions_of text position (moved t i j ∷ ops) = additions_of text (position + 1) ops

  -- The pairing loop: the removals in order, each with the addition it takes, and what is consumed.
  unfoldable pub pair_moves :
      List (LineDiff Line)
      → ℕ
      → List ℕ
      → List (ℕ × ℕ)
      → List (LineDiff Line)
      → List ℕ × List (ℕ × ℕ)
  pair_moves all position consumed paired [] = (consumed, paired)
  pair_moves all position consumed paired (same t i j ∷ ops) =
      pair_moves all (position + 1) consumed paired ops
  pair_moves all position consumed paired (added t j ∷ ops) =
      pair_moves all (position + 1) consumed paired ops
  pair_moves all position consumed paired (moved t i j ∷ ops) =
      pair_moves all (position + 1) consumed paired ops
  pair_moves all position consumed paired (removed t i ∷ ops) =
      elim (first_free consumed (additions_of t 0 all)) [
        | none ↦ pair_moves all (position + 1) consumed paired ops
        | some c ↦ pair_moves all (position + 1) (c.0 ∷ consumed) ((position, c.1) ∷ paired) ops
      ]

  -- The rewriting loop.
  unfoldable pub rewrite_moves :
      ℕ → List ℕ → List (ℕ × ℕ) → List (LineDiff Line) → List (LineDiff Line)
  rewrite_moves position consumed paired [] = []
  rewrite_moves position consumed paired (same t i j ∷ ops) =
      same t i j ∷ rewrite_moves (position + 1) consumed paired ops
  rewrite_moves position consumed paired (removed t i ∷ ops) =
      let rest = rewrite_moves (position + 1) consumed paired ops in
      elim (lookup position paired) [ none ↦ removed t i ∷ rest | some j ↦ moved t i j ∷ rest ]
  rewrite_moves position consumed paired (added t j ∷ ops) =
      let rest = rewrite_moves (position + 1) consumed paired ops in
      if contains position consumed then rest else added t j ∷ rest
  rewrite_moves position consumed paired (moved t i j ∷ ops) =
      moved t i j ∷ rewrite_moves (position + 1) consumed paired ops

  unfoldable pub detect_moves : List (LineDiff Line) → List (LineDiff Line)
  detect_moves ops =
      let (consumed, paired) = pair_moves ops 0 [] [] ops in
      if is_empty paired then ops else rewrite_moves 0 consumed paired ops

  unfoldable pub diff_lines : List Line → List Line → List (LineDiff Line) × DiffQuality
  diff_lines before after =
      if ltb max_aligned_lines (length before) || ltb max_aligned_lines (length after)
      then (detect_moves (positional before after), positional_fallback)
      else (detect_moves (aligned before after), aligned_quality)
