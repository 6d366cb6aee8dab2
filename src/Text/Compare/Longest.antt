-- ===== src/Text/Compare/Longest.antt =====
-- An alignment against longest common subsequences (core/text-extract/src/compare.rs).
use pdf_platform.Text.Compare.{
  LineDiff, aligned, added, cell, moved, removed, same, lcs_row, zero_row, all_added, all_removed,
  first_row, lcs_table, walk,
}
use pdf_platform.Common.{
  ℕ, List, Bool, ◌+◌, [], arith, drop, if◌then◌else◌, false, length, max, true, ◌∷◌, ◌≡◌, ◌≤◌, ◌<◌,
  ◌^◌, ap, refl, suc, sym, zero, ◌∙◌, ◌%◌, length-drop, Bool-cases, inl, inr, leb,
}
use pdf_platform.Common.Keys.{◌==◌, Eq, ==_refl}

module _ {Line : Type 0} where
  -- The lines that a comparison shows as unchanged.
  pub kept : List (LineDiff Line) → List Line
  kept [] = []
  kept (same t i j ∷ ops) = t ∷ kept ops
  kept (removed t i ∷ ops) = kept ops
  kept (added t j ∷ ops) = kept ops
  kept (moved t i j ∷ ops) = kept ops

module _ {Line : Type 0} ⦃e : Eq Line⦄ where
  -- The length of the longest common subsequence, by its recurrence.
  unfoldable pub lcs : List Line → List Line → ℕ
  lcs [] ys = 0
  lcs (x ∷ xs) [] = 0
  lcs (x ∷ xs) (y ∷ ys) =
      let across = lcs (x ∷ xs) ys in
      let down = lcs xs (y ∷ ys) in
      let both = lcs xs ys in if x == y then both + 1 else max across down

  -- The text is what is left of another when lines are taken out.
  unfoldable pub is_within : List Line → List Line → Bool
  is_within [] xs = true
  is_within (z ∷ zs) [] = false
  is_within (z ∷ zs) (x ∷ xs) = elim (z == x) [
    | true ↦ is_within zs xs
    | false ↦ is_within (z ∷ zs) xs
  ]

  lcs_bounds : (xs ys : List Line) → lcs xs ys ≤ length ys
  unfolding lcs
  lcs_bounds [] ys = omega arith
  lcs_bounds (x ∷ xs) [] = omega arith
  lcs_bounds (x ∷ xs) (y ∷ ys) =
      ground (arith, lcs_bounds (x ∷ xs) ys, lcs_bounds xs (y ∷ ys), lcs_bounds xs ys)

  lcs_longest :
      (zs xs ys : List Line)
      → is_within zs xs ≡ true
      → is_within zs ys ≡ true
      → length zs ≤ lcs xs ys
  unfolding lcs is_within
  lcs_longest [] xs ys hx hy = omega arith
  lcs_longest (z ∷ zs) [] ys hx hy = ground arith
  lcs_longest (z ∷ zs) (x ∷ xs) [] hx hy = ground arith
  lcs_longest (z ∷ zs) (x ∷ xs) (y ∷ ys) hx hy = ground (
    arith,
    lcs_longest zs xs ys,
    lcs_longest (z ∷ zs) xs ys,
    lcs_longest (z ∷ zs) (x ∷ xs) ys,
    lcs_longest (z ∷ zs) xs (y ∷ ys),
    e.eqb_iff x y,
    e.eqb_iff z x,
    e.eqb_iff z y,
  )

  -- The row that belongs to the lines `xs`: its cells are the lengths for the ends of `ys`.
  unfoldable cells : List Line → List Line → List ℕ
  cells xs [] = 0 ∷ []
  cells xs (y ∷ ys) = lcs xs (y ∷ ys) ∷ cells xs ys

  lcs_empty : (xs : List Line) → lcs xs [] ≡ 0
  unfolding lcs
  lcs_empty [] = refl
  lcs_empty (x ∷ xs) = refl

  cell-cells : (xs ys : List Line) (j : ℕ) → cell (cells xs ys) j ≡ lcs xs (drop j ys)
  unfolding cells
  cell-cells xs [] zero = sym (lcs_empty xs)
  cell-cells xs [] (suc j) = sym (lcs_empty xs)
  cell-cells xs (y ∷ ys) zero = refl
  cell-cells xs (y ∷ ys) (suc j) = cell-cells xs ys j

  zero_row-cells : (ys : List Line) → zero_row ys ≡ cells [] ys
  unfolding zero_row cells lcs
  zero_row-cells [] = refl
  zero_row-cells (y ∷ ys) = ap (◌∷◌ 0) (zero_row-cells ys)

  drop-drop_one : (j : ℕ) (all : List Line) → drop (j + 1) all ≡ drop 1 (drop j all)
  drop-drop_one zero all = refl
  drop-drop_one (suc j) [] =
      let shift : suc j + 1 ≡ suc (j + 1) = omega arith in ap (λ n. drop n []) shift
  drop-drop_one (suc j) (a ∷ all) =
      let shift : suc j + 1 ≡ suc (j + 1) = omega arith in
      ap (λ n. drop n (a ∷ all)) shift ∙ drop-drop_one j all

  drop_next :
      (j : ℕ) (all : List Line) (y : Line) (ys : List Line)
      → drop j all ≡ y ∷ ys
      → drop (j + 1) all ≡ ys
  drop_next j all y ys h = drop-drop_one j all ∙ ap (drop 1) h

  -- A row over a row of lengths is a row of lengths.
  lcs_row-cells :
      (x : Line) (xs all : List Line) (j : ℕ) (ys : List Line)
      → drop j all ≡ ys
      → length all < 2 ^ 32
      → lcs_row x ys (cells xs all) j ≡ cells (x ∷ xs) ys
  unfolding lcs_row cells lcs
  lcs_row-cells x xs all j [] h b = refl
  lcs_row-cells x xs all j (y ∷ ys) h b =
      let next = drop_next j all y ys h in
      let rest = lcs_row-cells x xs all (j + 1) ys next b in
      let here : cell (cells xs all) j ≡ lcs xs (y ∷ ys) = cell-cells xs all j ∙ ap (lcs xs) h in
      let right : cell (cells xs all) (j + 1) ≡ lcs xs ys =
        cell-cells xs all (j + 1) ∙ ap (lcs xs) next in
      let across : cell (cells (x ∷ xs) ys) 0 ≡ lcs (x ∷ xs) ys = cell-cells (x ∷ xs) ys 0 in
      let small : lcs xs ys + 1 < 2 ^ 32 =
        omega (arith, lcs_bounds xs ys, length-drop j all, ap length h) in
      let head : (if x == y
            then (cell (cells xs all) (j + 1) + 1) % 2 ^ 32
            else max (cell (cells xs all) j) (cell (cells (x ∷ xs) ys) 0))
          ≡ (if x == y then lcs xs ys + 1 else max (lcs (x ∷ xs) ys) (lcs xs (y ∷ ys))) =
        ground (arith, here, right, across, small) in
      rw rest (ap (λ n. n ∷ cells (x ∷ xs) ys) head)

  first_row-lcs_table :
      (xs ys : List Line) → length ys < 2 ^ 32 → first_row (lcs_table xs ys) ≡ cells xs ys
  unfolding lcs_table
  first_row-lcs_table [] ys b = zero_row-cells ys
  first_row-lcs_table (x ∷ xs) ys b =
      rw (first_row-lcs_table xs ys b) (lcs_row-cells x xs ys 0 ys refl b)

  cell-lcs_table :
      (xs all : List Line) (j : ℕ)
      → length all < 2 ^ 32
      → cell (first_row (lcs_table xs all)) j ≡ lcs xs (drop j all)
  cell-lcs_table xs all j b =
      ap (λ row. cell row j) (first_row-lcs_table xs all b) ∙ cell-cells xs all j

  kept-all_added : (j : ℕ) (ys : List Line) → kept (all_added j ys) ≡ []
  unfolding kept all_added
  kept-all_added j [] = refl
  kept-all_added j (y ∷ ys) = kept-all_added (j + 1) ys

  kept-all_removed : (i : ℕ) (xs : List Line) → kept (all_removed i xs) ≡ []
  unfolding kept all_removed
  kept-all_removed i [] = refl
  kept-all_removed i (x ∷ xs) = kept-all_removed (i + 1) xs

  -- The walk from (i, j) keeps as many lines as the longest common subsequence has.
  kept-walk :
      (all : List Line) (i j : ℕ) (xs ys : List Line)
      → length all < 2 ^ 32
      → drop j all ≡ ys
      → length (kept (walk i j xs ys (drop 1 (lcs_table xs all)) (first_row (lcs_table xs all))))
        ≡ lcs xs ys
  unfolding walk kept lcs lcs_table
  kept-walk all i j [] ys b h = ap length (kept-all_added j ys)
  kept-walk all i j (x ∷ xs) [] b h = ap length (kept-all_removed i (x ∷ xs))
  kept-walk all i j (x ∷ xs) (y ∷ ys) b h =
      let next = drop_next j all y ys h in
      let row = first_row (lcs_table (x ∷ xs) all) in
      let below = first_row (lcs_table xs all) in
      let across : cell row (j + 1) ≡ lcs (x ∷ xs) ys =
        cell-lcs_table (x ∷ xs) all (j + 1) b ∙ ap (lcs (x ∷ xs)) next in
      let down : cell below j ≡ lcs xs (y ∷ ys) = cell-lcs_table xs all j b ∙ ap (lcs xs) h in
      elim (Bool-cases (x == y)) [
        | inl equal ↦
            let both = kept-walk all (i + 1) (j + 1) xs ys b next in
            rw (walk, equal) (omega (arith, both))
        | inr differ ↦ elim (Bool-cases (leb (cell row (j + 1)) (cell below j))) [
          | inl skip ↦
              let rest = kept-walk all (i + 1) j xs (y ∷ ys) b h in
              rw (walk, differ, skip) (ground (arith, rest, across, down, skip))
          | inr stay ↦
              let rest = kept-walk all i (j + 1) (x ∷ xs) ys b next in
              rw (walk, differ, stay) (ground (arith, rest, across, down, stay))
        ]
      ]

  is_within-tail :
      (z : Line) (zs xs : List Line) → is_within (z ∷ zs) xs ≡ true → is_within zs xs ≡ true
  unfolding is_within
  is_within-tail z [] xs h = refl
  is_within-tail z (w ∷ ws) [] h = ground arith
  is_within-tail z (w ∷ ws) (x ∷ xs) h =
      ground (arith, is_within-tail w ws xs, is_within-tail z (w ∷ ws) xs)

  is_within-cons :
      (zs : List Line) (x : Line) (xs : List Line)
      → is_within zs xs ≡ true
      → is_within zs (x ∷ xs) ≡ true
  unfolding is_within
  is_within-cons [] x xs h = refl
  is_within-cons (z ∷ zs) x xs h = ground (arith, is_within-tail z zs xs h, h)

  walk-is_within :
      (i j : ℕ) (xs ys : List Line) (below : List (List ℕ)) (row : List ℕ)
      → (is_within (kept (walk i j xs ys below row)) xs ≡ true)
        × (is_within (kept (walk i j xs ys below row)) ys ≡ true)
  unfolding walk kept is_within
  walk-is_within i j [] ys below row = rw (kept-all_added j ys) (refl, refl)
  walk-is_within i j (x ∷ xs) [] below row = rw (kept-all_removed i (x ∷ xs)) (refl, refl)
  walk-is_within i j (x ∷ xs) (y ∷ ys) below row = elim (Bool-cases (x == y)) [
    | inl equal ↦
        let (in_before, in_after) =
          walk-is_within (i + 1) (j + 1) xs ys (drop 1 below) (first_row below) in
        let same_line : (x == x) ≡ true = ==_refl x in
        rw (walk, equal) (rw (is_within, same_line) in_before, rw (is_within, equal) in_after)
    | inr differ ↦ elim (Bool-cases (leb (cell row (j + 1)) (cell (first_row below) j))) [
      | inl skip ↦
          let (in_before, in_after) =
            walk-is_within (i + 1) j xs (y ∷ ys) (drop 1 below) (first_row below) in
          rw (walk, differ, skip) (is_within-cons _ x xs in_before, in_after)
      | inr stay ↦
          let (in_before, in_after) = walk-is_within i (j + 1) (x ∷ xs) ys below row in
          rw (walk, differ, stay) (in_before, is_within-cons _ y ys in_after)
    ]
  ]

  -- The lines that an alignment keeps are a longest common subsequence of the documents: when the later
  -- one has fewer than 2^32 lines, they lie within both, they are as many as the recurrence says, and no
  -- text that lies within both is longer.
  pub aligned_longest :
      (before after text : List Line)
      → length after < 2 ^ 32
      → is_within text before ≡ true
      → is_within text after ≡ true
      → (is_within (kept (aligned before after)) before ≡ true)
        × (is_within (kept (aligned before after)) after ≡ true)
        × (length (kept (aligned before after)) ≡ lcs before after)
        × (length text ≤ length (kept (aligned before after)))
  unfolding aligned
  aligned_longest before after text b hb ha =
      let same_length = kept-walk after 0 0 before after b refl in
      let (in_before, in_after) = walk-is_within 0 0 before after _ _ in
      (
        in_before,
        in_after,
        same_length,
        omega (arith, same_length, lcs_longest text before after hb ha),
      )
