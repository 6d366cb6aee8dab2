-- ===== src/Text/Compare/Sides.antt =====
-- A comparison accounts for every line of both documents, at its index
-- (core/text-extract/src/compare.rs).
use pdf_platform.Common.Map.{lookup}
use pdf_platform.Text.Compare.{
  LineDiff, added, all_added, all_removed, moved, removed, same, walk, aligned, cell, detect_moves,
  diff_lines, first_row, max_aligned_lines, pair_moves, positional, positional_from, rewrite_moves,
}
use pdf_platform.Common.{
  ℕ, ◌+◌, List, [], ap, refl, ◌∷◌, ◌≡◌, Bool-cases, Option-cases, drop, inl, inr, is_empty, leb,
  length, ltb, ◌||◌, ◌∙◌,
}
use pdf_platform.Common.Keys.{◌==◌, Eq, contains, nat_eq}

module _ {Line : Type 0} where
  -- What a comparison shows of the earlier document, in its order.
  pub before_side : List (LineDiff Line) → List (ℕ × Line)
  before_side [] = []
  before_side (same t i j ∷ ops) = (i, t) ∷ before_side ops
  before_side (removed t i ∷ ops) = (i, t) ∷ before_side ops
  before_side (added t j ∷ ops) = before_side ops
  before_side (moved t i j ∷ ops) = (i, t) ∷ before_side ops

  -- What a comparison without moves shows of the later document.
  pub after_side : List (LineDiff Line) → List (ℕ × Line)
  after_side [] = []
  after_side (same t i j ∷ ops) = (j, t) ∷ after_side ops
  after_side (removed t i ∷ ops) = after_side ops
  after_side (added t j ∷ ops) = (j, t) ∷ after_side ops
  after_side (moved t i j ∷ ops) = (j, t) ∷ after_side ops

  pub enumerate : ℕ → List Line → List (ℕ × Line)
  enumerate i [] = []
  enumerate i (x ∷ xs) = (i, x) ∷ enumerate (i + 1) xs

module _ {Line : Type 0} ⦃e : Eq Line⦄ where
  before_side-all_added : (j : ℕ) (ys : List Line) → before_side (all_added j ys) ≡ []
  unfolding before_side all_added
  before_side-all_added j [] = refl
  before_side-all_added j (y ∷ ys) = before_side-all_added (j + 1) ys

  before_side-all_removed :
      (i : ℕ) (xs : List Line) → before_side (all_removed i xs) ≡ enumerate i xs
  unfolding before_side all_removed enumerate
  before_side-all_removed i [] = refl
  before_side-all_removed i (x ∷ xs) = ap (◌∷◌ (i, x)) (before_side-all_removed (i + 1) xs)

  after_side-all_added : (j : ℕ) (ys : List Line) → after_side (all_added j ys) ≡ enumerate j ys
  unfolding after_side all_added enumerate
  after_side-all_added j [] = refl
  after_side-all_added j (y ∷ ys) = ap (◌∷◌ (j, y)) (after_side-all_added (j + 1) ys)

  after_side-all_removed : (i : ℕ) (xs : List Line) → after_side (all_removed i xs) ≡ []
  unfolding after_side all_removed
  after_side-all_removed i [] = refl
  after_side-all_removed i (x ∷ xs) = after_side-all_removed (i + 1) xs

  walk_sides :
      (i j : ℕ) (xs ys : List Line) (below : List (List ℕ)) (row : List ℕ)
      → (before_side (walk i j xs ys below row) ≡ enumerate i xs)
        × (after_side (walk i j xs ys below row) ≡ enumerate j ys)
  unfolding walk before_side after_side enumerate
  walk_sides i j [] ys below row = (before_side-all_added j ys, after_side-all_added j ys)
  walk_sides i j (x ∷ xs) [] below row =
      (before_side-all_removed i (x ∷ xs), after_side-all_removed i (x ∷ xs))
  walk_sides i j (x ∷ xs) (y ∷ ys) below row = elim (Bool-cases (x == y)) [
    | inl equal ↦
        let (shown, later) = walk_sides (i + 1) (j + 1) xs ys (drop 1 below) (first_row below) in
        rw (walk, equal)
          (ap (◌∷◌ (i, x)) shown, rw ((e.eqb_iff x y).0 equal) (ap (◌∷◌ (j, y)) later))
    | inr differ ↦ elim (Bool-cases (leb (cell row (j + 1)) (cell (first_row below) j))) [
      | inl skip ↦
          let (shown, later) = walk_sides (i + 1) j xs (y ∷ ys) (drop 1 below) (first_row below) in
          rw (walk, differ, skip) (ap (◌∷◌ (i, x)) shown, later)
      | inr stay ↦
          let (shown, later) = walk_sides i (j + 1) (x ∷ xs) ys below row in
          rw (walk, differ, stay) (shown, ap (◌∷◌ (j, y)) later)
    ]
  ]

  positional_sides :
      (i : ℕ) (xs ys : List Line)
      → (before_side (positional_from i xs ys) ≡ enumerate i xs)
        × (after_side (positional_from i xs ys) ≡ enumerate i ys)
  unfolding positional_from before_side after_side enumerate
  positional_sides i [] [] = (refl, refl)
  positional_sides i [] (y ∷ ys) =
      let (shown, later) = positional_sides (i + 1) [] ys in (shown, ap (◌∷◌ (i, y)) later)
  positional_sides i (x ∷ xs) [] =
      let (shown, later) = positional_sides (i + 1) xs [] in (ap (◌∷◌ (i, x)) shown, later)
  positional_sides i (x ∷ xs) (y ∷ ys) =
      let (shown, later) = positional_sides (i + 1) xs ys in
      elim (Bool-cases (x == y)) [
        | inl equal ↦
            rw (positional_from, equal)
              (ap (◌∷◌ (i, x)) shown, rw ((e.eqb_iff x y).0 equal) (ap (◌∷◌ (i, y)) later))
        | inr differ ↦ rw (positional_from, differ) (ap (◌∷◌ (i, x)) shown, ap (◌∷◌ (i, y)) later)
      ]

  before_side-rewrite_moves :
      (position : ℕ) (consumed : List ℕ) (paired : List (ℕ × ℕ)) (ops : List (LineDiff Line))
      → before_side (rewrite_moves position consumed paired ops) ≡ before_side ops
  unfolding rewrite_moves before_side
  before_side-rewrite_moves n c p [] = refl
  before_side-rewrite_moves n c p (same t i j ∷ ops) =
      ap (◌∷◌ (i, t)) (before_side-rewrite_moves (n + 1) c p ops)
  before_side-rewrite_moves n c p (removed t i ∷ ops) =
      let rest = ap (◌∷◌ (i, t)) (before_side-rewrite_moves (n + 1) c p ops) in
      elim (Option-cases (lookup n p)) [
        | inl unpaired ↦ rw (rewrite_moves, unpaired) rest
        | inr (j, pair) ↦ rw (rewrite_moves, pair) rest
      ]
  before_side-rewrite_moves n c p (added t j ∷ ops) =
      let rest = before_side-rewrite_moves (n + 1) c p ops in
      elim (Bool-cases (contains n c)) [
        | inl taken ↦ rw (rewrite_moves, taken) rest
        | inr free ↦ rw (rewrite_moves, free) rest
      ]
  before_side-rewrite_moves n c p (moved t i j ∷ ops) =
      ap (◌∷◌ (i, t)) (before_side-rewrite_moves (n + 1) c p ops)

  before_side-detect_moves :
      (ops : List (LineDiff Line)) → before_side (detect_moves ops) ≡ before_side ops
  unfolding detect_moves
  before_side-detect_moves ops =
      let pairs = pair_moves ops 0 [] [] ops in
      elim (Bool-cases (is_empty pairs.1)) [
        | inl nothing ↦ rw (detect_moves, nothing) refl
        | inr some_moved ↦
            rw (detect_moves, some_moved) (before_side-rewrite_moves 0 pairs.0 pairs.1 ops)
      ]

  -- Aligning two documents accounts for every line of both, at its index and in its order.
  aligned_sides :
      (before after : List Line)
      → (before_side (aligned before after) ≡ enumerate 0 before)
        × (after_side (aligned before after) ≡ enumerate 0 after)
  unfolding aligned
  aligned_sides before after = walk_sides 0 0 before after _ _

  -- Whatever the sizes, and with its moves, a comparison shows every line of the earlier document once,
  -- at its index and in its order.
  before_side-diff_lines :
      (before after : List Line) → before_side (diff_lines before after).0 ≡ enumerate 0 before
  unfolding diff_lines positional
  before_side-diff_lines before after =
      elim (Bool-cases
        (ltb max_aligned_lines (length before) || ltb max_aligned_lines (length after))) [
          | inl large ↦
              rw (diff_lines, large)
                (before_side-detect_moves (positional_from 0 before after)
                  ∙ (positional_sides 0 before after).0)
          | inr fits ↦
              rw (diff_lines, fits)
                (before_side-detect_moves (aligned before after) ∙ (aligned_sides before after).0)
        ]

  -- Aligning accounts for every line of both documents once, at its index and in its order; a whole
  -- comparison, whatever the sizes and with its moves, for every line of the earlier one.
  pub every_line_shown :
      (before after : List Line)
      → (before_side (aligned before after) ≡ enumerate 0 before)
        × (after_side (aligned before after) ≡ enumerate 0 after)
        × (before_side (diff_lines before after).0 ≡ enumerate 0 before)
  every_line_shown before after =
      let (shown, later) = aligned_sides before after in
      (shown, later, before_side-diff_lines before after)
