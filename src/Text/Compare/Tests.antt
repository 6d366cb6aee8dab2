-- ===== src/Text/Compare/Tests.antt =====
-- Runs of the line comparison, and its theorems at concrete documents.
use pdf_platform.Text.Compare.Longest.{aligned_longest, is_within, kept, lcs}
use pdf_platform.Common.Map.{lookup}
use pdf_platform.Text.Compare.Sides.{after_side, before_side, enumerate, every_line_shown}
use pdf_platform.Text.Compare.{
  added, additions_of, aligned, all_added, all_removed, detect_moves, diff_lines, first_free,
  lcs_row, lcs_table, moved, pair_moves, removed, rewrite_moves, same, walk, zero_row,
}
use pdf_platform.Common.{ℕ, List, [], refl, ◌∷◌, ◌≡◌, arith, length, true, ◌≤◌}
use pdf_platform.Common.Keys.{nat_eq, contains}

-- Line 1 moves behind lines 2 and 3, and line 4 becomes 5.
abbrev earlier : List ℕ
earlier = 1 ∷ 2 ∷ 3 ∷ 4 ∷ []

abbrev later : List ℕ
later = 2 ∷ 3 ∷ 1 ∷ 5 ∷ []

one_move :
    (diff_lines earlier later).0
    ≡ moved 1 0 2 ∷ same 2 1 0 ∷ same 3 2 1 ∷ removed 4 3 ∷ added 5 3 ∷ []
unfolding diff_lines aligned lcs_table lcs_row zero_row walk all_removed all_added detect_moves
    pair_moves additions_of first_free rewrite_moves lookup contains
one_move = refl

aligned_longest_example :
    (is_within (kept (aligned earlier later)) earlier ≡ true)
    × (is_within (kept (aligned earlier later)) later ≡ true)
    × (length (kept (aligned earlier later)) ≡ lcs earlier later)
    × (length {A = ℕ} (2 ∷ 3 ∷ []) ≤ length (kept (aligned earlier later)))
unfolding is_within
aligned_longest_example = aligned_longest earlier later (2 ∷ 3 ∷ []) (omega arith) refl refl

every_line_shown_example :
    (before_side (aligned earlier later) ≡ enumerate 0 earlier)
    × (after_side (aligned earlier later) ≡ enumerate 0 later)
    × (before_side (diff_lines earlier later).0 ≡ enumerate 0 earlier)
every_line_shown_example = every_line_shown earlier later
