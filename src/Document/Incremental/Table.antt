-- ===== src/Document/Incremental/Table.antt =====
-- What the cross-reference table of a save gives for each number (core/pdf-write/src/lib.rs).
use pdf_platform.Common.Map.{insert, lookup, lookup-insert}
use pdf_platform.Document.Incremental.{
  add_originals, collect_objects, place_objects, table_of, table_or_insert, xref_table,
}
use pdf_platform.Document.Incremental.Offsets.{
  absent_below, lookup-table_of, table_of-Ascending, table_or_insert-Ascending,
}
use pdf_platform.Document.Incremental.Placing.{All-later, Ascending}
use pdf_platform.Document.Overlay.{CowOverlay, get_object}
use pdf_platform.Common.{
  ◌&&◌, ◌+◌, ◌∙◌, ◌≡◌, ◌∷◌, All, Bool-cases, List, Option, Option-cases, [], ap, arith, false,
  if◌then◌else◌, inl, inr, leb, ltb, none, refl, some, suc, zero, ℕ,
}
use pdf_platform.Common.Keys.{◌==◌, nat_eq}

-- What a save writes of object `n`: the overlay's bytes, for a number from 1 to below `next`.
abbrev pub saved_object : CowOverlay → ℕ → ℕ → Option (List ℕ)
saved_object overlay next n = if leb 1 n && ltb n next then get_object overlay n else none

-- Where the source has object `n`: its first entry with an offset above 0.
pub source_offset : ℕ → List (ℕ × ℕ) → Option ℕ
source_offset n [] = none
source_offset n ((m, offset) ∷ originals) =
    if n == m && ltb 0 offset then some offset else source_offset n originals

abbrev or_else : Option ℕ → Option ℕ → Option ℕ
or_else none b = b
or_else (some a) b = some a

lookup-table_or_insert_or :
    (n offset j : ℕ) (table : List (ℕ × ℕ))
    → Ascending table
    → lookup j (table_or_insert n offset table)
      ≡ or_else (lookup j table) (if j == n then some offset else none)
unfolding table_or_insert lookup
lookup-table_or_insert_or n offset j [] up = ground arith
lookup-table_or_insert_or n offset j ((m, old) ∷ table) up = ground (
  arith,
  lookup-table_or_insert_or n offset j table up.1,
  absent_below n table,
  All-later n m table,
  up.0,
)

lookup-add_originals_or :
    (j : ℕ) (table originals : List (ℕ × ℕ))
    → Ascending table
    → lookup j (add_originals table originals)
      ≡ or_else (lookup j table) (source_offset j originals)
unfolding add_originals source_offset
lookup-add_originals_or j table [] up = ground arith
lookup-add_originals_or j table ((n, offset) ∷ originals) up = elim (Bool-cases (ltb 0 offset)) [
  | inl real ↦
      rw (add_originals, real)
        (ground (
          arith,
          lookup-add_originals_or j (table_or_insert n offset table) originals
              (table_or_insert-Ascending n offset table up),
          lookup-table_or_insert_or n offset j table up,
        ))
  | inr compressed ↦
      rw (add_originals, compressed) (ground (arith, lookup-add_originals_or j table originals up))
]

-- The table: the placed objects, and without a previous section the objects of the source.
pub lookup-xref_table_or :
    (offsets : List (ℕ × ℕ)) (prev : ℕ) (originals : List (ℕ × ℕ)) (j : ℕ)
    → lookup j offsets ≡ none
    → lookup j (xref_table offsets prev originals)
      ≡ (if prev == 0 then source_offset j originals else none)
unfolding xref_table
lookup-xref_table_or offsets prev originals j absent =
    let in_table = lookup-table_of j offsets ∙ absent in
    elim (Bool-cases (prev == 0)) [
      | inl rebuilt ↦
          rw (xref_table, rebuilt)
            (lookup-add_originals_or j (table_of offsets) originals (table_of-Ascending offsets)
              ∙ ap (λ o. or_else o (source_offset j originals)) in_table)
      | inr chained ↦ rw (xref_table, chained) in_table
    ]

pub collected_absent :
    (overlay : CowOverlay) (obj_num left n : ℕ)
    → (if leb obj_num n && ltb n (obj_num + left) then get_object overlay n else none) ≡ none
    → All (λ d. (d.0 == n) ≡ false) (collect_objects overlay obj_num left)
unfolding collect_objects
collected_absent overlay obj_num zero n h = tt
collected_absent overlay obj_num (suc left) n h =
    let later = collected_absent overlay (obj_num + 1) left n (ground (arith, h)) in
    elim (Option-cases (get_object overlay obj_num)) [
      | inl absent ↦ rw (collect_objects, absent) later
      | inr (bytes, present) ↦
          rw (collect_objects, present)
            (
              ground (arith, h, present, λ (same : obj_num ≡ n). ap (get_object overlay) same),
              later,
            )
    ]

pub placed_absent :
    (offsets : List (ℕ × ℕ)) (pos count n : ℕ) (bs : List (ℕ × List ℕ))
    → All (λ d. (d.0 == n) ≡ false) bs
    → lookup n (place_objects offsets pos count bs).0 ≡ lookup n offsets
unfolding place_objects
placed_absent offsets pos count n [] h = refl
placed_absent offsets pos count n ((m, bytes) ∷ bs) h =
    placed_absent (insert m pos offsets) _ _ n bs h.1
    ∙ ground (arith, lookup-insert m n pos offsets, h.0)
