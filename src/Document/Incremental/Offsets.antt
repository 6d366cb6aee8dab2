-- ===== src/Document/Incremental/Offsets.antt =====
-- The cross-reference offsets of an incremental save (core/pdf-write/src/lib.rs).

use pdf_platform.Common.Map.{lookup}
use pdf_platform.Document.Incremental.{
  add_originals, table_insert, table_of, table_or_insert, xref_table,
}
use pdf_platform.Common.{
  ℕ, List, ◌<◌, All, Bool-cases, [], arith, if◌then◌else◌, inl, inr, ltb, none, refl, some, ◌∙◌,
  ◌∷◌, ◌≡◌,
}
use pdf_platform.Common.Keys.{◌==◌, nat_eq}
use pdf_platform.Document.Incremental.Placing.{Ascending, All-later}

lookup-table_insert :
    (n offset j : ℕ) (table : List (ℕ × ℕ))
    → lookup j (table_insert n offset table) ≡ (if n == j then some offset else lookup j table)
unfolding table_insert lookup
lookup-table_insert n offset j [] = ground arith
lookup-table_insert n offset j ((m, old) ∷ table) =
    ground (arith, lookup-table_insert n offset j table)

pub lookup-table_of :
    (j : ℕ) (offsets : List (ℕ × ℕ)) → lookup j (table_of offsets) ≡ lookup j offsets
unfolding table_of lookup
lookup-table_of j [] = refl
lookup-table_of j ((n, offset) ∷ offsets) =
    ground (arith, lookup-table_insert n offset j (table_of offsets), lookup-table_of j offsets)

table_insert-above :
    (k n offset : ℕ) (table : List (ℕ × ℕ))
    → k < n
    → All (λ d. k < d.0) table
    → All (λ d. k < d.0) (table_insert n offset table)
unfolding table_insert
table_insert-above k n offset [] l h = (l, tt)
table_insert-above k n offset ((m, old) ∷ table) l h =
    ground (arith, table_insert-above k n offset table l h.1)

table_insert-Ascending :
    (n offset : ℕ) (table : List (ℕ × ℕ))
    → Ascending table
    → Ascending (table_insert n offset table)
unfolding table_insert
table_insert-Ascending n offset [] h = (tt, tt)
table_insert-Ascending n offset ((m, old) ∷ table) h = ground (
  arith,
  table_insert-above m n offset table,
  table_insert-Ascending n offset table h.1,
  All-later n m table,
)

table_or_insert-above :
    (k n offset : ℕ) (table : List (ℕ × ℕ))
    → k < n
    → All (λ d. k < d.0) table
    → All (λ d. k < d.0) (table_or_insert n offset table)
unfolding table_or_insert
table_or_insert-above k n offset [] l h = (l, tt)
table_or_insert-above k n offset ((m, old) ∷ table) l h =
    ground (arith, table_or_insert-above k n offset table l h.1)

pub table_or_insert-Ascending :
    (n offset : ℕ) (table : List (ℕ × ℕ))
    → Ascending table
    → Ascending (table_or_insert n offset table)
unfolding table_or_insert
table_or_insert-Ascending n offset [] h = (tt, tt)
table_or_insert-Ascending n offset ((m, old) ∷ table) h = ground (
  arith,
  table_or_insert-above m n offset table,
  table_or_insert-Ascending n offset table h.1,
  All-later n m table,
)

pub table_of-Ascending : (offsets : List (ℕ × ℕ)) → Ascending (table_of offsets)
unfolding table_of
table_of-Ascending [] = tt
table_of-Ascending ((n, offset) ∷ offsets) =
    table_insert-Ascending n offset (table_of offsets) (table_of-Ascending offsets)

pub absent_below : (n : ℕ) (table : List (ℕ × ℕ)) → All (λ d. n < d.0) table → lookup n table ≡ none
unfolding lookup
absent_below n [] h = refl
absent_below n ((m, old) ∷ table) h = ground (arith, absent_below n table h.1, h.0)

-- Objects of the source do not replace those of the save.
lookup-table_or_insert :
    (n offset j found : ℕ) (table : List (ℕ × ℕ))
    → Ascending table
    → lookup j table ≡ some found
    → lookup j (table_or_insert n offset table) ≡ some found
unfolding table_or_insert lookup
lookup-table_or_insert n offset j found [] up h = ground arith
lookup-table_or_insert n offset j found ((m, old) ∷ table) up h = ground (
  arith,
  lookup-table_or_insert n offset j found table up.1,
  absent_below n table,
  All-later n m table,
  up.0,
)

lookup-add_originals :
    (j found : ℕ) (table originals : List (ℕ × ℕ))
    → Ascending table
    → lookup j table ≡ some found
    → lookup j (add_originals table originals) ≡ some found
unfolding add_originals
lookup-add_originals j found table [] up h = h
lookup-add_originals j found table ((n, offset) ∷ originals) up h =
    elim (Bool-cases (ltb 0 offset)) [
      | inl real ↦
          rw (add_originals, real)
            (lookup-add_originals j found (table_or_insert n offset table) originals
              (table_or_insert-Ascending n offset table up)
              (lookup-table_or_insert n offset j found table up h))
      | inr compressed ↦
          rw (add_originals, compressed) (lookup-add_originals j found table originals up h)
    ]

pub lookup-xref_table :
    (offsets : List (ℕ × ℕ)) (prev : ℕ) (originals : List (ℕ × ℕ)) (j found : ℕ)
    → lookup j offsets ≡ some found
    → lookup j (xref_table offsets prev originals) ≡ some found
unfolding xref_table
lookup-xref_table offsets prev originals j found h =
    let in_table = lookup-table_of j offsets ∙ h in
    elim (Bool-cases (prev == 0)) [
      | inl rebuilt ↦
          rw (xref_table, rebuilt)
            (lookup-add_originals j found (table_of offsets) originals (table_of-Ascending offsets)
              in_table)
      | inr chained ↦ rw (xref_table, chained) in_table
    ]
