-- ===== src/Document/Incremental/Whole.antt =====
-- The file that an incremental save leaves (core/pdf-write/src/lib.rs).
use pdf_platform.Document.Incremental.Layout.{
  saved, saved-sorted, listed, length-layout, starts_with_original, section_at, object_at, file_of,
}
use pdf_platform.Document.Incremental.Table.{
  collected_absent, lookup-xref_table_or, placed_absent, saved_object, source_offset,
}
use pdf_platform.Document.Incremental.Offsets.{lookup-xref_table}
use pdf_platform.Common.Map.{lookup}
use pdf_platform.Document.Incremental.Placing.{
  collect_objects-Ascending, objects_text, Ascending, collected_at, place_objects-pos, placed_at,
}
use pdf_platform.Document.Incremental.{
  TrailerInfo, place_objects, section_text, sort_buffers, write_incremental, xref_table, max_object,
  startxref_text, trailer_text,
}
use pdf_platform.Document.Overlay.{CowOverlay}
use pdf_platform.Common.{
  All, Option-cases, false, none, ◌⊎◌, ℕ, List, ◌++◌, ◌-◌, ◌<◌, [], ◌^◌, ap, drop, if◌then◌else◌,
  inl, inr, length, some, sym, take, ◌∙◌, ◌∷◌, ◌≡◌, ◌+◌, arith, ◌%◌, subst,
}
use pdf_platform.Common.Keys.{◌==◌, nat_eq}

-- The table of a save gives, for each number: where the bytes stand of the object that the save has
-- written; otherwise, when there is no previous section, where the source has that object; or nothing.
abbrev pub TableGives : List ℕ → List (ℕ × ℕ) → CowOverlay → ℕ → ℕ → List (ℕ × ℕ) → ℕ → Type 0
TableGives file table overlay prev next originals n =
    ((saved_object overlay next n ≡ none)
      × (lookup n table ≡ (if prev == 0 then source_offset n originals else none)))
    ⊎ ((bytes : List ℕ) × (saved_object overlay next n ≡ some bytes)
        × (offset : ℕ) × (lookup n table ≡ some offset)
        × (take (length bytes) (drop offset file) ≡ bytes))

module _ (out : List ℕ) (bs : List (ℕ × List ℕ)) (prev : ℕ) (originals : List (ℕ × ℕ))
    (trailing : List ℕ) (b : length (file_of out bs prev originals trailing) < 2 ^ 32) where
  abbrev placed : List (ℕ × ℕ) × ℕ × ℕ
  placed = place_objects [] (length out) 0 bs

  abbrev section : List ℕ
  section = section_text (xref_table placed.0 prev originals)

  total :
      length (file_of out bs prev originals trailing)
      ≡ length out
        + length (objects_text bs)
        + length section
        + length trailing
        + length (startxref_text placed.1)
  total = length-layout out bs section trailing (startxref_text placed.1)

  pub small : length out + length (objects_text bs) < 2 ^ 32
  small = omega (arith, total)

  pos : placed.1 ≡ length out + length (objects_text bs)
  pos = place_objects-pos [] (length out) 0 bs small

  -- The parts of the file, whatever objects it has.
  pub parts :
      (take (length out) (file_of out bs prev originals trailing) ≡ out)
      × (take (length section) (drop placed.1 (file_of out bs prev originals trailing)) ≡ section)
      × ((placed.1
              + length section % 2 ^ 32
              + length trailing % 2 ^ 32
              + length (startxref_text placed.1) % 2 ^ 32)
            % 2 ^ 32
          ≡ length (file_of out bs prev originals trailing))
  parts = (
    starts_with_original out bs section trailing (startxref_text placed.1),
    ap (λ p. take (length section) (drop p (file_of out bs prev originals trailing))) pos
        ∙ section_at out bs section trailing (startxref_text placed.1),
    omega (arith, total, pos),
  )

abbrev IsPlaced : List ℕ → List (ℕ × List ℕ) → ℕ → List (ℕ × ℕ) → List ℕ → ℕ → List ℕ → Type 0
IsPlaced out bs prev originals trailing n bytes =
    (offset : ℕ) × (lookup n (xref_table (place_objects [] (length out) 0 bs).0 prev originals)
      ≡ some offset)
    × (take (length bytes) (drop offset (file_of out bs prev originals trailing)) ≡ bytes)

split-IsPlaced :
    (out : List ℕ) (before after : List (ℕ × List ℕ)) (prev : ℕ) (originals : List (ℕ × ℕ))
    (trailing : List ℕ) (n : ℕ) (bytes : List ℕ)
    → Ascending (before ++ (n, bytes) ∷ after)
    → length (file_of out (before ++ (n, bytes) ∷ after) prev originals trailing) < 2 ^ 32
    → IsPlaced out (before ++ (n, bytes) ∷ after) prev originals trailing n bytes
split-IsPlaced out before after prev originals trailing n bytes up b =
    let bs = before ++ (n, bytes) ∷ after in
    let placed = place_objects [] (length out) 0 bs in
    (
      length out + length (objects_text before),
      lookup-xref_table placed.0 prev originals n _ (
          placed_at [] (length out) 0 n bytes before after up
            (small out bs prev originals trailing b)),
      object_at out before after n bytes (section_text (xref_table placed.0 prev originals))
          trailing (startxref_text placed.1),
    )

module _ (out : List ℕ) (overlay : CowOverlay) (prev next : ℕ) (originals : List (ℕ × ℕ))
    (trailing : List ℕ)
    (b : length (file_of out (sort_buffers (saved overlay next)) prev originals trailing) < 2 ^ 32)
    (n : ℕ) where
  abbrev buffers : List (ℕ × List ℕ)
  buffers = sort_buffers (saved overlay next)

  written_object :
      (bytes : List ℕ)
      → saved_object overlay next n ≡ some bytes
      → IsPlaced out buffers prev originals trailing n bytes
  written_object bytes h =
      let (before, after, split) =
        collected_at overlay 1 (next - 1) n bytes (ground (arith, h)) (ground (arith, h))
          (ground (arith, h)) in
      let same : buffers ≡ before ++ (n, bytes) ∷ after = saved-sorted overlay next ∙ split in
      let up = subst Ascending split (collect_objects-Ascending overlay 1 (next - 1)).1 in
      let less = subst (λ bs. length (file_of out bs prev originals trailing) < 2 ^ 32) same b in
      subst (λ bs. IsPlaced out bs prev originals trailing n bytes) (sym same)
        (split-IsPlaced out before after prev originals trailing n bytes up less)

  absent_object :
      saved_object overlay next n ≡ none
      → lookup n (listed overlay (length out) prev next originals)
        ≡ (if prev == 0 then source_offset n originals else none)
  unfolding lookup
  absent_object h = lookup-xref_table_or _ prev originals n (
      placed_absent [] (length out) 0 n buffers (
        subst (All (λ d. (d.0 == n) ≡ false)) (sym (saved-sorted overlay next))
          (collected_absent overlay 1 (next - 1) n (ground (arith, h)))))

  pub listed-TableGives :
      TableGives
        (file_of out buffers prev originals trailing)
        (listed overlay (length out) prev next originals)
        overlay
        prev
        next
        originals
        n
  listed-TableGives = elim (Option-cases (saved_object overlay next n)) [
    | inl h ↦ inl (h, absent_object h)
    | inr (bytes, h) ↦
        let (offset, found, here) = written_object bytes h in inr (bytes, h, offset, found, here)
  ]

-- When the saved file stays below 4 GiB, it begins with the original one, the section of the table
-- stands at the reported offset, the reported count is the length of the file, and the table gives
-- each object of the overlay with a number from 1 to below `next` a place where its bytes stand, and
-- any other number its first offset above 0 in the source, when there is no previous section, or none.
pub write_incremental_lem :
    (out : List ℕ) (overlay : CowOverlay) (prev next : ℕ) (originals : List (ℕ × ℕ))
    (trailer : TrailerInfo) (n : ℕ)
    → length (write_incremental out overlay prev next originals (length out) trailer).0 < 2 ^ 32
    → let (file, result) = write_incremental out overlay prev next originals (length out) trailer in
      let table = listed overlay (length out) prev next originals in
      (take (length out) file ≡ out)
      × (take (length (section_text table)) (drop result.xref_offset file) ≡ section_text table)
      × (result.bytes_appended ≡ length file)
      × TableGives file table overlay prev next originals n
unfolding write_incremental
write_incremental_lem out overlay prev next originals trailer n b =
    let trailing = trailer_text (max_object overlay next originals) trailer prev in
    let (front, section_here, count) =
      parts out (sort_buffers (saved overlay next)) prev originals trailing b in
    (front, section_here, count, listed-TableGives out overlay prev next originals trailing b n)
