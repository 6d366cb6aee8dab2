-- ===== src/Document/Incremental/Layout.antt =====
-- The parts of the file that an incremental save leaves, one after another (core/pdf-write/src/lib.rs).

use pdf_platform.Document.Incremental.Placing.{
  collect_objects-Ascending, objects_text, sort_buffers-Ascending, write_objects_lem,
}
use pdf_platform.Document.Incremental.{
  collect_objects, needs_separator, object_text, place_objects, section_text, sort_buffers,
  xref_table, write_objects, startxref_text,
}
use pdf_platform.Document.Overlay.{CowOverlay}
use pdf_platform.Common.{
  ℕ, List, take-append, drop-append, ◌++◌, ◌-◌, Bool-cases, [], ap, drop, if◌then◌else◌, inl, inr,
  length, refl, sym, take, ◌∙◌, ◌∷◌, ◌≡◌, ◌+◌, arith, length-append,
}
use pdf_platform.Common.Keys.{nat_eq}
use mathlib.Core.List.{append-nil, append_assoc}

objects_text-append :
    (xs ys : List (ℕ × List ℕ)) → objects_text (xs ++ ys) ≡ objects_text xs ++ objects_text ys
unfolding objects_text
objects_text-append [] ys = refl
objects_text-append ((n, bytes) ∷ xs) ys =
    ap (◌++◌ (object_text bytes)) (objects_text-append xs ys)
    ∙ sym (append_assoc (object_text bytes) (objects_text xs) (objects_text ys))

-- An object's text starts with its bytes.
separator : List ℕ → List ℕ
separator bytes = if needs_separator bytes then b'\n' ∷ [] else []

object_text-separator : (bytes : List ℕ) → object_text bytes ≡ bytes ++ separator bytes
unfolding object_text separator
object_text-separator bytes = elim (Bool-cases (needs_separator bytes)) [
  | inl open_end ↦ rw (object_text, open_end) refl
  | inr closed ↦ rw (object_text, closed) (sym (append-nil bytes))
]

-- What stands in a text behind a part of known length.
take-drop :
    (file front middle back : List ℕ)
    → file ≡ front ++ (middle ++ back)
    → take (length middle) (drop (length front) file) ≡ middle
take-drop file front middle back h =
    ap (λ f. take (length middle) (drop (length front) f)) h
    ∙ ap (take (length middle)) (drop-append front (middle ++ back))
    ∙ take-append middle back

-- The objects that a save writes, in order.
abbrev pub saved : CowOverlay → ℕ → List (ℕ × List ℕ)
saved overlay next = collect_objects overlay 1 (next - 1)

pub saved-sorted :
    (overlay : CowOverlay) (next : ℕ) → sort_buffers (saved overlay next) ≡ saved overlay next
saved-sorted overlay next =
    sort_buffers-Ascending (saved overlay next) (collect_objects-Ascending overlay 1 (next - 1)).1

-- The offsets that the save lists for a file of `len` bytes.
abbrev pub listed : CowOverlay → ℕ → ℕ → ℕ → List (ℕ × ℕ) → List (ℕ × ℕ)
listed overlay len prev next originals =
    xref_table (place_objects [] len 0 (sort_buffers (saved overlay next))).0 prev originals

layout :
    (out : List ℕ) (bs : List (ℕ × List ℕ)) (section trailing start : List ℕ)
    → write_objects out bs ++ section ++ trailing ++ start
      ≡ (out ++ objects_text bs) ++ (section ++ (trailing ++ start))
layout out bs section trailing start =
    ap (λ front. front ++ section ++ trailing ++ start) (write_objects_lem out bs)
    ∙ append_assoc ((out ++ objects_text bs) ++ section) trailing start
    ∙ append_assoc (out ++ objects_text bs) section (trailing ++ start)

pub length-layout :
    (out : List ℕ) (bs : List (ℕ × List ℕ)) (section trailing start : List ℕ)
    → length (write_objects out bs ++ section ++ trailing ++ start)
      ≡ length out + length (objects_text bs) + length section + length trailing + length start
length-layout out bs section trailing start =
    ap length (layout out bs section trailing start)
    ∙ omega (
      arith,
      length-append (out ++ objects_text bs) (section ++ (trailing ++ start)),
      length-append out (objects_text bs),
      length-append section (trailing ++ start),
      length-append trailing start,
    )

pub starts_with_original :
    (out : List ℕ) (bs : List (ℕ × List ℕ)) (section trailing start : List ℕ)
    → take (length out) (write_objects out bs ++ section ++ trailing ++ start) ≡ out
starts_with_original out bs section trailing start =
    ap (take (length out)) (
      layout out bs section trailing start
      ∙ append_assoc out (objects_text bs) (section ++ (trailing ++ start)))
    ∙ take-append out (objects_text bs ++ (section ++ (trailing ++ start)))

pub section_at :
    (out : List ℕ) (bs : List (ℕ × List ℕ)) (section trailing start : List ℕ)
    → take (length section) (
        drop
          (length out + length (objects_text bs))
          (write_objects out bs ++ section ++ trailing ++ start))
      ≡ section
section_at out bs section trailing start =
    ap
      (λ pos.
        take (length section) (drop pos (write_objects out bs ++ section ++ trailing ++ start)))
      (sym (length-append out (objects_text bs)))
    ∙ take-drop _ (out ++ objects_text bs) section (trailing ++ start)
        (layout out bs section trailing start)

pub object_at :
    (out : List ℕ) (before after : List (ℕ × List ℕ)) (n : ℕ)
    (bytes section trailing start : List ℕ)
    → take (length bytes) (
        drop
          (length out + length (objects_text before))
          (write_objects out (before ++ (n, bytes) ∷ after) ++ section ++ trailing ++ start))
      ≡ bytes
unfolding objects_text
object_at out before after n bytes section trailing start =
    let back = separator bytes ++ (objects_text after ++ (section ++ (trailing ++ start))) in
    let text : objects_text (before ++ (n, bytes) ∷ after)
        ≡ objects_text before ++ ((bytes ++ separator bytes) ++ objects_text after) =
      objects_text-append before ((n, bytes) ∷ after)
      ∙ ap (λ t. objects_text before ++ (t ++ objects_text after)) (object_text-separator bytes) in
    let shape : write_objects out (before ++ (n, bytes) ∷ after) ++ section ++ trailing ++ start
        ≡ (out ++ objects_text before) ++ (bytes ++ back) =
      layout out (before ++ (n, bytes) ∷ after) section trailing start
      ∙ ap (λ t. (out ++ t) ++ (section ++ (trailing ++ start))) text
      ∙ simp append_assoc in
    ap
      (λ pos. take (length bytes) (
        drop pos
          (write_objects out (before ++ (n, bytes) ∷ after) ++ section ++ trailing ++ start)))
      (sym (length-append out (objects_text before)))
    ∙ take-drop _ (out ++ objects_text before) bytes back shape

-- The file of the objects `bs`, with its trailer.
abbrev pub file_of : List ℕ → List (ℕ × List ℕ) → ℕ → List (ℕ × ℕ) → List ℕ → List ℕ
file_of out bs prev originals trailing =
    let placed = place_objects [] (length out) 0 bs in
    write_objects out bs
    ++ section_text (xref_table placed.0 prev originals)
    ++ trailing
    ++ startxref_text placed.1
