-- ===== src/Document/Incremental/Placing.antt =====
-- Where the objects of an incremental save stand (core/pdf-write/src/lib.rs).
use pdf_platform.Common.Map.{insert, lookup, lookup-insert}
use pdf_platform.Document.Incremental.{
  bool_number, collect_objects, insert_buffer, needs_separator, object_text, sort_buffers,
  write_objects, place_objects,
}
use pdf_platform.Document.Overlay.{CowOverlay, get_object}
use pdf_platform.Common.{
  ℕ, List, ◌+◌, ◌++◌, ◌<◌, All, [], arith, leb, length, length-append, refl, some, suc, sym, true,
  zero, ◌∙◌, ◌∷◌, ◌≡◌, ◌≤◌, ◌%◌, Bool-cases, Option-cases, ◌^◌, ap, inl, inr,
}
use pdf_platform.Common.Keys.{◌==◌, nat_eq}
use mathlib.Core.List.{append-nil, append_assoc}

-- Numbers go up.
abbrev pub Ascending : {A : Type 0} → List (ℕ × A) → Type 0
Ascending [] = Unit {0}
Ascending (e ∷ es) = All (λ d. e.0 < d.0) es × Ascending es

-- The text of all objects, and its length.
unfoldable pub objects_text : List (ℕ × List ℕ) → List ℕ
objects_text [] = []
objects_text ((n, bytes) ∷ rest) = object_text bytes ++ objects_text rest

All-from :
    {A : Type 0} (m n : ℕ) (es : List (ℕ × A))
    → m ≤ n
    → All (λ d. n ≤ d.0) es
    → All (λ d. m ≤ d.0) es
All-from m n [] l h = tt
All-from m n (e ∷ es) l h = (omega (arith, h.0), All-from m n es l h.1)

All-above :
    {A : Type 0} (m : ℕ) (es : List (ℕ × A)) → All (λ d. m + 1 ≤ d.0) es → All (λ d. m < d.0) es
All-above m [] h = tt
All-above m (e ∷ es) h = (omega (arith, h.0), All-above m es h.1)

pub All-later :
    {A : Type 0} (m n : ℕ) (es : List (ℕ × A))
    → m ≤ n
    → All (λ d. n < d.0) es
    → All (λ d. m < d.0) es
All-later m n [] l h = tt
All-later m n (e ∷ es) l h = (omega (arith, h.0), All-later m n es l h.1)

pub collect_objects-Ascending :
    (overlay : CowOverlay) (obj_num left : ℕ)
    → All (λ d. obj_num ≤ d.0) (collect_objects overlay obj_num left)
      × Ascending (collect_objects overlay obj_num left)
unfolding collect_objects
collect_objects-Ascending overlay obj_num zero = (tt, tt)
collect_objects-Ascending overlay obj_num (suc left) =
    let later = collect_objects-Ascending overlay (obj_num + 1) left in
    elim (Option-cases (get_object overlay obj_num)) [
      | inl absent ↦
          rw (collect_objects, absent)
            (All-from obj_num (obj_num + 1) _ (omega arith) later.0, later.1)
      | inr (bytes, present) ↦
          rw (collect_objects, present)
            (
              (omega arith, All-from obj_num (obj_num + 1) _ (omega arith) later.0),
              (All-above obj_num _ later.0, later.1),
            )
    ]

-- Every object of the range that the overlay has is collected.
pub collected_at :
    (overlay : CowOverlay) (obj_num left n : ℕ) (bytes : List ℕ)
    → get_object overlay n ≡ some bytes
    → obj_num ≤ n
    → n < obj_num + left
    → (before : List (ℕ × List ℕ)) × (after : List (ℕ × List ℕ)) × (collect_objects overlay obj_num
          left
        ≡ before ++ (n, bytes) ∷ after)
unfolding collect_objects
collected_at overlay obj_num zero n bytes h l u = ground arith
collected_at overlay obj_num (suc left) n bytes h l u = elim (Bool-cases (obj_num == n)) [
  | inl here ↦
      let same : obj_num ≡ n = ground arith in
      let found : get_object overlay obj_num ≡ some bytes = ap (get_object overlay) same ∙ h in
      let tail = collect_objects overlay (obj_num + 1) left in
      ([], tail, rw (collect_objects, found) (ap (λ m. (m, bytes) ∷ tail) same))
  | inr other ↦
      let (before, after, split) =
        collected_at overlay (obj_num + 1) left n bytes h (ground arith) (omega arith) in
      elim (Option-cases (get_object overlay obj_num)) [
        | inl absent ↦ (before, after, rw (collect_objects, absent) split)
        | inr (found, present) ↦ (
          (obj_num, found) ∷ before,
          after,
          rw (collect_objects, present) (ap (◌∷◌ (obj_num, found)) split),
        )
      ]
]

insert_buffer-front :
    (b : ℕ × List ℕ) (bs : List (ℕ × List ℕ))
    → All (λ d. b.0 < d.0) bs
    → insert_buffer b bs ≡ b ∷ bs
unfolding insert_buffer
insert_buffer-front b [] h = refl
insert_buffer-front b (c ∷ cs) h =
    let first : leb b.0 c.0 ≡ true = ground (arith, h.0) in rw first refl

pub sort_buffers-Ascending : (bs : List (ℕ × List ℕ)) → Ascending bs → sort_buffers bs ≡ bs
unfolding sort_buffers
sort_buffers-Ascending [] h = refl
sort_buffers-Ascending (b ∷ bs) h =
    rw (sort_buffers-Ascending bs h.1) (insert_buffer-front b bs h.0)

pub write_objects_lem :
    (out : List ℕ) (bs : List (ℕ × List ℕ)) → write_objects out bs ≡ out ++ objects_text bs
unfolding write_objects objects_text
write_objects_lem out [] = sym (append-nil out)
write_objects_lem out ((n, bytes) ∷ rest) =
    write_objects_lem (out ++ object_text bytes) rest
    ∙ append_assoc out (object_text bytes) (objects_text rest)

-- The step of the position is the length of what is written, while the file stays below 4 GiB.
object_text_lem :
    (bytes : List ℕ)
    → length (object_text bytes) ≡ length bytes + bool_number (needs_separator bytes)
unfolding object_text bool_number
object_text_lem bytes = ground (arith, length-append bytes (b'\n' ∷ []))

pub place_objects-pos :
    (offsets : List (ℕ × ℕ)) (pos count : ℕ) (bs : List (ℕ × List ℕ))
    → pos + length (objects_text bs) < 2 ^ 32
    → (place_objects offsets pos count bs).1 ≡ pos + length (objects_text bs)
unfolding place_objects objects_text
place_objects-pos offsets pos count [] b = omega arith
place_objects-pos offsets pos count ((n, bytes) ∷ bs) b =
    let total : length (object_text bytes ++ objects_text bs)
        ≡ length (object_text bytes) + length (objects_text bs) =
      length-append (object_text bytes) (objects_text bs) in
    let step : (pos + (length bytes % 2 ^ 32 + bool_number (needs_separator bytes))) % 2 ^ 32
        ≡ pos + length (object_text bytes) =
      omega (arith, object_text_lem bytes, total) in
    rw (place_objects, step)
      (place_objects-pos (insert n pos offsets) (pos + length (object_text bytes))
          ((count + 1) % 2 ^ 32) bs (omega (arith, total))
        ∙ omega (arith, total))

-- Objects with later numbers leave an offset alone.
placed_before :
    (offsets : List (ℕ × ℕ)) (pos count n : ℕ) (bs : List (ℕ × List ℕ))
    → All (λ d. n < d.0) bs
    → lookup n (place_objects offsets pos count bs).0 ≡ lookup n offsets
unfolding place_objects
placed_before offsets pos count n [] h = refl
placed_before offsets pos count n ((m, bytes) ∷ bs) h =
    placed_before (insert m pos offsets) _ _ n bs h.1
    ∙ ground (arith, lookup-insert m n pos offsets, h.0)

-- An object's offset is where its text stands.
pub placed_at :
    (offsets : List (ℕ × ℕ)) (pos count n : ℕ) (bytes : List ℕ) (before after : List (ℕ × List ℕ))
    → Ascending (before ++ (n, bytes) ∷ after)
    → pos + length (objects_text (before ++ (n, bytes) ∷ after)) < 2 ^ 32
    → lookup n (place_objects offsets pos count (before ++ (n, bytes) ∷ after)).0
      ≡ some (pos + length (objects_text before))
unfolding place_objects objects_text
placed_at offsets pos count n bytes [] after up b =
    placed_before (insert n pos offsets) _ _ n after up.0
    ∙ ground (arith, lookup-insert n n pos offsets)
placed_at offsets pos count n bytes ((m, first) ∷ before) after up b =
    let total = length-append (object_text first) (objects_text (before ++ (n, bytes) ∷ after)) in
    let front = length-append (object_text first) (objects_text before) in
    let step : (pos + (length first % 2 ^ 32 + bool_number (needs_separator first))) % 2 ^ 32
        ≡ pos + length (object_text first) =
      omega (arith, object_text_lem first, total) in
    let sum : (pos + length (object_text first)) + length (objects_text before)
        ≡ pos + length (object_text first ++ objects_text before) =
      omega (arith, front) in
    rw (place_objects, step)
      (placed_at (insert m pos offsets) (pos + length (object_text first)) ((count + 1) % 2 ^ 32) n
          bytes before after up.1 (omega (arith, total))
        ∙ ap some sum)
