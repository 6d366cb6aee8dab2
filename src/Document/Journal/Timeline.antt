-- ===== src/Document/Journal/Timeline.antt =====
-- The undo journal as one timeline of groups with a cursor (core/pdf-model/src/journal.rs).
use pdf_platform.Document.Journal.{UndoJournal, pop_back, can_undo, redo, undo, can_redo}
use pdf_platform.Document.Command.{CommandGroup}
use mathlib.Core.List.{reverse, reverse-append, append_assoc}
use pdf_platform.Common.{
  ◌++◌, List, [], arith, refl, some, ◌∷◌, ◌≡◌, ap, inl, inr, none, sym, true, ◌∙◌, ◌≢◌, ◌⊎◌,
}

pop_back-snoc {ℓ} : {A : Type ℓ} (xs : List A) (x : A) → pop_back (xs ++ x ∷ []) ≡ some (xs, x)
unfolding pop_back
pop_back-snoc [] x = refl
pop_back-snoc (y ∷ xs) x = ground (arith, pop_back-snoc xs x)

-- Every `Vec` is empty or has a last element.
snoc_cases {ℓ} :
    {A : Type ℓ} (xs : List A) → (xs ≡ []) ⊎ ((ys : List A) × (x : A) × (xs ≡ ys ++ x ∷ []))
snoc_cases [] = inl refl
snoc_cases (x ∷ xs) = elim (snoc_cases xs) [
  | inl e ↦ inr ([], x, ap (◌∷◌ x) e)
  | inr (ys, y, e) ↦ inr (x ∷ ys, y, ap (◌∷◌ x) e)
]

-- The groups in the order of the document's history: those applied, then those undone, the next to
-- redo first.
pub timeline : UndoJournal → List CommandGroup
timeline j = j.applied ++ reverse j.undone

move_back :
    (xs ys zs : List CommandGroup) (g : CommandGroup)
    → xs ≡ ys ++ g ∷ []
    → xs ++ reverse zs ≡ ys ++ reverse (zs ++ g ∷ [])
move_back xs ys zs g h = rw (h, reverse-append zs (g ∷ [])) (append_assoc ys (g ∷ []) (reverse zs))

-- What `undo` does to a journal with an applied group.
pub undo_step :
    (j : UndoJournal) (ys : List CommandGroup) (g : CommandGroup)
    → j.applied ≡ ys ++ g ∷ []
    → undo j ≡ (record j { applied = ys; undone = j.undone ++ g ∷ [] }, some g)
unfolding undo
undo_step j ys g h =
    ground (arith, ap (λ (l : List CommandGroup). pop_back l) h, pop_back-snoc ys g)

pub redo_step :
    (j : UndoJournal) (ys : List CommandGroup) (g : CommandGroup)
    → j.undone ≡ ys ++ g ∷ []
    → redo j ≡ (record j { undone = ys; applied = j.applied ++ g ∷ [] }, some g)
unfolding redo
redo_step j ys g h =
    ground (arith, ap (λ (l : List CommandGroup). pop_back l) h, pop_back-snoc ys g)

undo_nothing : (j : UndoJournal) → j.applied ≡ [] → undo j ≡ (j, none)
unfolding undo pop_back
undo_nothing j h = ground arith

redo_nothing : (j : UndoJournal) → j.undone ≡ [] → redo j ≡ (j, none)
unfolding redo pop_back
redo_nothing j h = ground arith

timeline-undo : (j : UndoJournal) → timeline (undo j).0 ≡ timeline j
unfolding timeline
timeline-undo j = elim (snoc_cases j.applied) [
  | inl e ↦ rw (undo_nothing j e) refl
  | inr (ys, g, e) ↦ rw (undo_step j ys g e) (sym (move_back j.applied ys j.undone g e))
]

timeline-redo : (j : UndoJournal) → timeline (redo j).0 ≡ timeline j
unfolding timeline
timeline-redo j = elim (snoc_cases j.undone) [
  | inl e ↦ rw (redo_nothing j e) refl
  | inr (ys, g, e) ↦ rw (redo_step j ys g e) (
      append_assoc j.applied (g ∷ []) (reverse ys)
      ∙ ap (λ (l : List CommandGroup). j.applied ++ l) (sym (rw e (reverse-append ys (g ∷ [])))))
]

-- `undo` and `redo` move the cursor and never change the timeline.
pub timeline_kept :
    (j : UndoJournal) → (timeline (undo j).0 ≡ timeline j) × (timeline (redo j).0 ≡ timeline j)
timeline_kept j = (timeline-undo j, timeline-redo j)

redo_of_undo :
    (j : UndoJournal) (ys : List CommandGroup) (g : CommandGroup)
    → j.applied ≡ ys ++ g ∷ []
    → redo (record j { applied = ys; undone = j.undone ++ g ∷ [] }) ≡ (j, some g)
redo_of_undo j ys g e =
    redo_step (record j { applied = ys; undone = j.undone ++ g ∷ [] }) j.undone g refl
    ∙ ap (λ (l : List CommandGroup). (record j { applied = l }, some g)) (sym e)

-- `redo` after `undo` returns the undone group and the journal of before.
pub redo-undo :
    (j : UndoJournal)
    → can_undo j ≡ true
    → (redo (undo j).0 ≡ (j, (undo j).1)) × ((undo j).1 ≢ none)
unfolding can_undo
redo-undo j h = elim (snoc_cases j.applied) [
  | inl e ↦ ground arith
  | inr (ys, g, e) ↦ rw (undo_step j ys g e) (redo_of_undo j ys g e, ground arith)
]

-- `undo` after `redo` returns the redone group and the journal of before.
undo_of_redo :
    (j : UndoJournal) (ys : List CommandGroup) (g : CommandGroup)
    → j.undone ≡ ys ++ g ∷ []
    → undo (record j { undone = ys; applied = j.applied ++ g ∷ [] }) ≡ (j, some g)
undo_of_redo j ys g e =
    undo_step (record j { undone = ys; applied = j.applied ++ g ∷ [] }) j.applied g refl
    ∙ ap (λ (l : List CommandGroup). (record j { undone = l }, some g)) (sym e)

pub undo-redo :
    (j : UndoJournal)
    → can_redo j ≡ true
    → (undo (redo j).0 ≡ (j, (redo j).1)) × ((redo j).1 ≢ none)
unfolding can_redo
undo-redo j h = elim (snoc_cases j.undone) [
  | inl e ↦ ground arith
  | inr (ys, g, e) ↦ rw (redo_step j ys g e) (undo_of_redo j ys g e, ground arith)
]
