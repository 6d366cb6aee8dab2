-- ===== src/Document/Journal.antt =====
-- core/pdf-model/src/journal.rs: the undo journal. A `Vec` is a list with its last element at the end;
-- of the text form for the sidecar file, the reader is modelled and the writer is not.
pub mod Timeline
pub mod Sidecar
use pdf_platform.Document.Command.{CommandGroup}
use mathlib.Core.Option
use pdf_platform.Common.{
  ℕ, ◌%◌, ◌+◌, ◌++◌, Bool, List, Option, [], ◌^◌, is_empty, map, none, not, some, ◌∷◌,
}

pub record UndoJournal : Type 0 where
  pub applied : List CommandGroup
  pub undone : List CommandGroup
  pub total_applied : ℕ

unfoldable pub empty_journal : UndoJournal
empty_journal = record { applied = []; undone = []; total_applied = 0 }

-- `Vec::pop`: what is left, and the last element.
unfoldable pub pop_back {ℓ} : {A : Type ℓ} → List A → Option (List A × A)
pop_back [] = none
pop_back (x ∷ xs) = elim (pop_back xs) [ none ↦ some ([], x) | some p ↦ some (x ∷ p.0, p.1) ]

unfoldable pub record_group : UndoJournal → CommandGroup → UndoJournal
record_group j group = record {
  applied = j.applied ++ group ∷ [];
  undone = [];
  total_applied = (j.total_applied + 1) % 2 ^ 64;
}

unfoldable pub undo : UndoJournal → UndoJournal × Option CommandGroup
undo j = elim (pop_back j.applied) [
  | none ↦ (j, none)
  | some p ↦ (record j { applied = p.0; undone = j.undone ++ p.1 ∷ [] }, some p.1)
]

unfoldable pub redo : UndoJournal → UndoJournal × Option CommandGroup
redo j = elim (pop_back j.undone) [
  | none ↦ (j, none)
  | some p ↦ (record j { undone = p.0; applied = j.applied ++ p.1 ∷ [] }, some p.1)
]

unfoldable pub can_undo : UndoJournal → Bool
can_undo j = not (is_empty j.applied)

unfoldable pub can_redo : UndoJournal → Bool
can_redo j = not (is_empty j.undone)

-- `undo_name` and `redo_name`
unfoldable pub undo_name : UndoJournal → Option (List ℕ)
undo_name j = Option.map (λ p. p.1.name) (pop_back j.applied)

unfoldable pub redo_name : UndoJournal → Option (List ℕ)
redo_name j = Option.map (λ p. p.1.name) (pop_back j.undone)

unfoldable pub clear_journal : UndoJournal → UndoJournal
clear_journal j = record j { applied = []; undone = [] }
