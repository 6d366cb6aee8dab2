-- ===== src/Document/Command/Revision.antt =====
-- The commands write at the current revision and leave it (core/pdf-model/src/command.rs).
use pdf_platform.Document.Overlay.{CowOverlay, set_object}
use pdf_platform.Document.Command.{
  Command, apply_command, apply_each, create_annotation, delete_annotation, edit_annotation,
  flatten_form, set_appearance, set_field_value, set_object_command, set_review_status,
  undo_command, undo_each,
}
use pdf_platform.Common.{ℕ, List, Option, [], none, refl, some, ◌∙◌, ◌∷◌, ◌≡◌}

revision-set_appearance :
    (o : CowOverlay) (n : ℕ) (b : Option (List ℕ))
    → (set_appearance o n b).current_revision ≡ o.current_revision
unfolding set_appearance set_object
revision-set_appearance o n none = refl
revision-set_appearance o n (some b) = refl

revision-apply_command :
    (c : Command) (o : CowOverlay) → (apply_command c o).current_revision ≡ o.current_revision
unfolding apply_command set_object
revision-apply_command (set_object_command c) o = refl
revision-apply_command (create_annotation c) o = refl
revision-apply_command (delete_annotation c) o = refl
revision-apply_command (edit_annotation c) o = revision-set_appearance o _ c.new_appearance
revision-apply_command (set_review_status c) o = refl
revision-apply_command (set_field_value c) o = refl
revision-apply_command (flatten_form c) o = refl

revision-undo_command :
    (c : Command) (o : CowOverlay) → (undo_command c o).current_revision ≡ o.current_revision
unfolding undo_command set_object
revision-undo_command (set_object_command c) o = revision-set_appearance o _ c.old_bytes
revision-undo_command (create_annotation c) o = refl
revision-undo_command (delete_annotation c) o = refl
revision-undo_command (edit_annotation c) o = revision-set_appearance o _ c.old_appearance
revision-undo_command (set_review_status c) o = refl
revision-undo_command (set_field_value c) o = refl
revision-undo_command (flatten_form c) o = refl

pub revision-apply_each :
    (cs : List Command) (o : CowOverlay) → (apply_each cs o).current_revision ≡ o.current_revision
unfolding apply_each
revision-apply_each [] o = refl
revision-apply_each (c ∷ cs) o =
    revision-apply_each cs (apply_command c o) ∙ revision-apply_command c o

pub revision-undo_each :
    (cs : List Command) (o : CowOverlay) → (undo_each cs o).current_revision ≡ o.current_revision
unfolding undo_each
revision-undo_each [] o = refl
revision-undo_each (c ∷ cs) o = revision-undo_each cs (undo_command c o) ∙ revision-undo_command c o
