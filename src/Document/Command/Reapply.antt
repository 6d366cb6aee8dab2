-- ===== src/Document/Command/Reapply.antt =====
-- A command group depends on the document through what it shows (core/pdf-model/src/command.rs).
use pdf_platform.Document.Overlay.{CowOverlay, set_object}
use pdf_platform.Document.Command.{
  Command, apply_command, apply_each, create_annotation, delete_annotation, edit_annotation,
  flatten_form, set_appearance, set_field_value, set_object_command, set_review_status,
}
use pdf_platform.Document.Command.Undo.{read, read-set_object, apply_command-IsOverlay}
use pdf_platform.Document.Overlay.Reads.{IsOverlay, set_object-IsOverlay}
use pdf_platform.Common.{ℕ, List, Option, [], arith, none, some, ◌∷◌, ◌≡◌}

module _ (base : ℕ → List ℕ) (j : ℕ) where
  set_object_again :
      (o o' : CowOverlay) (n : ℕ) (b : List ℕ)
      → IsOverlay o
      → IsOverlay o'
      → read base o' j ≡ read base o j
      → read base (set_object o' n b) j ≡ read base (set_object o n b) j
  set_object_again o o' n b v v' h =
      ground (arith, read-set_object base o n j b v, read-set_object base o' n j b v')

  set_appearance_again :
      (o o' : CowOverlay) (n : ℕ) (b : Option (List ℕ))
      → IsOverlay o
      → IsOverlay o'
      → read base o' j ≡ read base o j
      → read base (set_appearance o' n b) j ≡ read base (set_appearance o n b) j
  unfolding set_appearance
  set_appearance_again o o' n none v v' h = h
  set_appearance_again o o' n (some b) v v' h = set_object_again o o' n b v v' h

  apply_command_again :
      (c : Command) (o o' : CowOverlay)
      → IsOverlay o
      → IsOverlay o'
      → read base o' j ≡ read base o j
      → read base (apply_command c o') j ≡ read base (apply_command c o) j
  unfolding apply_command
  apply_command_again (set_object_command c) o o' v v' h = set_object_again o o' _ _ v v' h
  apply_command_again (create_annotation c) o o' v v' h =
      set_object_again _ _ _ _ (set_object-IsOverlay _ _ _ (set_object-IsOverlay _ _ _ v))
        (set_object-IsOverlay _ _ _ (set_object-IsOverlay _ _ _ v'))
        (set_object_again _ _ _ _ (set_object-IsOverlay _ _ _ v) (set_object-IsOverlay _ _ _ v')
          (set_object_again o o' _ _ v v' h))
  apply_command_again (delete_annotation c) o o' v v' h = set_object_again o o' _ _ v v' h
  apply_command_again (edit_annotation c) o o' v v' h =
      set_appearance_again o o' _ c.new_appearance v v' h
  apply_command_again (set_review_status c) o o' v v' h = h
  apply_command_again (set_field_value c) o o' v v' h = set_object_again o o' _ _ v v' h
  apply_command_again (flatten_form c) o o' v v' h = set_object_again o o' _ _ v v' h

  -- Two states that show the same of an object show the same of it after the same commands.
  pub apply_each_again :
      (cs : List Command) (o o' : CowOverlay)
      → IsOverlay o
      → IsOverlay o'
      → read base o' j ≡ read base o j
      → read base (apply_each cs o') j ≡ read base (apply_each cs o) j
  unfolding apply_each
  apply_each_again [] o o' v v' h = h
  apply_each_again (c ∷ cs) o o' v v' h =
      apply_each_again cs (apply_command c o) (apply_command c o') (apply_command-IsOverlay c o v)
        (apply_command-IsOverlay c o' v') (apply_command_again c o o' v v' h)
