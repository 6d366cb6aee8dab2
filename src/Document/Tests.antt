-- ===== src/Document/Tests.antt =====
-- Runs of the document model, and its theorems at concrete documents.
use pdf_platform.Common.Decimal.{codes}
use pdf_platform.Document.Journal.Timeline.{redo-undo, timeline, timeline_kept}
use pdf_platform.Common.Map.{insert}
use pdf_platform.Document.Session.Undoing.{
  after_undo, undo_last-apply_command_group, undone_journal, after_apply, after_redo,
  redo_last-undo_last,
}
use pdf_platform.Document.Journal.{UndoJournal, empty_journal, redo, undo, can_undo}
use pdf_platform.Document.Overlay.Reads.{IsOverlay, set_object-IsOverlay, reads_after_write}
use pdf_platform.Document.Session.{DocumentCoordinator, SidecarWriter}
use pdf_platform.Document.Overlay.{
  CowOverlay, best_version, empty_overlay, get_object, newer, set_object, get_object_at_revision,
}
use pdf_platform.Document.Command.{
  CommandGroup, new_group, apply_command, apply_each, apply_group, create_annotation, fill_prefix,
  set_field_value, undo_group,
}
use pdf_platform.Document.Command.Undo.{
  AllRecorded, any_left_behind, is_left_behind, read, undo_group-apply_group,
}
use pdf_platform.Text.{new_service}
use pdf_platform.Common.{
  ℕ, ◌++◌, Option, Result, err, List, [], false, none, ok, refl, some, ◌∷◌, ◌≡◌, ◌≢◌, arith,
}

-- The original file shows 80 for every object.
abbrev original : ℕ → List ℕ
original n = 80 ∷ []

abbrev edited_overlay : CowOverlay
edited_overlay = set_object empty_overlay 7 (65 ∷ [])

edited_overlay-IsOverlay : IsOverlay edited_overlay
unfolding empty_overlay
edited_overlay-IsOverlay =
    set_object-IsOverlay empty_overlay 7 (65 ∷ []) (record { at_revision = tt })

-- Adds an annotation to page 7, as objects 20 and 21, and fills a field of form 9.
abbrev annotate : CommandGroup
annotate = record {
  name = fill_prefix;
  commands =
      create_annotation (record {
        page_obj_num = 7;
        original_page_bytes = 65 ∷ [];
        new_page_bytes = 66 ∷ [];
        annot_obj_num = 20;
        ap_obj_num = 21;
        annot_object_bytes = 1 ∷ [];
        ap_object_bytes = 2 ∷ [];
      })
      ∷ set_field_value (record {
        field_name = 70 ∷ [];
        acroform_obj_num = 9;
        original_acroform_bytes = 80 ∷ [];
        new_acroform_bytes = 81 ∷ [];
      })
      ∷ [];
}

annotate_recorded : AllRecorded original edited_overlay annotate.commands
unfolding read get_object set_object best_version insert apply_command newer empty_overlay
annotate_recorded = (refl, (refl, tt))

annotate_shown : read original (apply_group annotate edited_overlay) 7 ≡ 66 ∷ []
unfolding read get_object set_object best_version insert apply_command newer empty_overlay
    apply_group apply_each
annotate_shown = refl

page_kept : any_left_behind annotate.commands 7 ≡ false
unfolding any_left_behind is_left_behind
page_kept = refl

undo_group-apply_group_example :
    read original (undo_group annotate (apply_group annotate edited_overlay)) 7
    ≡ read original edited_overlay 7
undo_group-apply_group_example =
    undo_group-apply_group original annotate edited_overlay 7 edited_overlay-IsOverlay
      annotate_recorded page_kept

abbrev two_groups : UndoJournal
two_groups = record { applied = annotate ∷ annotate ∷ []; undone = []; total_applied = 2 }

redo-undo_example :
    (redo (undo two_groups).0 ≡ (two_groups, (undo two_groups).1)) × ((undo two_groups).1 ≢ none)
unfolding can_undo
redo-undo_example = redo-undo two_groups refl

abbrev open_document : DocumentCoordinator ℕ
open_document = record {
  overlay = edited_overlay;
  journal = empty_journal;
  sidecar = none;
  text_service = new_service;
}

abbrev write_all : SidecarWriter
write_all revision groups = (some [], ok tt)

undo_last-apply_command_group_example :
    (read original (after_undo write_all original open_document annotate 7).overlay 7
      ≡ read original edited_overlay 7)
    × ((after_undo write_all original open_document annotate 7).journal
        ≡ undone_journal write_all original open_document annotate 7)
unfolding set_object empty_overlay
undo_last-apply_command_group_example =
    undo_last-apply_command_group write_all original open_document annotate 7
      edited_overlay-IsOverlay (omega arith) annotate_recorded page_kept

redo_last-undo_last_example :
    (read original (after_redo write_all original open_document annotate 7).overlay 7
      ≡ read original (after_apply write_all original open_document annotate 7).overlay 7)
    × ((after_redo write_all original open_document annotate 7).journal
        ≡ (after_apply write_all original open_document annotate 7).journal)
unfolding set_object empty_overlay
redo_last-undo_last_example =
    redo_last-undo_last write_all original open_document annotate 7 edited_overlay-IsOverlay
      (omega arith) annotate_recorded page_kept

-- A sidecar of one group, named `Fill`, with one command.
abbrev crashed_sidecar : List ℕ
crashed_sidecar =
    codes "JOURNAL_SIDECAR v1"
    ++ b'\n' ∷ codes "---"
    ++ b'\n' ∷ codes "GROUP:Fill"
    ++ b'\n' ∷ codes "CMD:Set Field"
    ++ b'\n' ∷ codes "DATA:QQ=="
    ++ b'\n' ∷ codes "END_GROUP"
    ++ b'\n' ∷ []

abbrev reopened_document : DocumentCoordinator ℕ
reopened_document = record open_document { sidecar = some crashed_sidecar }

abbrev read_all : Option (List ℕ) → Result (List ℕ) (List ℕ)
read_all none = err []
read_all (some bytes) = ok bytes

abbrev recovered_groups : List CommandGroup
recovered_groups = new_group (codes "Fill") ∷ []

timeline_kept_example :
    (timeline (undo two_groups).0 ≡ timeline two_groups)
    × (timeline (redo two_groups).0 ≡ timeline two_groups)
timeline_kept_example = timeline_kept two_groups

reads_after_write_example :
    (get_object (set_object edited_overlay 7 (66 ∷ [])) 7 ≡ some (66 ∷ []))
    × (get_object_at_revision (set_object edited_overlay 7 (66 ∷ [])) 7 0 ≡ some (66 ∷ []))
unfolding set_object empty_overlay
reads_after_write_example =
    reads_after_write edited_overlay 7 7 0 (66 ∷ []) edited_overlay-IsOverlay
