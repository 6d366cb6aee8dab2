-- ===== src/Document/Command.antt =====
-- core/pdf-model/src/command.rs: the commands over the overlay and their groups. Of an annotation a
-- command carries what `apply` and `undo` read; the saved annotation, the property sets, the review
-- states and the field values, which they never read, are left out, and so is `serialize`, which
-- writes the crash journal's text. Strings are lists of bytes. Object numbers are u32, ids u64.
pub mod Undo
pub mod Reapply
pub mod Revision
use pdf_platform.Document.Overlay.{CowOverlay, set_object}
use Prim.Native.String.{String}
use mathlib.Core.List.{reverse}
use pdf_platform.Common.{ℕ, ◌%◌, ◌+◌, ◌++◌, List, Option, [], ◌^◌, none, some, ◌∷◌}

-- `SetObjectCommand`
pub record SetObjectCommand : Type 0 where
  pub obj_num : ℕ
  pub new_bytes : List ℕ
  pub old_bytes : Option (List ℕ)

pub record CreateAnnotationCommand : Type 0 where
  pub page_obj_num : ℕ
  pub original_page_bytes : List ℕ
  pub new_page_bytes : List ℕ
  pub annot_obj_num : ℕ
  pub ap_obj_num : ℕ
  pub annot_object_bytes : List ℕ
  pub ap_object_bytes : List ℕ

pub record DeleteAnnotationCommand : Type 0 where
  pub annotation_id : ℕ
  pub page_index : ℕ
  pub page_obj_num : ℕ
  pub original_page_bytes : List ℕ
  pub new_page_bytes : List ℕ

pub record EditAnnotationCommand : Type 0 where
  pub annotation_id : ℕ
  pub page_index : ℕ
  pub old_appearance : Option (List ℕ)
  pub new_appearance : Option (List ℕ)

pub record SetReviewStatusCommand : Type 0 where
  pub annotation_id : ℕ

pub record SetFieldValueCommand : Type 0 where
  pub field_name : List ℕ
  pub acroform_obj_num : ℕ
  pub original_acroform_bytes : List ℕ
  pub new_acroform_bytes : List ℕ

pub record FlattenFormCommand : Type 0 where
  pub field_count : ℕ
  pub acroform_obj_num : ℕ
  pub flattened_bytes : List ℕ
  pub original_acroform_bytes : List ℕ

-- `Box<dyn Command>`: the implementations of the trait.
pub data Command : Type 0 where
  set_object_command : SetObjectCommand → Command
  create_annotation : CreateAnnotationCommand → Command
  delete_annotation : DeleteAnnotationCommand → Command
  edit_annotation : EditAnnotationCommand → Command
  set_review_status : SetReviewStatusCommand → Command
  set_field_value : SetFieldValueCommand → Command
  flatten_form : FlattenFormCommand → Command

-- `Command::name`
unfoldable pub command_name : Command → String
command_name (set_object_command c) = "SetObject"
command_name (create_annotation c) = "CreateAnnotation"
command_name (delete_annotation c) = "DeleteAnnotation"
command_name (edit_annotation c) = "EditAnnotation"
command_name (set_review_status c) = "SetReviewStatus"
command_name (set_field_value c) = "SetFieldValue"
command_name (flatten_form c) = "FlattenForm"

-- `self.annotation_id as u32 + 2000`
unfoldable pub appearance_obj_num : ℕ → ℕ
appearance_obj_num annotation_id = (annotation_id % 2 ^ 32 + 2000) % 2 ^ 32

unfoldable pub set_appearance : CowOverlay → ℕ → Option (List ℕ) → CowOverlay
set_appearance o n none = o
set_appearance o n (some appearance) = set_object o n appearance

-- `apply` and `undo` of each command; every implementation returns `Ok(())`.
abbrev pub apply_set_object : SetObjectCommand → CowOverlay → CowOverlay
apply_set_object c o = set_object o c.obj_num c.new_bytes

abbrev pub undo_set_object : SetObjectCommand → CowOverlay → CowOverlay
undo_set_object c o = set_appearance o c.obj_num c.old_bytes

abbrev pub apply_create_annotation : CreateAnnotationCommand → CowOverlay → CowOverlay
apply_create_annotation c o =
    set_object
      (set_object (set_object o c.page_obj_num c.new_page_bytes) c.annot_obj_num
        c.annot_object_bytes)
      c.ap_obj_num c.ap_object_bytes

abbrev pub undo_create_annotation : CreateAnnotationCommand → CowOverlay → CowOverlay
undo_create_annotation c o = set_object o c.page_obj_num c.original_page_bytes

abbrev pub apply_delete_annotation : DeleteAnnotationCommand → CowOverlay → CowOverlay
apply_delete_annotation c o = set_object o c.page_obj_num c.new_page_bytes

abbrev pub undo_delete_annotation : DeleteAnnotationCommand → CowOverlay → CowOverlay
undo_delete_annotation c o = set_object o c.page_obj_num c.original_page_bytes

abbrev pub apply_edit_annotation : EditAnnotationCommand → CowOverlay → CowOverlay
apply_edit_annotation c o = set_appearance o (appearance_obj_num c.annotation_id) c.new_appearance

abbrev pub undo_edit_annotation : EditAnnotationCommand → CowOverlay → CowOverlay
undo_edit_annotation c o = set_appearance o (appearance_obj_num c.annotation_id) c.old_appearance

abbrev pub apply_set_field_value : SetFieldValueCommand → CowOverlay → CowOverlay
apply_set_field_value c o = set_object o c.acroform_obj_num c.new_acroform_bytes

abbrev pub undo_set_field_value : SetFieldValueCommand → CowOverlay → CowOverlay
undo_set_field_value c o = set_object o c.acroform_obj_num c.original_acroform_bytes

abbrev pub apply_flatten_form : FlattenFormCommand → CowOverlay → CowOverlay
apply_flatten_form c o = set_object o c.acroform_obj_num c.flattened_bytes

abbrev pub undo_flatten_form : FlattenFormCommand → CowOverlay → CowOverlay
undo_flatten_form c o = set_object o c.acroform_obj_num c.original_acroform_bytes

-- `Command::apply`
unfoldable pub apply_command : Command → CowOverlay → CowOverlay
apply_command (set_object_command c) o = apply_set_object c o
apply_command (create_annotation c) o = apply_create_annotation c o
apply_command (delete_annotation c) o = apply_delete_annotation c o
apply_command (edit_annotation c) o = apply_edit_annotation c o
apply_command (set_review_status c) o = o
apply_command (set_field_value c) o = apply_set_field_value c o
apply_command (flatten_form c) o = apply_flatten_form c o

-- `Command::undo`
unfoldable pub undo_command : Command → CowOverlay → CowOverlay
undo_command (set_object_command c) o = undo_set_object c o
undo_command (create_annotation c) o = undo_create_annotation c o
undo_command (delete_annotation c) o = undo_delete_annotation c o
undo_command (edit_annotation c) o = undo_edit_annotation c o
undo_command (set_review_status c) o = o
undo_command (set_field_value c) o = undo_set_field_value c o
undo_command (flatten_form c) o = undo_flatten_form c o

-- The timestamp of a group is left out: nothing but the journal's text reads it.
pub record CommandGroup : Type 0 where
  pub name : List ℕ
  pub commands : List Command

unfoldable pub new_group : List ℕ → CommandGroup
new_group name = record { name = name; commands = [] }

unfoldable pub push_command : CommandGroup → Command → CommandGroup
push_command g c = record g { commands = g.commands ++ c ∷ [] }

unfoldable pub apply_each : List Command → CowOverlay → CowOverlay
apply_each [] o = o
apply_each (c ∷ cs) o = apply_each cs (apply_command c o)

unfoldable pub undo_each : List Command → CowOverlay → CowOverlay
undo_each [] o = o
undo_each (c ∷ cs) o = undo_each cs (undo_command c o)

-- `CommandGroup::apply`
unfoldable pub apply_group : CommandGroup → CowOverlay → CowOverlay
apply_group g o = apply_each g.commands o

-- `CommandGroup::undo`, over `commands.iter().rev()`
unfoldable pub undo_group : CommandGroup → CowOverlay → CowOverlay
undo_group g o = undo_each (reverse g.commands) o

-- The bytes of "Fill ".
abbrev pub fill_prefix : List ℕ
fill_prefix = 70 ∷ 105 ∷ 108 ∷ 108 ∷ 32 ∷ []

unfoldable pub build_set_field_value_group : List ℕ → ℕ → List ℕ → List ℕ → CommandGroup
build_set_field_value_group field_name acroform_obj_num original new =
    push_command (new_group (fill_prefix ++ field_name)) (
      set_field_value (record {
        field_name = field_name;
        acroform_obj_num = acroform_obj_num;
        original_acroform_bytes = original;
        new_acroform_bytes = new;
      }))
