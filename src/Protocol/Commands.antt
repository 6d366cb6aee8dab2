-- ===== src/Protocol/Commands.antt =====
-- Commands from the coordinator to a worker (core/protocol/src/commands.rs): the enum and its encoder.
-- Texts are lists of bytes; the two float types and their printing and parsing are parameters.

pub mod Messages
mod Tests
pub mod RoundTrip
pub mod Legacy
pub mod Reading
pub mod Branches
pub mod Decoding
use pdf_platform.Protocol.Wire.{escape, flag_text, join_numbers, print_fields}
use pdf_platform.Common.Decimal.{codes, decimal}
use pdf_platform.Common.{◌++◌, Bool, List, Option, [], none, some, ℕ, ◌∷◌}
use mathlib.Core.Option

-- Rust's `f32` and `f64`: `{}` and `parse`.
pub record Floats : Type 1 where
  pub F32 : Type 0
  pub F64 : Type 0
  pub show_f32 : F32 → List ℕ
  pub parse_f32 : List ℕ → Option F32
  pub show_f64 : F64 → List ℕ
  pub parse_f64 : List ℕ → Option F64

pub data Command (floats : Floats) : Type 0 where
  -- correlation_id, page, x, y, w, h, scale, generation, slot_offset, col, row
  render_tile : ℕ → ℕ → ℕ → ℕ → ℕ → ℕ → floats.F32 → ℕ → ℕ → ℕ → ℕ → Command floats
  inspect : ℕ → Command floats
  -- correlation_id, page_index
  extract_page : ℕ → ℕ → Command floats
  get_outline : ℕ → Command floats
  get_layers : ℕ → Command floats
  get_attachments : ℕ → Command floats
  -- correlation_id, obj_num
  get_object : ℕ → ℕ → Command floats
  -- correlation_id, page_indices
  delete_pages : ℕ → List ℕ → Command floats
  -- correlation_id, page_indices, degrees
  rotate_pages : ℕ → List ℕ → ℕ → Command floats
  -- correlation_id, page_index, annotation_type, rect, contents, color
  add_annotation : ℕ → ℕ → List ℕ → List ℕ → Option (List ℕ) → Option (List ℕ) → Command floats
  -- correlation_id, page_index, annotation_id
  delete_annotation : ℕ → ℕ → ℕ → Command floats
  -- correlation_id, expression, fields, enabled
  forms_calc : ℕ → List ℕ → List (List ℕ × floats.F64) → Bool → Command floats
  -- correlation_id, page_index, scale
  render_page_for_ocr : ℕ → ℕ → floats.F32 → Command floats
  -- correlation_id, search_term, case_sensitive, whole_word, page_filter
  redact_by_term : ℕ → List ℕ → Bool → Bool → Option (List ℕ) → Command floats
  quit : Command floats
  -- correlation_id, plugin_id, manifest_json
  load_plugin : ℕ → List ℕ → List ℕ → Command floats
  -- correlation_id, plugin_id
  unload_plugin : ℕ → List ℕ → Command floats
  -- correlation_id, plugin_id, action_id, args_json
  invoke_plugin_action : ℕ → List ℕ → List ℕ → List ℕ → Command floats

-- The first line, `CMD:<TYPE>:<correlation_id>`.
abbrev pub header : List ℕ → ℕ → List ℕ
header kind id = codes "CMD:" ++ kind ++ b':' ∷ decimal id

abbrev pub message : List ℕ → ℕ → List (List ℕ × List ℕ) → List ℕ
message kind id fields = header kind id ++ b'\n' ∷ print_fields fields

module _ (floats : Floats) where
  unfoldable pub correlation_id : Command floats → Option ℕ
  correlation_id (Command.render_tile id page x y w h scale generation slot_offset col row) =
      some id
  correlation_id (Command.inspect id) = some id
  correlation_id (Command.extract_page id page) = some id
  correlation_id (Command.get_outline id) = some id
  correlation_id (Command.get_layers id) = some id
  correlation_id (Command.get_attachments id) = some id
  correlation_id (Command.get_object id number) = some id
  correlation_id (Command.delete_pages id pages) = some id
  correlation_id (Command.rotate_pages id pages degrees) = some id
  correlation_id (Command.add_annotation id page kind rect contents color) = some id
  correlation_id (Command.delete_annotation id page annotation) = some id
  correlation_id (Command.forms_calc id expression fields enabled) = some id
  correlation_id (Command.load_plugin id plugin manifest) = some id
  correlation_id (Command.unload_plugin id plugin) = some id
  correlation_id (Command.invoke_plugin_action id plugin action args) = some id
  correlation_id (Command.render_page_for_ocr id page scale) = some id
  correlation_id (Command.redact_by_term id term case_sensitive whole_word pages) = some id
  correlation_id Command.quit = none

  -- A field that is written only when it is there.
  abbrev optional_field : List ℕ → Option (List ℕ) → List (List ℕ × List ℕ)
  optional_field key none = []
  optional_field key (some value) = (key, value) ∷ []

  -- The `field=<name>:<value>` lines of a form calculation.
  unfoldable pub calc_fields : List (List ℕ × floats.F64) → List (List ℕ × List ℕ)
  calc_fields [] = []
  calc_fields ((name, value) ∷ fields) =
      (codes "field", name ++ b':' ∷ floats.show_f64 value) ∷ calc_fields fields

  unfoldable pub encode_command : Command floats → List ℕ
  encode_command (Command.render_tile id page x y w h scale generation slot_offset col row) =
      message (codes "RENDER_TILE") id (
        (codes "page", decimal page)
        ∷ (codes "x", decimal x)
        ∷ (codes "y", decimal y)
        ∷ (codes "w", decimal w)
        ∷ (codes "h", decimal h)
        ∷ (codes "scale", floats.show_f32 scale)
        ∷ (codes "generation", decimal generation)
        ∷ (codes "slot_offset", decimal slot_offset)
        ∷ (codes "col", decimal col)
        ∷ (codes "row", decimal row)
        ∷ [])
  encode_command (Command.inspect id) = message (codes "INSPECT") id []
  encode_command (Command.extract_page id page) =
      message (codes "EXTRACT_PAGE") id ((codes "page_index", decimal page) ∷ [])
  encode_command (Command.get_outline id) = message (codes "GET_OUTLINE") id []
  encode_command (Command.get_layers id) = message (codes "GET_LAYERS") id []
  encode_command (Command.get_attachments id) = message (codes "GET_ATTACHMENTS") id []
  encode_command (Command.get_object id number) =
      message (codes "GET_OBJECT") id ((codes "obj_num", decimal number) ∷ [])
  encode_command (Command.delete_pages id pages) =
      message (codes "DELETE_PAGES") id ((codes "page_indices", join_numbers pages) ∷ [])
  encode_command (Command.rotate_pages id pages degrees) =
      message (codes "ROTATE_PAGES") id
        ((codes "page_indices", join_numbers pages) ∷ (codes "degrees", decimal degrees) ∷ [])
  encode_command (Command.add_annotation id page kind rect contents color) =
      message (codes "ADD_ANNOTATION") id (
        (codes "page_index", decimal page)
          ∷ (codes "annotation_type", kind)
          ∷ (codes "rect", rect)
          ∷ optional_field (codes "contents") contents
        ++ optional_field (codes "color") color)
  encode_command (Command.delete_annotation id page annotation) =
      message (codes "DELETE_ANNOTATION") id
        ((codes "page_index", decimal page) ∷ (codes "annotation_id", decimal annotation) ∷ [])
  encode_command (Command.forms_calc id expression fields enabled) =
      message (codes "FORMS_CALC") id (
        (codes "expr", escape expression)
        ∷ (codes "enabled", flag_text enabled)
        ∷ calc_fields fields)
  encode_command (Command.render_page_for_ocr id page scale) =
      message (codes "RENDER_PAGE_FOR_OCR") id
        ((codes "page_index", decimal page) ∷ (codes "scale", floats.show_f32 scale) ∷ [])
  encode_command (Command.redact_by_term id term case_sensitive whole_word pages) =
      message (codes "REDACT_BY_TERM") id (
        (codes "search_term", escape term)
        ∷ (codes "case_sensitive", flag_text case_sensitive)
        ∷ (codes "whole_word", flag_text whole_word)
        ∷ optional_field (codes "page_filter") (Option.map join_numbers pages))
  encode_command Command.quit = codes "CMD:QUIT" ++ b'\n' ∷ []
  encode_command (Command.load_plugin id plugin manifest) =
      message (codes "LOAD_PLUGIN") id
        ((codes "plugin_id", plugin) ∷ (codes "manifest", escape manifest) ∷ [])
  encode_command (Command.unload_plugin id plugin) =
      message (codes "UNLOAD_PLUGIN") id ((codes "plugin_id", plugin) ∷ [])
  encode_command (Command.invoke_plugin_action id plugin action args) =
      message (codes "INVOKE_PLUGIN_ACTION") id (
        (codes "plugin_id", plugin)
        ∷ (codes "action_id", action)
        ∷ (codes "args", escape args)
        ∷ [])
