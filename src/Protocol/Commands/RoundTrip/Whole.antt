-- ===== src/Protocol/Commands/RoundTrip/Whole.antt =====
-- `encode_command` followed by `decode_command` (core/protocol/src/commands.rs).
use pdf_platform.Protocol.Commands.RoundTrip.Texts.{
  decode-invoke_plugin_action, decode-load_plugin, decode-unload_plugin,
}
use pdf_platform.Protocol.Commands.RoundTrip.Optional.{decode-add_annotation, decode-redact_by_term}
use pdf_platform.Protocol.Commands.Branches.{read_calc}
use pdf_platform.Protocol.Commands.Decoding.{
  decode_command, or_legacy, read_kind, read_typed, try_decode_lines, try_decode_typed,
}
use pdf_platform.Protocol.Wire.Fields.{join-IsLine, split_once-append}
use pdf_platform.Protocol.Wire.Values.{is_true-flag_text, unescape-escape}
use pdf_platform.Protocol.Wire.{
  escape, flag_text, lines, lines_from, split_once, strip_prefix, strip_return,
}
use pdf_platform.Protocol.Commands.RoundTrip.Structure.{
  decode-delete_annotation, decode-delete_pages, decode-extract_page, decode-get_attachments,
  decode-get_layers, decode-get_object, decode-get_outline, decode-inspect,
  decode-render_page_for_ocr, decode-render_tile, decode-rotate_pages,
}
use pdf_platform.Common.Decimal.{codes}
use pdf_platform.Protocol.Commands.Reading.{calc_field, calc_step, required}
use pdf_platform.Protocol.Wire.Utf8.{append-is_utf8, utf8_from}
use pdf_platform.Protocol.Commands.Messages.{
  IsField, IsValue, decode_command-message, each_field-print_fields, each_pair,
}
use pdf_platform.Protocol.Commands.RoundTrip.{
  IsCalcField, IsSendable, escape-IsValue, flag_text-IsValue,
}
use pdf_platform.Protocol.Commands.{Command, Floats, calc_fields, encode_command}
use pdf_platform.Common.{
  ℕ, List, Option, Bool, ◌++◌, All, [], none, ok, refl, some, true, ◌∙◌, ◌∷◌, ◌≡◌,
}
use pdf_platform.Common.Keys.{contains, bytes_beq}
use mathlib.Core.List.{append_assoc, append-nil}

module _ (floats : Floats) where
  calc_field-IsValue :
      (name : List ℕ) (x : floats.F64)
      → IsCalcField floats (name, x)
      → IsValue (name ++ b':' ∷ floats.show_f64 x)
  calc_field-IsValue name x (n, colon, shown) = record {
    is_line =
        join-IsLine name b':' (floats.show_f64 x) n.is_line.one_line refl refl shown.value.is_line;
    utf8 =
        append-is_utf8 name (b':' ∷ floats.show_f64 x) n.utf8
          (unfold utf8_from in shown.value.utf8);
  }

  calc_fields-IsField :
      (fields : List (List ℕ × floats.F64))
      → All (IsCalcField floats) fields
      → All IsField (calc_fields floats fields)
  unfolding calc_fields contains utf8_from
  calc_fields-IsField [] h = tt
  calc_fields-IsField ((name, x) ∷ fields) h =
      ((refl, calc_field-IsValue name x h.0), calc_fields-IsField fields h.1)

  calc_field_lem :
      (name : List ℕ) (x : floats.F64)
      → IsCalcField floats (name, x)
      → calc_field floats (name ++ b':' ∷ floats.show_f64 x) ≡ ok (name, x)
  unfolding calc_field
  calc_field_lem name x (n, colon, shown) =
      rw (calc_field, split_once-append b':' name (floats.show_f64 x) colon, shown.parsed) refl

  each_pair-calc_fields :
      (expression : Option (List ℕ)) (enabled : Bool) (done fields : List (List ℕ × floats.F64))
      → All (IsCalcField floats) fields
      → each_pair
          (calc_step floats)
          (record { expression = expression; enabled = enabled; fields = done })
          (calc_fields floats fields)
        ≡ ok (record { expression = expression; enabled = enabled; fields = done ++ fields })
  unfolding each_pair calc_fields calc_step bytes_beq
  each_pair-calc_fields expression enabled done [] h = rw (append-nil done) refl
  each_pair-calc_fields expression enabled done ((name, x) ∷ fields) h =
      rw (calc_field_lem name x h.0) (
        each_pair-calc_fields expression enabled (done ++ (name, x) ∷ []) fields h.1
        ∙ rw (append_assoc done ((name, x) ∷ []) fields) refl)

  decode-forms_calc :
      (id : ℕ) (expression : List ℕ) (fields : List (List ℕ × floats.F64)) (enabled : Bool)
      → IsSendable floats (Command.forms_calc id expression fields enabled)
      → decode_command floats
          (encode_command floats (Command.forms_calc id expression fields enabled))
        ≡ ok (Command.forms_calc id expression fields enabled)
  unfolding encode_command read_kind read_calc each_pair calc_step required contains utf8_from
      bytes_beq
  decode-forms_calc id expression fields enabled (i, e, f) =
      let pairs : List (List ℕ × List ℕ) =
        (codes "expr", escape expression)
        ∷ (codes "enabled", flag_text enabled)
        ∷ calc_fields floats fields in
      let printable : All IsField pairs = (
        (refl, escape-IsValue expression e),
        ((refl, flag_text-IsValue enabled), calc_fields-IsField fields f),
      ) in
      decode_command-message floats (codes "FORMS_CALC") id pairs refl i printable
      ∙ rw
          (
            each_field-print_fields (calc_step floats)
                (record { expression = none; enabled = true; fields = [] }) pairs printable,
            unescape-escape expression e.0.no_escape,
            is_true-flag_text enabled,
            each_pair-calc_fields (some expression) enabled [] fields f,
          )
          refl

  decode-quit : decode_command floats (encode_command floats Command.quit) ≡ ok Command.quit
  unfolding encode_command decode_command try_decode_typed try_decode_lines read_typed read_kind
      lines lines_from strip_return strip_prefix split_once utf8_from bytes_beq or_legacy
  decode-quit = refl

  -- A command is decoded from its encoding when it is sendable: its numbers fit their types; its
  -- unescaped texts, names of form fields among them, are single lines of UTF-8 that do not end in a
  -- carriage return; no name of a form field holds a colon; its escaped texts are UTF-8, hold no
  -- backslash before an n and do not end in a carriage return; its floats are given back by their
  -- printed form, which is such a line too.
  pub decode_command-encode_command :
      (command : Command floats)
      → IsSendable floats command
      → decode_command floats (encode_command floats command) ≡ ok command
  decode_command-encode_command
        (Command.render_tile id page x y w h scale generation slot_offset col row) s =
      decode-render_tile floats id page x y w h scale generation slot_offset col row s
  decode_command-encode_command (Command.inspect id) s = decode-inspect floats id s
  decode_command-encode_command (Command.extract_page id page) s =
      decode-extract_page floats id page s
  decode_command-encode_command (Command.get_outline id) s = decode-get_outline floats id s
  decode_command-encode_command (Command.get_layers id) s = decode-get_layers floats id s
  decode_command-encode_command (Command.get_attachments id) s = decode-get_attachments floats id s
  decode_command-encode_command (Command.get_object id object) s =
      decode-get_object floats id object s
  decode_command-encode_command (Command.delete_pages id pages) s =
      decode-delete_pages floats id pages s
  decode_command-encode_command (Command.rotate_pages id pages degrees) s =
      decode-rotate_pages floats id pages degrees s
  decode_command-encode_command (Command.add_annotation id page kind rect contents color) s =
      decode-add_annotation floats id page kind rect contents color s
  decode_command-encode_command (Command.delete_annotation id page annotation) s =
      decode-delete_annotation floats id page annotation s
  decode_command-encode_command (Command.forms_calc id expression fields enabled) s =
      decode-forms_calc id expression fields enabled s
  decode_command-encode_command (Command.render_page_for_ocr id page scale) s =
      decode-render_page_for_ocr floats id page scale s
  decode_command-encode_command (Command.redact_by_term id term case_sensitive whole_word pages) s =
      decode-redact_by_term floats id term case_sensitive whole_word pages s
  decode_command-encode_command Command.quit s = decode-quit
  decode_command-encode_command (Command.load_plugin id plugin manifest) s =
      decode-load_plugin floats id plugin manifest s
  decode_command-encode_command (Command.unload_plugin id plugin) s =
      decode-unload_plugin floats id plugin s
  decode_command-encode_command (Command.invoke_plugin_action id plugin action args) s =
      decode-invoke_plugin_action floats id plugin action args s
