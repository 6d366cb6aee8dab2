-- ===== src/Protocol/Commands/RoundTrip/Optional.antt =====
-- Commands with fields that may be missing, encoded and decoded (core/protocol/src/commands.rs).
use pdf_platform.Protocol.Commands.Branches.{read_annotation, read_redact}
use pdf_platform.Protocol.Commands.Decoding.{decode_command, read_kind}
use pdf_platform.Protocol.Wire.Utf8.{utf8_from}
use pdf_platform.Protocol.Wire.Values.{
  is_true-flag_text, parse_numbers-join_numbers, unescape-escape,
}
use pdf_platform.Protocol.Wire.{escape, flag_text, join_numbers}
use pdf_platform.Common.Decimal.{codes, decimal, parse_unsigned-decimal}
use pdf_platform.Protocol.Commands.Reading.{annotation_step, number, numbers, redact_step, required}
use pdf_platform.Protocol.Commands.RoundTrip.{
  IsSendable, decimal-IsValue, escape-IsValue, flag_text-IsValue, join_numbers-IsValue,
}
use pdf_platform.Protocol.Commands.Messages.{
  IsField, decode_command-message, each_field-print_fields, each_pair,
}
use pdf_platform.Protocol.Commands.{Command, Floats, encode_command}
use pdf_platform.Common.{
  ℕ, List, Option, Bool, All, [], ◌^◌, false, none, ok, refl, some, ◌∙◌, ◌∷◌, ◌≡◌,
}
use pdf_platform.Common.Keys.{contains, bytes_beq}

module _ (floats : Floats) where
  pub decode-add_annotation :
      (id page : ℕ) (kind rect : List ℕ) (contents color : Option (List ℕ))
      → IsSendable floats (Command.add_annotation id page kind rect contents color)
      → decode_command floats
          (encode_command floats (Command.add_annotation id page kind rect contents color))
        ≡ ok (Command.add_annotation id page kind rect contents color)
  unfolding encode_command read_kind read_annotation each_pair annotation_step number required
      contains utf8_from bytes_beq
  decode-add_annotation id page kind rect none none (i, p, k, r, c, d) =
      let fields : List (List ℕ × List ℕ) =
        (codes "page_index", decimal page)
        ∷ (codes "annotation_type", kind)
        ∷ (codes "rect", rect)
        ∷ [] in
      let printable : All IsField fields =
        ((refl, decimal-IsValue page), ((refl, k), ((refl, r), tt))) in
      decode_command-message floats (codes "ADD_ANNOTATION") id fields refl i printable
      ∙ rw
          (
            each_field-print_fields annotation_step
                (record {
                  page_index = none;
                  annotation_type = none;
                  rect = none;
                  contents = none;
                  color = none;
                })
                fields printable,
            parse_unsigned-decimal (2 ^ 32) page p,
          )
          refl
  decode-add_annotation id page kind rect none (some shade) (i, p, k, r, c, d) =
      let fields : List (List ℕ × List ℕ) =
        (codes "page_index", decimal page)
        ∷ (codes "annotation_type", kind)
        ∷ (codes "rect", rect)
        ∷ (codes "color", shade)
        ∷ [] in
      let printable : All IsField fields =
        ((refl, decimal-IsValue page), ((refl, k), ((refl, r), ((refl, d), tt)))) in
      decode_command-message floats (codes "ADD_ANNOTATION") id fields refl i printable
      ∙ rw
          (
            each_field-print_fields annotation_step
                (record {
                  page_index = none;
                  annotation_type = none;
                  rect = none;
                  contents = none;
                  color = none;
                })
                fields printable,
            parse_unsigned-decimal (2 ^ 32) page p,
          )
          refl
  decode-add_annotation id page kind rect (some text) none (i, p, k, r, c, d) =
      let fields : List (List ℕ × List ℕ) =
        (codes "page_index", decimal page)
        ∷ (codes "annotation_type", kind)
        ∷ (codes "rect", rect)
        ∷ (codes "contents", text)
        ∷ [] in
      let printable : All IsField fields =
        ((refl, decimal-IsValue page), ((refl, k), ((refl, r), ((refl, c), tt)))) in
      decode_command-message floats (codes "ADD_ANNOTATION") id fields refl i printable
      ∙ rw
          (
            each_field-print_fields annotation_step
                (record {
                  page_index = none;
                  annotation_type = none;
                  rect = none;
                  contents = none;
                  color = none;
                })
                fields printable,
            parse_unsigned-decimal (2 ^ 32) page p,
          )
          refl
  decode-add_annotation id page kind rect (some text) (some shade) (i, p, k, r, c, d) =
      let fields : List (List ℕ × List ℕ) =
        (codes "page_index", decimal page)
        ∷ (codes "annotation_type", kind)
        ∷ (codes "rect", rect)
        ∷ (codes "contents", text)
        ∷ (codes "color", shade)
        ∷ [] in
      let printable : All IsField fields =
        ((refl, decimal-IsValue page), ((refl, k), ((refl, r), ((refl, c), ((refl, d), tt))))) in
      decode_command-message floats (codes "ADD_ANNOTATION") id fields refl i printable
      ∙ rw
          (
            each_field-print_fields annotation_step
                (record {
                  page_index = none;
                  annotation_type = none;
                  rect = none;
                  contents = none;
                  color = none;
                })
                fields printable,
            parse_unsigned-decimal (2 ^ 32) page p,
          )
          refl

  pub decode-redact_by_term :
      (id : ℕ) (term : List ℕ) (case_sensitive whole_word : Bool) (pages : Option (List ℕ))
      → IsSendable floats (Command.redact_by_term id term case_sensitive whole_word pages)
      → decode_command floats
          (encode_command floats (Command.redact_by_term id term case_sensitive whole_word pages))
        ≡ ok (Command.redact_by_term id term case_sensitive whole_word pages)
  unfolding encode_command read_kind read_redact each_pair redact_step numbers required contains
      utf8_from bytes_beq
  decode-redact_by_term id term case_sensitive whole_word none (i, t, p) =
      let fields : List (List ℕ × List ℕ) =
        (codes "search_term", escape term)
        ∷ (codes "case_sensitive", flag_text case_sensitive)
        ∷ (codes "whole_word", flag_text whole_word)
        ∷ [] in
      let printable : All IsField fields = (
        (refl, escape-IsValue term t),
        ((refl, flag_text-IsValue case_sensitive), ((refl, flag_text-IsValue whole_word), tt)),
      ) in
      decode_command-message floats (codes "REDACT_BY_TERM") id fields refl i printable
      ∙ rw
          (
            each_field-print_fields redact_step
                (record {
                  search_term = none;
                  case_sensitive = false;
                  whole_word = false;
                  page_filter = none;
                })
                fields printable,
            unescape-escape term t.0.no_escape,
            is_true-flag_text case_sensitive,
            is_true-flag_text whole_word,
          )
          refl
  decode-redact_by_term id term case_sensitive whole_word (some pages) (i, t, p) =
      let fields : List (List ℕ × List ℕ) =
        (codes "search_term", escape term)
        ∷ (codes "case_sensitive", flag_text case_sensitive)
        ∷ (codes "whole_word", flag_text whole_word)
        ∷ (codes "page_filter", join_numbers pages)
        ∷ [] in
      let printable : All IsField fields = (
        (refl, escape-IsValue term t),
        (
          (refl, flag_text-IsValue case_sensitive),
          ((refl, flag_text-IsValue whole_word), ((refl, join_numbers-IsValue pages), tt)),
        ),
      ) in
      decode_command-message floats (codes "REDACT_BY_TERM") id fields refl i printable
      ∙ rw
          (
            each_field-print_fields redact_step
                (record {
                  search_term = none;
                  case_sensitive = false;
                  whole_word = false;
                  page_filter = none;
                })
                fields printable,
            unescape-escape term t.0.no_escape,
            is_true-flag_text case_sensitive,
            is_true-flag_text whole_word,
            parse_numbers-join_numbers pages p,
          )
          refl
