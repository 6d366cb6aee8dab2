-- ===== src/Protocol/Commands/RoundTrip.antt =====
-- Commands that the lines of a message can carry, and their way through `encode_command` and
-- `decode_command` of core/protocol/src/commands.rs.
pub mod Structure
pub mod Texts
pub mod Optional
pub mod Whole
use pdf_platform.Protocol.Commands.Reading.{
  number, numbers, required, rotate_step, scale_of, tile_step,
}
use pdf_platform.Protocol.Wire.{escape, flag_text, join_numbers}
use pdf_platform.Protocol.Wire.Utf8.{
  decimal-is_utf8, escape-is_utf8, is_utf8, join_numbers-is_utf8, utf8_from,
}
use pdf_platform.Protocol.Wire.Fields.{decimal-IsLine}
use pdf_platform.Common.Decimal.{codes, decimal, parse_unsigned-decimal}
use pdf_platform.Protocol.Commands.Messages.{
  IsField, IsValue, decode_command-message, each_field-print_fields, each_pair,
}
use pdf_platform.Protocol.Wire.Values.{
  IsEscapable, escape-IsLine, flag_text-IsLine, join_numbers-IsLine, parse_numbers-join_numbers,
}
use pdf_platform.Protocol.Commands.{
  Command, Floats, add_annotation, delete_annotation, delete_pages, encode_command, extract_page,
  forms_calc, get_attachments, get_layers, get_object, get_outline, inspect, invoke_plugin_action,
  load_plugin, quit, redact_by_term, render_page_for_ocr, render_tile, rotate_pages, unload_plugin,
}
use pdf_platform.Common.{
  ℕ, List, Option, Bool, Result, ◌<◌, All, [], ◌^◌, false, none, ok, refl, some, true, ◌∙◌, ◌∷◌,
  ◌≡◌,
}
use pdf_platform.Common.Keys.{contains, nat_eq}

-- A float that its own text gives back.
pub record IsShown {F : Type 0} (show : F → List ℕ) (parse : List ℕ → Option F) (x : F)
    : Type 0 where
  pub value : IsValue (show x)
  pub parsed : parse (show x) ≡ some x

-- A text that is escaped on its way.
abbrev pub IsEscapedText : List ℕ → Type 0
IsEscapedText text = IsEscapable text × (is_utf8 text ≡ true)

abbrev pub IsOptional : (List ℕ → Type 0) → Option (List ℕ) → Type 0
IsOptional P none = Unit {0}
IsOptional P (some v) = P v

abbrev pub ArePages : List ℕ → Type 0
ArePages ns = All (λ n. n < 2 ^ 32) ns

pub decimal-IsValue : (n : ℕ) → IsValue (decimal n)
decimal-IsValue n = record { is_line = decimal-IsLine n; utf8 = decimal-is_utf8 n }

pub escape-IsValue : (text : List ℕ) → IsEscapedText text → IsValue (escape text)
escape-IsValue text h = record { is_line = escape-IsLine text h.0; utf8 = escape-is_utf8 text h.1 }

flag_text-is_utf8 : (flag : Bool) → is_utf8 (flag_text flag) ≡ true
unfolding utf8_from
flag_text-is_utf8 true = refl
flag_text-is_utf8 false = refl

pub flag_text-IsValue : (flag : Bool) → IsValue (flag_text flag)
flag_text-IsValue flag = record { is_line = flag_text-IsLine flag; utf8 = flag_text-is_utf8 flag }

pub join_numbers-IsValue : (ns : List ℕ) → IsValue (join_numbers ns)
join_numbers-IsValue ns = record {
  is_line = join_numbers-IsLine ns;
  utf8 = join_numbers-is_utf8 ns;
}

module _ (floats : Floats) where
  abbrev pub IsShown32 : floats.F32 → Type 0
  IsShown32 = IsShown floats.show_f32 floats.parse_f32

  abbrev pub IsCalcField : List ℕ × floats.F64 → Type 0
  IsCalcField (name, x) =
      IsValue name × (contains b':' name ≡ false) × IsShown floats.show_f64 floats.parse_f64 x

  -- Numbers fit their types, texts that are not escaped are one line without a carriage return at its
  -- end, and the others hold no escape and no carriage return at their end.
  abbrev pub IsSendable : Command floats → Type 0
  IsSendable (Command.render_tile id page x y w h scale generation slot_offset col row) =
      (id < 2 ^ 64)
      × (page < 2 ^ 32)
      × (x < 2 ^ 32)
      × (y < 2 ^ 32)
      × (w < 2 ^ 32)
      × (h < 2 ^ 32)
      × IsShown32 scale
      × (generation < 2 ^ 64)
      × (slot_offset < 2 ^ 32)
      × (col < 2 ^ 32)
      × (row < 2 ^ 32)
  IsSendable (Command.inspect id) = id < 2 ^ 64
  IsSendable (Command.extract_page id page) = (id < 2 ^ 64) × (page < 2 ^ 32)
  IsSendable (Command.get_outline id) = id < 2 ^ 64
  IsSendable (Command.get_layers id) = id < 2 ^ 64
  IsSendable (Command.get_attachments id) = id < 2 ^ 64
  IsSendable (Command.get_object id number) = (id < 2 ^ 64) × (number < 2 ^ 32)
  IsSendable (Command.delete_pages id pages) = (id < 2 ^ 64) × ArePages pages
  IsSendable (Command.rotate_pages id pages degrees) =
      (id < 2 ^ 64) × ArePages pages × (degrees < 2 ^ 32)
  IsSendable (Command.add_annotation id page kind rect contents color) =
      (id < 2 ^ 64)
      × (page < 2 ^ 32)
      × IsValue kind
      × IsValue rect
      × IsOptional IsValue contents
      × IsOptional IsValue color
  IsSendable (Command.delete_annotation id page annotation) =
      (id < 2 ^ 64) × (page < 2 ^ 32) × (annotation < 2 ^ 64)
  IsSendable (Command.forms_calc id expression fields enabled) =
      (id < 2 ^ 64) × IsEscapedText expression × All IsCalcField fields
  IsSendable (Command.render_page_for_ocr id page scale) =
      (id < 2 ^ 64) × (page < 2 ^ 32) × IsShown32 scale
  IsSendable (Command.redact_by_term id term case_sensitive whole_word pages) =
      (id < 2 ^ 64) × IsEscapedText term × IsOptional ArePages pages
  IsSendable Command.quit = Unit {0}
  IsSendable (Command.load_plugin id plugin manifest) =
      (id < 2 ^ 64) × IsValue plugin × IsEscapedText manifest
  IsSendable (Command.unload_plugin id plugin) = (id < 2 ^ 64) × IsValue plugin
  IsSendable (Command.invoke_plugin_action id plugin action args) =
      (id < 2 ^ 64) × IsValue plugin × IsValue action × IsEscapedText args
