-- ===== src/Protocol/Commands/Tests.antt =====
-- Commands of core/protocol/src/commands.rs on concrete values; a float is a number printed in decimal.
use pdf_platform.Protocol.Commands.Decoding.{
  decode_command, decode_render_tile, encode_render_tile, or_legacy, read_kind, read_typed,
  try_decode_lines, try_decode_typed,
}
use pdf_platform.Protocol.Commands.Branches.{RenderTileRequest, read_annotation, tile_command}
use pdf_platform.Protocol.Commands.Reading.{annotation_step, number, required}
use pdf_platform.Protocol.Wire.Utf8.{utf8_from}
use pdf_platform.Protocol.Wire.{
  strip_return, each_field, lines, lines_from, print_fields, split_once, strip_prefix,
}
use pdf_platform.Protocol.Wire.Values.{has_escape}
use pdf_platform.Protocol.Commands.Legacy.{decode_command-encode_render_tile}
use pdf_platform.Protocol.Commands.RoundTrip.Whole.{decode_command-encode_command}
use pdf_platform.Common.Keys.{contains, nat_eq, bytes_beq}
use pdf_platform.Common.Decimal.{
  codes, decimal, parse_unsigned, parse_unsigned-decimal, decimal_on, read_digits, read_plus,
}
use pdf_platform.Protocol.Commands.Messages.{IsValue}
use pdf_platform.Protocol.Commands.RoundTrip.{IsEscapedText, IsShown, IsShown32, decimal-IsValue}
use pdf_platform.Protocol.Commands.{Command, Floats, encode_command}
use pdf_platform.Common.{
  ℕ, List, ◌++◌, ◌<◌, [], ◌^◌, arith, false, none, ok, refl, some, true, ◌∷◌, ◌≡◌,
}

abbrev floats : Floats
floats = record {
  F32 = ℕ;
  F64 = ℕ;
  show_f32 = decimal;
  parse_f32 = parse_unsigned (2 ^ 32);
  show_f64 = decimal;
  parse_f64 = parse_unsigned (2 ^ 64);
}

shown32 : (n : ℕ) → n < 2 ^ 32 → IsShown32 floats n
shown32 n h = record { value = decimal-IsValue n; parsed = parse_unsigned-decimal (2 ^ 32) n h }

shown64 : (n : ℕ) → n < 2 ^ 64 → IsShown decimal (parse_unsigned (2 ^ 64)) n
shown64 n h = record { value = decimal-IsValue n; parsed = parse_unsigned-decimal (2 ^ 64) n h }

abbrev name : List ℕ
name = codes "total"

-- Two lines of an expression.
abbrev sum : List ℕ
sum = codes "AFSimple_Calculate(" ++ b'\n' ∷ codes "'SUM')"

abbrev calc : Command floats
calc = Command.forms_calc 9 sum ((name, 12) ∷ []) true

name-IsValue : IsValue name
unfolding strip_return contains utf8_from
name-IsValue = record { is_line = record { one_line = refl; no_return = refl }; utf8 = refl }

sum-IsEscapedText : IsEscapedText sum
unfolding strip_return has_escape utf8_from
sum-IsEscapedText = (record { no_escape = refl; no_return = refl }, refl)

name-no_colon : contains b':' name ≡ false
unfolding contains
name-no_colon = refl

decode_command-encode_command_example : decode_command floats (encode_command floats calc) ≡ ok calc
decode_command-encode_command_example =
    decode_command-encode_command floats calc (
      omega arith,
      sum-IsEscapedText,
      ((name-IsValue, name-no_colon, shown64 12 (omega arith)), tt),
    )

abbrev request : RenderTileRequest ℕ
request = record {
  page = 3;
  x = 256;
  y = 512;
  w = 128;
  h = 64;
  scale = 2;
  generation = 7;
  slot_offset = 262144;
}

decode_command-encode_render_tile_example :
    (decode_command floats (encode_render_tile floats request)
      ≡ ok (tile_command floats 0 request 0 0))
    × (decode_render_tile floats (encode_render_tile floats request) ≡ ok request)
decode_command-encode_render_tile_example = decode_command-encode_render_tile floats request (
  omega arith,
  omega arith,
  omega arith,
  omega arith,
  omega arith,
  shown32 2 (omega arith),
  omega arith,
  omega arith,
)

-- A newline in the contents of an annotation starts a line of its own, and replaces the rectangle.
abbrev injected : Command floats
injected =
    Command.add_annotation 1 0 (codes "note") (codes "0,0,1,1")
      (some (codes "hi" ++ b'\n' ∷ codes "rect=9")) none

injected_rect :
    decode_command floats (encode_command floats injected)
    ≡ ok (Command.add_annotation 1 0 (codes "note") (codes "9") (some (codes "hi")) none)
unfolding decode_command encode_command print_fields try_decode_typed try_decode_lines strip_prefix
    lines lines_from strip_return read_typed split_once number parse_unsigned read_plus read_digits
    decimal decimal_on read_kind bytes_beq read_annotation each_field annotation_step required
    or_legacy utf8_from
injected_rect = refl
