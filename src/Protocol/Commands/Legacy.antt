-- ===== src/Protocol/Commands/Legacy.antt =====
-- The untyped render-tile request (core/protocol/src/commands.rs), written and read by both decoders.
use pdf_platform.Protocol.Commands.Decoding.{
  decode_command, decode_legacy, decode_render_tile, encode_render_tile, or_legacy, read_request,
  request_fields, try_decode_lines, try_decode_typed,
}
use pdf_platform.Protocol.Commands.Branches.{
  RenderTileRequest, request_of, request_step, tile_command,
}
use pdf_platform.Common.Decimal.{parse_unsigned-decimal}
use pdf_platform.Protocol.Commands.Reading.{no_tile_fields, number, required, scale_of, tile_step}
use pdf_platform.Protocol.Wire.{
  each_field, lines, lines_from, print_fields, strip_prefix, strip_return,
}
use pdf_platform.Protocol.Commands.Messages.{
  IsField, each_field-print_fields, each_pair, print_fields-is_utf8,
}
use pdf_platform.Protocol.Wire.Utf8.{is_utf8, utf8_from}
use pdf_platform.Protocol.Commands.RoundTrip.{IsShown32, decimal-IsValue}
use pdf_platform.Protocol.Commands.{Floats}
use pdf_platform.Common.{◌<◌, ◌^◌, ok, true, ◌≡◌, ◌>>=◌, All, refl}
use pdf_platform.Common.Keys.{contains, bytes_beq}

module _ (floats : Floats) where
  abbrev pub IsRequest : RenderTileRequest floats.F32 → Type 0
  IsRequest req =
      (req.page < 2 ^ 32)
      × (req.x < 2 ^ 32)
      × (req.y < 2 ^ 32)
      × (req.w < 2 ^ 32)
      × (req.h < 2 ^ 32)
      × IsShown32 floats req.scale
      × (req.generation < 2 ^ 64)
      × (req.slot_offset < 2 ^ 32)

  request_fields-IsField :
      (req : RenderTileRequest floats.F32) → IsRequest req → All IsField (request_fields floats req)
  unfolding contains utf8_from
  request_fields-IsField req (p, x, y, w, h, scale, g, o) = (
    (refl, decimal-IsValue req.page),
    (
      (refl, decimal-IsValue req.x),
      (
        (refl, decimal-IsValue req.y),
        (
          (refl, decimal-IsValue req.w),
          (
            (refl, decimal-IsValue req.h),
            (
              (refl, scale.value),
              (
                (refl, decimal-IsValue req.generation),
                ((refl, decimal-IsValue req.slot_offset), tt),
              ),
            ),
          ),
        ),
      ),
    ),
  )

  encode_render_tile-is_utf8 :
      (req : RenderTileRequest floats.F32)
      → IsRequest req
      → is_utf8 (encode_render_tile floats req) ≡ true
  unfolding encode_render_tile utf8_from
  encode_render_tile-is_utf8 req s =
      print_fields-is_utf8 (request_fields floats req) (request_fields-IsField req s)

  -- The fields of a request give it back.
  read_fields :
      (req : RenderTileRequest floats.F32)
      → IsRequest req
      → (each_field
            (request_step floats)
            no_tile_fields
            (lines (print_fields (request_fields floats req)))
          >>= request_of floats)
        ≡ ok req
  unfolding each_pair request_step tile_step number scale_of request_of required bytes_beq
  read_fields req s =
      let (p, x, y, w, h, scale, g, o) = s in
      rw
        (
          each_field-print_fields (request_step floats) no_tile_fields (request_fields floats req)
              (request_fields-IsField req s),
          parse_unsigned-decimal (2 ^ 32) req.page p,
          parse_unsigned-decimal (2 ^ 32) req.x x,
          parse_unsigned-decimal (2 ^ 32) req.y y,
          parse_unsigned-decimal (2 ^ 32) req.w w,
          parse_unsigned-decimal (2 ^ 32) req.h h,
          scale.parsed,
          parse_unsigned-decimal (2 ^ 64) req.generation g,
          parse_unsigned-decimal (2 ^ 32) req.slot_offset o,
        )
        refl

  pub decode_render_tile-encode_render_tile :
      (req : RenderTileRequest floats.F32)
      → IsRequest req
      → decode_render_tile floats (encode_render_tile floats req) ≡ ok req
  unfolding decode_render_tile read_request encode_render_tile lines lines_from strip_return
      bytes_beq
  decode_render_tile-encode_render_tile req h =
      rw (encode_render_tile-is_utf8 req h) (read_fields req h)

  -- For a request whose numbers fit their types and whose scale is given back by its printed form: the
  -- command decoder reads a request of the untyped form as a command for the tile in the first
  -- column and row, with correlation id 0, and the request's own decoder reads it back.
  pub decode_command-encode_render_tile :
      (req : RenderTileRequest floats.F32)
      → IsRequest req
      → (decode_command floats (encode_render_tile floats req) ≡ ok (tile_command floats 0 req 0 0))
        × (decode_render_tile floats (encode_render_tile floats req) ≡ ok req)
  unfolding decode_command try_decode_typed try_decode_lines encode_render_tile lines lines_from
      strip_return strip_prefix or_legacy decode_legacy
  decode_command-encode_render_tile req h = (
    rw (encode_render_tile-is_utf8 req h, decode_render_tile-encode_render_tile req h) refl,
    decode_render_tile-encode_render_tile req h,
  )
