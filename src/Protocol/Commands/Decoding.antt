-- ===== src/Protocol/Commands/Decoding.antt =====
-- `decode_command`, `try_decode_typed`, `decode_render_tile` and `encode_render_tile` of
-- core/protocol/src/commands.rs.
use pdf_platform.Protocol.Wire.Utf8.{is_utf8}
use pdf_platform.Protocol.Wire.{each_field, lines, print_fields, split_once, strip_prefix}
use pdf_platform.Common.Decimal.{codes, decimal}
use pdf_platform.Common.Keys.{bytes_beq}
use pdf_platform.Protocol.Commands.Branches.{
  RenderTileRequest, read_action, read_annotation, read_calc, read_delete, read_delete_pages,
  read_extract, read_object, read_ocr, read_plugin, read_redact, read_rotate, read_tile,
  read_unload, request_of, request_step, tile_command,
}
use pdf_platform.Protocol.Commands.Reading.{CommandDecodeError, no_tile_fields, number}
use pdf_platform.Protocol.Commands.{Command, Floats, header}
use pdf_platform.Common.{
  ℕ, List, Option, Result, ◌&&◌, ◌++◌, ◌>>=◌, [], ◌^◌, if◌then◌else◌, err, none, ok, some, ◌∷◌,
}

module _ (floats : Floats) where
  abbrev pub request_fields : RenderTileRequest floats.F32 → List (List ℕ × List ℕ)
  request_fields req =
      (codes "page", decimal req.page)
      ∷ (codes "x", decimal req.x)
      ∷ (codes "y", decimal req.y)
      ∷ (codes "w", decimal req.w)
      ∷ (codes "h", decimal req.h)
      ∷ (codes "scale", floats.show_f32 req.scale)
      ∷ (codes "generation", decimal req.generation)
      ∷ (codes "slot_offset", decimal req.slot_offset)
      ∷ []

  unfoldable pub encode_render_tile : RenderTileRequest floats.F32 → List ℕ
  encode_render_tile req =
      codes "render_tile" ++ b'\n' ∷ codes "v1" ++ b'\n' ∷ print_fields (request_fields req)

  unfoldable pub read_request :
      List (List ℕ) → Result CommandDecodeError (RenderTileRequest floats.F32)
  read_request (name ∷ version ∷ rest) =
      if bytes_beq name (codes "render_tile") && bytes_beq version (codes "v1")
      then (each_field (request_step floats) no_tile_fields rest >>= request_of floats)
      else err CommandDecodeError.unknown_command
  read_request (name ∷ []) = err CommandDecodeError.unknown_command
  read_request [] = err CommandDecodeError.unknown_command

  unfoldable pub decode_render_tile :
      List ℕ → Result CommandDecodeError (RenderTileRequest floats.F32)
  decode_render_tile body =
      if is_utf8 body then read_request (lines body) else err CommandDecodeError.invalid_utf8

  unfoldable pub read_kind : List ℕ → ℕ → List (List ℕ) → Result CommandDecodeError (Command floats)
  read_kind kind id rest =
      if bytes_beq kind (codes "RENDER_TILE")
      then read_tile floats id rest
      else if bytes_beq kind (codes "INSPECT")
      then ok (Command.inspect id)
      else if bytes_beq kind (codes "EXTRACT_PAGE")
      then read_extract floats id rest
      else if bytes_beq kind (codes "GET_OUTLINE")
      then ok (Command.get_outline id)
      else if bytes_beq kind (codes "GET_LAYERS")
      then ok (Command.get_layers id)
      else if bytes_beq kind (codes "GET_ATTACHMENTS")
      then ok (Command.get_attachments id)
      else if bytes_beq kind (codes "GET_OBJECT")
      then read_object floats id rest
      else if bytes_beq kind (codes "DELETE_PAGES")
      then read_delete_pages floats id rest
      else if bytes_beq kind (codes "ROTATE_PAGES")
      then read_rotate floats id rest
      else if bytes_beq kind (codes "ADD_ANNOTATION")
      then read_annotation floats id rest
      else if bytes_beq kind (codes "DELETE_ANNOTATION")
      then read_delete floats id rest
      else if bytes_beq kind (codes "FORMS_CALC")
      then read_calc floats id rest
      else if bytes_beq kind (codes "LOAD_PLUGIN")
      then read_plugin floats id rest
      else if bytes_beq kind (codes "UNLOAD_PLUGIN")
      then read_unload floats id rest
      else if bytes_beq kind (codes "INVOKE_PLUGIN_ACTION")
      then read_action floats id rest
      else if bytes_beq kind (codes "RENDER_PAGE_FOR_OCR")
      then read_ocr floats id rest
      else if bytes_beq kind (codes "REDACT_BY_TERM")
      then read_redact floats id rest
      else if bytes_beq kind (codes "QUIT")
      then ok Command.quit
      else err CommandDecodeError.unknown_command

  -- Behind `CMD:`, the kind and the correlation id, which may be missing.
  unfoldable pub read_typed : List ℕ → List (List ℕ) → Result CommandDecodeError (Command floats)
  read_typed header rest = elim (split_once b':' header) [
    | none ↦ read_kind header 0 rest
    | some (kind, id) ↦ number (2 ^ 64) (codes "correlation_id") id >>= λ id. read_kind kind id rest
  ]

  unfoldable pub try_decode_lines :
      List (List ℕ) → Result CommandDecodeError (Option (Command floats))
  try_decode_lines [] = ok none
  try_decode_lines (first ∷ rest) = elim (strip_prefix (codes "CMD:") first) [
    | none ↦ ok none
    | some header ↦ read_typed header rest >>= λ command. ok (some command)
  ]

  unfoldable pub try_decode_typed : List ℕ → Result CommandDecodeError (Option (Command floats))
  try_decode_typed text = try_decode_lines (lines text)

  -- The untyped commands.
  unfoldable pub decode_legacy : List ℕ → Result CommandDecodeError (Command floats)
  decode_legacy body = elim (strip_prefix (codes "render_tile" ++ b'\n' ∷ []) body) [
    | some rest ↦ decode_render_tile body >>= λ req. ok (tile_command floats 0 req 0 0)
    | none ↦
        if bytes_beq body (codes "inspect")
        then ok (Command.inspect 0)
        else if bytes_beq body (codes "quit")
        then ok Command.quit
        else err CommandDecodeError.unknown_command
  ]

  unfoldable pub or_legacy :
      List ℕ → Option (Command floats) → Result CommandDecodeError (Command floats)
  or_legacy body (some command) = ok command
  or_legacy body none = decode_legacy body

  unfoldable pub decode_command : List ℕ → Result CommandDecodeError (Command floats)
  decode_command body =
      if is_utf8 body
      then (try_decode_typed body >>= or_legacy body)
      else err CommandDecodeError.invalid_utf8
