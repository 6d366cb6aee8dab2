-- ===== src/Protocol/Commands/RoundTrip/Structure.antt =====
-- Commands of numbers only, encoded and decoded (core/protocol/src/commands.rs).
use pdf_platform.Protocol.Commands.Branches.{
  read_delete, read_delete_pages, read_extract, read_object, read_ocr, read_rotate, read_tile,
  request_of, tile_command,
}
use pdf_platform.Protocol.Commands.Decoding.{decode_command, read_kind}
use pdf_platform.Protocol.Wire.Utf8.{utf8_from}
use pdf_platform.Protocol.Wire.Values.{parse_numbers-join_numbers}
use pdf_platform.Protocol.Wire.{join_numbers}
use pdf_platform.Protocol.Commands.Reading.{
  delete_step, no_tile_fields, number, number_step, numbers, ocr_step, pages_step, required,
  rotate_step, scale_of, tile_step,
}
use pdf_platform.Common.Decimal.{codes, decimal, parse_unsigned-decimal}
use pdf_platform.Protocol.Commands.RoundTrip.{IsSendable, decimal-IsValue, join_numbers-IsValue}
use pdf_platform.Protocol.Commands.Messages.{
  IsField, decode_command-message, each_field-print_fields, each_pair,
}
use pdf_platform.Protocol.Commands.{Command, Floats, encode_command}
use pdf_platform.Common.{ℕ, List, ◌<◌, All, [], ◌^◌, none, ok, refl, ◌∙◌, ◌∷◌, ◌≡◌}
use pdf_platform.Common.Keys.{contains, bytes_beq}

module _ (floats : Floats) where
  pub decode-inspect :
      (id : ℕ)
      → id < 2 ^ 64
      → decode_command floats (encode_command floats (Command.inspect id)) ≡ ok (Command.inspect id)
  unfolding encode_command read_kind contains utf8_from bytes_beq
  decode-inspect id i = decode_command-message floats (codes "INSPECT") id [] refl i tt

  pub decode-get_outline :
      (id : ℕ)
      → id < 2 ^ 64
      → decode_command floats (encode_command floats (Command.get_outline id))
        ≡ ok (Command.get_outline id)
  unfolding encode_command read_kind contains utf8_from bytes_beq
  decode-get_outline id i = decode_command-message floats (codes "GET_OUTLINE") id [] refl i tt

  pub decode-get_layers :
      (id : ℕ)
      → id < 2 ^ 64
      → decode_command floats (encode_command floats (Command.get_layers id))
        ≡ ok (Command.get_layers id)
  unfolding encode_command read_kind contains utf8_from bytes_beq
  decode-get_layers id i = decode_command-message floats (codes "GET_LAYERS") id [] refl i tt

  pub decode-get_attachments :
      (id : ℕ)
      → id < 2 ^ 64
      → decode_command floats (encode_command floats (Command.get_attachments id))
        ≡ ok (Command.get_attachments id)
  unfolding encode_command read_kind contains utf8_from bytes_beq
  decode-get_attachments id i =
      decode_command-message floats (codes "GET_ATTACHMENTS") id [] refl i tt

  pub decode-render_tile :
      (id page x y w h : ℕ) (scale : floats.F32) (generation slot_offset col row : ℕ)
      → IsSendable floats (Command.render_tile id page x y w h scale generation slot_offset col row)
      → decode_command floats (
          encode_command floats
            (Command.render_tile id page x y w h scale generation slot_offset col row))
        ≡ ok (Command.render_tile id page x y w h scale generation slot_offset col row)
  unfolding encode_command read_kind read_tile each_pair tile_step number scale_of request_of
      tile_command required contains utf8_from bytes_beq
  decode-render_tile id page x y w h scale generation slot_offset col row
        (i, p, bx, by_, bw, bh, f, g, o, c, r) =
      let fields : List (List ℕ × List ℕ) =
        (codes "page", decimal page)
        ∷ (codes "x", decimal x)
        ∷ (codes "y", decimal y)
        ∷ (codes "w", decimal w)
        ∷ (codes "h", decimal h)
        ∷ (codes "scale", floats.show_f32 scale)
        ∷ (codes "generation", decimal generation)
        ∷ (codes "slot_offset", decimal slot_offset)
        ∷ (codes "col", decimal col)
        ∷ (codes "row", decimal row)
        ∷ [] in
      let printable : All IsField fields = (
        (refl, decimal-IsValue page),
        (
          (refl, decimal-IsValue x),
          (
            (refl, decimal-IsValue y),
            (
              (refl, decimal-IsValue w),
              (
                (refl, decimal-IsValue h),
                (
                  (refl, f.value),
                  (
                    (refl, decimal-IsValue generation),
                    (
                      (refl, decimal-IsValue slot_offset),
                      ((refl, decimal-IsValue col), ((refl, decimal-IsValue row), tt)),
                    ),
                  ),
                ),
              ),
            ),
          ),
        ),
      ) in
      decode_command-message floats (codes "RENDER_TILE") id fields refl i printable
      ∙ rw
          (
            each_field-print_fields (tile_step floats) no_tile_fields fields printable,
            parse_unsigned-decimal (2 ^ 32) page p,
            parse_unsigned-decimal (2 ^ 32) x bx,
            parse_unsigned-decimal (2 ^ 32) y by_,
            parse_unsigned-decimal (2 ^ 32) w bw,
            parse_unsigned-decimal (2 ^ 32) h bh,
            f.parsed,
            parse_unsigned-decimal (2 ^ 64) generation g,
            parse_unsigned-decimal (2 ^ 32) slot_offset o,
            parse_unsigned-decimal (2 ^ 32) col c,
            parse_unsigned-decimal (2 ^ 32) row r,
          )
          refl

  pub decode-extract_page :
      (id page : ℕ)
      → IsSendable floats (Command.extract_page id page)
      → decode_command floats (encode_command floats (Command.extract_page id page))
        ≡ ok (Command.extract_page id page)
  unfolding encode_command read_kind read_extract each_pair number_step number required contains
      utf8_from bytes_beq
  decode-extract_page id page (i, p) =
      let fields : List (List ℕ × List ℕ) = (codes "page_index", decimal page) ∷ [] in
      let printable : All IsField fields = ((refl, decimal-IsValue page), tt) in
      decode_command-message floats (codes "EXTRACT_PAGE") id fields refl i printable
      ∙ rw
          (
            each_field-print_fields (number_step (codes "page_index")) none fields printable,
            parse_unsigned-decimal (2 ^ 32) page p,
          )
          refl

  pub decode-get_object :
      (id object : ℕ)
      → IsSendable floats (Command.get_object id object)
      → decode_command floats (encode_command floats (Command.get_object id object))
        ≡ ok (Command.get_object id object)
  unfolding encode_command read_kind read_object each_pair number_step number required contains
      utf8_from bytes_beq
  decode-get_object id object (i, p) =
      let fields : List (List ℕ × List ℕ) = (codes "obj_num", decimal object) ∷ [] in
      let printable : All IsField fields = ((refl, decimal-IsValue object), tt) in
      decode_command-message floats (codes "GET_OBJECT") id fields refl i printable
      ∙ rw
          (
            each_field-print_fields (number_step (codes "obj_num")) none fields printable,
            parse_unsigned-decimal (2 ^ 32) object p,
          )
          refl

  pub decode-delete_pages :
      (id : ℕ) (pages : List ℕ)
      → IsSendable floats (Command.delete_pages id pages)
      → decode_command floats (encode_command floats (Command.delete_pages id pages))
        ≡ ok (Command.delete_pages id pages)
  unfolding encode_command read_kind read_delete_pages each_pair pages_step numbers required
      contains utf8_from bytes_beq
  decode-delete_pages id pages (i, p) =
      let fields : List (List ℕ × List ℕ) = (codes "page_indices", join_numbers pages) ∷ [] in
      let printable : All IsField fields = ((refl, join_numbers-IsValue pages), tt) in
      decode_command-message floats (codes "DELETE_PAGES") id fields refl i printable
      ∙ rw
          (
            each_field-print_fields pages_step none fields printable,
            parse_numbers-join_numbers pages p,
          )
          refl

  pub decode-rotate_pages :
      (id : ℕ) (pages : List ℕ) (degrees : ℕ)
      → IsSendable floats (Command.rotate_pages id pages degrees)
      → decode_command floats (encode_command floats (Command.rotate_pages id pages degrees))
        ≡ ok (Command.rotate_pages id pages degrees)
  unfolding encode_command read_kind read_rotate each_pair rotate_step number numbers required
      contains utf8_from bytes_beq
  decode-rotate_pages id pages degrees (i, p, d) =
      let fields : List (List ℕ × List ℕ) =
        (codes "page_indices", join_numbers pages) ∷ (codes "degrees", decimal degrees) ∷ [] in
      let printable : All IsField fields =
        ((refl, join_numbers-IsValue pages), ((refl, decimal-IsValue degrees), tt)) in
      decode_command-message floats (codes "ROTATE_PAGES") id fields refl i printable
      ∙ rw
          (
            each_field-print_fields rotate_step (record { page_indices = none; degrees = none })
                fields printable,
            parse_numbers-join_numbers pages p,
            parse_unsigned-decimal (2 ^ 32) degrees d,
          )
          refl

  pub decode-delete_annotation :
      (id page annotation : ℕ)
      → IsSendable floats (Command.delete_annotation id page annotation)
      → decode_command floats (encode_command floats (Command.delete_annotation id page annotation))
        ≡ ok (Command.delete_annotation id page annotation)
  unfolding encode_command read_kind read_delete each_pair delete_step number required contains
      utf8_from bytes_beq
  decode-delete_annotation id page annotation (i, p, a) =
      let fields : List (List ℕ × List ℕ) =
        (codes "page_index", decimal page) ∷ (codes "annotation_id", decimal annotation) ∷ [] in
      let printable : All IsField fields =
        ((refl, decimal-IsValue page), ((refl, decimal-IsValue annotation), tt)) in
      decode_command-message floats (codes "DELETE_ANNOTATION") id fields refl i printable
      ∙ rw
          (
            each_field-print_fields delete_step (record { page_index = none; annotation_id = none })
                fields printable,
            parse_unsigned-decimal (2 ^ 32) page p,
            parse_unsigned-decimal (2 ^ 64) annotation a,
          )
          refl

  pub decode-render_page_for_ocr :
      (id page : ℕ) (scale : floats.F32)
      → IsSendable floats (Command.render_page_for_ocr id page scale)
      → decode_command floats (encode_command floats (Command.render_page_for_ocr id page scale))
        ≡ ok (Command.render_page_for_ocr id page scale)
  unfolding encode_command read_kind read_ocr each_pair ocr_step number scale_of required contains
      utf8_from bytes_beq
  decode-render_page_for_ocr id page scale (i, p, f) =
      let fields : List (List ℕ × List ℕ) =
        (codes "page_index", decimal page) ∷ (codes "scale", floats.show_f32 scale) ∷ [] in
      let printable : All IsField fields = ((refl, decimal-IsValue page), ((refl, f.value), tt)) in
      decode_command-message floats (codes "RENDER_PAGE_FOR_OCR") id fields refl i printable
      ∙ rw
          (
            each_field-print_fields (ocr_step floats) (record { page_index = none; scale = none })
                fields printable,
            parse_unsigned-decimal (2 ^ 32) page p,
            f.parsed,
          )
          refl
