-- ===== src/Protocol/Commands/Branches.antt =====
-- The branches of `try_decode_typed` in core/protocol/src/commands.rs, one for each kind of command, and
-- the request that both forms of RENDER_TILE make.
use pdf_platform.Protocol.Wire.{each_field}
use pdf_platform.Common.Decimal.{codes}
use pdf_platform.Common.Keys.{bytes_beq}
use pdf_platform.Protocol.Commands.Reading.{
  CommandDecodeError, TileFields, action_step, annotation_step, calc_step, delete_step,
  no_tile_fields, number_step, ocr_step, pages_step, plugin_step, redact_step, required,
  rotate_step, tile_step, unload_step,
}
use pdf_platform.Protocol.Commands.{Command, Floats}
use pdf_platform.Common.{
  ℕ, List, Option, Result, ◌>>=◌, [], if◌then◌else◌, false, none, ok, some, true, ◌||◌,
}

abbrev pub unwrap_or : {A : Type 0} → Option A → A → A
unwrap_or none default = default
unwrap_or (some a) default = a

-- A render-tile request of the first, untyped form.
pub record RenderTileRequest (F32 : Type 0) : Type 0 where
  pub page : ℕ
  pub x : ℕ
  pub y : ℕ
  pub w : ℕ
  pub h : ℕ
  pub scale : F32
  pub generation : ℕ
  pub slot_offset : ℕ

module _ (floats : Floats) where
  -- The loop of the first form knows the fields of the typed one, all but `col` and `row`.
  unfoldable pub request_step :
      TileFields floats.F32 → List ℕ → List ℕ → Result CommandDecodeError (TileFields floats.F32)
  request_step s k v =
      if bytes_beq k (codes "col") || bytes_beq k (codes "row")
      then ok s
      else tile_step floats s k v

  -- What both forms demand.
  unfoldable pub request_of :
      TileFields floats.F32 → Result CommandDecodeError (RenderTileRequest floats.F32)
  request_of s = required s.page (codes "page") >>= λ page. required s.x (codes "x") >>= λ x.
      required s.y (codes "y") >>= λ y. required s.w (codes "w") >>= λ w.
      required s.h (codes "h") >>= λ h. required s.scale (codes "scale") >>= λ scale.
      required s.generation (codes "generation") >>= λ generation.
      required s.slot_offset (codes "slot_offset") >>= λ slot_offset. ok (record {
        page = page;
        x = x;
        y = y;
        w = w;
        h = h;
        scale = scale;
        generation = generation;
        slot_offset = slot_offset;
      })

  unfoldable pub tile_command : ℕ → RenderTileRequest floats.F32 → ℕ → ℕ → Command floats
  tile_command id req col row =
      Command.render_tile id req.page req.x req.y req.w req.h req.scale req.generation
        req.slot_offset col row

  -- The branches of `try_decode_typed`, on the correlation id and the lines behind the first.
  unfoldable pub read_tile : ℕ → List (List ℕ) → Result CommandDecodeError (Command floats)
  read_tile id rest = each_field (tile_step floats) no_tile_fields rest >>= λ s.
      request_of s >>= λ req. ok (tile_command id req (unwrap_or s.col 0) (unwrap_or s.row 0))

  unfoldable pub read_extract : ℕ → List (List ℕ) → Result CommandDecodeError (Command floats)
  read_extract id rest = each_field (number_step (codes "page_index")) none rest >>= λ s.
      required s (codes "page_index") >>= λ page. ok (Command.extract_page id page)

  unfoldable pub read_object : ℕ → List (List ℕ) → Result CommandDecodeError (Command floats)
  read_object id rest = each_field (number_step (codes "obj_num")) none rest >>= λ s.
      required s (codes "obj_num") >>= λ object. ok (Command.get_object id object)

  unfoldable pub read_delete_pages : ℕ → List (List ℕ) → Result CommandDecodeError (Command floats)
  read_delete_pages id rest = each_field pages_step none rest >>= λ s.
      required s (codes "page_indices") >>= λ pages. ok (Command.delete_pages id pages)

  unfoldable pub read_rotate : ℕ → List (List ℕ) → Result CommandDecodeError (Command floats)
  read_rotate id rest =
      each_field rotate_step (record { page_indices = none; degrees = none }) rest >>= λ s.
      required s.page_indices (codes "page_indices") >>= λ pages.
      required s.degrees (codes "degrees") >>= λ degrees. ok (Command.rotate_pages id pages degrees)

  unfoldable pub read_annotation : ℕ → List (List ℕ) → Result CommandDecodeError (Command floats)
  read_annotation id rest =
      each_field annotation_step
        (record {
          page_index = none;
          annotation_type = none;
          rect = none;
          contents = none;
          color = none;
        })
        rest
      >>= λ s. required s.page_index (codes "page_index") >>= λ page.
          required s.annotation_type (codes "annotation_type") >>= λ kind.
          required s.rect (codes "rect") >>= λ rect.
          ok (Command.add_annotation id page kind rect s.contents s.color)

  unfoldable pub read_delete : ℕ → List (List ℕ) → Result CommandDecodeError (Command floats)
  read_delete id rest =
      each_field delete_step (record { page_index = none; annotation_id = none }) rest >>= λ s.
      required s.page_index (codes "page_index") >>= λ page.
      required s.annotation_id (codes "annotation_id") >>= λ annotation.
      ok (Command.delete_annotation id page annotation)

  unfoldable pub read_calc : ℕ → List (List ℕ) → Result CommandDecodeError (Command floats)
  read_calc id rest =
      each_field (calc_step floats) (record { expression = none; enabled = true; fields = [] }) rest
      >>= λ s. required s.expression (codes "expr") >>= λ expression.
          ok (Command.forms_calc id expression s.fields s.enabled)

  unfoldable pub read_plugin : ℕ → List (List ℕ) → Result CommandDecodeError (Command floats)
  read_plugin id rest =
      each_field plugin_step (record { plugin_id = none; manifest = none }) rest >>= λ s.
      required s.plugin_id (codes "plugin_id") >>= λ plugin.
      ok (Command.load_plugin id plugin (unwrap_or s.manifest []))

  unfoldable pub read_unload : ℕ → List (List ℕ) → Result CommandDecodeError (Command floats)
  read_unload id rest = each_field unload_step none rest >>= λ s.
      required s (codes "plugin_id") >>= λ plugin. ok (Command.unload_plugin id plugin)

  unfoldable pub read_action : ℕ → List (List ℕ) → Result CommandDecodeError (Command floats)
  read_action id rest =
      each_field action_step (record { plugin_id = none; action_id = none; args = none }) rest
      >>= λ s. required s.plugin_id (codes "plugin_id") >>= λ plugin.
          required s.action_id (codes "action_id") >>= λ action.
          ok (Command.invoke_plugin_action id plugin action (unwrap_or s.args []))

  unfoldable pub read_ocr : ℕ → List (List ℕ) → Result CommandDecodeError (Command floats)
  read_ocr id rest =
      each_field (ocr_step floats) (record { page_index = none; scale = none }) rest >>= λ s.
      required s.page_index (codes "page_index") >>= λ page.
      required s.scale (codes "scale") >>= λ scale. ok (Command.render_page_for_ocr id page scale)

  unfoldable pub read_redact : ℕ → List (List ℕ) → Result CommandDecodeError (Command floats)
  read_redact id rest =
      each_field redact_step
        (record {
          search_term = none;
          case_sensitive = false;
          whole_word = false;
          page_filter = none;
        })
        rest
      >>= λ s. required s.search_term (codes "search_term") >>= λ term.
          ok (Command.redact_by_term id term s.case_sensitive s.whole_word s.page_filter)
