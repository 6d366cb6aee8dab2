-- ===== src/Protocol/Commands/Reading.antt =====
-- The fields of a command as `try_decode_typed` of core/protocol/src/commands.rs collects them: for
-- each kind the variables it keeps, what a `key=value` line does to them, and the command made of them
-- at the end.
use pdf_platform.Protocol.Wire.{is_true, parse_numbers, split_once, unescape}
use pdf_platform.Common.Decimal.{codes, parse_unsigned}
use pdf_platform.Common.Keys.{bytes_beq}
use pdf_platform.Protocol.Commands.{Floats}
use pdf_platform.Common.{
  ℕ, List, Option, Bool, Result, ◌++◌, ◌>>=◌, [], ◌^◌, if◌then◌else◌, err, none, ok, ok_or, some,
  ◌∷◌,
}

pub data CommandDecodeError : Type 0 where
  invalid_utf8 : CommandDecodeError
  unknown_command : CommandDecodeError
  bad_field : List ℕ → CommandDecodeError

-- `v.parse().map_err(|_| CommandDecodeError::BadField(name))?` of a number below `bound`
unfoldable pub number : ℕ → List ℕ → List ℕ → Result CommandDecodeError ℕ
number bound name v = ok_or (parse_unsigned bound v) (CommandDecodeError.bad_field name)

-- The comma-separated numbers of a field.
unfoldable pub numbers : List ℕ → List ℕ → Result CommandDecodeError (List ℕ)
numbers name v = ok_or (parse_numbers v) (CommandDecodeError.bad_field name)

-- A field that must have been there.
unfoldable pub required : {A : Type 0} → Option A → List ℕ → Result CommandDecodeError A
required value name = ok_or value (CommandDecodeError.bad_field name)

-- EXTRACT_PAGE and GET_OBJECT keep one number.
unfoldable pub number_step :
    List ℕ → Option ℕ → List ℕ → List ℕ → Result CommandDecodeError (Option ℕ)
number_step key s k v =
    if bytes_beq k key then (number (2 ^ 32) key v >>= λ n. ok (some n)) else ok s

-- DELETE_PAGES
unfoldable pub pages_step :
    Option (List ℕ) → List ℕ → List ℕ → Result CommandDecodeError (Option (List ℕ))
pages_step s k v =
    if bytes_beq k (codes "page_indices")
    then (numbers (codes "page_indices") v >>= λ ns. ok (some ns))
    else ok s

pub record RotateFields : Type 0 where
  pub page_indices : Option (List ℕ)
  pub degrees : Option ℕ

unfoldable pub rotate_step : RotateFields → List ℕ → List ℕ → Result CommandDecodeError RotateFields
rotate_step s k v =
    if bytes_beq k (codes "page_indices")
    then (numbers (codes "page_indices") v >>= λ ns. ok (record s { page_indices = some ns }))
    else if bytes_beq k (codes "degrees")
    then (number (2 ^ 32) (codes "degrees") v >>= λ n. ok (record s { degrees = some n }))
    else ok s

pub record AnnotationFields : Type 0 where
  pub page_index : Option ℕ
  pub annotation_type : Option (List ℕ)
  pub rect : Option (List ℕ)
  pub contents : Option (List ℕ)
  pub color : Option (List ℕ)

unfoldable pub annotation_step :
    AnnotationFields → List ℕ → List ℕ → Result CommandDecodeError AnnotationFields
annotation_step s k v =
    if bytes_beq k (codes "page_index")
    then (number (2 ^ 32) (codes "page_index") v >>= λ n. ok (record s { page_index = some n }))
    else if bytes_beq k (codes "annotation_type")
    then ok (record s { annotation_type = some v })
    else if bytes_beq k (codes "rect")
    then ok (record s { rect = some v })
    else if bytes_beq k (codes "contents")
    then ok (record s { contents = some v })
    else if bytes_beq k (codes "color")
    then ok (record s { color = some v })
    else ok s

pub record DeleteFields : Type 0 where
  pub page_index : Option ℕ
  pub annotation_id : Option ℕ

unfoldable pub delete_step : DeleteFields → List ℕ → List ℕ → Result CommandDecodeError DeleteFields
delete_step s k v =
    if bytes_beq k (codes "page_index")
    then (number (2 ^ 32) (codes "page_index") v >>= λ n. ok (record s { page_index = some n }))
    else if bytes_beq k (codes "annotation_id")
    then (number (2 ^ 64) (codes "annotation_id") v >>= λ n.
        ok (record s { annotation_id = some n }))
    else ok s

pub record RedactFields : Type 0 where
  pub search_term : Option (List ℕ)
  pub case_sensitive : Bool
  pub whole_word : Bool
  pub page_filter : Option (List ℕ)

unfoldable pub redact_step : RedactFields → List ℕ → List ℕ → Result CommandDecodeError RedactFields
redact_step s k v =
    if bytes_beq k (codes "search_term")
    then ok (record s { search_term = some (unescape v) })
    else if bytes_beq k (codes "case_sensitive")
    then ok (record s { case_sensitive = is_true v })
    else if bytes_beq k (codes "whole_word")
    then ok (record s { whole_word = is_true v })
    else if bytes_beq k (codes "page_filter")
    then (numbers (codes "page_filter") v >>= λ ns. ok (record s { page_filter = some ns }))
    else ok s

pub record PluginFields : Type 0 where
  pub plugin_id : Option (List ℕ)
  pub manifest : Option (List ℕ)

unfoldable pub plugin_step : PluginFields → List ℕ → List ℕ → Result CommandDecodeError PluginFields
plugin_step s k v =
    if bytes_beq k (codes "plugin_id")
    then ok (record s { plugin_id = some v })
    else if bytes_beq k (codes "manifest")
    then ok (record s { manifest = some (unescape v) })
    else ok s

-- UNLOAD_PLUGIN
unfoldable pub unload_step :
    Option (List ℕ) → List ℕ → List ℕ → Result CommandDecodeError (Option (List ℕ))
unload_step s k v = if bytes_beq k (codes "plugin_id") then ok (some v) else ok s

pub record ActionFields : Type 0 where
  pub plugin_id : Option (List ℕ)
  pub action_id : Option (List ℕ)
  pub args : Option (List ℕ)

unfoldable pub action_step : ActionFields → List ℕ → List ℕ → Result CommandDecodeError ActionFields
action_step s k v =
    if bytes_beq k (codes "plugin_id")
    then ok (record s { plugin_id = some v })
    else if bytes_beq k (codes "action_id")
    then ok (record s { action_id = some v })
    else if bytes_beq k (codes "args")
    then ok (record s { args = some (unescape v) })
    else ok s

pub record TileFields (F32 : Type 0) : Type 0 where
  pub page : Option ℕ
  pub x : Option ℕ
  pub y : Option ℕ
  pub w : Option ℕ
  pub h : Option ℕ
  pub scale : Option F32
  pub generation : Option ℕ
  pub slot_offset : Option ℕ
  pub col : Option ℕ
  pub row : Option ℕ

abbrev pub no_tile_fields : {F32 : Type 0} → TileFields F32
no_tile_fields = record {
  page = none;
  x = none;
  y = none;
  w = none;
  h = none;
  scale = none;
  generation = none;
  slot_offset = none;
  col = none;
  row = none;
}

pub record CalcFields (F64 : Type 0) : Type 0 where
  pub expression : Option (List ℕ)
  pub enabled : Bool
  pub fields : List (List ℕ × F64)

pub record OcrFields (F32 : Type 0) : Type 0 where
  pub page_index : Option ℕ
  pub scale : Option F32

module _ (floats : Floats) where
  -- `v.parse()` of a scale.
  unfoldable pub scale_of : List ℕ → Result CommandDecodeError floats.F32
  scale_of v = ok_or (floats.parse_f32 v) (CommandDecodeError.bad_field (codes "scale"))

  unfoldable pub tile_step :
      TileFields floats.F32 → List ℕ → List ℕ → Result CommandDecodeError (TileFields floats.F32)
  tile_step s k v =
      if bytes_beq k (codes "page")
      then (number (2 ^ 32) (codes "page") v >>= λ n. ok (record s { page = some n }))
      else if bytes_beq k (codes "x")
      then (number (2 ^ 32) (codes "x") v >>= λ n. ok (record s { x = some n }))
      else if bytes_beq k (codes "y")
      then (number (2 ^ 32) (codes "y") v >>= λ n. ok (record s { y = some n }))
      else if bytes_beq k (codes "w")
      then (number (2 ^ 32) (codes "w") v >>= λ n. ok (record s { w = some n }))
      else if bytes_beq k (codes "h")
      then (number (2 ^ 32) (codes "h") v >>= λ n. ok (record s { h = some n }))
      else if bytes_beq k (codes "scale")
      then (scale_of v >>= λ x. ok (record s { scale = some x }))
      else if bytes_beq k (codes "generation")
      then (number (2 ^ 64) (codes "generation") v >>= λ n. ok (record s { generation = some n }))
      else if bytes_beq k (codes "slot_offset")
      then (number (2 ^ 32) (codes "slot_offset") v >>= λ n. ok (record s { slot_offset = some n }))
      else if bytes_beq k (codes "col")
      then (number (2 ^ 32) (codes "col") v >>= λ n. ok (record s { col = some n }))
      else if bytes_beq k (codes "row")
      then (number (2 ^ 32) (codes "row") v >>= λ n. ok (record s { row = some n }))
      else ok s

  -- The field `name:value` of a form calculation.
  unfoldable pub calc_field : List ℕ → Result CommandDecodeError (List ℕ × floats.F64)
  calc_field v = elim (split_once b':' v) [
    | none ↦ err (CommandDecodeError.bad_field (codes "field"))
    | some (name, value) ↦
        ok_or (floats.parse_f64 value) (CommandDecodeError.bad_field (codes "field")) >>= λ x.
        ok (name, x)
  ]

  unfoldable pub calc_step :
      CalcFields floats.F64 → List ℕ → List ℕ → Result CommandDecodeError (CalcFields floats.F64)
  calc_step s k v =
      if bytes_beq k (codes "expr")
      then ok (record s { expression = some (unescape v) })
      else if bytes_beq k (codes "enabled")
      then ok (record s { enabled = is_true v })
      else if bytes_beq k (codes "field")
      then (calc_field v >>= λ f. ok (record s { fields = s.fields ++ f ∷ [] }))
      else ok s

  unfoldable pub ocr_step :
      OcrFields floats.F32 → List ℕ → List ℕ → Result CommandDecodeError (OcrFields floats.F32)
  ocr_step s k v =
      if bytes_beq k (codes "page_index")
      then (number (2 ^ 32) (codes "page_index") v >>= λ n. ok (record s { page_index = some n }))
      else if bytes_beq k (codes "scale")
      then (scale_of v >>= λ x. ok (record s { scale = some x }))
      else ok s
