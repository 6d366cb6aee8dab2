-- ===== src/Protocol/Wire.antt =====
-- The text forms that core/protocol/src/commands.rs writes and reads: lines of `key=value`, escaped
-- newlines, comma-separated numbers. Rust's `str` methods are written over bytes, which agree with
-- them since every separator is ASCII.
pub mod Fields
pub mod Values
pub mod Utf8
use pdf_platform.Common.Keys.{bytes_beq}
use pdf_platform.Common.Decimal.{codes, decimal, parse_unsigned}
use pdf_platform.Common.{
  ℕ, ◌&&◌, ◌+◌, ◌++◌, ◌>>=◌, Bool, List, Option, Result, [], ◌^◌, if◌then◌else◌, false, is_empty,
  leb, none, ok, some, true, ◌||◌, ◌∷◌, ◌==◌,
}

-- The line without a carriage return at its end.
unfoldable pub strip_return : List ℕ → List ℕ
strip_return [] = []
strip_return (c ∷ []) = if c == b'\r' then [] else c ∷ []
strip_return (c ∷ d ∷ cs) = c ∷ strip_return (d ∷ cs)

-- `str::lines`, with what the current line has so far.
unfoldable pub lines_from : List ℕ → List ℕ → List (List ℕ)
lines_from line [] = if is_empty line then [] else line ∷ []
lines_from line (c ∷ cs) = elim (c == b'\n') [
  | true ↦ strip_return line ∷ lines_from [] cs
  | false ↦ lines_from (line ++ c ∷ []) cs
]

unfoldable pub lines : List ℕ → List (List ℕ)
lines text = lines_from [] text

-- `str::split_once`
unfoldable pub split_once : ℕ → List ℕ → Option (List ℕ × List ℕ)
split_once mark [] = none
split_once mark (c ∷ cs) = elim (c == mark) [
  | true ↦ some ([], cs)
  | false ↦ elim (split_once mark cs) [
    | none ↦ none
    | some (before, after) ↦ some (c ∷ before, after)
  ]
]

-- `str::split`, with what the current piece has so far.
unfoldable pub split_from : ℕ → List ℕ → List ℕ → List (List ℕ)
split_from mark piece [] = piece ∷ []
split_from mark piece (c ∷ cs) = elim (c == mark) [
  | true ↦ piece ∷ split_from mark [] cs
  | false ↦ split_from mark (piece ++ c ∷ []) cs
]

-- `str::strip_prefix`
unfoldable pub strip_prefix : List ℕ → List ℕ → Option (List ℕ)
strip_prefix [] text = some text
strip_prefix (p ∷ ps) [] = none
strip_prefix (p ∷ ps) (c ∷ cs) = if p == c then strip_prefix ps cs else none

-- `text.replace('\n', "\\n")`
unfoldable pub escape : List ℕ → List ℕ
escape [] = []
escape (c ∷ cs) = let rest = escape cs in if c == b'\n' then b'\\' ∷ b'n' ∷ rest else c ∷ rest

-- `text.replace("\\n", "\n")`
unfoldable pub unescape : List ℕ → List ℕ
unescape [] = []
unescape (c ∷ []) = c ∷ []
unescape (c ∷ d ∷ cs) = elim (c == b'\\' && d == b'n') [
  | true ↦ b'\n' ∷ unescape cs
  | false ↦ c ∷ unescape (d ∷ cs)
]

unfoldable pub to_lower : ℕ → ℕ
to_lower c = if leb b'A' c && leb c b'Z' then c + 32 else c

unfoldable pub lower : List ℕ → List ℕ
lower [] = []
lower (c ∷ cs) = to_lower c ∷ lower cs

-- `v == "1" || v.eq_ignore_ascii_case("true")`
unfoldable pub is_true : List ℕ → Bool
is_true v = bytes_beq v (codes "1") || bytes_beq (lower v) (codes "true")

-- `u8::from(flag)`, printed.
abbrev pub flag_text : Bool → List ℕ
flag_text false = codes "0"
flag_text true = codes "1"

-- `pages.iter().map(|p| p.to_string()).collect::<Vec<_>>().join(",")`
unfoldable pub join_numbers : List ℕ → List ℕ
join_numbers [] = []
join_numbers (n ∷ []) = decimal n
join_numbers (n ∷ m ∷ ns) = decimal n ++ b',' ∷ join_numbers (m ∷ ns)

unfoldable pub parse_pieces : List (List ℕ) → Option (List ℕ)
parse_pieces [] = some []
parse_pieces ([] ∷ pieces) = parse_pieces pieces
parse_pieces ((c ∷ cs) ∷ pieces) = elim (parse_unsigned (2 ^ 32) (c ∷ cs)) [
  | none ↦ none
  | some n ↦ elim (parse_pieces pieces) [ none ↦ none | some ns ↦ some (n ∷ ns) ]
]

-- `v.split(',').filter(|s| !s.is_empty()).map(|s| s.parse()).collect()`
unfoldable pub parse_numbers : List ℕ → Option (List ℕ)
parse_numbers v = parse_pieces (split_from b',' [] v)

-- A line `key=value`.
abbrev pub field : List ℕ → List ℕ → List ℕ
field key value = key ++ b'=' ∷ value ++ b'\n' ∷ []

unfoldable pub print_fields : List (List ℕ × List ℕ) → List ℕ
print_fields [] = []
print_fields ((key, value) ∷ rest) = field key value ++ print_fields rest

-- The loop over the lines behind the first: `step` takes a key and its value, and a line without `=` is
-- passed over.
unfoldable pub each_field :
    {E S : Type 0} → (S → List ℕ → List ℕ → Result E S) → S → List (List ℕ) → Result E S
each_field step s [] = ok s
each_field step s (line ∷ rest) = elim (split_once b'=' line) [
  | none ↦ each_field step s rest
  | some (key, value) ↦ step s key value >>= λ next. each_field step next rest
]
