-- ===== src/Protocol/Commands/Messages.antt =====
-- A printed message is read back header first, then field by field (core/protocol/src/commands.rs).
use pdf_platform.Protocol.Commands.Decoding.{
  decode_command, or_legacy, read_kind, read_typed, try_decode_lines, try_decode_typed,
}
use pdf_platform.Common.Decimal.{codes, decimal, parse_unsigned-decimal}
use pdf_platform.Protocol.Commands.Reading.{CommandDecodeError, number}
use pdf_platform.Protocol.Commands.{Command, Floats, header, message}
use pdf_platform.Protocol.Wire.Utf8.{is_utf8, append-is_utf8, decimal-is_utf8, utf8_from}
use pdf_platform.Protocol.Wire.{each_field, lines, lines_from, print_fields, field, strip_prefix}
use pdf_platform.Protocol.Wire.Fields.{
  IsLine, each_field-field, decimal-IsLine, join-IsLine, lines-line, split_once-append,
}
use pdf_platform.Common.{
  ℕ, List, Bool, Result, ◌&&◌, ◌>>=◌, All, [], arith, not, ok, refl, true, ◌∙◌, ◌∷◌, ◌≡◌, ◌++◌, ◌<◌,
  ◌^◌, err, false, some, subst,
}
use pdf_platform.Common.Keys.{contains, nat_eq}
use mathlib.Core.List.{append_assoc}

-- A name of a field or of a kind of command.
abbrev pub is_name : List ℕ → Bool
is_name k = not (contains b'\n' k) && not (contains b'=' k) && not (contains b':' k) && is_utf8 k

-- A value that stands in one line.
pub record IsValue (v : List ℕ) : Type 0 where
  pub is_line : IsLine v
  pub utf8 : is_utf8 v ≡ true

abbrev pub IsField : List ℕ × List ℕ → Type 0
IsField (key, value) = (is_name key ≡ true) × IsValue value

-- The loop over fields instead of lines.
unfoldable pub each_pair :
    {E S : Type 0} → (S → List ℕ → List ℕ → Result E S) → S → List (List ℕ × List ℕ) → Result E S
each_pair step s [] = ok s
each_pair step s ((key, value) ∷ rest) = step s key value >>= λ next. each_pair step next rest

bind-ext :
    {E A B : Type 0} (r : Result E A) (f g : A → Result E B)
    → ((a : A) → f a ≡ g a)
    → (r >>= f) ≡ (r >>= g)
bind-ext (ok a) f g h = h a
bind-ext (err e) f g h = refl

pub each_field-print_fields :
    {E S : Type 0} (step : S → List ℕ → List ℕ → Result E S) (s : S)
    (fields : List (List ℕ × List ℕ))
    → All IsField fields
    → each_field step s (lines (print_fields fields)) ≡ each_pair step s fields
unfolding print_fields each_pair
each_field-print_fields step s [] h = unfold each_field lines lines_from in refl
each_field-print_fields step s ((key, value) ∷ fields) h =
    each_field-field step s key value (print_fields fields) (ground (arith, h.0.0))
      (ground (arith, h.0.0)) h.0.1.is_line
    ∙ bind-ext (step s key value) (λ next. each_field step next (lines (print_fields fields)))
        (λ next. each_pair step next fields) (λ next. each_field-print_fields step next fields h.1)

field-is_utf8 :
    (key value : List ℕ)
    → is_utf8 key ≡ true
    → is_utf8 value ≡ true
    → is_utf8 (field key value) ≡ true
field-is_utf8 key value k v =
    append-is_utf8 (key ++ b'=' ∷ value) (b'\n' ∷ [])
      (append-is_utf8 key (b'=' ∷ value) k (unfold utf8_from in v)) (unfold utf8_from in refl)

pub print_fields-is_utf8 :
    (fields : List (List ℕ × List ℕ)) → All IsField fields → is_utf8 (print_fields fields) ≡ true
unfolding print_fields
print_fields-is_utf8 [] h = unfold utf8_from in refl
print_fields-is_utf8 ((key, value) ∷ fields) h =
    append-is_utf8 (field key value) (print_fields fields)
      (field-is_utf8 key value (ground (arith, h.0.0)) h.0.1.utf8) (print_fields-is_utf8 fields h.1)

-- The first line of a message is one line of well-formed text, and splits into kind and number.
kind-no_newline :
    (kind : List ℕ) → is_name kind ≡ true → contains b'\n' (codes "CMD:" ++ kind) ≡ false
unfolding contains
kind-no_newline kind h = ground arith

header-IsLine : (kind : List ℕ) (id : ℕ) → is_name kind ≡ true → IsLine (header kind id)
header-IsLine kind id h = subst IsLine (append_assoc (codes "CMD:") kind (b':' ∷ decimal id)) (
    join-IsLine (codes "CMD:" ++ kind) b':' (decimal id) (kind-no_newline kind h) refl refl
      (decimal-IsLine id))

header-is_utf8 : (kind : List ℕ) (id : ℕ) → is_name kind ≡ true → is_utf8 (header kind id) ≡ true
header-is_utf8 kind id h =
    append-is_utf8 (codes "CMD:") (kind ++ b':' ∷ decimal id) (unfold utf8_from in refl) (
      append-is_utf8 kind (b':' ∷ decimal id) (ground (arith, h))
        (unfold utf8_from in decimal-is_utf8 id))

message-is_utf8 :
    (kind : List ℕ) (id : ℕ) (fields : List (List ℕ × List ℕ))
    → is_name kind ≡ true
    → All IsField fields
    → is_utf8 (message kind id fields) ≡ true
message-is_utf8 kind id fields h f =
    append-is_utf8 (header kind id) (b'\n' ∷ print_fields fields) (header-is_utf8 kind id h)
      (unfold utf8_from in print_fields-is_utf8 fields f)

module _ (floats : Floats) where
  read_typed-header :
      (kind : List ℕ) (id : ℕ) (rest : List (List ℕ))
      → is_name kind ≡ true
      → id < 2 ^ 64
      → read_typed floats (kind ++ b':' ∷ decimal id) rest ≡ read_kind floats kind id rest
  unfolding read_typed number
  read_typed-header kind id rest h b =
      rw
        (
          read_typed,
          split_once-append b':' kind (decimal id) (ground (arith, h)),
          parse_unsigned-decimal (2 ^ 64) id b,
        )
        refl

  or_legacy-some :
      (body : List ℕ) (r : Result CommandDecodeError (Command floats))
      → ((r >>= λ command. ok (some command)) >>= or_legacy floats body) ≡ r
  unfolding or_legacy
  or_legacy-some body (ok command) = refl
  or_legacy-some body (err e) = refl

  -- A message is read by the branch of its kind.
  pub decode_command-message :
      (kind : List ℕ) (id : ℕ) (fields : List (List ℕ × List ℕ))
      → is_name kind ≡ true
      → id < 2 ^ 64
      → All IsField fields
      → decode_command floats (message kind id fields)
        ≡ read_kind floats kind id (lines (print_fields fields))
  unfolding decode_command try_decode_typed try_decode_lines strip_prefix
  decode_command-message kind id fields h b f =
      rw
        (
          message-is_utf8 kind id fields h f,
          lines-line (header kind id) (print_fields fields) (header-IsLine kind id h),
          read_typed-header kind id (lines (print_fields fields)) h b,
        )
        (or_legacy-some (message kind id fields)
          (read_kind floats kind id (lines (print_fields fields))))
