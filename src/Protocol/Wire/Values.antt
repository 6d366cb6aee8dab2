-- ===== src/Protocol/Wire/Values.antt =====
-- Escaped texts, flags and lists of numbers, written and read again (core/protocol/src/commands.rs).
use pdf_platform.Protocol.Wire.{
  escape, flag_text, is_true, join_numbers, lower, parse_numbers, parse_pieces, split_from,
  strip_return, to_lower, unescape,
}
use pdf_platform.Common.Decimal.{decimal, decimal_first, parse_unsigned, parse_unsigned-decimal}
use pdf_platform.Protocol.Wire.Fields.{IsLine, contains-decimal, decimal-IsLine, join-IsLine}
use pdf_platform.Common.{
  ℕ, ◌&&◌, ◌++◌, ◌<◌, ==_iff, All, Bool, Bool-cases, List, [], ◌^◌, ap, arith, false, inl, inr,
  refl, some, sym, true, ◌||◌, ◌∙◌, ◌∷◌, ◌≡◌, ◌==◌,
}
use pdf_platform.Common.Keys.{contains, nat_eq, ==_refl, bytes_beq}
use mathlib.Core.List.{append_assoc, append-nil}

-- No backslash stands before an `n`.
unfoldable pub has_escape : List ℕ → Bool
has_escape [] = false
has_escape (c ∷ []) = false
has_escape (c ∷ d ∷ cs) = (c == b'\\' && d == b'n') || has_escape (d ∷ cs)

-- A text that `replace('\n', "\\n")` keeps readable in one line.
pub record IsEscapable (text : List ℕ) : Type 0 where
  pub no_escape : has_escape text ≡ false
  pub no_return : strip_return text ≡ text

unescape_step :
    (c d : ℕ) (cs : List ℕ)
    → (c == b'\\' && d == b'n') ≡ false
    → unescape (c ∷ d ∷ cs) ≡ c ∷ unescape (d ∷ cs)
unfolding unescape
unescape_step c d cs h = rw (unescape, h) refl

escape_newline :
    (d : ℕ) (cs : List ℕ) → (d == b'\n') ≡ true → escape (d ∷ cs) ≡ b'\\' ∷ b'n' ∷ escape cs
unfolding escape
escape_newline d cs h = rw (escape, h) refl

escape_plain : (d : ℕ) (cs : List ℕ) → (d == b'\n') ≡ false → escape (d ∷ cs) ≡ d ∷ escape cs
unfolding escape
escape_plain d cs h = rw (escape, h) refl

unescape-cons :
    (c : ℕ) (cs : List ℕ)
    → has_escape (c ∷ cs) ≡ false
    → unescape (c ∷ escape cs) ≡ c ∷ unescape (escape cs)
unfolding has_escape
unescape-cons c [] h = unfold unescape escape in refl
unescape-cons c (d ∷ cs) h = elim (Bool-cases (d == b'\n')) [
  | inl newline ↦
      ap (λ t. unescape (c ∷ t)) (escape_newline d cs newline)
      ∙ unescape_step c b'\\' (b'n' ∷ escape cs) (ground arith)
      ∙ ap (λ t. c ∷ unescape t) (sym (escape_newline d cs newline))
  | inr plain ↦
      ap (λ t. unescape (c ∷ t)) (escape_plain d cs plain)
      ∙ unescape_step c d (escape cs) (ground arith)
      ∙ ap (λ t. c ∷ unescape t) (sym (escape_plain d cs plain))
]

unescape_newline : (cs : List ℕ) → unescape (b'\\' ∷ b'n' ∷ cs) ≡ b'\n' ∷ unescape cs
unfolding unescape
unescape_newline cs = refl

rest_escape : (c : ℕ) (cs : List ℕ) → has_escape (c ∷ cs) ≡ false → has_escape cs ≡ false
unfolding has_escape
rest_escape c [] h = refl
rest_escape c (d ∷ cs) h = ground arith

pub unescape-escape : (text : List ℕ) → has_escape text ≡ false → unescape (escape text) ≡ text
unfolding escape has_escape
unescape-escape [] h = unfold unescape in refl
unescape-escape (c ∷ cs) h = elim (Bool-cases (c == b'\n')) [
  | inl newline ↦
      let same : c ≡ b'\n' = (==_iff c b'\n').0 newline in
      let rest = unescape-escape cs (rest_escape c cs h) in
      rw (escape, newline)
        (unescape_newline (escape cs) ∙ ap (◌∷◌ b'\n') rest ∙ ap (λ d. d ∷ cs) (sym same))
  | inr plain ↦
      rw (escape, plain)
        (unescape-cons c cs h ∙ ap (◌∷◌ c) (unescape-escape cs (rest_escape c cs h)))
]

contains-escape : (text : List ℕ) → contains b'\n' (escape text) ≡ false
unfolding escape contains
contains-escape [] = refl
contains-escape (c ∷ cs) = ground (arith, contains-escape cs)

escape_first : (c : ℕ) (cs : List ℕ) → (d : ℕ) × (ds : List ℕ) × (escape (c ∷ cs) ≡ d ∷ ds)
escape_first c cs = elim (Bool-cases (c == b'\n')) [
  | inl newline ↦ (b'\\', b'n' ∷ escape cs, escape_newline c cs newline)
  | inr plain ↦ (c, escape cs, escape_plain c cs plain)
]

strip_return_tail :
    (c : ℕ) (text : List ℕ) (d : ℕ) (ds : List ℕ)
    → text ≡ d ∷ ds
    → strip_return text ≡ text
    → strip_return (c ∷ text) ≡ c ∷ text
unfolding strip_return
strip_return_tail c [] d ds e h = cc
strip_return_tail c (x ∷ xs) d ds e h = ap (◌∷◌ c) h

strip_return-escape :
    (text : List ℕ) → strip_return text ≡ text → strip_return (escape text) ≡ escape text
strip_return-escape [] h = unfold escape strip_return in refl
strip_return-escape (c ∷ []) h = elim (Bool-cases (c == b'\n')) [
  | inl newline ↦ rw (escape_newline c [] newline) (unfold escape strip_return in refl)
  | inr plain ↦ rw (escape_plain c [] plain) (unfold escape in h)
]
strip_return-escape (c ∷ d ∷ cs) h =
    let inner : strip_return (d ∷ cs) ≡ d ∷ cs = unfold strip_return in ground arith in
    let later = strip_return-escape (d ∷ cs) inner in
    let (e, es, shape) = escape_first d cs in
    elim (Bool-cases (c == b'\n')) [
      | inl newline ↦ rw (escape_newline c (d ∷ cs) newline) (
          strip_return_tail b'\\' (b'n' ∷ escape (d ∷ cs)) b'n' (escape (d ∷ cs)) refl
            (strip_return_tail b'n' (escape (d ∷ cs)) e es shape later))
      | inr plain ↦
          rw (escape_plain c (d ∷ cs) plain)
            (strip_return_tail c (escape (d ∷ cs)) e es shape later)
    ]

pub escape-IsLine : (text : List ℕ) → IsEscapable text → IsLine (escape text)
escape-IsLine text h = record {
  one_line = contains-escape text;
  no_return = strip_return-escape text h.no_return;
}

pub flag_text-IsLine : (flag : Bool) → IsLine (flag_text flag)
unfolding contains strip_return
flag_text-IsLine false = record { one_line = refl; no_return = refl }
flag_text-IsLine true = record { one_line = refl; no_return = refl }

pub is_true-flag_text : (flag : Bool) → is_true (flag_text flag) ≡ flag
unfolding is_true bytes_beq lower to_lower
is_true-flag_text false = refl
is_true-flag_text true = refl

split_from-piece :
    (mark : ℕ) (start piece rest : List ℕ)
    → contains mark piece ≡ false
    → split_from mark start (piece ++ mark ∷ rest) ≡ (start ++ piece) ∷ split_from mark [] rest
unfolding split_from contains
split_from-piece mark start [] rest h =
    let same : (mark == mark) ≡ true = ==_refl mark in rw (split_from, same, append-nil start) refl
split_from-piece mark start (c ∷ piece) rest h =
    let other : (c == mark) ≡ false = ground arith in
    rw (split_from, other)
      (split_from-piece mark (start ++ c ∷ []) piece rest (ground arith)
        ∙ ap (λ l. l ∷ split_from mark [] rest) (append_assoc start (c ∷ []) piece))

split_from-last :
    (mark : ℕ) (start piece : List ℕ)
    → contains mark piece ≡ false
    → split_from mark start piece ≡ (start ++ piece) ∷ []
unfolding split_from contains
split_from-last mark start [] h = ap (λ l. l ∷ []) (sym (append-nil start))
split_from-last mark start (c ∷ piece) h =
    let other : (c == mark) ≡ false = ground arith in
    rw (split_from, other)
      (split_from-last mark (start ++ c ∷ []) piece (ground arith)
        ∙ ap (λ l. l ∷ []) (append_assoc start (c ∷ []) piece))

parse_pieces-decimal :
    (n : ℕ) (pieces : List (List ℕ)) (ns : List ℕ)
    → n < 2 ^ 32
    → parse_pieces pieces ≡ some ns
    → parse_pieces (decimal n ∷ pieces) ≡ some (n ∷ ns)
unfolding parse_pieces
parse_pieces-decimal n pieces ns b h =
    let (c, cs, same, digit) = decimal_first n in
    let back : parse_unsigned (2 ^ 32) (c ∷ cs) ≡ some n =
      ap (parse_unsigned (2 ^ 32)) (sym same) ∙ parse_unsigned-decimal (2 ^ 32) n b in
    rw (same, parse_pieces, back, h) refl

pub parse_numbers-join_numbers :
    (ns : List ℕ) → All (λ n. n < 2 ^ 32) ns → parse_numbers (join_numbers ns) ≡ some ns
unfolding parse_numbers join_numbers
parse_numbers-join_numbers [] h = unfold split_from parse_pieces in refl
parse_numbers-join_numbers (n ∷ []) h =
    ap parse_pieces (split_from-last b',' [] (decimal n) (contains-decimal n b',' (omega arith)))
    ∙ parse_pieces-decimal n [] [] h.0 (unfold parse_pieces in refl)
parse_numbers-join_numbers (n ∷ m ∷ ns) h =
    ap parse_pieces (
      split_from-piece b',' [] (decimal n) (join_numbers (m ∷ ns))
        (contains-decimal n b',' (omega arith)))
    ∙ parse_pieces-decimal n _ (m ∷ ns) h.0 (parse_numbers-join_numbers (m ∷ ns) h.1)

pub join_numbers-IsLine : (ns : List ℕ) → IsLine (join_numbers ns)
unfolding join_numbers
join_numbers-IsLine [] =
    unfold contains strip_return in record { one_line = refl; no_return = refl }
join_numbers-IsLine (n ∷ []) = decimal-IsLine n
join_numbers-IsLine (n ∷ m ∷ ns) =
    join-IsLine (decimal n) b',' (join_numbers (m ∷ ns)) (contains-decimal n b'\n' (omega arith))
      refl refl (join_numbers-IsLine (m ∷ ns))
