-- ===== src/Protocol/Wire/Fields.antt =====
-- Lines, fields and values, written and read again (core/protocol/src/commands.rs).
use pdf_platform.Protocol.Wire.{each_field, field, lines, lines_from, split_once, strip_return}
use pdf_platform.Common.Decimal.{IsDigit, decimal, decimal-IsDigit}
use pdf_platform.Common.{
  ℕ, ◌++◌, ◌<◌, ◌>>=◌, All, List, Result, [], ap, arith, false, refl, some, true, ◌∙◌, ◌∷◌, ◌≡◌,
  ◌==◌,
}
use pdf_platform.Common.Keys.{contains, nat_eq, ==_refl, contains-append}
use mathlib.Core.List.{append_assoc, append-nil}

-- What stands in one line: no newline, and no carriage return at the end.
pub record IsLine (line : List ℕ) : Type 0 where
  pub one_line : contains b'\n' line ≡ false
  pub no_return : strip_return line ≡ line

lines_from-line :
    (start line rest : List ℕ)
    → contains b'\n' line ≡ false
    → lines_from start (line ++ b'\n' ∷ rest) ≡ strip_return (start ++ line) ∷ lines_from [] rest
unfolding lines_from contains
lines_from-line start [] rest h = rw (append-nil start) refl
lines_from-line start (c ∷ line) rest h =
    let other : (c == b'\n') ≡ false = ground arith in
    rw (lines_from, other)
      (lines_from-line (start ++ c ∷ []) line rest (ground arith)
        ∙ ap (λ l. strip_return l ∷ lines_from [] rest) (append_assoc start (c ∷ []) line))

pub lines-line :
    (line rest : List ℕ) → IsLine line → lines (line ++ b'\n' ∷ rest) ≡ line ∷ lines rest
unfolding lines
lines-line line rest h =
    lines_from-line [] line rest h.one_line ∙ ap (λ l. l ∷ lines_from [] rest) h.no_return

strip_return-cons :
    (c : ℕ) (cs : List ℕ)
    → (c == b'\r') ≡ false
    → strip_return cs ≡ cs
    → strip_return (c ∷ cs) ≡ c ∷ cs
unfolding strip_return
strip_return-cons c [] h k = rw h refl
strip_return-cons c (d ∷ cs) h k = ap (◌∷◌ c) k

strip_return-append :
    (xs : List ℕ) (c : ℕ) (ys : List ℕ) → strip_return (xs ++ c ∷ ys) ≡ xs ++ strip_return (c ∷ ys)
unfolding strip_return
strip_return-append [] c ys = refl
strip_return-append (x ∷ []) c ys = refl
strip_return-append (x ∷ y ∷ xs) c ys = ap (◌∷◌ x) (strip_return-append (y ∷ xs) c ys)

-- Two lines around a mark are one line.
pub join-IsLine :
    (before : List ℕ) (mark : ℕ) (after : List ℕ)
    → contains b'\n' before ≡ false
    → (mark == b'\n') ≡ false
    → (mark == b'\r') ≡ false
    → IsLine after
    → IsLine (before ++ mark ∷ after)
unfolding contains
join-IsLine before mark after h m r a = record {
  one_line = ground (arith, contains-append b'\n' before (mark ∷ after), a.one_line);
  no_return =
      strip_return-append before mark after
      ∙ ap (◌++◌ before) (strip_return-cons mark after r a.no_return);
}

-- A text of digits is one line.
pub contains-digits :
    (xs : List ℕ) → (mark : ℕ) → (mark < b'0') → All IsDigit xs → contains mark xs ≡ false
unfolding contains
contains-digits [] mark h d = refl
contains-digits (x ∷ xs) mark h d = ground (arith, d.0, contains-digits xs mark h d.1)

pub strip_return-digits : (xs : List ℕ) → All IsDigit xs → strip_return xs ≡ xs
strip_return-digits [] d = unfold strip_return in refl
strip_return-digits (x ∷ xs) d =
    strip_return-cons x xs (ground (arith, d.0)) (strip_return-digits xs d.1)

pub contains-decimal : (n mark : ℕ) → mark < b'0' → contains mark (decimal n) ≡ false
contains-decimal n mark h = contains-digits (decimal n) mark h (decimal-IsDigit n)

pub decimal-IsLine : (n : ℕ) → IsLine (decimal n)
decimal-IsLine n = record {
  one_line = contains-digits (decimal n) b'\n' (omega arith) (decimal-IsDigit n);
  no_return = strip_return-digits (decimal n) (decimal-IsDigit n);
}

pub split_once-append :
    (mark : ℕ) (before after : List ℕ)
    → contains mark before ≡ false
    → split_once mark (before ++ mark ∷ after) ≡ some (before, after)
unfolding split_once contains
split_once-append mark [] after h =
    let same : (mark == mark) ≡ true = ==_refl mark in rw (split_once, same) refl
split_once-append mark (c ∷ before) after h =
    let other : (c == mark) ≡ false = ground arith in
    rw (split_once, other, split_once-append mark before after (ground arith)) refl

-- A field at the front of the text is one step of the loop.
pub each_field-field :
    {E S : Type 0} (step : S → List ℕ → List ℕ → Result E S) (s : S) (key value rest : List ℕ)
    → contains b'\n' key ≡ false
    → contains b'=' key ≡ false
    → IsLine value
    → each_field step s (lines (field key value ++ rest))
      ≡ (step s key value >>= λ next. each_field step next (lines rest))
unfolding each_field
each_field-field step s key value rest h k v =
    let line = key ++ b'=' ∷ value in
    let shape : field key value ++ rest ≡ line ++ b'\n' ∷ rest = simp append_assoc in
    ap (λ t. each_field step s (lines t)) shape
    ∙ rw
        (
          lines-line line rest (join-IsLine key b'=' value h refl refl v),
          each_field,
          split_once-append b'=' key value k,
        )
        refl
