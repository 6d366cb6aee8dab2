-- ===== src/Protocol/Wire/Utf8.antt =====
-- Well-formed UTF-8 as Rust's `str::from_utf8` demands it (Unicode, table 3-7), for the frame bodies
-- that core/protocol/src/commands.rs reads.
use pdf_platform.Protocol.Wire.{escape, join_numbers}
use pdf_platform.Common.Decimal.{IsDigit, decimal, decimal-IsDigit}
use pdf_platform.Common.{
  ℕ, ◌&&◌, ◌++◌, All, Bool, List, [], arith, false, leb, ltb, refl, true, ◌∷◌, ◌≡◌, ◌==◌, ◌<◌,
  if◌then◌else◌, ◌∙◌,
}

-- The ranges of the bytes that must follow a leading byte, or none when it cannot lead.
abbrev pub tail : ℕ × ℕ
tail = (128, 191)

unfoldable pub followers : ℕ → List (ℕ × ℕ)
followers c =
    if ltb c 194
    then (255, 0) ∷ []
    else if ltb c 224
    then tail ∷ []
    else if c == 224
    then (160, 191) ∷ tail ∷ []
    else if c == 237
    then (128, 159) ∷ tail ∷ []
    else if ltb c 240
    then tail ∷ tail ∷ []
    else if c == 240
    then (144, 191) ∷ tail ∷ tail ∷ []
    else if ltb c 244
    then tail ∷ tail ∷ tail ∷ []
    else if c == 244
    then (128, 143) ∷ tail ∷ tail ∷ []
    else (255, 0) ∷ []

-- The bytes `expected` are still to come for the current character.
unfoldable pub utf8_from : List (ℕ × ℕ) → List ℕ → Bool
utf8_from [] [] = true
utf8_from (range ∷ expected) [] = false
utf8_from [] (c ∷ cs) = elim (ltb c 128) [
  | true ↦ utf8_from [] cs
  | false ↦ utf8_from (followers c) cs
]
utf8_from ((low, high) ∷ expected) (c ∷ cs) = leb low c && leb c high && utf8_from expected cs

abbrev pub is_utf8 : List ℕ → Bool
is_utf8 text = utf8_from [] text

pub utf8_from-append :
    (expected : List (ℕ × ℕ)) (xs ys : List ℕ)
    → utf8_from expected xs ≡ true
    → utf8_from expected (xs ++ ys) ≡ is_utf8 ys
unfolding utf8_from
utf8_from-append [] [] ys h = refl
utf8_from-append (range ∷ expected) [] ys h = ground arith
utf8_from-append [] (c ∷ xs) ys h =
    ground (arith, utf8_from-append [] xs ys, utf8_from-append (followers c) xs ys)
utf8_from-append ((low, high) ∷ expected) (c ∷ xs) ys h =
    ground (arith, utf8_from-append expected xs ys)

pub append-is_utf8 :
    (xs ys : List ℕ) → is_utf8 xs ≡ true → is_utf8 ys ≡ true → is_utf8 (xs ++ ys) ≡ true
append-is_utf8 xs ys hx hy = utf8_from-append [] xs ys hx ∙ hy

digits-is_utf8 : (xs : List ℕ) → All IsDigit xs → is_utf8 xs ≡ true
unfolding utf8_from
digits-is_utf8 [] h = refl
digits-is_utf8 (x ∷ xs) h = ground (arith, h.0, digits-is_utf8 xs h.1)

pub decimal-is_utf8 : (n : ℕ) → is_utf8 (decimal n) ≡ true
decimal-is_utf8 n = digits-is_utf8 (decimal n) (decimal-IsDigit n)

pub join_numbers-is_utf8 : (ns : List ℕ) → is_utf8 (join_numbers ns) ≡ true
unfolding join_numbers
join_numbers-is_utf8 [] = unfold utf8_from in refl
join_numbers-is_utf8 (n ∷ []) = decimal-is_utf8 n
join_numbers-is_utf8 (n ∷ m ∷ ns) =
    append-is_utf8 (decimal n) (b',' ∷ join_numbers (m ∷ ns)) (decimal-is_utf8 n) (
      append-is_utf8 (b',' ∷ []) (join_numbers (m ∷ ns)) (unfold utf8_from in refl)
        (join_numbers-is_utf8 (m ∷ ns)))

abbrev HighRange : ℕ × ℕ → Type 0
HighRange range = b'\n' < range.0

followers-HighRange : (c : ℕ) → All HighRange (followers c)
unfolding followers
followers-HighRange c = ground arith

-- Escaping touches ASCII characters only.
escape-utf8 :
    (expected : List (ℕ × ℕ)) (text : List ℕ)
    → All HighRange expected
    → utf8_from expected text ≡ true
    → utf8_from expected (escape text) ≡ true
unfolding utf8_from escape
escape-utf8 expected [] high h = h
escape-utf8 [] (c ∷ cs) high h =
    ground (arith, escape-utf8 [] cs high, escape-utf8 (followers c) cs (followers-HighRange c))
escape-utf8 ((low, top) ∷ expected) (c ∷ cs) high h =
    ground (arith, high.0, escape-utf8 expected cs high.1)

pub escape-is_utf8 : (text : List ℕ) → is_utf8 text ≡ true → is_utf8 (escape text) ≡ true
escape-is_utf8 text h = escape-utf8 [] text tt h
