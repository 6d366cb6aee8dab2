-- ===== src/Common/Decimal.antt =====
-- Texts as lists of bytes: string literals, Rust's `{}` of an unsigned number and its `parse`.
use Prim.Native.Char.{code}
use Prim.Native.String.{String}
use pdf_platform.Common.{
  ℕ, ◌%◌, ◌&&◌, ◌*◌, ◌+◌, ◌++◌, ◌-◌, ◌/◌, ◌<◌, All, Bool, Bool-cases, List, Option, [], arith,
  if◌then◌else◌, false, inl, inr, leb, ltb, none, refl, some, suc, true, zero, ◌∙◌, ◌∷◌, ◌≡◌, ◌≤◌,
  ◌==◌,
}

-- The bytes of an ASCII text.
abbrev pub codes : String → List ℕ
codes String.[] = []
codes (String.◌∷◌ c rest) = code c ∷ codes rest

unfoldable pub decimal_on : ℕ → ℕ → List ℕ
decimal_on zero n = (b'0' + n % 10) ∷ []
decimal_on (suc fuel) n = elim (ltb n 10) [
  | true ↦ (b'0' + n) ∷ []
  | false ↦ decimal_on fuel (n / 10) ++ (b'0' + n % 10) ∷ []
]

-- A number has no more digits than it counts.
unfoldable pub decimal : ℕ → List ℕ
decimal n = decimal_on n n

abbrev pub is_digit : ℕ → Bool
is_digit c = leb b'0' c && leb c b'9'

-- The digits behind the value so far, below `bound`.
unfoldable pub read_digits : ℕ → ℕ → List ℕ → Option ℕ
read_digits bound value [] = some value
read_digits bound value (c ∷ cs) =
    let next = value * 10 + (c - b'0') in
    let rest = read_digits bound next cs in if is_digit c && ltb next bound then rest else none

unfoldable pub read_plus : ℕ → List ℕ → Option ℕ
read_plus bound [] = none
read_plus bound (c ∷ cs) = read_digits bound 0 (c ∷ cs)

-- `text.parse()` of an unsigned number below `bound`: an optional plus sign, and digits.
unfoldable pub parse_unsigned : ℕ → List ℕ → Option ℕ
parse_unsigned bound [] = none
parse_unsigned bound (c ∷ cs) = if c == b'+' then read_plus bound cs else read_plus bound (c ∷ cs)

read_digits-append :
    (bound value : ℕ) (xs ys : List ℕ) (middle : ℕ)
    → read_digits bound value xs ≡ some middle
    → read_digits bound value (xs ++ ys) ≡ read_digits bound middle ys
unfolding read_digits
read_digits-append bound value [] ys middle h = ground arith
read_digits-append bound value (c ∷ xs) ys middle h =
    ground (arith, read_digits-append bound (value * 10 + (c - b'0')) xs ys middle)

pub read_digits-decimal_on :
    (bound fuel n : ℕ) → n ≤ fuel → n < bound → read_digits bound 0 (decimal_on fuel n) ≡ some n
unfolding read_digits decimal_on
read_digits-decimal_on bound zero n h b = ground arith
read_digits-decimal_on bound (suc fuel) n h b = elim (Bool-cases (ltb n 10)) [
  | inl small ↦ rw (decimal_on, small) (ground arith)
  | inr large ↦
      let front = read_digits-decimal_on bound fuel (n / 10) (ground arith) (omega arith) in
      rw (decimal_on, large)
        (read_digits-append bound 0 (decimal_on fuel (n / 10)) ((b'0' + n % 10) ∷ []) (n / 10) front
          ∙ ground arith)
]

pub All-append :
    {A : Type 0} (P : A → Type 0) (xs ys : List A) → All P xs → All P ys → All P (xs ++ ys)
All-append P [] ys a b = b
All-append P (x ∷ xs) ys a b = (a.0, All-append P xs ys a.1 b)

abbrev pub IsDigit : ℕ → Type 0
IsDigit c = (b'0' ≤ c) × (c ≤ b'9')

decimal_on-IsDigit : (fuel n : ℕ) → All IsDigit (decimal_on fuel n)
unfolding decimal_on
decimal_on-IsDigit zero n = ((omega arith, omega arith), tt)
decimal_on-IsDigit (suc fuel) n = elim (Bool-cases (ltb n 10)) [
  | inl small ↦ rw (decimal_on, small) ((omega arith, ground arith), tt)
  | inr large ↦
      rw (decimal_on, large)
        (All-append IsDigit (decimal_on fuel (n / 10)) ((b'0' + n % 10) ∷ [])
          (decimal_on-IsDigit fuel (n / 10)) ((omega arith, omega arith), tt))
]

pub decimal-IsDigit : (n : ℕ) → All IsDigit (decimal n)
unfolding decimal
decimal-IsDigit n = decimal_on-IsDigit n n

-- A decimal begins with a digit.
decimal_on_first : (fuel n : ℕ) → (c : ℕ) × (cs : List ℕ) × (decimal_on fuel n ≡ c ∷ cs) × IsDigit c
unfolding decimal_on
decimal_on_first zero n = (b'0' + n % 10, [], refl, (omega arith, omega arith))
decimal_on_first (suc fuel) n = elim (Bool-cases (ltb n 10)) [
  | inl small ↦ (b'0' + n, [], rw (decimal_on, small) refl, (omega arith, ground arith))
  | inr large ↦
      let (c, cs, same, digit) = decimal_on_first fuel (n / 10) in
      (c, cs ++ (b'0' + n % 10) ∷ [], rw (decimal_on, large, same) refl, digit)
]

pub decimal_first : (n : ℕ) → (c : ℕ) × (cs : List ℕ) × (decimal n ≡ c ∷ cs) × IsDigit c
unfolding decimal
decimal_first n = decimal_on_first n n

-- What `{}` prints of a number below the bound, `parse` reads back.
pub parse_unsigned-decimal : (bound n : ℕ) → n < bound → parse_unsigned bound (decimal n) ≡ some n
unfolding parse_unsigned read_plus decimal
parse_unsigned-decimal bound n b =
    let (c, cs, same, digit) = decimal_on_first n n in
    let back = read_digits-decimal_on bound n n (omega arith) b in
    let plain : (c == b'+') ≡ false = ground (arith, digit) in rw (same, plain) (rw same at back)
