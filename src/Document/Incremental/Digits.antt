-- ===== src/Document/Incremental/Digits.antt =====
-- `{:010}` as core/pdf-write/src/lib.rs prints it.
use pdf_platform.Document.Incremental.{ten_digits, padding}
use pdf_platform.Common.{
  ℕ, List, length-append, ◌%◌, ◌*◌, ◌+◌, ◌++◌, ◌-◌, ◌/◌, ◌<◌, All, Bool-cases, [], ◌^◌, arith, inl,
  inr, length, ltb, refl, some, suc, zero, ◌∙◌, ◌∷◌, ◌≡◌, ◌≤◌,
}
use pdf_platform.Common.Decimal.{
  decimal, decimal_on, parse_unsigned, parse_unsigned-decimal, All-append, IsDigit, decimal-IsDigit,
  read_digits, read_plus, read_digits-decimal_on,
}

-- Ten digits.
power : ℕ → ℕ
power zero = 1
power (suc k) = 10 * power k

decimal_on-short : (k fuel n : ℕ) → n < power (suc k) → length (decimal_on fuel n) ≤ suc k
unfolding decimal_on power
decimal_on-short k zero n h = omega arith
decimal_on-short zero (suc fuel) n h = ground arith
decimal_on-short (suc k) (suc fuel) n h = elim (Bool-cases (ltb n 10)) [
  | inl small ↦ rw (decimal_on, small) (omega arith)
  | inr large ↦
      rw (decimal_on, large)
        (omega (
          arith,
          length-append (decimal_on fuel (n / 10)) ((b'0' + n % 10) ∷ []),
          decimal_on-short k fuel (n / 10) (omega arith),
        ))
]

padding-IsDigit : (k : ℕ) → All IsDigit (padding k)
unfolding padding
padding-IsDigit zero = tt
padding-IsDigit (suc k) = ((omega arith, omega arith), padding-IsDigit k)

length-padding : (k : ℕ) → length (padding k) ≡ k
unfolding padding
length-padding zero = refl
length-padding (suc k) = omega (arith, length-padding k)

pub ten_digits-IsDigit : (n : ℕ) → All IsDigit (ten_digits n)
unfolding ten_digits
ten_digits-IsDigit n =
    All-append IsDigit (padding (10 - length (decimal n))) (decimal n) (padding-IsDigit _)
      (decimal-IsDigit n)

pub length-ten_digits : (n : ℕ) → n < 2 ^ 32 → length (ten_digits n) ≡ 10
unfolding ten_digits decimal power
length-ten_digits n h = omega (
  arith,
  length-append (padding (10 - length (decimal_on n n))) (decimal_on n n),
  length-padding (10 - length (decimal_on n n)),
  decimal_on-short 9 n n (omega arith),
)

read_digits-padding :
    (bound k : ℕ) (digits : List ℕ)
    → 0 < bound
    → read_digits bound 0 (padding k ++ digits) ≡ read_digits bound 0 digits
unfolding read_digits padding
read_digits-padding bound zero digits h = refl
read_digits-padding bound (suc k) digits h = ground (arith, read_digits-padding bound k digits h)

parse_unsigned-padding :
    (bound k n : ℕ) → n < bound → parse_unsigned bound (padding k ++ decimal n) ≡ some n
unfolding parse_unsigned read_plus padding decimal
parse_unsigned-padding bound zero n h = parse_unsigned-decimal bound n h
parse_unsigned-padding bound (suc k) n h =
    read_digits-padding bound (suc k) (decimal_on n n) (omega arith)
    ∙ read_digits-decimal_on bound n n (omega arith) h

pub parse_unsigned-ten_digits :
    (n : ℕ) → n < 2 ^ 32 → parse_unsigned (2 ^ 32) (ten_digits n) ≡ some n
unfolding ten_digits
parse_unsigned-ten_digits n h = parse_unsigned-padding (2 ^ 32) (10 - length (decimal n)) n h
