-- ===== src/Common/Bytes.antt =====
-- Little-endian integers as the Rust standard library lays them out (`to_le_bytes`,
-- `from_le_bytes`), over bytes that are numbers below 256.
use pdf_platform.Common.{
  ℕ, ◌%◌, ◌*◌, ◌+◌, ◌++◌, ◌/◌, ◌<◌, List, [], arith, length, refl, ◌∷◌, ◌≡◌, ◌≤◌, ◌^◌, ap, suc,
  zero,
}

unfoldable pub u32_to_le : ℕ → List ℕ
u32_to_le n = n % 256 ∷ n / 256 % 256 ∷ n / 65536 % 256 ∷ n / 16777216 % 256 ∷ []

unfoldable pub u32_from_le : ℕ → ℕ → ℕ → ℕ → ℕ
u32_from_le a b c d = a + 256 * b + 65536 * c + 16777216 * d

pub u32_from_le-u32_to_le :
    (n : ℕ)
    → n < 4294967296
    → u32_from_le (n % 256) (n / 256 % 256) (n / 65536 % 256) (n / 16777216 % 256) ≡ n
unfolding u32_from_le
u32_from_le-u32_to_le n h = omega arith

-- What stands in front of a longer list is a prefix of each list that begins both.
pub append_split {ℓ} :
    {A : Type ℓ} (a buf tail rest : List A)
    → length a ≤ length buf
    → buf ++ tail ≡ a ++ rest
    → (r : List A) × (buf ≡ a ++ r) × (r ++ tail ≡ rest)
append_split [] buf tail rest h e = (buf, refl, e)
append_split (x ∷ a) [] tail rest h e = absurd (omega arith)
append_split (x ∷ a) (y ∷ buf) tail rest h e =
    let (r, front, back) = append_split a buf tail rest (omega arith) (cc) in (r, cc, back)

-- `to_le_bytes` of a number of `k` bytes, and `from_le_bytes`.
unfoldable pub le_bytes : ℕ → ℕ → List ℕ
le_bytes zero n = []
le_bytes (suc k) n = n % 256 ∷ le_bytes k (n / 256)

unfoldable pub from_le_bytes : List ℕ → ℕ
from_le_bytes [] = 0
from_le_bytes (b ∷ bs) = b + 256 * from_le_bytes bs

pub length-le_bytes : (k n : ℕ) → length (le_bytes k n) ≡ k
unfolding le_bytes
length-le_bytes zero n = refl
length-le_bytes (suc k) n = ap suc (length-le_bytes k (n / 256))

smaller : (k n : ℕ) → n < 256 ^ suc k → n / 256 < 256 ^ k
smaller k n h = omega arith

pub from_le_bytes-le_bytes : (k n : ℕ) → n < 256 ^ k → from_le_bytes (le_bytes k n) ≡ n
unfolding le_bytes from_le_bytes
from_le_bytes-le_bytes zero n h = omega arith
from_le_bytes-le_bytes (suc k) n h =
    omega (arith, from_le_bytes-le_bytes k (n / 256) (smaller k n h))
