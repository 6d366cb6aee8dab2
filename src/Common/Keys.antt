-- ===== src/Common/Keys.antt =====
-- Lists of keys under a decidable Boolean equality: `contains`, `retain(|k| k != key)`, and lists
-- without repetition. The Rust code uses `==` on derived `PartialEq` keys.

use pdf_platform.Common.{
  ℕ, ◌+◌, ◌≡◌, refl, ◌↔◌, Bool, true, false, not, ◌&&◌, ◌||◌, List, [], ◌∷◌, ◌++◌, arith, length,
  ◌==◌ as nat_beq, ◌≤◌, ==_iff, if◌then◌else◌,
}

-- A decidable equality, as derived for the key types.
pub record Eq {κ} (Key : Type κ) : Type κ where
  pub eqb : Key → Key → Bool
  pub eqb_iff : (x y : Key) → (eqb x y ≡ true) ↔ (x ≡ y)

infix 50 ◌==◌
abbrev pub ◌==◌ {κ} : {Key : Type κ} ⦃eq : Eq Key⦄ → Key → Key → Bool
◌==◌ ⦃eq⦄ x y = eq.eqb x y

instance abbrev pub nat_eq : Eq ℕ
nat_eq = record { eqb = nat_beq; eqb_iff = ==_iff }

module _ {ℓ} {K : Type ℓ} ⦃e : Eq K⦄ where
  pub ==_refl : (k : K) → (k == k) ≡ true
  ==_refl k = (e.eqb_iff k k).1 refl

  unfoldable pub contains : K → List K → Bool
  contains k [] = false
  contains k (x ∷ xs) = x == k || contains k xs

  -- `list.retain(|x| *x != k)`
  unfoldable pub retain_ne : K → List K → List K
  retain_ne k [] = []
  retain_ne k (x ∷ xs) = if x == k then retain_ne k xs else x ∷ retain_ne k xs

  -- No key twice.
  abbrev pub Distinct : List K → Type 0
  Distinct [] = Unit {0}
  Distinct (x ∷ xs) = (contains x xs ≡ false) × Distinct xs

  pub contains-retain_ne :
      (j k : K) (xs : List K) → contains j (retain_ne k xs) ≡ (not (k == j) && contains j xs)
  unfolding contains retain_ne
  contains-retain_ne j k [] = ground arith
  contains-retain_ne j k (x ∷ xs) =
      ground (arith, contains-retain_ne j k xs, e.eqb_iff x k, e.eqb_iff x j, e.eqb_iff k j)

  pub retain_ne_absent : (k : K) (xs : List K) → contains k xs ≡ false → retain_ne k xs ≡ xs
  unfolding contains retain_ne
  retain_ne_absent k [] h = refl
  retain_ne_absent k (x ∷ xs) h = ground (arith, retain_ne_absent k xs)

  pub retain_ne-Distinct : (k : K) (xs : List K) → Distinct xs → Distinct (retain_ne k xs)
  unfolding retain_ne
  retain_ne-Distinct k [] d = tt
  retain_ne-Distinct k (x ∷ xs) d =
      ground (arith, retain_ne-Distinct k xs d.1, contains-retain_ne x k xs)

  pub length-retain_ne :
      (k : K) (xs : List K)
      → Distinct xs
      → contains k xs ≡ true
      → length (retain_ne k xs) + 1 ≡ length xs
  unfolding contains retain_ne
  length-retain_ne k [] d h = cc
  length-retain_ne k (x ∷ xs) d h =
      ground (arith, length-retain_ne k xs d.1, retain_ne_absent k xs, e.eqb_iff x k)

  -- A list without repetition is no longer than one that has its members.
  pub length_within :
      (xs ys : List K)
      → Distinct xs
      → Distinct ys
      → ((k : K) → contains k xs ≡ true → contains k ys ≡ true)
      → length xs ≤ length ys
  unfolding contains
  length_within [] ys d f h = omega arith
  length_within (x ∷ xs) ys d f h =
      let there : contains x ys ≡ true = h x (ground (arith, ==_refl x)) in
      let smaller : length xs ≤ length (retain_ne x ys) =
        length_within xs (retain_ne x ys) d.1 (retain_ne-Distinct x ys f)
          (λ k m. ground (arith, h k, contains-retain_ne k x ys, e.eqb_iff x k, d.0)) in
      omega (arith, smaller, length-retain_ne x ys f there)

  pub contains-append :
      (j : K) (xs ys : List K) → contains j (xs ++ ys) ≡ (contains j xs || contains j ys)
  unfolding contains
  contains-append j [] ys = refl
  contains-append j (x ∷ xs) ys = ground (arith, contains-append j xs ys)

  pub snoc-Distinct :
      (k : K) (xs : List K) → Distinct xs → contains k xs ≡ false → Distinct (xs ++ k ∷ [])
  unfolding contains
  snoc-Distinct k [] d h = (refl, tt)
  snoc-Distinct k (x ∷ xs) d h =
      ground
        (arith, snoc-Distinct k xs d.1, contains-append x xs (k ∷ []), e.eqb_iff x k, e.eqb_iff k x)

-- Equality of strings, as lists of bytes.
unfoldable pub bytes_beq : List ℕ → List ℕ → Bool
bytes_beq [] [] = true
bytes_beq [] (y ∷ ys) = false
bytes_beq (x ∷ xs) [] = false
bytes_beq (x ∷ xs) (y ∷ ys) = nat_beq x y && bytes_beq xs ys

pub bytes_beq_iff : (xs ys : List ℕ) → (bytes_beq xs ys ≡ true) ↔ (xs ≡ ys)
unfolding bytes_beq
bytes_beq_iff [] [] = ground arith
bytes_beq_iff [] (y ∷ ys) = ground arith
bytes_beq_iff (x ∷ xs) [] = ground arith
bytes_beq_iff (x ∷ xs) (y ∷ ys) = ground (arith, bytes_beq_iff xs ys)

instance abbrev pub bytes_eq : Eq (List ℕ)
bytes_eq = record { eqb = bytes_beq; eqb_iff = bytes_beq_iff }
