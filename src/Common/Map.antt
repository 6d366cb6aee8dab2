-- ===== src/Common/Map.antt =====
-- `HashMap` as an association list with at most one entry for a key.
use pdf_platform.Common.{
  ◌+◌, ◌≡◌, refl, Bool, true, false, ◌||◌, List, [], ◌∷◌, Option, none, some, arith, length,
  if◌then◌else◌, Bool-cases, inl, inr,
}
use pdf_platform.Common.Keys.{Eq, ◌==◌, contains, retain_ne, Distinct, retain_ne_absent}

abbrev pub keys {ℓ} : {K V : Type ℓ} → List (K × V) → List K
keys [] = []
keys ((k, v) ∷ m) = k ∷ keys m

module _ {ℓ} {K V : Type ℓ} ⦃e : Eq K⦄ where
  unfoldable pub lookup : K → List (K × V) → Option V
  lookup key [] = none
  lookup key ((here, value) ∷ rest) = if here == key then some value else lookup key rest

  -- `map.insert(k, v)`: replaces the value of a present key.
  unfoldable pub insert : K → V → List (K × V) → List (K × V)
  insert key value [] = (key, value) ∷ []
  insert key value ((here, old) ∷ rest) =
      if here == key then (key, value) ∷ rest else (here, old) ∷ insert key value rest

  -- `map.remove(&k)`
  unfoldable pub remove : K → List (K × V) → List (K × V)
  remove k [] = []
  remove k ((j, w) ∷ m) = if j == k then m else (j, w) ∷ remove k m

  abbrev pub has : K → List (K × V) → Bool
  has k m = contains k (keys m)

  pub lookup-insert :
      (new asked : K) (value : V) (m : List (K × V))
      → lookup asked (insert new value m) ≡ (if new == asked then some value else lookup asked m)
  unfolding lookup insert
  lookup-insert new asked value [] = refl
  lookup-insert new asked value ((here, old) ∷ rest) = ground (
    arith,
    lookup-insert new asked value rest,
    e.eqb_iff here new,
    e.eqb_iff here asked,
    e.eqb_iff new asked,
  )

  pub lookup_absent : (k : K) (m : List (K × V)) → has k m ≡ false → lookup k m ≡ none
  unfolding lookup contains
  lookup_absent k [] h = refl
  lookup_absent k ((j, w) ∷ m) h = ground (arith, lookup_absent k m)

  pub lookup_missing : (k : K) (m : List (K × V)) → lookup k m ≡ none → has k m ≡ false
  unfolding lookup contains
  lookup_missing k [] h = refl
  lookup_missing k ((j, w) ∷ m) h = ground (arith, lookup_missing k m)

  pub lookup_present : (k : K) (m : List (K × V)) → has k m ≡ true → (v : V) × (lookup k m ≡ some v)
  unfolding lookup contains
  lookup_present k [] h = cc
  lookup_present k ((j, w) ∷ m) h = elim (Bool-cases (j == k)) [
    | inl here ↦ (w, rw here)
    | inr other ↦ let (v, found) = lookup_present k m (ground arith) in (v, rw other found)
  ]

  pub lookup-remove :
      (k j : K) (m : List (K × V))
      → Distinct (keys m)
      → lookup j (remove k m) ≡ (if k == j then none else lookup j m)
  unfolding lookup remove
  lookup-remove k j [] d = ground arith
  lookup-remove k j ((i, w) ∷ m) d = ground (
    arith,
    e.eqb_iff k j,
    e.eqb_iff i k,
    e.eqb_iff i j,
    lookup-remove k j m d.1,
    lookup_absent i m d.0,
  )

  pub contains-keys-insert :
      (j k : K) (v : V) (m : List (K × V)) → has j (insert k v m) ≡ (k == j || has j m)
  unfolding contains insert
  contains-keys-insert j k v [] = refl
  contains-keys-insert j k v ((i, w) ∷ m) =
      ground (arith, contains-keys-insert j k v m, e.eqb_iff i k)

  pub insert-Distinct :
      (k : K) (v : V) (m : List (K × V)) → Distinct (keys m) → Distinct (keys (insert k v m))
  unfolding contains insert
  insert-Distinct k v [] d = (refl, tt)
  insert-Distinct k v ((i, w) ∷ m) d =
      ground (
        arith,
        insert-Distinct k v m d.1,
        contains-keys-insert i k v m,
        e.eqb_iff i k,
        e.eqb_iff k i,
      )

  pub keys-remove :
      (k : K) (m : List (K × V)) → Distinct (keys m) → keys (remove k m) ≡ retain_ne k (keys m)
  unfolding remove retain_ne
  keys-remove k [] d = refl
  keys-remove k ((i, w) ∷ m) d =
      ground (arith, keys-remove k m d.1, retain_ne_absent k (keys m), e.eqb_iff i k)

  pub length-insert_absent :
      (k : K) (v : V) (m : List (K × V)) → has k m ≡ false → length (insert k v m) ≡ length m + 1
  unfolding contains insert
  length-insert_absent k v [] h = omega arith
  length-insert_absent k v ((i, w) ∷ m) h = ground (arith, length-insert_absent k v m)

  pub length-remove_present :
      (k : K) (m : List (K × V)) → has k m ≡ true → length (remove k m) + 1 ≡ length m
  unfolding contains remove
  length-remove_present k [] h = cc
  length-remove_present k ((i, w) ∷ m) h = ground (arith, length-remove_present k m)

  pub remove_absent : (k : K) (m : List (K × V)) → has k m ≡ false → remove k m ≡ m
  unfolding contains remove
  remove_absent k [] h = refl
  remove_absent k ((i, w) ∷ m) h = ground (arith, remove_absent k m)
