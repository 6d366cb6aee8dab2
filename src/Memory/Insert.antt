-- ===== src/Memory/Insert.antt =====
-- What inserting a thumbnail does on each outcome (core/coordinator/src/memory.rs).
use pdf_platform.Common.Keys.{==_refl}
use pdf_platform.Common.KeyQueue.{has-remove, push-InStep}
use pdf_platform.Common.Map.{has, lookup, lookup-insert}
use native.Mathlib.Decide.{dec_le}
use pdf_platform.Memory.{
  MemoryLedger, ThumbnailCache, reserve_thumbnail, ThumbnailCacheKey, reserve_while, total_bytes,
  thumbnail_key_eq, budget_exceeded, expected_length, insert_thumbnail, invalid_pixel_length,
  remove_thumbnail, store_reserved, insert_expected, evict_lru,
}
use pdf_platform.Memory.Inv.{
  IsAccounted, evict_lru-IsAccounted, evict_lru_empty, remove_thumbnail-IsAccounted,
  remove_thumbnail_absent, remove_thumbnail_budget, total_bytes-insert_absent,
}
use pdf_platform.Common.{
  ℕ, ◌+◌, ◌<◌, arith, false, true, ◌≡◌, ◌≤◌, Bool, List, [], length, refl, suc, zero, ◌∙◌, ◌∷◌, ap,
  Option-cases, err, inl, inr, ok, some, ◌≢◌, subst, sym, ◌==◌,
}

-- A reservation succeeds exactly when the charge stays within the budget.
reserve_fits :
    (others : ℕ) (c : ThumbnailCache) (bytes : ℕ)
    → IsAccounted others c
    → c.ledger.thumbnail_usage + bytes ≤ c.ledger.thumbnail_budget
    → reserve_thumbnail c.ledger bytes
      ≡ (record c.ledger { thumbnail_usage = c.ledger.thumbnail_usage + bytes }, true)
unfolding reserve_thumbnail
reserve_fits others c bytes v h = ground arith

reserve_full :
    (l : MemoryLedger) (bytes : ℕ)
    → l.thumbnail_budget < l.thumbnail_usage + bytes
    → reserve_thumbnail l bytes ≡ (l, false)
unfolding reserve_thumbnail
reserve_full l bytes h = ground arith

total_bytes_empty : (m : List (ThumbnailCacheKey × List ℕ)) → length m ≡ 0 → total_bytes m ≡ 0
unfolding total_bytes
total_bytes_empty [] h = refl
total_bytes_empty ((k, p) ∷ m) h = absurd (omega arith)

-- With an empty queue only the other holders are charged.
empty_charge :
    (others : ℕ) (c : ThumbnailCache)
    → c.lru ≡ []
    → IsAccounted others c
    → c.ledger.thumbnail_usage ≡ others
empty_charge others c h v = omega (
  arith,
  v.charged,
  v.in_step.same_length,
  ap (λ (q : List ThumbnailCacheKey). length q) h,
  total_bytes_empty c.entries
      (v.in_step.same_length ∙ ap (λ (q : List ThumbnailCacheKey). length q) h),
)

-- A state in which `bytes` have just been reserved for a key that is not cached.
pub record Reserved (others budget bytes : ℕ) (key : ThumbnailCacheKey) (r : ThumbnailCache × Bool)
    : Type 0 where
  pub before : ThumbnailCache
  pub result : r ≡ (
    record before {
      ledger = record before.ledger { thumbnail_usage = before.ledger.thumbnail_usage + bytes };
    },
    true,
  )
  pub accounted : IsAccounted others before
  pub absent : has key before.entries ≡ false
  pub fits : before.ledger.thumbnail_usage + bytes ≤ before.ledger.thumbnail_budget
  pub same_budget : before.ledger.thumbnail_budget ≡ budget

-- A round that finds no room pops one key.
reserve_round :
    (bytes fuel : ℕ) (c d : ThumbnailCache)
    → c.ledger.thumbnail_budget < c.ledger.thumbnail_usage + bytes
    → evict_lru c ≡ (d, true)
    → reserve_while (suc fuel) c bytes ≡ reserve_while fuel d bytes
unfolding reserve_while
reserve_round bytes fuel c d h step = ground (
  arith,
  reserve_full c.ledger bytes h,
  step,
  ap (λ (r : ThumbnailCache × Bool). reserve_while fuel r.0 bytes) step,
)

module _ (others bytes : ℕ) (key : ThumbnailCacheKey) where
  reserve_now :
      (fuel : ℕ) (c : ThumbnailCache)
      → IsAccounted others c
      → has key c.entries ≡ false
      → c.ledger.thumbnail_usage + bytes ≤ c.ledger.thumbnail_budget
      → Reserved others c.ledger.thumbnail_budget bytes key (reserve_while (suc fuel) c bytes)
  unfolding reserve_while
  reserve_now fuel c v absent h = record {
    before = c;
    result = ground (arith, reserve_fits others c bytes v h);
    accounted = v;
    absent = absent;
    fits = h;
    same_budget = refl;
  }

  -- If the bytes fit beside the other holders' charge, the loop ends with a reservation.
  pub reserve_while_fits :
      (fuel : ℕ) (q : List ThumbnailCacheKey) (c : ThumbnailCache)
      → c.lru ≡ q
      → length q < fuel
      → IsAccounted others c
      → has key c.entries ≡ false
      → others + bytes ≤ c.ledger.thumbnail_budget
      → Reserved others c.ledger.thumbnail_budget bytes key (reserve_while fuel c bytes)
  unfolding reserve_while
  reserve_while_fits zero q c h enough v absent room = absurd (omega arith)
  reserve_while_fits (suc fuel) [] c h enough v absent room =
      reserve_now fuel c v absent (omega (arith, empty_charge others c h v))
  reserve_while_fits (suc fuel) (k ∷ rest) c h enough v absent room =
      elim (dec_le (c.ledger.thumbnail_usage + bytes) c.ledger.thumbnail_budget) [
        | yes now ↦ reserve_now fuel c v absent now
        | no full ↦
            let (d, step, w, left, shrunk, same) = evict_lru-IsAccounted others c k rest h v in
            let gone : has key d.entries ≡ false =
              ground (arith, shrunk, has-remove key k c.entries v.in_step.keys_distinct) in
            rw (reserve_round bytes fuel c d (omega arith) step)
              (rw (← same) (reserve_while_fits fuel rest d left (omega arith) w gone (omega arith)))
      ]

  -- Otherwise it sheds every entry of this cache and reports failure.
  pub reserve_while_exceeds :
      (fuel : ℕ) (q : List ThumbnailCacheKey) (c : ThumbnailCache)
      → c.lru ≡ q
      → length q < fuel
      → IsAccounted others c
      → c.ledger.thumbnail_budget < others + bytes
      → ((reserve_while fuel c bytes).1 ≡ false)
        × IsAccounted others (reserve_while fuel c bytes).0
        × ((reserve_while fuel c bytes).0.lru ≡ [])
  unfolding reserve_while
  reserve_while_exceeds zero q c h enough v big = absurd (omega arith)
  reserve_while_exceeds (suc fuel) [] c h enough v big =
      rw (reserve_full c.ledger bytes (omega (arith, empty_charge others c h v)), reserve_while)
        (rw (evict_lru_empty c h, reserve_while) (refl, v, h))
  reserve_while_exceeds (suc fuel) (k ∷ rest) c h enough v big =
      let (d, step, w, left, shrunk, same) = evict_lru-IsAccounted others c k rest h v in
      rw (reserve_round bytes fuel c d (omega (arith, v.charged)) step)
        (reserve_while_exceeds fuel rest d left (omega arith) w (omega arith))

abbrev charged_with : ThumbnailCache → ℕ → ThumbnailCache
charged_with c bytes = record c {
  ledger = record c.ledger { thumbnail_usage = c.ledger.thumbnail_usage + bytes };
}

-- The state after a reservation, with the entry stored.
abbrev IsStored : ℕ → ThumbnailCacheKey → List ℕ → ThumbnailCache × Bool → Type 0
IsStored others key pixels r =
    ((store_reserved key pixels r).1 ≡ ok tt)
    × IsAccounted others (store_reserved key pixels r).0
    × (lookup key (store_reserved key pixels r).0.entries ≡ some pixels)

charged_with-IsStored :
    (others : ℕ) (key : ThumbnailCacheKey) (pixels : List ℕ) (c : ThumbnailCache)
    → IsAccounted others c
    → has key c.entries ≡ false
    → c.ledger.thumbnail_usage + length pixels ≤ c.ledger.thumbnail_budget
    → IsStored others key pixels (charged_with c (length pixels), true)
unfolding store_reserved
charged_with-IsStored others key pixels c v absent fits = (
  refl,
  record {
    in_step = push-InStep c.lru c.entries v.in_step key pixels absent;
    charged = omega (arith, v.charged, total_bytes-insert_absent key c.entries pixels absent);
    within = fits;
    ordered = v.ordered;
    representable = v.representable;
  },
  ground (arith, lookup-insert key key pixels c.entries, ==_refl key),
)

Reserved-IsStored :
    (others budget : ℕ) (key : ThumbnailCacheKey) (pixels : List ℕ) (r : ThumbnailCache × Bool)
    → Reserved others budget (length pixels) key r
    → IsStored others key pixels r
Reserved-IsStored others budget key pixels r s =
    subst (IsStored others key pixels) (sym s.result)
      (charged_with-IsStored others key pixels s.before s.accounted s.absent s.fits)

eq_self : (n : ℕ) → (n == n) ≡ true
eq_self n = ground arith

-- `insert` of pixels of the right length that fit beside the other holders' charge succeeds, keeps
-- the accounts, and the pixels are found under the key.
pub insert_thumbnail_fits :
    (others : ℕ) (c : ThumbnailCache) (key : ThumbnailCacheKey) (pixels : List ℕ)
    → IsAccounted others c
    → expected_length key ≡ some (length pixels)
    → others + length pixels ≤ c.ledger.thumbnail_budget
    → ((insert_thumbnail c key pixels).1 ≡ ok tt)
      × IsAccounted others (insert_thumbnail c key pixels).0
      × (lookup key (insert_thumbnail c key pixels).0.entries ≡ some pixels)
unfolding insert_thumbnail
insert_thumbnail_fits others c key pixels v sized room =
    let d = remove_thumbnail c key in
    rw (sized, insert_expected)
      (rw (eq_self (length pixels)) (
        Reserved-IsStored others d.ledger.thumbnail_budget key pixels _ (
          reserve_while_fits others (length pixels) key (suc (length d.lru)) d.lru d refl
            (omega arith) (remove_thumbnail-IsAccounted others c key v)
            (remove_thumbnail_absent c key v.in_step)
            (omega (arith, remove_thumbnail_budget c key)))))

-- `insert` of pixels that cannot fit fails with `BudgetExceeded` and leaves the cache empty.
pub insert_thumbnail_exceeds :
    (others : ℕ) (c : ThumbnailCache) (key : ThumbnailCacheKey) (pixels : List ℕ)
    → IsAccounted others c
    → expected_length key ≡ some (length pixels)
    → c.ledger.thumbnail_budget < others + length pixels
    → ((insert_thumbnail c key pixels).1 ≡ err budget_exceeded)
      × IsAccounted others (insert_thumbnail c key pixels).0
      × ((insert_thumbnail c key pixels).0.lru ≡ [])
unfolding insert_thumbnail store_reserved
insert_thumbnail_exceeds others c key pixels v sized big =
    let d = remove_thumbnail c key in
    let shed =
      reserve_while_exceeds others (length pixels) key (suc (length d.lru)) d.lru d refl
        (omega arith) (remove_thumbnail-IsAccounted others c key v)
        (omega (arith, remove_thumbnail_budget c key)) in
    rw (sized, insert_expected) (rw (eq_self (length pixels)) (ground (arith, shed)))

-- Pixels of the wrong length are refused, and nothing changes.
pub insert_thumbnail_missized :
    (c : ThumbnailCache) (key : ThumbnailCacheKey) (pixels : List ℕ)
    → expected_length key ≢ some (length pixels)
    → insert_thumbnail c key pixels ≡ (c, err invalid_pixel_length)
unfolding insert_thumbnail
insert_thumbnail_missized c key pixels wrong = elim (Option-cases (expected_length key)) [
  | inl e ↦ rw (e, insert_expected)
  | inr (n, e) ↦ ground arith
]
