-- ===== src/Render/Cache/Invalidate.antt =====
-- Generation-keyed invalidation and reads of the tile cache (core/render-pipeline/src/cache.rs).
use pdf_platform.Render.Cache.Inv.{
  IsConsistent, drop_existing-IsConsistent, lookup-drop_existing, remove_all-IsConsistent,
}
use pdf_platform.Common.Map.{lookup, keys, lookup_absent, has}
use pdf_platform.Render.Cache.{
  tile_key_eq, stale_keys, remove_all, contains, remove_tile, lookup, TileCacheKey, TileCache,
  CacheEntry, drop_existing, tile_key_beq_iff, get, is_stale, is_stale_on, invalidate_page,
  invalidate_up_to,
}
use pdf_platform.Common.{
  List, Bool, ◌≡◌, if◌then◌else◌, none, false, ◌∷◌, arith, [], refl, some, ◌++◌, Option, ℕ, ◌≢◌,
  ◌<◌, ◌↔◌, ◌⊎◌, Bool-cases, inl, inr, subst,
}
use pdf_platform.Common.Keys.{contains, Distinct, retain_ne}

-- What the collected stale keys are: those of the entries that pass the test.
contains-stale_keys :
    (p : TileCacheKey → CacheEntry → Bool) (m : List (TileCacheKey × CacheEntry))
    → Distinct (keys m)
    → (j : TileCacheKey)
    → contains j (stale_keys p m) ≡ elim (lookup j m) [ none ↦ false | some e ↦ p j e ]
unfolding stale_keys contains lookup
contains-stale_keys p [] d j = refl
contains-stale_keys p ((k, e) ∷ m) d j =
    ground (arith, contains-stale_keys p m d.1 j, tile_key_beq_iff k j, lookup_absent k m, d.0)

lookup-remove_all :
    (c : TileCache) (ks : List TileCacheKey)
    → IsConsistent c
    → (j : TileCacheKey)
    → lookup j (remove_all c ks).entries ≡ (if contains j ks then none else lookup j c.entries)
unfolding remove_all remove_tile contains
lookup-remove_all c [] v j = refl
lookup-remove_all c (k ∷ ks) v j = ground (
  arith,
  lookup-remove_all (drop_existing c k) ks (drop_existing-IsConsistent c k v) j,
  lookup-drop_existing c k v j,
)

-- The look-up that is left when the entries passing a test are dropped.
abbrev pub without :
    (TileCacheKey → CacheEntry → Bool) → TileCacheKey → Option CacheEntry → Option CacheEntry
without p j none = none
without p j (some e) = if p j e then none else some e

lookup-remove_stale :
    (p : TileCacheKey → CacheEntry → Bool) (c : TileCache)
    → IsConsistent c
    → (j : TileCacheKey)
    → lookup j (remove_all c (stale_keys p c.entries)).entries ≡ without p j (lookup j c.entries)
lookup-remove_stale p c v j = ground (
  arith,
  lookup-remove_all c (stale_keys p c.entries) v j,
  contains-stale_keys p c.entries v.in_step.keys_distinct j,
)

-- A tile that `invalidate_up_to(generation)` keeps: it was rendered at a later generation, or at 0.
abbrev pub Kept : ℕ → CacheEntry → Type 0
Kept generation e = (e.generation ≡ 0) ⊎ (generation < e.generation)

Kept-is_stale :
    (generation : ℕ) (j : TileCacheKey) (e : CacheEntry)
    → (is_stale generation j e ≡ false) ↔ Kept generation e
Kept-is_stale generation j e = (λ h. ground arith, λ h. ground arith)

Kept-is_stale_on :
    (page generation : ℕ) (j : TileCacheKey) (e : CacheEntry)
    → (is_stale_on page generation j e ≡ false) ↔ ((j.page ≢ page) ⊎ Kept generation e)
Kept-is_stale_on page generation j e = (λ h. ground arith, λ h. ground arith)

-- What is left when the entries that pass a test are dropped: those that do not.
found-without :
    (p : TileCacheKey → CacheEntry → Bool) (j : TileCacheKey) (found : Option CacheEntry)
    (e : CacheEntry)
    → (without p j found ≡ some e) ↔ ((found ≡ some e) × (p j e ≡ false))
found-without p j none e = (λ h. ground arith, λ (h, _). h)
found-without p j (some d) e = elim (Bool-cases (p j d)) [
  | inl stale ↦ rw stale (λ h. ground arith, λ (h, fresh). ground (arith, h, fresh, stale))
  | inr fresh ↦ rw fresh (
    λ h. (h, subst (λ o. elim o [ none ↦ Unit {0} | some x ↦ p j x ≡ false ]) h fresh),
    λ (h, _). h,
  )
]

remaining :
    {K : Type 0} (p : TileCacheKey → CacheEntry → Bool) (c : TileCache) (j : TileCacheKey)
    (e : CacheEntry)
    → IsConsistent c
    → (p j e ≡ false) ↔ K
    → (lookup j (remove_all c (stale_keys p c.entries)).entries ≡ some e)
      ↔ ((lookup j c.entries ≡ some e) × K)
remaining p c j e v (to, from) = rw (lookup-remove_stale p c v j) (
  (λ h. let (found, fresh) = (found-without p j (lookup j c.entries) e).0 h in (found, to fresh)),
  (λ (found, k). (found-without p j (lookup j c.entries) e).1 (found, from k)),
)

-- Invalidation keeps a consistent cache consistent. After `invalidate_up_to(generation)` the cache
-- finds exactly the tiles that it found before and that were rendered at generation 0 or at a later
-- one than `generation`; after `invalidate_page(page, generation)` exactly those and the tiles of the
-- other pages.
pub stale_tiles_dropped :
    (c : TileCache) (page generation : ℕ) (j : TileCacheKey) (e : CacheEntry)
    → IsConsistent c
    → IsConsistent (invalidate_up_to c generation).0
      × ((lookup j (invalidate_up_to c generation).0.entries ≡ some e)
          ↔ ((lookup j c.entries ≡ some e) × Kept generation e))
      × IsConsistent (invalidate_page c page generation).0
      × ((lookup j (invalidate_page c page generation).0.entries ≡ some e)
          ↔ ((lookup j c.entries ≡ some e) × ((j.page ≢ page) ⊎ Kept generation e)))
unfolding invalidate_up_to invalidate_page
stale_tiles_dropped c page generation j e v = (
  remove_all-IsConsistent c _ v,
  remaining (is_stale generation) c j e v (Kept-is_stale generation j e),
  remove_all-IsConsistent c _ v,
  remaining (is_stale_on page generation) c j e v (Kept-is_stale_on page generation j e),
)

-- `get` answers as the map does, changes no entry, and moves a hit to the back of the queue.
get_lem :
    (c : TileCache) (key : TileCacheKey)
    → IsConsistent c
    → ((get c key).1 ≡ lookup key c.entries)
      × ((get c key).0.entries ≡ c.entries)
      × ((get c key).0.lru ≡ (if has key c.entries then retain_ne key c.lru ++ key ∷ [] else c.lru))
unfolding get
get_lem c key v = ground (arith, lookup_absent key c.entries)
