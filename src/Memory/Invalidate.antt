-- ===== src/Memory/Invalidate.antt =====
-- Invalidation by generation, and the end of the thumbnail cache (core/coordinator/src/memory.rs).
use pdf_platform.Common.Map.{keys, lookup, lookup-remove, lookup_absent}
use pdf_platform.Memory.Inv.{
  IsAccounted, remove_thumbnail-IsAccounted, remove_thumbnails-IsAccounted,
}
use pdf_platform.Common.KeyQueue.{InStep}
use pdf_platform.Common.{ℕ, ◌&&◌, List, [], arith, if◌then◌else◌, ltb, none, refl, ◌∷◌, ◌≡◌}
use pdf_platform.Common.Keys.{◌==◌, contains}
use pdf_platform.Memory.{
  thumbnail_key_eq, ThumbnailCache, ThumbnailCacheKey, drop_cache, invalidate_before_generation,
  keys_before, release_thumbnail, remove_thumbnail, remove_thumbnails, thumbnail_key_beq_iff,
}

contains-keys_before :
    (g : ℕ) (ks : List ThumbnailCacheKey) (j : ThumbnailCacheKey)
    → contains j (keys_before g ks) ≡ (ltb j.generation g && contains j ks)
unfolding keys_before contains
contains-keys_before g [] j = ground arith
contains-keys_before g (k ∷ ks) j =
    ground (arith, contains-keys_before g ks j, thumbnail_key_beq_iff k j)

lookup-remove_thumbnail :
    (c : ThumbnailCache) (k j : ThumbnailCacheKey)
    → InStep c.lru c.entries
    → lookup j (remove_thumbnail c k).entries ≡ (if k == j then none else lookup j c.entries)
unfolding remove_thumbnail
lookup-remove_thumbnail c k j s =
    ground (arith, lookup-remove k j c.entries s.keys_distinct, thumbnail_key_beq_iff k j)

lookup-remove_thumbnails :
    (others : ℕ) (c : ThumbnailCache) (ks : List ThumbnailCacheKey)
    → IsAccounted others c
    → (j : ThumbnailCacheKey)
    → lookup j (remove_thumbnails c ks).entries
      ≡ (if contains j ks then none else lookup j c.entries)
unfolding remove_thumbnails contains
lookup-remove_thumbnails others c [] v j = refl
lookup-remove_thumbnails others c (k ∷ ks) v j = ground (
  arith,
  lookup-remove_thumbnails others (remove_thumbnail c k) ks
      (remove_thumbnail-IsAccounted others c k v) j,
  lookup-remove_thumbnail c k j v.in_step,
)

-- `invalidate_before_generation(generation)` keeps the accounts and drops exactly the entries whose
-- key has an older generation.
invalidate_before_generation_lem :
    (others : ℕ) (c : ThumbnailCache) (generation : ℕ)
    → IsAccounted others c
    → IsAccounted others (invalidate_before_generation c generation).0
      × ((j : ThumbnailCacheKey)
          → lookup j (invalidate_before_generation c generation).0.entries
            ≡ (if ltb j.generation generation then none else lookup j c.entries))
unfolding invalidate_before_generation
invalidate_before_generation_lem others c generation v =
    let stale = keys_before generation (keys c.entries) in
    (
      remove_thumbnails-IsAccounted others c stale v,
      λ j. ground (
        arith,
        lookup-remove_thumbnails others c stale v j,
        contains-keys_before generation (keys c.entries) j,
        lookup_absent j c.entries,
      ),
    )

-- Dropping the cache gives its bytes back: the governor is left charged with the other holders'.
drop_cache_lem :
    (others : ℕ) (c : ThumbnailCache)
    → IsAccounted others c
    → (drop_cache c).thumbnail_usage ≡ others
unfolding drop_cache release_thumbnail
drop_cache_lem others c v = omega (arith, v.charged)

-- `invalidate_before_generation(generation)` keeps the accounts and drops exactly the entries of older
-- generations; dropping the cache, before or after, leaves the governor charged with the other holders'
-- bytes.
pub old_thumbnails_dropped :
    (others : ℕ) (c : ThumbnailCache) (generation : ℕ)
    → IsAccounted others c
    → IsAccounted others (invalidate_before_generation c generation).0
      × ((j : ThumbnailCacheKey)
          → lookup j (invalidate_before_generation c generation).0.entries
            ≡ (if ltb j.generation generation then none else lookup j c.entries))
      × ((drop_cache c).thumbnail_usage ≡ others)
      × ((drop_cache (invalidate_before_generation c generation).0).thumbnail_usage ≡ others)
old_thumbnails_dropped others c generation v =
    let (kept, found) = invalidate_before_generation_lem others c generation v in
    (
      kept,
      found,
      drop_cache_lem others c v,
      drop_cache_lem others (invalidate_before_generation c generation).0 kept,
    )
