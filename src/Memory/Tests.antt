-- ===== src/Memory/Tests.antt =====
-- Runs of the thumbnail cache, and its theorems at a concrete cache.
use pdf_platform.Memory.Insert.{
  insert_thumbnail_exceeds, insert_thumbnail_fits, insert_thumbnail_missized,
}
use pdf_platform.Common.Map.{insert, lookup, remove}
use pdf_platform.Memory.Invalidate.{old_thumbnails_dropped}
use pdf_platform.Memory.Inv.{IsAccounted, new_governor-new_cache-IsAccounted}
use pdf_platform.Common.{ℕ, ◌++◌, List, Result, [], arith, err, none, ok, refl, ◌∷◌, ◌≡◌, subst}
use pdf_platform.Memory.{
  thumbnail_key_eq, MemoryLedger, ThumbnailCache, ThumbnailCacheError, ThumbnailCacheKey,
  expected_length, insert_thumbnail, invalid_pixel_length, invalidate_before_generation, new_cache,
  new_governor, release_thumbnail, remove_thumbnail, reserve_thumbnail, reserve_while, evict_lru,
}

abbrev pixel_key : ℕ → ThumbnailCacheKey
pixel_key page = record {
  document = 1;
  page = page;
  width = 1;
  height = 1;
  generation = 3;
  revision = 0;
}

abbrev pixel : List ℕ
pixel = 255 ∷ 0 ∷ 0 ∷ 255 ∷ []

-- A governor with room for one and a half such thumbnails.
abbrev small_ledger : MemoryLedger
small_ledger = record { global_ceiling = 10; thumbnail_budget = 6; thumbnail_usage = 0 }

abbrev one_thumbnail : ThumbnailCache
one_thumbnail = record {
  ledger = record small_ledger { thumbnail_usage = 4 };
  entries = (pixel_key 0, pixel) ∷ [];
  lru = pixel_key 0 ∷ [];
}

one_thumbnail_built :
    insert_thumbnail (new_cache small_ledger) (pixel_key 0) pixel ≡ (one_thumbnail, ok tt)
unfolding insert_thumbnail new_cache expected_length reserve_while reserve_thumbnail
    remove_thumbnail insert lookup
one_thumbnail_built = refl

second_evicts_first : (insert_thumbnail one_thumbnail (pixel_key 1) pixel).0.lru ≡ pixel_key 1 ∷ []
unfolding insert_thumbnail expected_length reserve_while reserve_thumbnail remove_thumbnail insert
    lookup evict_lru remove release_thumbnail
second_evicts_first = refl

empty-IsAccounted : IsAccounted 0 (new_cache small_ledger)
empty-IsAccounted =
    new_governor-new_cache-IsAccounted 10 6 small_ledger (omega arith) (unfold new_governor in refl)

one_thumbnail-IsAccounted : IsAccounted 0 one_thumbnail
one_thumbnail-IsAccounted =
    subst (λ (r : ThumbnailCache × Result ThumbnailCacheError (Unit {0})). IsAccounted 0 r.0)
      one_thumbnail_built
      (insert_thumbnail_fits 0 (new_cache small_ledger) (pixel_key 0) pixel empty-IsAccounted
        (unfold expected_length in refl) (unfold new_cache in (omega arith))).1

insert_thumbnail_fits_example : (insert_thumbnail one_thumbnail (pixel_key 1) pixel).1 ≡ ok tt
insert_thumbnail_fits_example =
    (insert_thumbnail_fits 0 one_thumbnail (pixel_key 1) pixel one_thumbnail-IsAccounted
      (unfold expected_length in refl) (omega arith)).0

abbrev wide_key : ThumbnailCacheKey
wide_key = record (pixel_key 2) { width = 2 }

insert_thumbnail_exceeds_example :
    (insert_thumbnail one_thumbnail wide_key (pixel ++ pixel)).0.lru ≡ []
insert_thumbnail_exceeds_example =
    (insert_thumbnail_exceeds 0 one_thumbnail wide_key (pixel ++ pixel) one_thumbnail-IsAccounted
      (unfold expected_length in refl) (omega arith)).2

insert_thumbnail_missized_example :
    insert_thumbnail one_thumbnail wide_key pixel ≡ (one_thumbnail, err invalid_pixel_length)
insert_thumbnail_missized_example =
    insert_thumbnail_missized one_thumbnail wide_key pixel (unfold expected_length in λ e. cc)

old_thumbnails_dropped_example :
    lookup (pixel_key 0) (invalidate_before_generation one_thumbnail 4).0.entries ≡ none
old_thumbnails_dropped_example =
    (old_thumbnails_dropped 0 one_thumbnail 4 one_thumbnail-IsAccounted).1 (pixel_key 0)
