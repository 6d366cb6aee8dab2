-- ===== src/Render/Cache/Tests.antt =====
-- Runs of the tile cache, and its theorems at a concrete cache.
use pdf_platform.Render.Cache.Invalidate.{stale_tiles_dropped, Kept}
use pdf_platform.Protocol.Handles.{rgba8}
use pdf_platform.Render.Cache.Order.{insert_tile_refines, RecencyInsert}
use pdf_platform.Common.Map.{insert, remove, lookup}
use pdf_platform.Common.Keys.{contains}
use pdf_platform.Render.Cache.Inv.{
  HasRoom, IsConsistent, insert_tile-IsConsistent, new-IsConsistent,
}
use pdf_platform.Render.Cache.{
  CacheEntry, TileCache, TileCacheKey, drop_existing, evict_lru, evict_while, insert_tile, new,
  push_entry, invalidate_page, tile_key_eq, invalidate_up_to,
}
use pdf_platform.Common.{ℕ, [], arith, refl, subst, ◌∷◌, ◌≡◌, some, ◌↔◌, ◌≢◌, ◌⊎◌}

abbrev tile : ℕ → ℕ → TileCacheKey
tile page col = record { page = page; col = col; row = 0 }

abbrev entry_at : ℕ → CacheEntry
entry_at g = record {
  desc = record {
    offset = 0;
    len = 10;
    format = rgba8;
    generation = g;
    page = 0;
    col = 0;
    row = 0;
  };
  generation = g;
}

-- Two tiles of ten bytes under a budget of 25.
abbrev two_tiles : TileCache
two_tiles = record {
  entries = (tile 0 0, entry_at 1) ∷ (tile 1 0, entry_at 2) ∷ [];
  lru = tile 0 0 ∷ tile 1 0 ∷ [];
  max_bytes = 25;
  current_bytes = 20;
  tile_bytes = 10;
}

two_tiles_built :
    insert_tile (insert_tile (new 25 10) (tile 0 0) (entry_at 1)) (tile 1 0) (entry_at 2)
    ≡ two_tiles
unfolding insert_tile push_entry evict_while drop_existing new insert contains
two_tiles_built = refl

-- A third tile evicts the least recent one.
third_evicts_first : (insert_tile two_tiles (tile 2 0) (entry_at 2)).lru ≡ tile 1 0 ∷ tile 2 0 ∷ []
unfolding insert_tile push_entry evict_while evict_lru drop_existing contains remove
third_evicts_first = refl

two_tiles-IsConsistent : IsConsistent two_tiles
two_tiles-IsConsistent =
    subst IsConsistent two_tiles_built
      (insert_tile-IsConsistent one (tile 1 0) (entry_at 2) first.0 first.1).0
  where
    one : TileCache
    one = insert_tile (new 25 10) (tile 0 0) (entry_at 1)

    first : IsConsistent one × HasRoom one
    first =
        insert_tile-IsConsistent (new 25 10) (tile 0 0) (entry_at 1) (new-IsConsistent 25 10)
          (unfold new in (omega arith))

insert_tile-IsConsistent_example :
    IsConsistent (insert_tile two_tiles (tile 2 0) (entry_at 2))
    × HasRoom (insert_tile two_tiles (tile 2 0) (entry_at 2))
insert_tile-IsConsistent_example =
    insert_tile-IsConsistent two_tiles (tile 2 0) (entry_at 2) two_tiles-IsConsistent (omega arith)

insert_tile_refines_example :
    RecencyInsert two_tiles (tile 2 0) (entry_at 2) (insert_tile two_tiles (tile 2 0) (entry_at 2))
insert_tile_refines_example =
    insert_tile_refines two_tiles (tile 2 0) (entry_at 2) two_tiles-IsConsistent

stale_tiles_dropped_example :
    IsConsistent (invalidate_up_to two_tiles 1).0
    × ((lookup (tile 1 0) (invalidate_up_to two_tiles 1).0.entries ≡ some (entry_at 2))
        ↔ ((lookup (tile 1 0) two_tiles.entries ≡ some (entry_at 2)) × Kept 1 (entry_at 2)))
    × IsConsistent (invalidate_page two_tiles 0 1).0
    × ((lookup (tile 1 0) (invalidate_page two_tiles 0 1).0.entries ≡ some (entry_at 2)) ↔ (
        (lookup (tile 1 0) two_tiles.entries ≡ some (entry_at 2))
        × (((tile 1 0).page ≢ 0) ⊎ Kept 1 (entry_at 2))))
stale_tiles_dropped_example =
    stale_tiles_dropped two_tiles 0 1 (tile 1 0) (entry_at 2) two_tiles-IsConsistent
