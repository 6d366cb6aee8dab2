-- ===== src/Render/Scheduler/Tests.antt =====
-- A viewport of core/render-pipeline/src/scheduler.rs: a part of a letter page at 72 dpi.
use pdf_platform.Render.Scheduler.Coverage.{schedule_viewport_covers, schedule_viewport_lem}
use pdf_platform.Render.Scheduler.{
  Priority, RenderScheduler, TileKey, Viewport, ViewportRegion, decompose, decompose_with_prefetch,
  key_of, keys_of, prefetch_tiles, schedule_viewport, grid_key_eq,
}
use pdf_platform.Render.Scheduler.Tiles.{IsTile, decompose_with_prefetch_lem}
use pdf_platform.Common.{ℕ, ◌&&◌, ◌++◌, All, [], arith, false, not, refl, true, ◌||◌, ◌∷◌, ◌≡◌}
use pdf_platform.Common.Keys.{Distinct, contains}

abbrev window : ViewportRegion
window = record { page = 0; x = 100; y = 0; w = 300; h = 256 }

abbrev letter : Viewport ℕ
letter = record {
  regions = window ∷ [];
  scale = 1;
  rotation = 0;
  page_width = 612;
  page_height = 792;
}

-- The tile in the second column is in flight already.
abbrev busy : RenderScheduler
busy = record { generation = 4; in_flight = (0, 1, 0) ∷ [] }

schedule_viewport_covers_example :
    contains (0, 1, 0) (schedule_viewport busy letter 1).0.in_flight ≡ true
schedule_viewport_covers_example =
    schedule_viewport_covers busy letter 1 [] [] window 300 10 refl (record {
      no_wrap = (omega arith, omega arith);
      from_x = omega arith;
      to_x = omega arith;
      from_y = omega arith;
      to_y = omega arith;
      on_page = (omega arith, omega arith);
    })

schedule_viewport_lem_example :
    let tiles = keys_of (decompose_with_prefetch letter 4 1) in
    let (after, fresh) = schedule_viewport busy letter 1 in
    ((k : TileKey)
      → contains k (keys_of fresh) ≡ (contains k tiles && not (contains k busy.in_flight)))
    × Distinct (keys_of fresh)
    × ((k : TileKey) → contains k after.in_flight ≡ (contains k busy.in_flight || contains k tiles))
    × (schedule_viewport after letter 1 ≡ (after, []))
schedule_viewport_lem_example = schedule_viewport_lem busy letter 1

decompose_with_prefetch_lem_example :
    let seen = decompose letter 4 in
    let rest = prefetch_tiles letter (keys_of seen) 4 1 letter.regions in
    (decompose_with_prefetch letter 4 1 ≡ seen ++ rest)
    × All (IsTile letter 4 Priority.visible) seen
    × All (IsTile letter 4 Priority.prefetch) rest
    × All (λ r. contains (key_of r) (keys_of seen) ≡ false) rest
decompose_with_prefetch_lem_example = decompose_with_prefetch_lem letter 4 1
