-- ===== src/Render/Scheduler/Coverage.antt =====
-- The tiles that a viewport decomposes into, and the pixels they cover
-- (core/render-pipeline/src/scheduler.rs).
use pdf_platform.Render.Scheduler.{
  TileKey, TileRequest, admit, key_of, keys_of, grid_key_eq, Priority, Viewport, inclusive,
  insert_request, over_columns, over_grid, sort_by_priority, tile_at, up_from, tile_edge_px,
  ViewportRegion, first_tile, last_tile, region_tiles, RenderScheduler, decompose,
  decompose_with_prefetch, prefetch_tiles, schedule_viewport, visible_tiles,
}
use pdf_platform.Render.Scheduler.Admission.{
  admit_again, admitted-contains, fresh-contains, fresh-Distinct,
}
use pdf_platform.Common.Keys.{◌==◌, Distinct, contains, contains-append, nat_eq}
use pdf_platform.Common.{
  ℕ, List, ◌%◌, ◌*◌, ◌+◌, ◌++◌, ◌-◌, ◌<◌, [], ◌^◌, ap, arith, map, refl, suc, true, zero, ◌||◌, ◌∙◌,
  ◌∷◌, ◌≡◌, ◌≤◌, ◌/◌, Bool-cases, inl, inr, ◌&&◌, not,
}

up_from-contains :
    (k start count : ℕ) → start ≤ k → k < start + count → contains k (up_from start count) ≡ true
unfolding contains up_from
up_from-contains k start zero l h = ground arith
up_from-contains k start (suc count) l h = ground (arith, up_from-contains k (start + 1) count)

inclusive-contains :
    (k start end : ℕ) → start ≤ k → k ≤ end → contains k (inclusive start end) ≡ true
unfolding inclusive
inclusive-contains k start end l h = up_from-contains k start (end + 1 - start) l (omega arith)

-- The tiles of a span hold each of its pixels.
span_tiles :
    (start size p : ℕ)
    → start + size < 2 ^ 32
    → start ≤ p
    → p < start + size
    → (first_tile start ≤ p / tile_edge_px) × (p / tile_edge_px ≤ last_tile start size)
unfolding first_tile last_tile
span_tiles start size p b l h = (omega arith, omega arith)

-- A tile starts on the page when it holds a pixel of the page.
tile_starts : (p limit : ℕ) → p < limit → p / tile_edge_px * tile_edge_px % 2 ^ 32 < limit
tile_starts p limit h = omega arith

map-append : {A B : Type 0} (f : A → B) (xs ys : List A) → map f (xs ++ ys) ≡ map f xs ++ map f ys
map-append f [] ys = refl
map-append f (x ∷ xs) ys = ap (◌∷◌ (f x)) (map-append f xs ys)

module _ {F32 : Type 0} where
  keys_of-append :
      (k : TileKey) (xs ys : List (TileRequest F32))
      → contains k (keys_of (xs ++ ys)) ≡ (contains k (keys_of xs) || contains k (keys_of ys))
  keys_of-append k xs ys =
      ap (contains k) (map-append key_of xs ys) ∙ contains-append k (keys_of xs) (keys_of ys)

  -- Sorting keeps the tiles.
  insert_request-contains :
      (k : TileKey) (r : TileRequest F32) (rs : List (TileRequest F32))
      → contains k (keys_of (insert_request r rs)) ≡ contains k (keys_of (r ∷ rs))
  unfolding insert_request contains
  insert_request-contains k r [] = refl
  insert_request-contains k r (q ∷ qs) = ground (arith, insert_request-contains k r qs)

  sort_by_priority-contains :
      (k : TileKey) (rs : List (TileRequest F32))
      → contains k (keys_of (sort_by_priority rs)) ≡ contains k (keys_of rs)
  unfolding sort_by_priority contains
  sort_by_priority-contains k [] = refl
  sort_by_priority-contains k (r ∷ rs) =
      ground
        (arith, insert_request-contains k r (sort_by_priority rs), sort_by_priority-contains k rs)

  over_columns-contains :
      (k : TileKey) (f : ℕ → List (TileRequest F32)) (col : ℕ) (cols : List ℕ)
      → contains col cols ≡ true
      → contains k (keys_of (f col)) ≡ true
      → contains k (keys_of (over_columns f cols)) ≡ true
  unfolding over_columns contains
  over_columns-contains k f col [] m h = ground arith
  over_columns-contains k f col (c ∷ cols) m h = elim (Bool-cases (c == col)) [
    | inl same ↦
        let here : contains k (keys_of (f c)) ≡ true =
          ap (λ n. contains k (keys_of (f n))) ((nat_eq.eqb_iff c col).0 same) ∙ h in
        ground (arith, keys_of-append k (f c) (over_columns f cols), here)
    | inr other ↦
        let there = over_columns-contains k f col cols (ground (arith, m, other)) h in
        ground (arith, keys_of-append k (f c) (over_columns f cols), there)
  ]

  over_grid-contains :
      (k : TileKey) (f : ℕ → ℕ → List (TileRequest F32)) (col row : ℕ) (cols rows : List ℕ)
      → contains col cols ≡ true
      → contains row rows ≡ true
      → contains k (keys_of (f row col)) ≡ true
      → contains k (keys_of (over_grid f cols rows)) ≡ true
  unfolding over_grid contains
  over_grid-contains k f col row cols [] c r h = ground arith
  over_grid-contains k f col row cols (q ∷ rows) c r h = elim (Bool-cases (q == row)) [
    | inl same ↦
        let here : contains k (keys_of (over_columns (f q) cols)) ≡ true =
          over_columns-contains k (f q) col cols c
            (ap (λ n. contains k (keys_of (f n col))) ((nat_eq.eqb_iff q row).0 same) ∙ h) in
        ground (arith, keys_of-append k (over_columns (f q) cols) (over_grid f cols rows), here)
    | inr other ↦
        let there = over_grid-contains k f col row cols rows c (ground (arith, r, other)) h in
        ground (arith, keys_of-append k (over_columns (f q) cols) (over_grid f cols rows), there)
  ]

  tile_at-contains :
      (v : Viewport F32) (page : ℕ) (priority : Priority) (generation row col : ℕ)
      → col * tile_edge_px % 2 ^ 32 < v.page_width
      → row * tile_edge_px % 2 ^ 32 < v.page_height
      → contains (page, col, row) (keys_of (tile_at v page priority generation row col)) ≡ true
  unfolding tile_at contains
  tile_at-contains v page priority generation row col w h = ground arith

  -- A pixel of a visible region and of the page.
  pub record IsVisible (v : Viewport F32) (region : ViewportRegion) (px py : ℕ) : Type 0 where
    pub no_wrap : (region.x + region.w < 2 ^ 32) × (region.y + region.h < 2 ^ 32)
    pub from_x : region.x ≤ px
    pub to_x : px < region.x + region.w
    pub from_y : region.y ≤ py
    pub to_y : py < region.y + region.h
    pub on_page : (px < v.page_width) × (py < v.page_height)

  region_tiles-contains :
      (v : Viewport F32) (generation : ℕ) (region : ViewportRegion) (px py : ℕ)
      → IsVisible v region px py
      → contains
          (region.page, px / tile_edge_px, py / tile_edge_px)
          (keys_of (region_tiles v generation region))
        ≡ true
  unfolding region_tiles
  region_tiles-contains v generation region px py h =
      let across = span_tiles region.x region.w px h.no_wrap.0 h.from_x h.to_x in
      let down = span_tiles region.y region.h py h.no_wrap.1 h.from_y h.to_y in
      over_grid-contains (region.page, px / tile_edge_px, py / tile_edge_px)
        (tile_at v region.page Priority.visible generation) (px / tile_edge_px) (py / tile_edge_px)
        _ _ (inclusive-contains (px / tile_edge_px) _ _ across.0 across.1)
        (inclusive-contains (py / tile_edge_px) _ _ down.0 down.1)
        (tile_at-contains v region.page Priority.visible generation (py / tile_edge_px)
          (px / tile_edge_px) (tile_starts px v.page_width h.on_page.0)
          (tile_starts py v.page_height h.on_page.1))

  visible_tiles-contains :
      (v : Viewport F32) (generation : ℕ) (before after : List ViewportRegion)
      (region : ViewportRegion) (px py : ℕ)
      → IsVisible v region px py
      → contains
          (region.page, px / tile_edge_px, py / tile_edge_px)
          (keys_of (visible_tiles v generation (before ++ region ∷ after)))
        ≡ true
  unfolding visible_tiles
  visible_tiles-contains v generation [] after region px py h = ground (
    arith,
    keys_of-append (region.page, px / tile_edge_px, py / tile_edge_px)
        (region_tiles v generation region) (visible_tiles v generation after),
    region_tiles-contains v generation region px py h,
  )
  visible_tiles-contains v generation (r ∷ before) after region px py h = ground (
    arith,
    keys_of-append (region.page, px / tile_edge_px, py / tile_edge_px) (region_tiles v generation r)
        (visible_tiles v generation (before ++ region ∷ after)),
    visible_tiles-contains v generation before after region px py h,
  )

  decompose-contains :
      (v : Viewport F32) (generation margin : ℕ) (before after : List ViewportRegion)
      (region : ViewportRegion) (px py : ℕ)
      → v.regions ≡ before ++ region ∷ after
      → IsVisible v region px py
      → contains
          (region.page, px / tile_edge_px, py / tile_edge_px)
          (keys_of (decompose_with_prefetch v generation margin))
        ≡ true
  unfolding decompose_with_prefetch decompose
  decompose-contains v generation margin before after region px py split h =
      let key : TileKey = (region.page, px / tile_edge_px, py / tile_edge_px) in
      let here : contains key (keys_of (visible_tiles v generation v.regions)) ≡ true =
        ap (λ rs. contains key (keys_of (visible_tiles v generation rs))) split
        ∙ visible_tiles-contains v generation before after region px py h in
      let seen = decompose v generation in
      let rest = prefetch_tiles v (keys_of seen) generation margin v.regions in
      sort_by_priority-contains key (seen ++ rest)
      ∙ ground (
        arith,
        keys_of-append key seen rest,
        sort_by_priority-contains key (visible_tiles v generation v.regions),
        here,
      )

  -- After a viewport is scheduled, the tile of each pixel that lies in one of its regions and on the page
  -- is in flight, when the region ends below 2^32.
  pub schedule_viewport_covers :
      (s : RenderScheduler) (v : Viewport F32) (margin : ℕ) (before after : List ViewportRegion)
      (region : ViewportRegion) (px py : ℕ)
      → v.regions ≡ before ++ region ∷ after
      → IsVisible v region px py
      → contains
          (region.page, px / tile_edge_px, py / tile_edge_px)
          (schedule_viewport s v margin).0.in_flight
        ≡ true
  unfolding schedule_viewport
  schedule_viewport_covers s v margin before after region px py split h = ground (
    arith,
    admitted-contains (region.page, px / tile_edge_px, py / tile_edge_px) s.in_flight
        (decompose_with_prefetch v s.generation margin),
    decompose-contains v s.generation margin before after region px py split h,
  )

  -- The requests of a viewport are those of its tiles that are not in flight, each once; they join the
  -- tiles in flight, and the same viewport asks for nothing more.
  pub schedule_viewport_lem :
      (s : RenderScheduler) (v : Viewport F32) (margin : ℕ)
      → let tiles = keys_of (decompose_with_prefetch v s.generation margin) in
        let (after, fresh) = schedule_viewport s v margin in
        ((k : TileKey)
          → contains k (keys_of fresh) ≡ (contains k tiles && not (contains k s.in_flight)))
        × Distinct (keys_of fresh)
        × ((k : TileKey)
            → contains k after.in_flight ≡ (contains k s.in_flight || contains k tiles))
        × (schedule_viewport after v margin ≡ (after, []))
  unfolding schedule_viewport
  schedule_viewport_lem s v margin =
      let rs = decompose_with_prefetch v s.generation margin in
      let again =
        admit_again (admit s.in_flight rs).0 rs
          (λ k m. ground (arith, admitted-contains k s.in_flight rs, m)) in
      (
        λ k. fresh-contains k s.in_flight rs,
        fresh-Distinct s.in_flight rs,
        λ k. admitted-contains k s.in_flight rs,
        rw again refl,
      )
