-- ===== src/Render/Scheduler/Tiles.antt =====
-- What each requested tile is like, and the order of the requests
-- (core/render-pipeline/src/scheduler.rs).
use pdf_platform.Render.Scheduler.{
  Priority, TileKey, TileRequest, Viewport, ViewportRegion, as_u8, insert_request, over_columns,
  over_grid, prefetch_at, prefetch_tiles, region_prefetch, region_tiles, sort_by_priority, tile_at,
  visible_tiles, tile_edge_px, grid_key_eq, decompose, decompose_with_prefetch, key_of, keys_of,
}
use mathlib.Core.List.{append-nil}
use pdf_platform.Common.Decimal.{All-append}
use pdf_platform.Common.{
  ℕ, List, ◌+◌, ◌<◌, All, Bool-cases, [], inl, inr, refl, ◌∷◌, ◌≡◌, ◌≤◌, ◌%◌, ◌*◌, ◌++◌, ◌-◌, ◌^◌,
  arith, false, leb, min, true, ◌||◌, ◌==◌, subst, ◌∙◌, sym,
}
use pdf_platform.Common.Keys.{contains}

module _ {F32 : Type 0} where
  -- A tile of at most 256 by 256 pixels within the page, of the given generation and priority.
  pub record IsTile (v : Viewport F32) (generation : ℕ) (priority : Priority) (t : TileRequest F32)
      : Type 0 where
    pub width : (0 < t.w) × (t.w ≤ tile_edge_px) × (t.x + t.w ≤ v.page_width)
    pub height : (0 < t.h) × (t.h ≤ tile_edge_px) × (t.y + t.h ≤ v.page_height)
    pub same_generation : t.generation ≡ generation
    pub same_priority : t.priority ≡ as_u8 priority

  tile_at-IsTile :
      (v : Viewport F32) (page : ℕ) (priority : Priority) (generation row col : ℕ)
      → All (IsTile v generation priority) (tile_at v page priority generation row col)
  unfolding tile_at
  tile_at-IsTile v page priority generation row col =
      let w = min (v.page_width - col * tile_edge_px % 2 ^ 32) tile_edge_px in
      let h = min (v.page_height - row * tile_edge_px % 2 ^ 32) tile_edge_px in
      elim (Bool-cases (w == 0 || h == 0)) [
        | inl empty ↦ rw empty tt
        | inr some_pixels ↦
            let across : 0 < w = ground arith in
            let down : 0 < h = ground arith in
            rw some_pixels (
              record {
                width = (across, omega arith, omega arith);
                height = (down, omega arith, omega arith);
                same_generation = refl;
                same_priority = refl;
              },
              tt,
            )
      ]

  over_columns-All :
      (P : TileRequest F32 → Type 0) (f : ℕ → List (TileRequest F32)) (cols : List ℕ)
      → ((col : ℕ) → All P (f col))
      → All P (over_columns f cols)
  unfolding over_columns
  over_columns-All P f [] h = tt
  over_columns-All P f (c ∷ cols) h =
      All-append P (f c) (over_columns f cols) (h c) (over_columns-All P f cols h)

  over_grid-All :
      (P : TileRequest F32 → Type 0) (f : ℕ → ℕ → List (TileRequest F32)) (cols rows : List ℕ)
      → ((row col : ℕ) → All P (f row col))
      → All P (over_grid f cols rows)
  unfolding over_grid
  over_grid-All P f cols [] h = tt
  over_grid-All P f cols (r ∷ rows) h =
      All-append P (over_columns (f r) cols) (over_grid f cols rows)
        (over_columns-All P (f r) cols (h r)) (over_grid-All P f cols rows h)

  visible_tiles-IsTile :
      (v : Viewport F32) (generation : ℕ) (regions : List ViewportRegion)
      → All (IsTile v generation Priority.visible) (visible_tiles v generation regions)
  unfolding visible_tiles region_tiles
  visible_tiles-IsTile v generation [] = tt
  visible_tiles-IsTile v generation (r ∷ regions) =
      All-append (IsTile v generation Priority.visible) (region_tiles v generation r)
        (visible_tiles v generation regions)
        (over_grid-All (IsTile v generation Priority.visible) _ _ _
          (λ row col. tile_at-IsTile v r.page Priority.visible generation row col))
        (visible_tiles-IsTile v generation regions)

  prefetch_at-IsTile :
      (v : Viewport F32) (seen : List TileKey) (page generation row col : ℕ)
      → All (IsTile v generation Priority.prefetch) (prefetch_at v seen page generation row col)
  unfolding prefetch_at
  prefetch_at-IsTile v seen page generation row col =
      elim (Bool-cases (contains (page, col, row) seen)) [
        | inl known ↦ rw known tt
        | inr other ↦ rw other (tile_at-IsTile v page Priority.prefetch generation row col)
      ]

  prefetch_at-new :
      (v : Viewport F32) (seen : List TileKey) (page generation row col : ℕ)
      → All (λ r. contains (key_of r) seen ≡ false) (prefetch_at v seen page generation row col)
  unfolding prefetch_at tile_at
  prefetch_at-new v seen page generation row col =
      elim (Bool-cases (contains (page, col, row) seen)) [
        | inl known ↦ rw known tt
        | inr other ↦ rw other (ground (arith, other))
      ]

  prefetch_tiles-All :
      (P : TileRequest F32 → Type 0) (v : Viewport F32) (seen : List TileKey)
      (generation margin : ℕ) (regions : List ViewportRegion)
      → ((page row col : ℕ) → All P (prefetch_at v seen page generation row col))
      → All P (prefetch_tiles v seen generation margin regions)
  unfolding prefetch_tiles region_prefetch
  prefetch_tiles-All P v seen generation margin [] h = tt
  prefetch_tiles-All P v seen generation margin (r ∷ regions) h =
      All-append P (region_prefetch v seen generation margin r)
        (prefetch_tiles v seen generation margin regions)
        (over_grid-All P _ _ _ (λ row col. h r.page row col))
        (prefetch_tiles-All P v seen generation margin regions h)

  -- Requests in order of priority stay where they are.
  insert_request-front :
      (r : TileRequest F32) (rs : List (TileRequest F32))
      → All (λ q. r.priority ≤ q.priority) rs
      → insert_request r rs ≡ r ∷ rs
  unfolding insert_request
  insert_request-front r [] h = refl
  insert_request-front r (q ∷ qs) h =
      let first : leb r.priority q.priority ≡ true = ground (arith, h.0) in rw first refl

  at_least :
      (p : ℕ) (x : TileRequest F32)
      → x.priority ≡ p
      → (rs : List (TileRequest F32)) → All (λ r. p ≤ r.priority) rs
      → All (λ r. x.priority ≤ r.priority) rs
  at_least p x same [] h = tt
  at_least p x same (r ∷ rs) h = (ground (arith, h.0), at_least p x same rs h.1)

  sort_by_priority-append :
      (p : ℕ) (xs ys : List (TileRequest F32))
      → All (λ r. r.priority ≡ p) xs
      → All (λ r. p ≤ r.priority) ys
      → sort_by_priority ys ≡ ys
      → (sort_by_priority (xs ++ ys) ≡ xs ++ ys) × All (λ r. p ≤ r.priority) (xs ++ ys)
  unfolding sort_by_priority
  sort_by_priority-append p [] ys hx hy sorted = (sorted, hy)
  sort_by_priority-append p (x ∷ xs) ys hx hy sorted =
      let rest = sort_by_priority-append p xs ys hx.1 hy sorted in
      (
        rw rest.0 (insert_request-front x (xs ++ ys) (at_least p x hx.0 (xs ++ ys) rest.1)),
        (ground (arith, hx.0), rest.1),
      )

  All-map :
      (P Q : TileRequest F32 → Type 0) (rs : List (TileRequest F32))
      → ((r : TileRequest F32) → P r → Q r)
      → All P rs
      → All Q rs
  All-map P Q [] f h = tt
  All-map P Q (r ∷ rs) f h = (f r h.0, All-map P Q rs f h.1)

  -- Tiles of one priority stay where they are.
  sort_by_priority-IsTile :
      (v : Viewport F32) (generation : ℕ) (priority : Priority) (rs : List (TileRequest F32))
      → All (IsTile v generation priority) rs
      → sort_by_priority rs ≡ rs
  sort_by_priority-IsTile v generation priority rs h =
      let same =
        All-map (IsTile v generation priority) (λ r. r.priority ≡ as_u8 priority) rs
          (λ r t. t.same_priority) h in
      subst (λ ts. sort_by_priority ts ≡ ts) (append-nil rs)
        (sort_by_priority-append (as_u8 priority) rs [] same tt (unfold sort_by_priority in refl)).0

  decompose-visible_tiles :
      (v : Viewport F32) (generation : ℕ)
      → decompose v generation ≡ visible_tiles v generation v.regions
  unfolding decompose
  decompose-visible_tiles v generation =
      sort_by_priority-IsTile v generation Priority.visible (visible_tiles v generation v.regions)
        (visible_tiles-IsTile v generation v.regions)

  -- The requests are the visible tiles and then the prefetched ones, which are not visible; each has from
  -- 1 to 256 pixels across and down, lies on the page, and bears the generation.
  pub decompose_with_prefetch_lem :
      (v : Viewport F32) (generation margin : ℕ)
      → let seen = decompose v generation in
        let rest = prefetch_tiles v (keys_of seen) generation margin v.regions in
        (decompose_with_prefetch v generation margin ≡ seen ++ rest)
        × All (IsTile v generation Priority.visible) seen
        × All (IsTile v generation Priority.prefetch) rest
        × All (λ r. contains (key_of r) (keys_of seen) ≡ false) rest
  unfolding decompose_with_prefetch
  decompose_with_prefetch_lem v generation margin =
      let seen = decompose v generation in
      let rest = prefetch_tiles v (keys_of seen) generation margin v.regions in
      let seen_tiles : All (IsTile v generation Priority.visible) seen =
        subst (All (IsTile v generation Priority.visible))
          (sym (decompose-visible_tiles v generation))
          (visible_tiles-IsTile v generation v.regions) in
      let rest_tiles : All (IsTile v generation Priority.prefetch) rest =
        prefetch_tiles-All (IsTile v generation Priority.prefetch) v (keys_of seen) generation
          margin v.regions
          (λ page row col. prefetch_at-IsTile v (keys_of seen) page generation row col) in
      let zero_priority =
        All-map (IsTile v generation Priority.visible) (λ r. r.priority ≡ 0) seen
          (λ r t. t.same_priority ∙ (unfold as_u8 in refl)) seen_tiles in
      let later =
        All-map (IsTile v generation Priority.prefetch) (λ r. 0 ≤ r.priority) rest
          (λ r t. omega arith) rest_tiles in
      (
        (sort_by_priority-append 0 seen rest zero_priority later
            (sort_by_priority-IsTile v generation Priority.prefetch rest rest_tiles)).0,
        seen_tiles,
        rest_tiles,
        prefetch_tiles-All (λ r. contains (key_of r) (keys_of seen) ≡ false) v (keys_of seen)
            generation margin v.regions
            (λ page row col. prefetch_at-new v (keys_of seen) page generation row col),
      )
