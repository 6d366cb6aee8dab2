-- ===== src/Render/Scheduler.antt =====
-- core/render-pipeline/src/scheduler.rs: decomposing a viewport into tiles, and the scheduler's set of
-- tiles in flight. Coordinates are u32, with the wrap-around of a release build written out; the type
-- of scales is a parameter.
pub mod Admission
pub mod Coverage
mod Tests
pub mod Tiles
use pdf_platform.Protocol.Handles.{tile_edge_px}
use pdf_platform.Common.Keys.{◌==◌, Eq, contains, nat_eq, retain_ne}
use pdf_platform.Common.{
  ℕ, List, Bool, ◌%◌, ◌&&◌, ◌*◌, ◌+◌, ◌++◌, ◌-◌, ◌/◌, [], ◌^◌, arith, if◌then◌else◌, false, leb,
  map, min, suc, true, zero, ◌||◌, ◌↔◌, ◌∷◌, ◌≡◌,
}

pub data Priority : Type 0 where
  visible : Priority
  prefetch : Priority
  thumbnail : Priority
  background : Priority

unfoldable pub as_u8 : Priority → ℕ
as_u8 Priority.visible = 0
as_u8 Priority.prefetch = 1
as_u8 Priority.thumbnail = 2
as_u8 Priority.background = 3

pub record TileCoord : Type 0 where
  pub col : ℕ
  pub row : ℕ

pub record TileRequest (F32 : Type 0) : Type 0 where
  pub page : ℕ
  pub coord : TileCoord
  pub x : ℕ
  pub y : ℕ
  pub w : ℕ
  pub h : ℕ
  pub scale : F32
  pub priority : ℕ
  pub generation : ℕ

pub record ViewportRegion : Type 0 where
  pub page : ℕ
  pub x : ℕ
  pub y : ℕ
  pub w : ℕ
  pub h : ℕ

pub record Viewport (F32 : Type 0) : Type 0 where
  pub regions : List ViewportRegion
  pub scale : F32
  pub rotation : ℕ
  pub page_width : ℕ
  pub page_height : ℕ

-- Page, column and row.
abbrev pub TileKey : Type 0
TileKey = ℕ × ℕ × ℕ

abbrev pub grid_key_beq : TileKey → TileKey → Bool
grid_key_beq (p, c, r) (q, d, s) = p == q && c == d && r == s

pub grid_key_beq_iff : (a b : TileKey) → (grid_key_beq a b ≡ true) ↔ (a ≡ b)
grid_key_beq_iff (p, c, r) (q, d, s) = ground arith

instance abbrev pub grid_key_eq : Eq TileKey
grid_key_eq = record { eqb = grid_key_beq; eqb_iff = grid_key_beq_iff }

unfoldable pub up_from : ℕ → ℕ → List ℕ
up_from start zero = []
up_from start (suc count) = start ∷ up_from (start + 1) count

-- The range `start..=end`.
unfoldable pub inclusive : ℕ → ℕ → List ℕ
inclusive start end = up_from start (end + 1 - start)

-- The columns, or rows, of the tiles that `start..start + size` meets.
unfoldable pub first_tile : ℕ → ℕ
first_tile start = start / tile_edge_px

unfoldable pub last_tile : ℕ → ℕ → ℕ
last_tile start size = ((start + size) % 2 ^ 32 - 1) / tile_edge_px

module _ {A : Type 0} where
  unfoldable pub over_columns : (ℕ → List A) → List ℕ → List A
  over_columns f [] = []
  over_columns f (col ∷ cols) = f col ++ over_columns f cols

  -- `for row in rows { for col in columns { .. } }`, with what each turn pushes.
  unfoldable pub over_grid : (ℕ → ℕ → List A) → List ℕ → List ℕ → List A
  over_grid f cols [] = []
  over_grid f cols (row ∷ rows) = over_columns (f row) cols ++ over_grid f cols rows

module _ {F32 : Type 0} where
  abbrev pub key_of : TileRequest F32 → TileKey
  key_of r = (r.page, r.coord.col, r.coord.row)

  abbrev pub keys_of : List (TileRequest F32) → List TileKey
  keys_of rs = map key_of rs

  -- The tile that one turn pushes, or none when it lies beyond the page.
  unfoldable pub tile_at : Viewport F32 → ℕ → Priority → ℕ → ℕ → ℕ → List (TileRequest F32)
  tile_at v page priority generation row col =
      let tile_x = col * tile_edge_px % 2 ^ 32 in
      let tile_y = row * tile_edge_px % 2 ^ 32 in
      let tile_w = min (v.page_width - tile_x) tile_edge_px in
      let tile_h = min (v.page_height - tile_y) tile_edge_px in
      if tile_w == 0 || tile_h == 0
      then []
      else record {
        page = page;
        coord = record { col = col; row = row };
        x = tile_x;
        y = tile_y;
        w = tile_w;
        h = tile_h;
        scale = v.scale;
        priority = as_u8 priority;
        generation = generation;
      }
        ∷ []

  -- `requests.sort_by_key(|r| r.priority)`, a stable sort.
  unfoldable pub insert_request : TileRequest F32 → List (TileRequest F32) → List (TileRequest F32)
  insert_request r [] = r ∷ []
  insert_request r (q ∷ qs) =
      let rest = insert_request r qs in if leb r.priority q.priority then r ∷ q ∷ qs else q ∷ rest

  unfoldable pub sort_by_priority : List (TileRequest F32) → List (TileRequest F32)
  sort_by_priority [] = []
  sort_by_priority (r ∷ rs) = insert_request r (sort_by_priority rs)

  unfoldable pub region_tiles : Viewport F32 → ℕ → ViewportRegion → List (TileRequest F32)
  region_tiles v generation region =
      over_grid (tile_at v region.page Priority.visible generation)
        (inclusive (first_tile region.x) (last_tile region.x region.w))
        (inclusive (first_tile region.y) (last_tile region.y region.h))

  unfoldable pub visible_tiles : Viewport F32 → ℕ → List ViewportRegion → List (TileRequest F32)
  visible_tiles v generation [] = []
  visible_tiles v generation (region ∷ regions) =
      region_tiles v generation region ++ visible_tiles v generation regions

  unfoldable pub decompose : Viewport F32 → ℕ → List (TileRequest F32)
  decompose v generation = sort_by_priority (visible_tiles v generation v.regions)

  -- A turn of the prefetch loop passes over the tiles that are visible.
  unfoldable pub prefetch_at : Viewport F32 → List TileKey → ℕ → ℕ → ℕ → ℕ → List (TileRequest F32)
  prefetch_at v seen page generation row col =
      if contains (page, col, row) seen
      then []
      else tile_at v page Priority.prefetch generation row col

  unfoldable pub region_prefetch :
      Viewport F32 → List TileKey → ℕ → ℕ → ViewportRegion → List (TileRequest F32)
  region_prefetch v seen generation margin region =
      over_grid (prefetch_at v seen region.page generation)
        (inclusive (first_tile region.x - margin) ((last_tile region.x region.w + margin) % 2 ^ 32))
        (inclusive (first_tile region.y - margin) ((last_tile region.y region.h + margin) % 2 ^ 32))

  unfoldable pub prefetch_tiles :
      Viewport F32 → List TileKey → ℕ → ℕ → List ViewportRegion → List (TileRequest F32)
  prefetch_tiles v seen generation margin [] = []
  prefetch_tiles v seen generation margin (region ∷ regions) =
      region_prefetch v seen generation margin region
      ++ prefetch_tiles v seen generation margin regions

  unfoldable pub decompose_with_prefetch : Viewport F32 → ℕ → ℕ → List (TileRequest F32)
  decompose_with_prefetch v generation margin =
      let requests = decompose v generation in
      sort_by_priority (requests ++ prefetch_tiles v (keys_of requests) generation margin v.regions)

pub record RenderScheduler : Type 0 where
  pub generation : ℕ
  pub in_flight : List TileKey

unfoldable pub new_render_scheduler : RenderScheduler
new_render_scheduler = record { generation = 0; in_flight = [] }

unfoldable pub bump_generation : RenderScheduler → RenderScheduler × ℕ
bump_generation s =
    let next = (s.generation + 1) % 2 ^ 64 in (record { generation = next; in_flight = [] }, next)

-- The loop of `schedule_viewport`: the tiles in flight, and the requests that are new.
unfoldable pub admit :
    {F32 : Type 0} → List TileKey → List (TileRequest F32) → List TileKey × List (TileRequest F32)
admit in_flight [] = (in_flight, [])
admit in_flight (r ∷ rs) = elim (contains (key_of r) in_flight) [
  | true ↦ admit in_flight rs
  | false ↦ let (after, fresh) = admit (in_flight ++ key_of r ∷ []) rs in (after, r ∷ fresh)
]

unfoldable pub schedule_viewport :
    {F32 : Type 0} → RenderScheduler → Viewport F32 → ℕ → RenderScheduler × List (TileRequest F32)
schedule_viewport s v margin =
    let (after, fresh) = admit s.in_flight (decompose_with_prefetch v s.generation margin) in
    (record s { in_flight = after }, fresh)

unfoldable pub mark_completed : RenderScheduler → ℕ → ℕ → ℕ → RenderScheduler
mark_completed s page col row = record s { in_flight = retain_ne (page, col, row) s.in_flight }

unfoldable pub cancel_in_flight : RenderScheduler → RenderScheduler
cancel_in_flight s = record s { in_flight = [] }
