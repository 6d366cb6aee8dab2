-- ===== src/Protocol/Handles.antt =====
-- core/protocol/src/handles.rs: the tile geometry constants and the tile slot descriptor.
-- Widths: `offset`, `len`, `page`, `col`, `row` are u32 and `generation` is u64.
use pdf_platform.Common.{ℕ, ◌*◌}

abbrev pub tile_edge_px : ℕ
tile_edge_px = 256

abbrev pub tile_rgba8_bytes : ℕ
tile_rgba8_bytes = tile_edge_px * tile_edge_px * 4

pub data PixelFormat : Type 0 where
  rgba8 : PixelFormat

pub record TileSlotDesc : Type 0 where
  pub offset : ℕ
  pub len : ℕ
  pub format : PixelFormat
  pub generation : ℕ
  pub page : ℕ
  pub col : ℕ
  pub row : ℕ
