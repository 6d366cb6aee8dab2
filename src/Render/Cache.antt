-- ===== src/Render/Cache.antt =====
-- core/render-pipeline/src/cache.rs: the byte-weighted LRU tile cache. `entries` is the HashMap and
-- `lru` the VecDeque, front first. `usize` sums wrap at 2^64, as in a release build.
pub mod Inv
pub mod Order
pub mod Invalidate
mod Tests
use pdf_platform.Common.{
  ℕ, zero, suc, ◌+◌, ◌-◌, ◌*◌, ◌%◌, ◌^◌, Bool, true, false, not, ◌&&◌, List, [], ◌∷◌, ◌++◌, Option,
  none, some, length, is_empty, ltb, leb, if◌then◌else◌, arith, ◌↔◌, ◌≡◌,
}
use pdf_platform.Common.Keys.{Eq, ◌==◌, nat_eq, contains, retain_ne}
use pdf_platform.Common.Map.{lookup, insert, remove, has, keys}
use pdf_platform.Protocol.Handles.{TileSlotDesc}

pub record TileCacheKey : Type 0 where
  pub page : ℕ
  pub col : ℕ
  pub row : ℕ

abbrev pub tile_key_beq : TileCacheKey → TileCacheKey → Bool
tile_key_beq a b = a.page == b.page && (a.col == b.col && a.row == b.row)

pub tile_key_beq_iff : (a b : TileCacheKey) → (tile_key_beq a b ≡ true) ↔ (a ≡ b)
tile_key_beq_iff a b = ground arith

instance abbrev pub tile_key_eq : Eq TileCacheKey
tile_key_eq = record { eqb = tile_key_beq; eqb_iff = tile_key_beq_iff }

pub record CacheEntry : Type 0 where
  pub desc : TileSlotDesc
  pub generation : ℕ

pub record TileCache : Type 0 where
  pub entries : List (TileCacheKey × CacheEntry)
  pub lru : List TileCacheKey
  pub max_bytes : ℕ
  pub current_bytes : ℕ
  pub tile_bytes : ℕ

abbrev pub add_usize : ℕ → ℕ → ℕ
add_usize a b = (a + b) % 2 ^ 64

unfoldable pub new : ℕ → ℕ → TileCache
new max_bytes tile_bytes = record {
  entries = [];
  lru = [];
  max_bytes = max_bytes;
  current_bytes = 0;
  tile_bytes = tile_bytes;
}

unfoldable pub promote : TileCache → TileCacheKey → TileCache
promote c key = record c { lru = retain_ne key c.lru ++ key ∷ [] }

unfoldable pub get : TileCache → TileCacheKey → TileCache × Option CacheEntry
unfolding promote
get c key = if has key c.entries then (promote c key, lookup key c.entries) else (c, none)

-- `evict_lru` pops the front key; the subtraction saturates.
unfoldable pub evict_lru : TileCache → TileCache
evict_lru c = elim c.lru [
  | [] ↦ c
  | key ∷ rest ↦ record c {
    entries = remove key c.entries;
    lru = rest;
    current_bytes = c.current_bytes - c.tile_bytes;
  }
]

-- The test of the `while` in `insert`.
abbrev pub must_evict : TileCache → Bool
must_evict c = ltb c.max_bytes (add_usize c.current_bytes c.tile_bytes) && not (is_empty c.lru)

-- The `while` of `insert`, on fuel; each round pops one key, so the length of `lru` is enough.
unfoldable pub evict_while : ℕ → TileCache → TileCache
evict_while zero c = c
evict_while (suc fuel) c = elim (must_evict c) [ true ↦ evict_while fuel (evict_lru c) | false ↦ c ]

-- The first `if` of `insert`.
unfoldable pub drop_existing : TileCache → TileCacheKey → TileCache
drop_existing c key =
    if has key c.entries
    then record c {
      entries = remove key c.entries;
      lru = retain_ne key c.lru;
      current_bytes = c.current_bytes - c.tile_bytes;
    }
    else c

-- The last three lines of `insert`.
unfoldable pub push_entry : TileCache → TileCacheKey → CacheEntry → TileCache
push_entry c key entry = record c {
  entries = insert key entry c.entries;
  lru = c.lru ++ key ∷ [];
  current_bytes = add_usize c.current_bytes c.tile_bytes;
}

unfoldable pub insert_tile : TileCache → TileCacheKey → CacheEntry → TileCache
insert_tile c key entry =
    let cleared = drop_existing c key in
    push_entry (evict_while (length cleared.lru) cleared) key entry

-- `remove`; `drop_existing` performs the same changes.
unfoldable pub remove_tile : TileCache → TileCacheKey → TileCache × Option CacheEntry
remove_tile c key = (drop_existing c key, lookup key c.entries)

unfoldable pub remove_all : TileCache → List TileCacheKey → TileCache
remove_all c [] = c
remove_all c (key ∷ ks) = remove_all (remove_tile c key).0 ks

unfoldable pub stale_keys :
    (TileCacheKey → CacheEntry → Bool) → List (TileCacheKey × CacheEntry) → List TileCacheKey
stale_keys p [] = []
stale_keys p ((k, e) ∷ m) = if p k e then k ∷ stale_keys p m else stale_keys p m

abbrev pub is_stale : ℕ → TileCacheKey → CacheEntry → Bool
is_stale generation k e = leb e.generation generation && not (e.generation == 0)

abbrev pub is_stale_on : ℕ → ℕ → TileCacheKey → CacheEntry → Bool
is_stale_on page generation k e = k.page == page && is_stale generation k e

unfoldable pub invalidate_up_to : TileCache → ℕ → TileCache × ℕ
invalidate_up_to c generation =
    let stale = stale_keys (is_stale generation) c.entries in (remove_all c stale, length stale)

unfoldable pub invalidate_page : TileCache → ℕ → ℕ → TileCache × ℕ
invalidate_page c page generation =
    let stale = stale_keys (is_stale_on page generation) c.entries in
    (remove_all c stale, length stale)

unfoldable pub clear : TileCache → TileCache
clear c = record c { entries = []; lru = []; current_bytes = 0 }
