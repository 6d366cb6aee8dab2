-- ===== src/Memory.antt =====
-- core/coordinator/src/memory.rs: the memory governor's ledger and the thumbnail cache that it
-- bounds. A byte of pixels is one element of a list. The mutex around the ledger is not modelled: a
-- call sees and leaves one ledger, and a poisoned lock does not occur.
pub mod Inv
pub mod Insert
pub mod Invalidate
mod Tests
use pdf_platform.Common.Map.{has, insert, keys, lookup, remove}
use pdf_platform.Common.{
  ℕ, ◌&&◌, ◌*◌, ◌+◌, ◌++◌, ◌-◌, Bool, List, Option, Result, [], ◌^◌, arith, if◌then◌else◌, err,
  false, length, ltb, none, ok, some, suc, true, zero, ◌||◌, ◌↔◌, ◌∷◌, ◌≡◌,
}
use pdf_platform.Common.Keys.{◌==◌, Eq, retain_ne, nat_eq}

pub record MemoryLedger : Type 0 where
  pub global_ceiling : ℕ
  pub thumbnail_budget : ℕ
  pub thumbnail_usage : ℕ

pub data MemoryGovernorError : Type 0 where
  invalid_budget : MemoryGovernorError

-- `MemoryGovernor::new`
unfoldable pub new_governor : ℕ → ℕ → Result MemoryGovernorError MemoryLedger
new_governor global_ceiling thumbnail_budget =
    if global_ceiling == 0 || (thumbnail_budget == 0 || ltb global_ceiling thumbnail_budget)
    then err invalid_budget
    else ok (record {
      global_ceiling = global_ceiling;
      thumbnail_budget = thumbnail_budget;
      thumbnail_usage = 0;
    })

-- `usize::checked_add`
abbrev pub checked_add_usize : ℕ → ℕ → Option ℕ
checked_add_usize a b = if ltb (a + b) (2 ^ 64) then some (a + b) else none

-- `u32::checked_mul`
abbrev pub checked_mul_u32 : ℕ → ℕ → Option ℕ
checked_mul_u32 a b = if ltb (a * b) (2 ^ 32) then some (a * b) else none

reserve_next : MemoryLedger → Option ℕ → MemoryLedger × Bool
reserve_next l none = (l, false)
reserve_next l (some next) =
    if ltb l.thumbnail_budget next || ltb l.global_ceiling next
    then (l, false)
    else (record l { thumbnail_usage = next }, true)

unfoldable pub reserve_thumbnail : MemoryLedger → ℕ → MemoryLedger × Bool
unfolding reserve_next
reserve_thumbnail l bytes = reserve_next l (checked_add_usize l.thumbnail_usage bytes)

-- The subtraction saturates.
unfoldable pub release_thumbnail : MemoryLedger → ℕ → MemoryLedger
release_thumbnail l bytes = record l { thumbnail_usage = l.thumbnail_usage - bytes }

pub record ThumbnailCacheKey : Type 0 where
  pub document : ℕ
  pub page : ℕ
  pub width : ℕ
  pub height : ℕ
  pub generation : ℕ
  pub revision : ℕ

abbrev pub thumbnail_key_beq : ThumbnailCacheKey → ThumbnailCacheKey → Bool
thumbnail_key_beq a b =
    a.document == b.document
    && (a.page == b.page
        && (a.width == b.width
            && (a.height == b.height
                && (a.generation == b.generation && a.revision == b.revision))))

pub thumbnail_key_beq_iff : (a b : ThumbnailCacheKey) → (thumbnail_key_beq a b ≡ true) ↔ (a ≡ b)
thumbnail_key_beq_iff a b = ground arith

instance abbrev pub thumbnail_key_eq : Eq ThumbnailCacheKey
thumbnail_key_eq = record { eqb = thumbnail_key_beq; eqb_iff = thumbnail_key_beq_iff }

pub data ThumbnailCacheError : Type 0 where
  invalid_pixel_length budget_exceeded : ThumbnailCacheError

-- The ledger is that of the shared governor, which other caches may also have charged.
pub record ThumbnailCache : Type 0 where
  pub ledger : MemoryLedger
  pub entries : List (ThumbnailCacheKey × List ℕ)
  pub lru : List ThumbnailCacheKey

unfoldable pub new_cache : MemoryLedger → ThumbnailCache
new_cache governor = record { ledger = governor; entries = []; lru = [] }

-- `width × height × 4` in checked u32 arithmetic.
unfoldable pub expected_length : ThumbnailCacheKey → Option ℕ
expected_length key = elim (checked_mul_u32 key.width key.height) [
  | none ↦ none
  | some value ↦ checked_mul_u32 value 4
]

unfoldable pub remove_thumbnail : ThumbnailCache → ThumbnailCacheKey → ThumbnailCache
remove_thumbnail c key = elim (lookup key c.entries) [
  | none ↦ c
  | some pixels ↦ record c {
    ledger = release_thumbnail c.ledger (length pixels);
    entries = remove key c.entries;
    lru = retain_ne key c.lru;
  }
]

-- What `evict_lru` releases when the front key has an entry.
release_entry : MemoryLedger → Option (List ℕ) → MemoryLedger
release_entry l none = l
release_entry l (some pixels) = release_thumbnail l (length pixels)

unfoldable pub evict_lru : ThumbnailCache → ThumbnailCache × Bool
unfolding release_entry
evict_lru c = elim c.lru [
  | [] ↦ (c, false)
  | key ∷ rest ↦ (
    record c {
      ledger = release_entry c.ledger (lookup key c.entries);
      entries = remove key c.entries;
      lru = rest;
    },
    true,
  )
]

-- The `while !reserve { if !evict { return Err } }` of `insert`, with `true` for a reservation. Each
-- round but the last pops a key, so one more than the length of `lru` is enough fuel.
unfoldable pub reserve_while : ℕ → ThumbnailCache → ℕ → ThumbnailCache × Bool
reserve_while zero c bytes = (c, false)
reserve_while (suc fuel) c bytes = elim (reserve_thumbnail c.ledger bytes).1 [
  | true ↦ (record c { ledger = (reserve_thumbnail c.ledger bytes).0 }, true)
  | false ↦ elim (evict_lru c).1 [
    | true ↦ reserve_while fuel (evict_lru c).0 bytes
    | false ↦ (c, false)
  ]
]

-- The last lines of `insert`, after the loop.
store_reserved :
    ThumbnailCacheKey
    → List ℕ
    → ThumbnailCache × Bool
    → ThumbnailCache × Result ThumbnailCacheError (Unit {0})
store_reserved key pixels (c, true) =
    (record c { entries = insert key pixels c.entries; lru = c.lru ++ key ∷ [] }, ok tt)
store_reserved key pixels (c, false) = (c, err budget_exceeded)

insert_sized :
    ThumbnailCache
    → ThumbnailCacheKey
    → List ℕ
    → ThumbnailCache × Result ThumbnailCacheError (Unit {0})
unfolding store_reserved
insert_sized c key pixels =
    let cleared = remove_thumbnail c key in
    store_reserved key pixels (reserve_while (suc (length cleared.lru)) cleared (length pixels))

insert_expected :
    Option ℕ
    → ThumbnailCache
    → ThumbnailCacheKey
    → List ℕ
    → ThumbnailCache × Result ThumbnailCacheError (Unit {0})
unfolding insert_sized
insert_expected none c key pixels = (c, err invalid_pixel_length)
insert_expected (some expected) c key pixels =
    if length pixels == expected then insert_sized c key pixels else (c, err invalid_pixel_length)

unfoldable pub insert_thumbnail :
    ThumbnailCache
    → ThumbnailCacheKey
    → List ℕ
    → ThumbnailCache × Result ThumbnailCacheError (Unit {0})
unfolding insert_expected
insert_thumbnail c key pixels = insert_expected (expected_length key) c key pixels

unfoldable pub get_thumbnail : ThumbnailCache → ThumbnailCacheKey → ThumbnailCache × Option (List ℕ)
get_thumbnail c key =
    if has key c.entries
    then (record c { lru = retain_ne key c.lru ++ key ∷ [] }, lookup key c.entries)
    else (c, none)

unfoldable pub keys_before : ℕ → List ThumbnailCacheKey → List ThumbnailCacheKey
keys_before generation [] = []
keys_before generation (k ∷ ks) =
    if ltb k.generation generation then k ∷ keys_before generation ks else keys_before generation ks

unfoldable pub remove_thumbnails : ThumbnailCache → List ThumbnailCacheKey → ThumbnailCache
remove_thumbnails c [] = c
remove_thumbnails c (k ∷ ks) = remove_thumbnails (remove_thumbnail c k) ks

unfoldable pub invalidate_before_generation : ThumbnailCache → ℕ → ThumbnailCache × ℕ
invalidate_before_generation c generation =
    let stale = keys_before generation (keys c.entries) in (remove_thumbnails c stale, length stale)

-- `entries.values().map(Vec::len).sum()`
unfoldable pub total_bytes : List (ThumbnailCacheKey × List ℕ) → ℕ
total_bytes [] = 0
total_bytes ((k, pixels) ∷ m) = length pixels + total_bytes m

-- `Drop`: the ledger that the governor keeps after the cache is gone.
unfoldable pub drop_cache : ThumbnailCache → MemoryLedger
drop_cache c = release_thumbnail c.ledger (total_bytes c.entries)
