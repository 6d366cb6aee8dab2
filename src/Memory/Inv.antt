-- ===== src/Memory/Inv.antt =====
-- The accounting invariant of the thumbnail cache (core/coordinator/src/memory.rs).
use pdf_platform.Common.Map.{has, insert, lookup, remove, lookup_absent, lookup_present}
use pdf_platform.Common.Keys.{contains, ==_refl}
use pdf_platform.Memory.{
  ThumbnailCache, ThumbnailCacheKey, total_bytes, thumbnail_key_eq, MemoryLedger, get_thumbnail,
  new_cache, new_governor, release_thumbnail, remove_thumbnail, remove_thumbnails, evict_lru,
}
use pdf_platform.Common.KeyQueue.{
  InStep, drop-InStep, empty-InStep, pop-InStep, promote-InStep, has-remove_self,
}
use pdf_platform.Common.{
  ℕ, ◌+◌, ◌<◌, List, [], ◌^◌, arith, false, length, some, ◌∷◌, ◌≡◌, ◌≤◌, Bool-cases, Option, inl,
  inr, none, ok, refl, subst, true,
}

-- The ledger is charged exactly the cached bytes beside `others`, what other holders of the governor
-- have reserved, within both bounds, which a `usize` holds; queue and map are in step.
pub record IsAccounted (others : ℕ) (c : ThumbnailCache) : Type 0 where
  pub in_step : InStep c.lru c.entries
  pub charged : c.ledger.thumbnail_usage ≡ total_bytes c.entries + others
  pub within : c.ledger.thumbnail_usage ≤ c.ledger.thumbnail_budget
  pub ordered : c.ledger.thumbnail_budget ≤ c.ledger.global_ceiling
  pub representable : c.ledger.global_ceiling < 2 ^ 64

total_bytes-remove :
    (k : ThumbnailCacheKey) (m : List (ThumbnailCacheKey × List ℕ)) (pixels : List ℕ)
    → lookup k m ≡ some pixels
    → length pixels + total_bytes (remove k m) ≡ total_bytes m
unfolding total_bytes lookup remove
total_bytes-remove k [] pixels h = cc
total_bytes-remove k ((j, w) ∷ m) pixels h = ground (arith, total_bytes-remove k m pixels)

pub total_bytes-insert_absent :
    (k : ThumbnailCacheKey) (m : List (ThumbnailCacheKey × List ℕ)) (pixels : List ℕ)
    → has k m ≡ false
    → total_bytes (insert k pixels m) ≡ length pixels + total_bytes m
unfolding total_bytes insert contains
total_bytes-insert_absent k [] pixels h = omega arith
total_bytes-insert_absent k ((j, w) ∷ m) pixels h =
    ground (arith, total_bytes-insert_absent k m pixels)

total_bytes_member :
    (k : ThumbnailCacheKey) (m : List (ThumbnailCacheKey × List ℕ)) (pixels : List ℕ)
    → lookup k m ≡ some pixels
    → has k m ≡ true
total_bytes_member k m pixels h = ground (arith, lookup_absent k m)

pub new_governor-new_cache-IsAccounted :
    (ceiling budget : ℕ) (l : MemoryLedger)
    → ceiling < 2 ^ 64
    → new_governor ceiling budget ≡ ok l
    → IsAccounted 0 (new_cache l)
unfolding new_governor new_cache total_bytes
new_governor-new_cache-IsAccounted ceiling budget l h e = record {
  in_step = empty-InStep;
  charged = ground arith;
  within = ground arith;
  ordered = ground arith;
  representable = ground arith;
}

remove_found :
    (others : ℕ) (c : ThumbnailCache) (k : ThumbnailCacheKey) (o : Option (List ℕ))
    → lookup k c.entries ≡ o
    → IsAccounted others c
    → IsAccounted others (remove_thumbnail c k)
unfolding remove_thumbnail release_thumbnail
remove_found others c k none h v = rw (h, remove_thumbnail) v
remove_found others c k (some pixels) h v =
    rw (h, remove_thumbnail)
      (record {
        in_step = drop-InStep c.lru c.entries v.in_step k;
        charged = omega (arith, v.charged, total_bytes-remove k c.entries pixels h);
        within = omega (arith, v.within);
        ordered = v.ordered;
        representable = v.representable;
      })

pub remove_thumbnail-IsAccounted :
    (others : ℕ) (c : ThumbnailCache) (k : ThumbnailCacheKey)
    → IsAccounted others c
    → IsAccounted others (remove_thumbnail c k)
remove_thumbnail-IsAccounted others c k v = remove_found others c k (lookup k c.entries) refl v

pub remove_thumbnails-IsAccounted :
    (others : ℕ) (c : ThumbnailCache) (ks : List ThumbnailCacheKey)
    → IsAccounted others c
    → IsAccounted others (remove_thumbnails c ks)
unfolding remove_thumbnails
remove_thumbnails-IsAccounted others c [] v = v
remove_thumbnails-IsAccounted others c (k ∷ ks) v =
    remove_thumbnails-IsAccounted others (remove_thumbnail c k) ks
      (remove_thumbnail-IsAccounted others c k v)

pub get_thumbnail-IsAccounted :
    (others : ℕ) (c : ThumbnailCache) (k : ThumbnailCacheKey)
    → IsAccounted others c
    → IsAccounted others (get_thumbnail c k).0
unfolding get_thumbnail
get_thumbnail-IsAccounted others c k v = elim (Bool-cases (has k c.entries)) [
  | inl h ↦ rw h (record {
    in_step = promote-InStep c.lru c.entries v.in_step k h;
    charged = v.charged;
    within = v.within;
    ordered = v.ordered;
    representable = v.representable;
  })
  | inr h ↦ rw h v
]

evict_lru_front :
    (c : ThumbnailCache) (k : ThumbnailCacheKey) (rest : List ThumbnailCacheKey) (pixels : List ℕ)
    → c.lru ≡ k ∷ rest
    → lookup k c.entries ≡ some pixels
    → evict_lru c ≡ (
      record c {
        ledger = release_thumbnail c.ledger (length pixels);
        entries = remove k c.entries;
        lru = rest;
      },
      true,
    )
unfolding evict_lru
evict_lru_front c k rest pixels h found = ground arith

front_present :
    (k : ThumbnailCacheKey) (rest : List ThumbnailCacheKey) (m : List (ThumbnailCacheKey × List ℕ))
    → InStep (k ∷ rest) m
    → has k m ≡ true
unfolding contains
front_present k rest m s = ground (arith, s.same_keys k, ==_refl k)

-- One eviction: the front key leaves, and its bytes are given back.
pub evict_lru-IsAccounted :
    (others : ℕ) (c : ThumbnailCache) (k : ThumbnailCacheKey) (rest : List ThumbnailCacheKey)
    → c.lru ≡ k ∷ rest
    → IsAccounted others c
    → (d : ThumbnailCache) × (evict_lru c ≡ (d, true))
      × IsAccounted others d
      × (d.lru ≡ rest)
      × (d.entries ≡ remove k c.entries)
      × (d.ledger.thumbnail_budget ≡ c.ledger.thumbnail_budget)
unfolding release_thumbnail
evict_lru-IsAccounted others c k rest h v =
    let s : InStep (k ∷ rest) c.entries = subst (λ q. InStep q c.entries) h v.in_step in
    let (pixels, found) = lookup_present k c.entries (front_present k rest c.entries s) in
    (
      record c {
        ledger = release_thumbnail c.ledger (length pixels);
        entries = remove k c.entries;
        lru = rest;
      },
      evict_lru_front c k rest pixels h found,
      record {
        in_step = pop-InStep k rest c.entries s;
        charged = omega (arith, v.charged, total_bytes-remove k c.entries pixels found);
        within = omega (arith, v.within);
        ordered = v.ordered;
        representable = v.representable;
      },
      refl,
      refl,
      refl,
    )

pub evict_lru_empty : (c : ThumbnailCache) → c.lru ≡ [] → evict_lru c ≡ (c, false)
unfolding evict_lru
evict_lru_empty c h = ground arith

pub remove_thumbnail_absent :
    (c : ThumbnailCache) (k : ThumbnailCacheKey)
    → InStep c.lru c.entries
    → has k (remove_thumbnail c k).entries ≡ false
unfolding remove_thumbnail
remove_thumbnail_absent c k s =
    grind (arith, has-remove_self k c.entries s.keys_distinct, lookup_present k c.entries)

pub remove_thumbnail_budget :
    (c : ThumbnailCache) (k : ThumbnailCacheKey)
    → (remove_thumbnail c k).ledger.thumbnail_budget ≡ c.ledger.thumbnail_budget
unfolding remove_thumbnail release_thumbnail
remove_thumbnail_budget c k = ground arith
