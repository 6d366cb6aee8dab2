-- ===== src/Render/Cache/Order.antt =====
-- What the tile cache keeps and in which order (core/render-pipeline/src/cache.rs).
use pdf_platform.Common.{
  ℕ, zero, suc, ◌≡◌, refl, true, false, List, [], ◌∷◌, ◌++◌, none, some, length, drop, arith,
  Bool-cases, inl, inr, if◌then◌else◌, ◌∙◌, ap, ◌<◌, subst, ◌-◌, is_empty, ◌*◌, ◌≤◌, ◌⊎◌, sym,
}
use pdf_platform.Common.KeyQueue.{lookup-pop, InStep}
use pdf_platform.Common.Keys.{contains, retain_ne, ◌==◌, retain_ne_absent}
use pdf_platform.Common.Map.{lookup, lookup-remove, lookup-insert, lookup_absent}
use pdf_platform.Render.Cache.{
  TileCacheKey, tile_key_eq, CacheEntry, TileCache, evict_lru, evict_while, drop_existing,
  insert_tile, must_evict, push_entry, add_usize,
}
use pdf_platform.Render.Cache.Inv.{
  IsConsistent, evict_lru-IsConsistent, drop_existing-IsConsistent, drop_existing_lem,
  evict_while_done, evict_while_fixed,
}

-- A state `w` that has lost the `n` least recent tiles of `c` and nothing else, each of them needed.
pub record Lost (c w : TileCache) (n : ℕ) : Type 0 where
  pub kept : w.lru ≡ drop n c.lru
  pub found :
      (j : TileCacheKey)
      → lookup j w.entries ≡ (if contains j w.lru then lookup j c.entries else none)
  pub bytes : w.current_bytes ≡ c.current_bytes - n * c.tile_bytes
  pub needed :
      (m : ℕ) → m < n → c.max_bytes < add_usize (c.current_bytes - m * c.tile_bytes) c.tile_bytes

unchanged_found :
    (c : TileCache)
    → IsConsistent c
    → (j : TileCacheKey)
    → lookup j c.entries ≡ (if contains j c.lru then lookup j c.entries else none)
unchanged_found c v j = ground (arith, v.in_step.same_keys j, lookup_absent j c.entries)

evict_lru_step :
    (c : TileCache) (q : List TileCacheKey)
    → c.lru ≡ q
    → must_evict c ≡ true
    → ((evict_lru c).current_bytes ≡ c.current_bytes - c.tile_bytes)
      × ((evict_lru c).tile_bytes ≡ c.tile_bytes)
      × ((evict_lru c).max_bytes ≡ c.max_bytes)
unfolding evict_lru
evict_lru_step c [] h m = ground (arith, ap (λ (q : List TileCacheKey). is_empty q) h)
evict_lru_step c (k ∷ rest) h m = rw (h, evict_lru) (refl, refl, refl)

evict_lru_kept :
    (c : TileCache) (q : List TileCacheKey)
    → c.lru ≡ q
    → must_evict c ≡ true
    → (evict_lru c).lru ≡ drop 1 q
unfolding evict_lru
evict_lru_kept c [] h m = rw (h, evict_lru) h
evict_lru_kept c (k ∷ rest) h m = rw (h, evict_lru) refl

evict_lru_found :
    (c : TileCache) (q : List TileCacheKey)
    → c.lru ≡ q
    → IsConsistent c
    → (j : TileCacheKey)
    → lookup j (evict_lru c).entries
      ≡ (if contains j (evict_lru c).lru then lookup j c.entries else none)
unfolding evict_lru
evict_lru_found c [] h v j = rw (h, evict_lru) (unchanged_found c v j)
evict_lru_found c (k ∷ rest) h v j =
    rw (h, evict_lru) (lookup-pop k rest c.entries (subst (λ q. InStep q c.entries) h v.in_step) j)

drop-drop_one : (n : ℕ) (q : List TileCacheKey) → drop n (drop 1 q) ≡ drop (suc n) q
drop-drop_one zero [] = refl
drop-drop_one (suc n) [] = refl
drop-drop_one n (k ∷ q) = refl

contains-drop :
    (j : TileCacheKey) (n : ℕ) (q : List TileCacheKey)
    → contains j (drop n q) ≡ true
    → contains j q ≡ true
unfolding contains
contains-drop j zero q h = h
contains-drop j (suc n) [] h = h
contains-drop j (suc n) (k ∷ q) h = ground (arith, contains-drop j n q)

same-Lost : (c : TileCache) → IsConsistent c → Lost c c 0
same-Lost c v = record {
  kept = refl;
  found = unchanged_found c v;
  bytes = omega arith;
  needed = λ m h. absurd (omega arith);
}

needed_before :
    (c w : TileCache) (n : ℕ)
    → must_evict c ≡ true
    → Lost (evict_lru c) w n
    → (m : ℕ) → m < suc n
    → c.max_bytes < add_usize (c.current_bytes - m * c.tile_bytes) c.tile_bytes
needed_before c w n h l zero less = ground arith
needed_before c w n h l (suc m) less =
    let fixed = evict_lru_step c c.lru refl h in ground (arith, l.needed m (omega arith))

-- One eviction more, in front.
evict_lru-Lost :
    (c w : TileCache) (n : ℕ)
    → IsConsistent c
    → must_evict c ≡ true
    → Lost (evict_lru c) w n
    → Lost c w (suc n)
evict_lru-Lost c w n v m l = record {
  kept = l.kept ∙ (ap (drop n) (evict_lru_kept c c.lru refl m) ∙ drop-drop_one n c.lru);
  found = λ j. ground (
    arith,
    l.found j,
    evict_lru_found c c.lru refl v j,
    contains-drop j n (evict_lru c).lru,
    ap (contains j) l.kept,
  );
  bytes = let fixed = evict_lru_step c c.lru refl m in ground (arith, l.bytes, fixed);
  needed = needed_before c w n m l;
}

-- The eviction loop loses the least recent tiles only, and keeps what it does not lose.
pub evict_while-Lost :
    (fuel : ℕ) (c : TileCache) → IsConsistent c → (n : ℕ) × Lost c (evict_while fuel c) n
unfolding evict_while
evict_while-Lost zero c v = (0, same-Lost c v)
evict_while-Lost (suc fuel) c v = elim (Bool-cases (must_evict c)) [
  | inl more ↦
      let (n, lost) = evict_while-Lost fuel (evict_lru c) (evict_lru-IsConsistent c v) in
      (
        suc n,
        rw (more, evict_while) (evict_lru-Lost c (evict_while fuel (evict_lru c)) n v more lost),
      )
  | inr done ↦ (0, rw (done, evict_while) (same-Lost c v))
]

-- A loop that has ended has made room, or has emptied the queue.
settled :
    (c w : TileCache) (q : List TileCacheKey)
    → w.lru ≡ q
    → (w.max_bytes ≡ c.max_bytes) × (w.tile_bytes ≡ c.tile_bytes)
    → must_evict w ≡ false
    → (add_usize w.current_bytes c.tile_bytes ≤ c.max_bytes) ⊎ (w.lru ≡ [])
settled c w [] h fixed done = inr h
settled c w (k ∷ q) h fixed done =
    inl (ground (arith, ap (λ (l : List TileCacheKey). is_empty l) h, done))

drop_existing_found :
    (c : TileCache) (key : TileCacheKey)
    → IsConsistent c
    → (j : TileCacheKey) → ((key == j) ≡ false)
    → lookup j (drop_existing c key).entries ≡ lookup j c.entries
unfolding drop_existing
drop_existing_found c key v j h =
    ground (arith, lookup-remove key j c.entries v.in_step.keys_distinct)

drop_existing_lru :
    (c : TileCache) (key : TileCacheKey)
    → IsConsistent c
    → (drop_existing c key).lru ≡ retain_ne key c.lru
unfolding drop_existing
drop_existing_lru c key v = ground (arith, retain_ne_absent key c.lru, v.in_step.same_keys key)

-- `w` is the cache `c` seen as a recency list after an insertion: the `n` oldest of the other tiles
-- are forgotten, the new one is last, look-ups answer accordingly, the tile would not have fitted
-- after any smaller number of evictions, and after `n` of them it fits or no other tile is left.
abbrev pub RecencyInsert : TileCache → TileCacheKey → CacheEntry → TileCache → Type 0
RecencyInsert c key entry w =
    (n : ℕ) × (w.lru ≡ drop n (retain_ne key c.lru) ++ key ∷ [])
    × ((j : TileCacheKey)
        → lookup j w.entries ≡ (
            if key == j
            then some entry
            else if contains j (drop n (retain_ne key c.lru))
            then lookup j c.entries
            else none))
    × ((m : ℕ)
        → m < n
        → c.max_bytes
          < add_usize ((drop_existing c key).current_bytes - m * c.tile_bytes) c.tile_bytes)
    × ((add_usize ((drop_existing c key).current_bytes - n * c.tile_bytes) c.tile_bytes
          ≤ c.max_bytes)
        ⊎ (drop n (retain_ne key c.lru) ≡ []))

-- `insert` on a consistent cache is an insertion into a recency list: it forgets only the least
-- recently used of the other tiles, as few as make room, or all if that is not enough, puts the new tile last, and a later look-up
-- finds the new tile and every tile that was not forgotten.
pub insert_tile_refines :
    (c : TileCache) (key : TileCacheKey) (entry : CacheEntry)
    → IsConsistent c
    → RecencyInsert c key entry (insert_tile c key entry)
unfolding insert_tile push_entry
insert_tile_refines c key entry v =
    let d = drop_existing c key in
    let (n, lost) = evict_while-Lost (length d.lru) d (drop_existing-IsConsistent c key v) in
    let kept = lost.kept ∙ ap (drop n) (drop_existing_lru c key v) in
    let same = drop_existing_lem c key v in
    let w = evict_while (length d.lru) d in
    let fixed = evict_while_fixed (length d.lru) d in
    (
      n,
      ap (λ (q : List TileCacheKey). q ++ key ∷ []) kept,
      λ j. ground (
        arith,
        lookup-insert key j entry (evict_while (length d.lru) d).entries,
        lost.found j,
        ap (contains j) kept,
        drop_existing_found c key v j,
      ),
      λ m less. ground (arith, lost.needed m less, same.1, same.2),
      elim (settled d w w.lru refl (fixed.0, fixed.1)
          (evict_while_done (length d.lru) d (omega arith))) [
            | inl fits ↦ inl (ground (arith, fits, lost.bytes, same.1, same.2))
            | inr emptied ↦ inr (sym kept ∙ emptied)
          ],
    )
