-- ===== src/Render/Cache/Inv.antt =====
-- The invariant of the tile cache (core/render-pipeline/src/cache.rs).
use pdf_platform.Common.{
  ◌<◌, ◌^◌, true, ℕ, zero, suc, ◌+◌, ◌-◌, ◌*◌, ◌≤◌, ◌≡◌, refl, Bool, true, false, List, [], ◌∷◌,
  length, arith, Bool-cases, inl, inr, ap, ◌∙◌, subst, is_empty, length-append, sym, if◌then◌else◌,
  none,
}
use pdf_platform.Common.Keys.{◌==◌, retain_ne, length-retain_ne}
use pdf_platform.Common.Map.{has, lookup, lookup-remove, lookup_absent}
use pdf_platform.Common.KeyQueue.{
  InStep, empty-InStep, drop-InStep, pop-InStep, has-remove_self, has-remove, push-InStep,
  promote-InStep,
}
use pdf_platform.Render.Cache.{
  TileCacheKey, tile_key_eq, TileCache, new, evict_lru, must_evict, evict_while, drop_existing,
  push_entry, CacheEntry, insert_tile, get, remove_all, clear, remove_tile, tile_key_beq_iff,
}

-- The queue and the map hold the same keys, each once, and the byte count is that of the queue.
pub record IsConsistent (c : TileCache) : Type 0 where
  pub in_step : InStep c.lru c.entries
  pub counted : c.current_bytes ≡ length c.lru * c.tile_bytes

-- A budget that holds at least one tile, and whose sum with a tile fits a `usize`.
pub record HasRoom (c : TileCache) : Type 0 where
  pub one_fits : c.tile_bytes ≤ c.max_bytes
  pub no_wrap : c.max_bytes + c.tile_bytes < 2 ^ 64
  pub within : c.current_bytes ≤ c.max_bytes

pub new-IsConsistent : (m t : ℕ) → IsConsistent (new m t)
unfolding new
new-IsConsistent m t = record { in_step = empty-InStep; counted = omega arith }

one_tile_less : (n r bytes t : ℕ) → r + 1 ≡ n → bytes ≡ n * t → bytes - t ≡ r * t
one_tile_less n r bytes t h k = omega (arith, ap (λ (x : ℕ). x * t) h)

counted_drop :
    (b : Bool) (c : TileCache) (key : TileCacheKey)
    → IsConsistent c
    → has key c.entries ≡ b
    → b ≡ true
    → c.current_bytes - c.tile_bytes ≡ length (retain_ne key c.lru) * c.tile_bytes
counted_drop b c key v h t =
    one_tile_less _ _ _ c.tile_bytes
      (length-retain_ne key c.lru v.in_step.queue_distinct (v.in_step.same_keys key ∙ (h ∙ t)))
      v.counted

pub drop_existing-IsConsistent :
    (c : TileCache) (key : TileCacheKey) → IsConsistent c → IsConsistent (drop_existing c key)
unfolding drop_existing
drop_existing-IsConsistent c key v = elim (Bool-cases (has key c.entries)) [
  | inl h ↦ rw h (record {
    in_step = drop-InStep c.lru c.entries v.in_step key;
    counted = counted_drop true c key v h refl;
  })
  | inr h ↦ rw h v
]

-- After `drop_existing` the key is gone, and the budget and the tile size are those of before.
pub drop_existing_lem :
    (c : TileCache) (key : TileCacheKey)
    → IsConsistent c
    → (has key (drop_existing c key).entries ≡ false)
      × ((drop_existing c key).max_bytes ≡ c.max_bytes)
      × ((drop_existing c key).tile_bytes ≡ c.tile_bytes)
      × ((drop_existing c key).current_bytes ≤ c.current_bytes)
unfolding drop_existing
drop_existing_lem c key v = ground (arith, has-remove_self key c.entries v.in_step.keys_distinct)

evict_front :
    (c : TileCache) (q : List TileCacheKey)
    → c.lru ≡ q
    → IsConsistent c
    → IsConsistent (evict_lru c)
unfolding evict_lru
evict_front c [] h v = rw (h, evict_lru) v
evict_front c (k ∷ rest) h v =
    rw (h, evict_lru)
      (record {
        in_step = pop-InStep k rest c.entries (subst (λ q. InStep q c.entries) h v.in_step);
        counted =
            omega (arith, v.counted, ap (λ (q : List TileCacheKey). length q * c.tile_bytes) h);
      })

pub evict_lru-IsConsistent : (c : TileCache) → IsConsistent c → IsConsistent (evict_lru c)
evict_lru-IsConsistent c v = evict_front c c.lru refl v

evict_while-IsConsistent :
    (fuel : ℕ) (c : TileCache) → IsConsistent c → IsConsistent (evict_while fuel c)
unfolding evict_while
evict_while-IsConsistent zero c v = v
evict_while-IsConsistent (suc fuel) c v = elim (Bool-cases (must_evict c)) [
  | inl more ↦
      rw (more, evict_while)
        (evict_while-IsConsistent fuel (evict_lru c) (evict_lru-IsConsistent c v))
  | inr done ↦ rw (done, evict_while) v
]

-- The loop ends by its own test: afterwards a tile fits, or nothing is left to evict.
pub evict_while_done :
    (fuel : ℕ) (c : TileCache) → length c.lru ≤ fuel → must_evict (evict_while fuel c) ≡ false
unfolding evict_while evict_lru
evict_while_done zero c h = ground arith
evict_while_done (suc fuel) c h = ground (arith, evict_while_done fuel (evict_lru c))

evict_lru_fixed :
    (c : TileCache)
    → ((evict_lru c).max_bytes ≡ c.max_bytes)
      × ((evict_lru c).tile_bytes ≡ c.tile_bytes)
      × ((evict_lru c).current_bytes ≤ c.current_bytes)
unfolding evict_lru
evict_lru_fixed c = ground arith

pub evict_while_fixed :
    (fuel : ℕ) (c : TileCache)
    → ((evict_while fuel c).max_bytes ≡ c.max_bytes)
      × ((evict_while fuel c).tile_bytes ≡ c.tile_bytes)
      × ((evict_while fuel c).current_bytes ≤ c.current_bytes)
unfolding evict_while
evict_while_fixed zero c = ground arith
evict_while_fixed (suc fuel) c =
    ground (arith, evict_while_fixed fuel (evict_lru c), evict_lru_fixed c)

evict_lru_absent :
    (c : TileCache) (key : TileCacheKey) (q : List TileCacheKey)
    → c.lru ≡ q
    → IsConsistent c
    → has key c.entries ≡ false
    → has key (evict_lru c).entries ≡ false
unfolding evict_lru
evict_lru_absent c key [] h v absent = rw (h, evict_lru) absent
evict_lru_absent c key (k ∷ rest) h v absent =
    rw (h, evict_lru) (ground (arith, has-remove key k c.entries v.in_step.keys_distinct))

pub evict_while_absent :
    (fuel : ℕ) (c : TileCache) (key : TileCacheKey)
    → IsConsistent c
    → has key c.entries ≡ false
    → has key (evict_while fuel c).entries ≡ false
unfolding evict_while
evict_while_absent zero c key v absent = absent
evict_while_absent (suc fuel) c key v absent = elim (Bool-cases (must_evict c)) [
  | inl more ↦
      rw (more, evict_while)
        (evict_while_absent fuel (evict_lru c) key (evict_lru-IsConsistent c v)
          (evict_lru_absent c key c.lru refl v absent))
  | inr done ↦ rw (done, evict_while) absent
]

-- When the loop has ended under a budget of at least one tile, one more tile fits.
room_for_one :
    (c : TileCache) (q : List TileCacheKey)
    → c.lru ≡ q
    → IsConsistent c
    → HasRoom c
    → must_evict c ≡ false
    → c.current_bytes + c.tile_bytes ≤ c.max_bytes
room_for_one c [] h v r done =
    omega (arith, v.counted, ap (λ (q : List TileCacheKey). length q * c.tile_bytes) h, r.one_fits)
room_for_one c (k ∷ rest) h v r done = ground (arith, ap (λ (q : List TileCacheKey). is_empty q) h)

push_entry-IsConsistent :
    (c : TileCache) (key : TileCacheKey) (entry : CacheEntry)
    → IsConsistent c
    → has key c.entries ≡ false
    → c.current_bytes + c.tile_bytes < 2 ^ 64
    → IsConsistent (push_entry c key entry)
unfolding push_entry
push_entry-IsConsistent c key entry v absent h = record {
  in_step = push-InStep c.lru c.entries v.in_step key entry absent;
  counted = omega (
    arith,
    v.counted,
    length-append c.lru (key ∷ []),
    ap (λ (n : ℕ). n * c.tile_bytes) (length-append c.lru (key ∷ [])),
  );
}

-- The state in which `insert` adds its entry: the key is gone and one more tile fits.
cleared_for_insert :
    (c : TileCache) (key : TileCacheKey)
    → IsConsistent c
    → HasRoom c
    → let d = drop_existing c key in
      let w = evict_while (length d.lru) d in
      IsConsistent w
      × (has key w.entries ≡ false)
      × (w.current_bytes + w.tile_bytes ≤ w.max_bytes)
      × (w.max_bytes ≡ c.max_bytes)
      × (w.tile_bytes ≡ c.tile_bytes)
cleared_for_insert c key v r =
    let d = drop_existing c key in
    let w = evict_while (length d.lru) d in
    let dropped = drop_existing_lem c key v in
    let fixed = evict_while_fixed (length d.lru) d in
    let valid = evict_while-IsConsistent (length d.lru) d (drop_existing-IsConsistent c key v) in
    let room : HasRoom w = omega (arith, r, dropped, fixed) in
    (
      valid,
      evict_while_absent (length d.lru) d key (drop_existing-IsConsistent c key v) dropped.0,
      room_for_one w w.lru refl valid room (evict_while_done (length d.lru) d (omega arith)),
      omega (arith, dropped, fixed),
      omega (arith, dropped, fixed),
    )

-- `insert` keeps queue, map and byte count in step and never leaves the budget exceeded.
pub insert_tile-IsConsistent :
    (c : TileCache) (key : TileCacheKey) (entry : CacheEntry)
    → IsConsistent c
    → HasRoom c
    → IsConsistent (insert_tile c key entry) × HasRoom (insert_tile c key entry)
unfolding insert_tile
insert_tile-IsConsistent c key entry v r =
    let d = drop_existing c key in
    let w = evict_while (length d.lru) d in
    let (valid, absent, fits, same_max, same_tile) = cleared_for_insert c key v r in
    (
      push_entry-IsConsistent w key entry valid absent (omega (arith, r)),
      unfold push_entry in (omega (arith, r, fits, same_max, same_tile)),
    )

pub get-IsConsistent :
    (c : TileCache) (key : TileCacheKey) → IsConsistent c → IsConsistent (get c key).0
unfolding get
get-IsConsistent c key v = elim (Bool-cases (has key c.entries)) [
  | inl h ↦ rw h (record {
    in_step = promote-InStep c.lru c.entries v.in_step key h;
    counted =
        v.counted
        ∙ ap (λ (n : ℕ). n * c.tile_bytes)
            (sym v.in_step.same_length
              ∙ (promote-InStep c.lru c.entries v.in_step key h).same_length);
  })
  | inr h ↦ rw h v
]

pub remove_all-IsConsistent :
    (c : TileCache) (ks : List TileCacheKey) → IsConsistent c → IsConsistent (remove_all c ks)
unfolding remove_all remove_tile
remove_all-IsConsistent c [] v = v
remove_all-IsConsistent c (k ∷ ks) v =
    remove_all-IsConsistent (drop_existing c k) ks (drop_existing-IsConsistent c k v)

pub clear-IsConsistent : (c : TileCache) → IsConsistent (clear c)
unfolding clear
clear-IsConsistent c = record { in_step = empty-InStep; counted = omega arith }

pub lookup-drop_existing :
    (c : TileCache) (key : TileCacheKey)
    → IsConsistent c
    → (j : TileCacheKey)
    → lookup j (drop_existing c key).entries ≡ (if key == j then none else lookup j c.entries)
unfolding drop_existing
lookup-drop_existing c key v j = ground (
  arith,
  lookup-remove key j c.entries v.in_step.keys_distinct,
  lookup_absent key c.entries,
  tile_key_beq_iff key j,
)
