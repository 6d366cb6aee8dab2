-- ===== src/Render/Pool/Tests.antt =====
-- Runs of the tile pool, and its theorem at a concrete pool.
use pdf_platform.Render.Pool.Alloc.{alloc_slot_lem, is_free_at}
use pdf_platform.Render.Pool.{
  TilePool, alloc_slot, create_pool, free_position, free_slots, oldest_position, oldest_slot,
}
use pdf_platform.Common.{ℕ, ◌%◌, ◌*◌, ◌<◌, [], ◌^◌, length, refl, set, some, true, ◌≡◌, ◌≢◌}

-- Two slots, of which the first is taken.
abbrev half_taken : TilePool
half_taken = (alloc_slot (create_pool 2) 7).0

second_slot : (alloc_slot half_taken 8).1 ≡ some (1, 262144)
unfolding alloc_slot create_pool free_slots free_position
second_slot = refl

-- With both taken, the older generation is given up.
oldest_given_up : (alloc_slot (alloc_slot half_taken 8).0 9).1 ≡ some (0, 0)
unfolding alloc_slot create_pool free_slots free_position oldest_slot oldest_position
oldest_given_up = refl

half_taken_slots : half_taken.slots ≢ []
unfolding alloc_slot create_pool free_slots free_position
half_taken_slots = λ e. cc

alloc_slot_lem_example :
    (i : ℕ) × (i < length half_taken.slots)
    × ((alloc_slot half_taken 8).1 ≡ some (i, (i * half_taken.slot_size) % 2 ^ 32))
    × ((alloc_slot half_taken 8).0.slots
        ≡ set half_taken.slots i (record { generation = 8; allocated = true }))
    × ((k : ℕ) → is_free_at half_taken.slots k ≡ true → is_free_at half_taken.slots i ≡ true)
alloc_slot_lem_example = alloc_slot_lem half_taken 8 half_taken_slots
