-- ===== src/Render/Pool.antt =====
-- core/render-pipeline/src/shmem.rs: the slots of the shared-memory tile pool. The mapped region is not
-- modelled, only which slots are taken. Generations are u64, offsets u32.
pub mod Alloc
mod Tests
use pdf_platform.Protocol.Handles.{tile_rgba8_bytes}
use pdf_platform.Common.{
  ℕ, ◌%◌, ◌&&◌, ◌*◌, ◌+◌, Bool, List, Option, [], ◌^◌, if◌then◌else◌, false, leb, ltb, none, not,
  set, some, suc, true, zero, ◌∷◌, ◌==◌,
}

pub record SlotState : Type 0 where
  pub generation : ℕ
  pub allocated : Bool

pub record TilePool : Type 0 where
  pub slot_size : ℕ
  pub slots : List SlotState

unfoldable pub free_slots : ℕ → List SlotState
free_slots zero = []
free_slots (suc n) = record { generation = 0; allocated = false } ∷ free_slots n

-- `create`, when the shared region could be made; it asserts `num_slots > 0`.
unfoldable pub create_pool : ℕ → TilePool
create_pool num_slots = record { slot_size = tile_rgba8_bytes; slots = free_slots num_slots }

-- `position(|s| !s.allocated)`
unfoldable pub free_position : ℕ → List SlotState → Option ℕ
free_position index [] = none
free_position index (s ∷ slots) =
    if not s.allocated then some index else free_position (index + 1) slots

-- `min_by_key(|(_, s)| s.generation)`: the first of the lowest, over the slots from `index` on.
unfoldable pub oldest_position : ℕ → ℕ × ℕ → List SlotState → ℕ × ℕ
oldest_position index best [] = best
oldest_position index best (s ∷ slots) =
    oldest_position (index + 1) (if ltb s.generation best.1 then (index, s.generation) else best)
      slots

unfoldable pub oldest_slot : List SlotState → Option ℕ
oldest_slot [] = none
oldest_slot (s ∷ slots) = some (oldest_position 1 (0, s.generation) slots).0

abbrev pub take_slot : TilePool → ℕ → ℕ → TilePool × Option (ℕ × ℕ)
take_slot pool generation index = (
  record pool {
    slots = set pool.slots index (record { generation = generation; allocated = true });
  },
  some (index, (index * pool.slot_size) % 2 ^ 32),
)

unfoldable pub alloc_slot : TilePool → ℕ → TilePool × Option (ℕ × ℕ)
alloc_slot pool generation = elim (free_position 0 pool.slots) [
  | some index ↦ take_slot pool generation index
  | none ↦ elim (oldest_slot pool.slots) [
    | some index ↦ take_slot pool generation index
    | none ↦ (pool, none)
  ]
]

unfoldable pub release_at : List SlotState → ℕ → List SlotState
release_at [] index = []
release_at (s ∷ slots) zero = record s { allocated = false } ∷ slots
release_at (s ∷ slots) (suc index) = s ∷ release_at slots index

unfoldable pub mark_ready : TilePool → ℕ → TilePool
mark_ready pool slot_index = record pool { slots = release_at pool.slots slot_index }

unfoldable pub release_up_to : ℕ → List SlotState → List SlotState
release_up_to generation [] = []
release_up_to generation (s ∷ slots) =
    (if leb s.generation generation && not (s.generation == 0)
      then record s { allocated = false }
      else s)
    ∷ release_up_to generation slots

-- `TilePool::invalidate_up_to`
unfoldable pub invalidate_slots : TilePool → ℕ → TilePool
invalidate_slots pool generation = record pool { slots = release_up_to generation pool.slots }
