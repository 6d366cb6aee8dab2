-- ===== src/Render/Pool/Alloc.antt =====
-- Which slot `alloc_slot` hands out (core/render-pipeline/src/shmem.rs).
use pdf_platform.Render.Pool.{
  SlotState, TilePool, alloc_slot, free_position, oldest_slot, take_slot, oldest_position,
}
use pdf_platform.Common.{
  ℕ, ◌+◌, Bool, Bool-cases, List, [], arith, false, get_elem?, inl, inr, none, not, some, suc, true,
  ◌∷◌, ◌≡◌, ◌≢◌, ◌%◌, ◌*◌, ◌<◌, Option-cases, ◌^◌, ap, length, ltb, refl, set, zero, subst, sym,
}

-- The slot at a position, and whether it is free.
pub is_free_at : List SlotState → ℕ → Bool
is_free_at slots i = elim (get_elem? slots i) [ none ↦ false | some s ↦ not s.allocated ]

free_position_found :
    (base : ℕ) (slots : List SlotState) (i : ℕ)
    → free_position base slots ≡ some i
    → (k : ℕ) × (i ≡ base + k) × (is_free_at slots k ≡ true)
unfolding free_position is_free_at
free_position_found base [] i h = ground arith
free_position_found base (s ∷ slots) i h = elim (Bool-cases s.allocated) [
  | inl taken ↦
      let (k, at, free) = free_position_found (base + 1) slots i (ground arith) in
      (suc k, omega arith, free)
  | inr open_slot ↦ (0, ground arith, ground arith)
]

free_position_missing :
    (base : ℕ) (slots : List SlotState) (k : ℕ)
    → free_position base slots ≡ none
    → is_free_at slots k ≡ false
unfolding free_position is_free_at
free_position_missing base [] k h = refl
free_position_missing base (s ∷ slots) zero h = ground arith
free_position_missing base (s ∷ slots) (suc k) h =
    free_position_missing (base + 1) slots k (ground arith)

free_within : (slots : List SlotState) (k : ℕ) → is_free_at slots k ≡ true → k < length slots
unfolding is_free_at
free_within [] k h = cc
free_within (s ∷ slots) zero h = omega arith
free_within (s ∷ slots) (suc k) h = omega (arith, free_within slots k h)

oldest_within :
    (index : ℕ) (best : ℕ × ℕ) (slots : List SlotState)
    → best.0 < index
    → (oldest_position index best slots).0 < index + length slots
unfolding oldest_position
oldest_within index best [] h = omega arith
oldest_within index best (s ∷ slots) h = elim (Bool-cases (ltb s.generation best.1)) [
  | inl older ↦
      rw (oldest_position, older)
        (omega (arith, oldest_within (index + 1) (index, s.generation) slots (omega arith)))
  | inr newer ↦
      rw (oldest_position, newer)
        (omega (arith, oldest_within (index + 1) best slots (omega arith)))
]

oldest_slot_exists :
    (slots : List SlotState)
    → slots ≢ []
    → (i : ℕ) × (oldest_slot slots ≡ some i) × (i < length slots)
unfolding oldest_slot
oldest_slot_exists [] h = absurd (h refl)
oldest_slot_exists (s ∷ slots) h = (
  (oldest_position 1 (0, s.generation) slots).0,
  refl,
  omega (arith, oldest_within 1 (0, s.generation) slots (omega arith)),
)

alloc_free :
    (pool : TilePool) (generation i : ℕ)
    → free_position 0 pool.slots ≡ some i
    → alloc_slot pool generation ≡ take_slot pool generation i
unfolding alloc_slot
alloc_free pool generation i h = rw (alloc_slot, h) refl

alloc_oldest :
    (pool : TilePool) (generation i : ℕ)
    → free_position 0 pool.slots ≡ none
    → oldest_slot pool.slots ≡ some i
    → alloc_slot pool generation ≡ take_slot pool generation i
unfolding alloc_slot
alloc_oldest pool generation i h o = rw (alloc_slot, h, o) refl

plain : (i k : ℕ) → i ≡ 0 + k → i ≡ k
plain i k h = omega arith

-- A pool with slots always hands one of them out, which is then taken at the generation, and it hands
-- out a slot in use only when no slot is free.
pub alloc_slot_lem :
    (pool : TilePool) (generation : ℕ)
    → pool.slots ≢ []
    → (i : ℕ) × (i < length pool.slots)
      × ((alloc_slot pool generation).1 ≡ some (i, (i * pool.slot_size) % 2 ^ 32))
      × ((alloc_slot pool generation).0.slots
          ≡ set pool.slots i (record { generation = generation; allocated = true }))
      × ((k : ℕ) → is_free_at pool.slots k ≡ true → is_free_at pool.slots i ≡ true)
alloc_slot_lem pool generation h = elim (Option-cases (free_position 0 pool.slots)) [
  | inl full ↦
      let (i, oldest, within) = oldest_slot_exists pool.slots h in
      let taken = alloc_oldest pool generation i full oldest in
      (
        i,
        within,
        ap (λ r. r.1) taken,
        ap (λ r. r.0.slots) taken,
        λ k free. ground (arith, free_position_missing 0 pool.slots k full),
      )
  | inr (i, found) ↦
      let (k, at, free) = free_position_found 0 pool.slots i found in
      let here : is_free_at pool.slots i ≡ true =
        subst (λ n. is_free_at pool.slots n ≡ true) (sym (plain i k at)) free in
      let taken = alloc_free pool generation i found in
      (
        i,
        free_within pool.slots i here,
        ap (λ r. r.1) taken,
        ap (λ r. r.0.slots) taken,
        λ j other. here,
      )
]
