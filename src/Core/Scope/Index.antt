-- ===== src/Core/Scope/Index.antt =====
-- The index arithmetic of the ring: `(s.start + i) % s.capacity`, for the `i`-th oldest entry.
use native.Mathlib.Nat.{mod-eq_of_lt, mod-eq-sub-mod}
use native.Mathlib.Decide.{dec_lt}
use dllog.Base.{
  ℕ, suc, ◌+◌, ◌-◌, ◌%◌, ◌^◌, ◌<◌, ◌≤◌, ◌≡◌, ◌≢◌, ◌⊎◌, inl, inr, Int64, add_int, arith,
}

-- The largest capacity at which no index sum can wrap. A ring of interface values, 16 bytes each,
-- cannot have as many cells in a 64-bit address space.
abbrev pub max_capacity : ℕ
max_capacity = 2 ^ 62

abbrev pub slot_index : (start i capacity : Int64) → Int64
slot_index start i capacity = add_int start i % capacity

pub slot_index-cases :
    (start i capacity : ℕ)
    → start < capacity
    → i ≤ capacity
    → capacity ≤ max_capacity
    → ((start + i < capacity) × (slot_index start i capacity ≡ start + i))
      ⊎ ((capacity ≤ start + i) × (slot_index start i capacity ≡ start + i - capacity))
slot_index-cases start i capacity hs hi hc = elim (dec_lt (start + i) capacity) [
  | yes p ↦ inl (p, rw (mod-eq_of_lt no_wrap) (mod-eq_of_lt p))
  | no p ↦ inr (
    omega arith,
    rw (mod-eq_of_lt no_wrap) (
        omega (
          arith,
          mod-eq-sub-mod {n = start + i} {m = capacity} (omega arith),
          mod-eq_of_lt {n = start + i - capacity} {m = capacity} (omega arith),
        )),
  )
]
  where
    no_wrap : start + i < 2 ^ 64
    no_wrap = omega arith

-- Entries of the ring that are less than a capacity apart stand at different indices, for
-- capacities up to `max_capacity`.
pub slot_index-ne :
    (start i j capacity : ℕ)
    → start < capacity
    → i < j
    → j - i < capacity
    → j ≤ capacity
    → capacity ≤ max_capacity
    → slot_index start j capacity ≢ slot_index start i capacity
slot_index-ne start i j capacity hs hij hd hj hc =
    ground (arith, slot_index-cases start i capacity, slot_index-cases start j capacity)

-- The index of entry `i` after the oldest one is dropped is that of entry `i + 1` before.
pub slot_index-shift :
    (start i capacity : ℕ)
    → start < capacity
    → suc i ≤ capacity
    → capacity ≤ max_capacity
    → slot_index (slot_index start 1 capacity) i capacity ≡ slot_index start (suc i) capacity
slot_index-shift start i capacity hs hi hc = ground (
  arith,
  slot_index-cases start 1 capacity,
  slot_index-cases start (suc i) capacity,
  slot_index-cases (slot_index start 1 capacity) i capacity,
)
