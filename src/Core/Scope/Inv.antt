-- ===== src/Core/Scope/Inv.antt =====
-- internal/core/scope.go: the representation invariant of a scope.
use dllog.Base.{
  suc, ◌<◌, ◌≤◌, ◌≡◌, refl, ap, ◌≢◌, Int64, int_half, le_int, ◌^◌, true, false, ◌||◌, List, [], ◌∷◌,
  length, arith, length-set, length-replicate,
}
use dllog.Core.Types.{Scope, Box, norm_capacity}
use dllog.Core.SyncPool.{SyncPool}
use dllog.Core.Pool.{Pool}
use dllog.Core.Scope.{append, pass_through, new_scope, cleared, clear_ring, trip, close}
use dllog.Core.Scope.Index.{max_capacity, slot_index, slot_index-cases}

pub record IsValid {ℓ} {T : Type ℓ} (s : Scope T) : Type 0 where
  pub positive : 0 < s.capacity
  pub small : s.capacity ≤ max_capacity
  pub start_in : s.start < s.capacity
  pub len_in : s.length ≤ s.capacity
  -- an open scope has its ring, a closed one has given it up
  pub whole : s.closed ≡ false → length s.ring ≡ s.capacity
  pub detached : s.closed ≡ true → length s.ring ≡ 0
  -- the flag read without the mutex is the one written under it
  pub mirrored : s.tripped ≡ s.trip_state
  pub emptied : (s.closed || s.trip_state) ≡ true → s.length ≡ 0
  -- the budget is never overspent, and not touched before the trip
  pub limit_in : s.limit < int_half
  pub within : s.limit ≢ 0 → s.post_trip ≤ s.limit
  pub unspent : s.trip_state ≡ false → s.post_trip ≡ 0

pub length-cleared {ℓ} :
    {T : Type ℓ} (zero_value : T) (ring : List T) → length (cleared zero_value ring) ≡ length ring
unfolding cleared
length-cleared zero_value [] = refl
length-cleared zero_value (x ∷ xs) = ap suc (length-cleared zero_value xs)

module _ {ℓ} {T : Type ℓ} where
  -- `Append` keeps a scope valid.
  pub append-IsValid : (s : Scope T) (x : T) → IsValid s → IsValid (append s x).0
  unfolding append
  append-IsValid s x v = ground (
    arith,
    length-set s.ring (slot_index s.start s.length s.capacity) x,
    slot_index-cases s.start 1 s.capacity,
  )

  -- `PassThrough` keeps a scope valid: it does not overspend the budget.
  pub pass_through-IsValid : (s : Scope T) → IsValid s → IsValid (pass_through s).0
  unfolding pass_through
  pass_through-IsValid s v = ground arith

module _ {ℓ} {T : Type ℓ} (zero_value : T) where
  -- `Trip` keeps a scope valid.
  pub trip-IsValid : (s : Scope T) → IsValid s → IsValid (trip zero_value s).0
  unfolding trip clear_ring
  trip-IsValid s v = ground (arith, length-cleared zero_value s.ring)

  -- `Close` keeps a scope valid.
  pub close-IsValid :
      (sync : SyncPool (Box T)) (s : Scope T) (pools : List (Pool zero_value sync))
      → IsValid s
      → IsValid (close zero_value sync s pools).0
  unfolding close
  close-IsValid sync s pools v = ground arith

  -- Every scope that `NewScope` makes is valid, whatever 64-bit arguments it is given, if the
  -- capacity is at most `max_capacity`.
  pub new_scope-IsValid :
      (capacity limit : Int64)
      → capacity < 2 ^ 64
      → limit < 2 ^ 64
      → le_int capacity max_capacity ≡ true
      → IsValid (new_scope zero_value capacity limit)
  unfolding new_scope
  new_scope-IsValid capacity limit hc hl fits =
      ground (arith, length-replicate (norm_capacity capacity) zero_value)
