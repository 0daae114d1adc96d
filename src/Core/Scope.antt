-- ===== src/Core/Scope.antt =====
-- internal/core/scope.go: the buffering engine. A method returns the new scope beside its result.
-- Each body runs under `mu`, so a call is one step.
pub mod Index
pub mod Window
pub mod Inv
pub mod Pooled
pub mod Refine
pub mod Run
pub mod History
pub mod Budget
use dllog.Base.{
  ℕ, suc, zero, ◌+◌, ◌%◌, Int64, add_int, lt_int, le_int, Bool, true, false, not, ◌&&◌, ◌||◌, List,
  [], ◌∷◌, Option, some, none, ◌==◌, if◌then◌else◌, get_or, set, modify, replicate,
}
use dllog.Core.Types.{Action, Scope, Box, BoxRef, PoolRef, norm_capacity, norm_limit}
use dllog.Core.SyncPool.{SyncPool}
use dllog.Core.Pool.{Pool, put}

module _ {ℓ} {T : Type ℓ} where
  -- `s.limit > 0 && s.postTrip >= s.limit`
  abbrev pub budget_spent : Scope T → Bool
  budget_spent s = lt_int 0 s.limit && le_int s.limit s.post_trip

  unfoldable pub append : Scope T → T → Scope T × Action
  append s entry =
      if s.closed
      then (s, Action.suppressed)
      else if s.trip_state
      then (if budget_spent s
          then (s, Action.suppressed)
          else (record s { post_trip = add_int s.post_trip 1 }, Action.pass_through))
      else let idx = add_int s.start s.length % s.capacity in
        let ring = set s.ring idx entry in
        if s.length == s.capacity
        then (
          record s {
            ring = ring;
            start = add_int s.start 1 % s.capacity;
            dropped = add_int s.dropped 1;
          },
          Action.buffered,
        )
        else (record s { ring = ring; length = add_int s.length 1 }, Action.buffered)

  unfoldable pub pass_through : Scope T → Scope T × Action
  pass_through s =
      if s.tripped
      then (if s.closed || not s.trip_state
          then (s, Action.pass_through)
          else if budget_spent s
          then (s, Action.suppressed)
          else (record s { post_trip = add_int s.post_trip 1 }, Action.pass_through))
      else (s, Action.pass_through)

module _ {ℓ} {T : Type ℓ} (zero_value : T) where
  unfoldable pub new_scope : Int64 → Int64 → Scope T
  new_scope capacity post_trip_limit = record {
    tripped = false;
    capacity = norm_capacity capacity;
    ring = replicate (norm_capacity capacity) zero_value;
    start = 0;
    length = 0;
    dropped = 0;
    post_trip = 0;
    limit = norm_limit post_trip_limit;
    closed = false;
    trip_state = false;
    pool = none;
    held = none;
  }

  -- `for i := range s.ring { s.ring[i] = zero }`
  unfoldable pub cleared : List T → List T
  cleared [] = []
  cleared (x ∷ xs) = zero_value ∷ cleared xs

  unfoldable pub clear_ring : Scope T → Scope T
  unfolding cleared
  clear_ring s = record s { ring = cleared s.ring; start = 0; length = 0 }

  -- `entries[i] = s.ring[(s.start+i)%s.capacity]`, for the `n` indices from `i` on.
  unfoldable pub read_ring : List T → Int64 → Int64 → ℕ → ℕ → List T
  read_ring ring start capacity i zero = []
  read_ring ring start capacity i (suc n) =
      get_or ring (add_int start i % capacity) zero_value ∷ read_ring ring start capacity (i + 1) n

  -- The entries, the evictions, and whether this call tripped the scope.
  unfoldable pub trip : Scope T → Scope T × List T × Int64 × Bool
  unfolding clear_ring read_ring
  trip s = if s.closed || s.trip_state then (s, [], 0, false) else (
    clear_ring (record s { trip_state = true; tripped = true }),
    read_ring s.ring s.start s.capacity 0 s.length,
    s.dropped,
    true,
  )

module _ {ℓ} {T : Type ℓ} (zero_value : T) (sync : SyncPool (Box T)) where
  -- `if s.pool != nil && held != nil { s.pool.put(held); s.pool = nil }`
  unfoldable pub give_back :
      Option PoolRef
      → Option BoxRef
      → List T
      → List (Pool zero_value sync)
      → List (Pool zero_value sync)
  unfolding put
  give_back (some p) (some held) ring pools =
      modify pools p (put zero_value sync (some (record { ref = held; array = ring })))
  give_back (some p) none ring pools = pools
  give_back none held ring pools = pools

  pub pool_after : Option PoolRef → Option BoxRef → Option PoolRef
  pool_after (some p) (some held) = none
  pool_after (some p) none = some p
  pool_after none held = none

  unfoldable pub close :
      Scope T → List (Pool zero_value sync) → Scope T × List (Pool zero_value sync)
  unfolding give_back pool_after clear_ring
  close s pools =
      if s.closed
      then (s, pools)
      else let c = clear_ring zero_value (record s { closed = true }) in
        (
          record c { ring = []; held = none; pool = pool_after c.pool c.held },
          give_back c.pool c.held c.ring pools,
        )

module _ {ℓ} {T : Type ℓ} where
  unfoldable pub capacity : Scope T → Int64
  capacity s = s.capacity

  -- Read without the mutex.
  unfoldable pub tripped : Scope T → Bool
  tripped s = s.tripped

  unfoldable pub len : Scope T → Int64
  len s = s.length

  unfoldable pub dropped : Scope T → Int64
  dropped s = s.dropped
