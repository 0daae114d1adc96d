-- ===== src/Core/Pool.antt =====
-- internal/core/pool.go: scopes built on recycled rings.
pub mod Recycle
use dllog.Base.{Int64, Option, some, none, ◌==◌, if◌then◌else◌, false, length, replicate}
use dllog.Core.Types.{Scope, Box, BoxRef, PoolRef, ScopePool, norm_capacity, norm_limit}
use dllog.Core.SyncPool.{SyncPool}

module _ {ℓ} {T : Type ℓ} (zero_value : T) (sync : SyncPool (Box T)) where
  abbrev pub Pool : Type ℓ
  Pool = ScopePool sync.State

  unfoldable pub new_scope_pool : Int64 → Int64 → Pool
  new_scope_pool capacity post_trip_limit = record {
    capacity = norm_capacity capacity;
    post_trip_limit = norm_limit post_trip_limit;
    pool = sync.empty;
  }

  abbrev pub capacity : Pool → Int64
  capacity p = p.capacity

  -- `fresh` is the address that `&ring` would have.
  abbrev take_or_make : BoxRef → Pool → Option (Box T) → sync.State → Box T × Pool
  take_or_make fresh p (some held) rest = (held, record p { pool = rest })
  take_or_make fresh p none rest =
      (record { ref = fresh; array = replicate p.capacity zero_value }, record p { pool = rest })

  unfoldable pub get_ring : BoxRef → Pool → Box T × Pool
  get_ring fresh p = let (held, rest) = sync.get p.pool in take_or_make fresh p held rest

  -- `self` is the address of `p`.
  unfoldable pub get : PoolRef → BoxRef → Pool → Scope T × Pool
  unfolding get_ring
  get self fresh p =
      let (held, p') = get_ring fresh p in
      (
        record {
          tripped = false;
          capacity = p.capacity;
          ring = held.array;
          start = 0;
          length = 0;
          dropped = 0;
          post_trip = 0;
          limit = p.post_trip_limit;
          closed = false;
          trip_state = false;
          pool = some self;
          held = some held.ref;
        },
        p',
      )

  unfoldable pub put : Option (Box T) → Pool → Pool
  put none p = p
  put (some held) p =
      if length held.array == p.capacity then record p { pool = sync.put held p.pool } else p
