-- ===== src/Core/Lease.antt =====
-- internal/core/pool.go and scope.go together: scopes that borrow rings from shared pools, use them
-- and give them back, in any order.

pub mod Boxes
pub mod Exclusive
pub mod Rings
mod Tests
use dllog.Base.{ℕ, ◌+◌, List, [], ◌∷◌, ◌++◌, Option, some, none, get_elem?, set}
use dllog.Core.Types.{Scope, Box, BoxRef, PoolRef}
use dllog.Core.SyncPool.{SyncPool}
use dllog.Core.Pool.{Pool, get}
use dllog.Core.Scope as Engine
use dllog.Core.Scope.Run.{Call}

module _ {T : Type 0} (zero_value : T) (sync : SyncPool (Box T)) where
  -- The scopes that were made, open or closed, and the pools.
  pub record Leases : Type 0 where
    pub scopes : List (Scope T)
    pub pools : List (Pool zero_value sync)
    pub next_box : BoxRef

-- `Get` of a pool, or a method of the scope that was made `k`th.
pub data Op (T : Type 0) : Type 0 where
  borrow : PoolRef → Op T
  use_scope : ℕ → Call T → Op T

module _ {T : Type 0} (zero_value : T) (sync : SyncPool (Box T)) where
  -- One method, as it leaves the scope and the pools.
  unfoldable pub call :
      Call T → Scope T → List (Pool zero_value sync) → Scope T × List (Pool zero_value sync)
  call (Call.append x) s pools = ((Engine.append s x).0, pools)
  call Call.pass_through s pools = ((Engine.pass_through s).0, pools)
  call Call.trip s pools = ((Engine.trip zero_value s).0, pools)
  call Call.close s pools = Engine.close zero_value sync s pools
  call Call.len s pools = (s, pools)
  call Call.dropped s pools = (s, pools)
  call Call.tripped s pools = (s, pools)
  call Call.capacity s pools = (s, pools)

  unfoldable pub borrow_from :
      PoolRef → Option (Pool zero_value sync) → Leases zero_value sync → Leases zero_value sync
  borrow_from ref none st = st
  borrow_from ref (some p) st =
      let (s, p') = get zero_value sync ref st.next_box p in
      record {
        scopes = st.scopes ++ (s ∷ []);
        pools = set st.pools ref p';
        next_box = st.next_box + 1;
      }

  unfoldable pub call_at :
      ℕ → Call T → Option (Scope T) → Leases zero_value sync → Leases zero_value sync
  call_at k c none st = st
  call_at k c (some s) st =
      let (s', pools') = call c s st.pools in
      record st { scopes = set st.scopes k s'; pools = pools' }

  unfoldable pub step : Op T → Leases zero_value sync → Leases zero_value sync
  step (borrow ref) st = borrow_from ref (get_elem? st.pools ref) st
  step (use_scope k c) st = call_at k c (get_elem? st.scopes k) st

  unfoldable pub run : List (Op T) → Leases zero_value sync → Leases zero_value sync
  run [] st = st
  run (o ∷ os) st = run os (step o st)
