-- ===== src/Core/Lease/Tests.antt =====
-- Two scopes borrow, one gives its ring back, and a third borrows it.
use dllog.Base.{arith, ℕ, refl, false, true, some, none, List, [], ◌∷◌}
use dllog.Core.Types.{Box, BoxRef, Scope}
use dllog.Core.SyncPool.{SyncPool, stack_pool}
use dllog.Core.Pool.{get, new_scope_pool}
use dllog.Core.Scope as Engine
use dllog.Core.Scope.Run.{Call}
use dllog.Core.Lease.{Op, borrow, use_scope, step, run, call, borrow_from, call_at}
use dllog.Core.Lease.Exclusive.{exclusive, WritesApart}

abbrev sync : SyncPool (Box ℕ)
sync = stack_pool (Box ℕ)

abbrev ops : List (Op ℕ)
ops = borrow 0 ∷ borrow 0 ∷ use_scope 0 (Call.append 7) ∷ use_scope 0 Call.close ∷ borrow 0 ∷ []

-- A scope as the pool gives it out, with its box.
abbrev lent : BoxRef → Scope ℕ
lent b = record {
  tripped = false;
  capacity = 2;
  ring = 0 ∷ 0 ∷ [];
  start = 0;
  length = 0;
  dropped = 0;
  post_trip = 0;
  limit = 0;
  closed = false;
  trip_state = false;
  pool = some 0;
  held = some b;
}

-- The first scope after its release.
abbrev released : Scope ℕ
released = record (lent 0) { ring = []; closed = true; pool = none; held = none }

exclusive_example : WritesApart released (lent 0)
unfolding run step call borrow_from call_at get new_scope_pool Engine.append Engine.close
exclusive_example =
    exclusive 0 sync ((2, 0) ∷ []) ops 0 2 released (lent 0) refl refl λ e. omega (arith, e)
