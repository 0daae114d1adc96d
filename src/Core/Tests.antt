-- ===== src/Core/Tests.antt =====
-- Small scopes, pools and carriers, run, and the theorems about them at these values.
use dllog.Base.{All, ℕ, ◌≡◌, refl, [], ◌∷◌, true, false, arith, some}
use dllog.Core.Types.{Action, Scope, Box}
use dllog.Core.SyncPool.{SyncPool, stack_pool}
use dllog.Core.Pool.{Pool, new_scope_pool, get}
use dllog.Core.Log
use dllog.Core.Scope as Engine
use dllog.Core.Scope.Inv.{IsValid, append-IsValid, trip-IsValid, new_scope-IsValid}
use dllog.Core.Scope.Pooled.{
  IsPoolOf, PoolFits, new_scope_pool-IsPoolOf, get-new_scope, close-PoolFits,
}
use dllog.Core.Scope.Refine.{view, append_refines}
use dllog.Core.Scope.Run
use dllog.Core.Scope.Run.{Call, Reply, run, run_refines}
use dllog.Core.Scope.History.{append_all, trip-append_all}
use dllog.Core.Scope.Budget.{run_offers, below, above, run_offers-passes, close_permanent}

abbrev pool_sync : SyncPool (Box ℕ)
pool_sync = stack_pool (Box ℕ)

abbrev small : Scope ℕ
small = Engine.new_scope 0 2 2

small-IsValid : IsValid small
small-IsValid = new_scope-IsValid 0 2 2 (omega arith) (omega arith) refl

abbrev tripped_small : Scope ℕ
tripped_small = (Engine.trip 0 (Engine.append small 5).0).0

tripped_small-IsValid : IsValid tripped_small
tripped_small-IsValid =
    trip-IsValid 0 (Engine.append small 5).0 (append-IsValid small 5 small-IsValid)

-- Three entries in a ring of two cells.
trip-append_all_example :
    let (s, entries, dropped, tripped) =
      Engine.trip {T = ℕ} 0 (append_all (Engine.new_scope 0 2 0) (7 ∷ 8 ∷ 9 ∷ [])) in
    (entries ≡ 8 ∷ 9 ∷ [])
    × (dropped ≡ 1)
    × (tripped ≡ true)
    × (Engine.trip 0 s ≡ (s, [], 0, false))
trip-append_all_example = trip-append_all 0 2 0 (7 ∷ 8 ∷ 9 ∷ []) (omega arith) (omega arith) refl

run_refines_example :
    run 0 pool_sync small [] (
      Call.append 1
      ∷ Call.append 2
      ∷ Call.append 3
      ∷ Call.trip
      ∷ Call.append 4
      ∷ Call.append 5
      ∷ Call.append 6
      ∷ Call.close
      ∷ Call.append 7
      ∷ Call.pass_through
      ∷ [])
    ≡ Reply.act Action.buffered
      ∷ Reply.act Action.buffered
      ∷ Reply.act Action.buffered
      ∷ Reply.flushed (2 ∷ 3 ∷ []) 1 true
      ∷ Reply.act Action.pass_through
      ∷ Reply.act Action.pass_through
      ∷ Reply.act Action.suppressed
      ∷ Reply.done
      ∷ Reply.act Action.suppressed
      ∷ Reply.act Action.pass_through
      ∷ []
unfolding Run.run_log Log.append Log.trip Log.pass_through Log.close Engine.new_scope
    Engine.read_ring
run_refines_example =
    run_refines 0 pool_sync
      (Call.append 1
        ∷ Call.append 2
        ∷ Call.append 3
        ∷ Call.trip
        ∷ Call.append 4
        ∷ Call.append 5
        ∷ Call.append 6
        ∷ Call.close
        ∷ Call.append 7
        ∷ Call.pass_through
        ∷ [])
      small [] small-IsValid

run_offers-passes_example :
    run_offers (below 7 ∷ above ∷ below 8 ∷ above ∷ []) tripped_small
    ≡ Action.pass_through ∷ Action.pass_through ∷ Action.suppressed ∷ Action.suppressed ∷ []
unfolding Engine.trip Engine.append Engine.new_scope
run_offers-passes_example =
    run_offers-passes (below 7 ∷ above ∷ below 8 ∷ above ∷ []) tripped_small tripped_small-IsValid
      refl refl

close_permanent_example :
    let (s, pools) = Engine.close 0 pool_sync tripped_small [] in
    (Engine.append s 7 ≡ (s, Action.suppressed))
    × (Engine.pass_through s ≡ (s, Action.pass_through))
    × (Engine.trip 0 s ≡ (s, [], 0, false))
    × (Engine.close 0 pool_sync s pools ≡ (s, pools))
close_permanent_example = close_permanent 0 pool_sync tripped_small [] 7

append_refines_example :
    (view 0 (Engine.append small 5).0, (Engine.append small 5).1) ≡ Log.append (view 0 small) 5
append_refines_example = append_refines 0 small 5 small-IsValid

abbrev two_cells : Pool 0 pool_sync
two_cells = new_scope_pool 0 pool_sync 2 1

two_cells-IsPoolOf : IsPoolOf 0 pool_sync 2 1 two_cells
two_cells-IsPoolOf = new_scope_pool-IsPoolOf 0 pool_sync 2 1

-- A ring is taken, and the scope of it is as a new one.
get-new_scope_example :
    let (s, p) = get 0 pool_sync 4 9 two_cells in
    (s ≡ record (Engine.new_scope 0 2 1) { pool = some 4; held = s.held })
    × IsPoolOf 0 pool_sync 2 1 p
get-new_scope_example = get-new_scope 0 pool_sync 2 1 4 9 two_cells two_cells-IsPoolOf

two_cells-PoolFits : PoolFits 0 pool_sync two_cells
unfolding new_scope_pool
two_cells-PoolFits = record {
  positive = omega arith;
  small = omega arith;
  bounded = omega arith;
  zeroed = tt;
}

close-PoolFits_example :
    All
      (PoolFits 0 pool_sync)
      (Engine.close 0 pool_sync
        (Engine.append (get 0 pool_sync 0 9 two_cells).0 5).0
        (two_cells ∷ [])).1
close-PoolFits_example =
    close-PoolFits 0 pool_sync (Engine.append (get 0 pool_sync 0 9 two_cells).0 5).0
      (two_cells ∷ []) (two_cells-PoolFits, tt)
