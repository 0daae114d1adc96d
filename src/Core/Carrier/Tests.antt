-- ===== src/Core/Carrier/Tests.antt =====
-- A carrier over one pool of two cells, run, and the theorems about it at these values.
use dllog.Base.{◌+◌, ℕ, ◌≡◌, ◌≤◌, refl, [], ◌∷◌, true, arith, some, none, Option}
use dllog.Core.Types.{Box}
use dllog.Core.SyncPool.{SyncPool, stack_pool}
use dllog.Core.Pool.{Pool, new_scope_pool}
use dllog.Core.Scope.Pooled.{PoolFits, new_scope_pool-IsPoolOf}
use dllog.Core.Carrier.{Entry, Store, new_carrier, bind, append, mark_and_flush, notice, emit_all}
use dllog.Core.Carrier.Inv.{IsSound, bind-IsSound}
use dllog.Core.Carrier.Hold.{IsHolding, bind-IsHolding, append-IsHolding}
use dllog.Core.Carrier.FirstTrip.{mark_and_flush-IsHolding}
use dllog.Core.Carrier.Calls.{
  step, triggers, bind_to, append_entry, trip_once, close_down, step-IsSound,
}
use dllog.Core.Carrier.Once.{step-out, triggers-le_one}

abbrev sync : SyncPool (Box (Option ℕ))
sync = stack_pool (Box (Option ℕ))

abbrev ops : Entry ℕ ℕ
ops = record { emit = λ e. e ∷ []; notify = λ e n. (1000 + n) ∷ [] }

abbrev two_cells : Pool none sync
two_cells = new_scope_pool none sync 2 0

abbrev idle : Store ℕ ℕ sync
idle = record { carrier = new_carrier; pools = two_cells ∷ []; next_box = 0; out = [] }

two_cells-PoolFits : PoolFits none sync two_cells
unfolding new_scope_pool
two_cells-PoolFits = record {
  positive = omega arith;
  small = omega arith;
  bounded = omega arith;
  zeroed = tt;
}

idle-IsSound : IsSound idle
idle-IsSound = record { fits = tt; pools_fit = (two_cells-PoolFits, tt) }

idle-IsHolding : IsHolding 2 0 0 idle []
idle-IsHolding = record {
  live = refl;
  early = refl;
  held = refl;
  pool = two_cells;
  pool_at = refl;
  pool_of = new_scope_pool-IsPoolOf none sync 2 0;
  pool_fits = two_cells-PoolFits;
}

triggers-le_one_example :
    triggers ops
      (trip_once ∷ bind_to 0 ∷ append_entry 5 ∷ trip_once ∷ close_down ∷ trip_once ∷ [])
      idle
    ≤ 1
triggers-le_one_example =
    triggers-le_one ops
      (trip_once ∷ bind_to 0 ∷ append_entry 5 ∷ trip_once ∷ close_down ∷ trip_once ∷ []) idle
      idle-IsSound

step-out_example : (step ops (append_entry 5) (bind 0 idle).0).0.out ≡ []
unfolding bind step
step-out_example =
    step-out ops (append_entry 5) (bind 0 idle).0 (bind-IsSound 0 idle idle-IsSound) refl

step-IsSound_example : IsSound (step ops trip_once (bind 0 idle).0).0
step-IsSound_example = step-IsSound ops trip_once (bind 0 idle).0 (bind-IsSound 0 idle idle-IsSound)

abbrev bound_idle : Store ℕ ℕ sync
bound_idle = (bind 0 idle).0

-- Three entries, in a ring of two cells.
abbrev full : Store ℕ ℕ sync
full = (append (append (append bound_idle 7).0 8).0 9).0

full-IsHolding : IsHolding 2 0 0 full (some 7 ∷ some 8 ∷ some 9 ∷ [])
unfolding bind append
full-IsHolding =
    let (_, k, _, _) = bind-IsHolding 2 0 0 idle [] idle-IsHolding in
    let (_, k1, _) = append-IsHolding 2 0 0 bound_idle [] 7 _ k refl in
    let (_, k2, _) = append-IsHolding 2 0 0 (append bound_idle 7).0 (some 7 ∷ []) 8 _ k1 refl in
    (append-IsHolding 2 0 0 (append (append bound_idle 7).0 8).0 (some 7 ∷ some 8 ∷ []) 9 _ k2
      refl).1

mark_and_flush-IsHolding_example :
    let (st, trigger) = mark_and_flush ops full in (trigger ≡ true) × (st.out ≡ 1001 ∷ 8 ∷ 9 ∷ [])
unfolding notice emit_all bind append
mark_and_flush-IsHolding_example =
    mark_and_flush-IsHolding 2 0 0 ops full (some 7 ∷ some 8 ∷ some 9 ∷ []) full-IsHolding
